-- ===== src/Mmu/Tests.antt =====
-- Descriptors at concrete values: the theorems of this folder applied, and the code evaluated.
use p12_group.Base.{◌≡◌, refl, arith}
use p12_group.Mmu.{
  Descriptor, mms, set_base, get_base, set_code_descriptor, set_f0, set_f1, set_null_descriptor,
  set_limit, set_g, set_dpl, set_p, set_d, set_s, set_k, set_c, set_r, set_a, mask,
}
use p12_group.Mmu.Descriptors.{get_base-set_base}

abbrev blank : Descriptor
blank = record { f0 = 0xdeadbeef; f1 = 0x12345678 }

-- kernel/gdt.cc notes 0x0000FFFF, 0x00CF9a00 for the 4 GB code segment at privilege 0; the code here
-- sets the conforming bit (10) as well.
flat_code : set_code_descriptor blank 0 0xffffffff 0 ≡ record { f0 = 0xffff; f1 = 0xcf9e00 }
unfolding set_code_descriptor set_null_descriptor set_base set_limit set_g set_dpl set_p set_d set_s
    set_k set_c set_r set_a set_f0 set_f1 mms mask
flat_code = refl

get_base-set_base_example : get_base (set_base blank 0x80123456) ≡ 0x80123456
get_base-set_base_example = get_base-set_base blank 0x80123456 (omega arith) (omega arith)
