-- ===== src/Mmu.antt =====
-- kernel/mmu.cc: segment, task-state and gate descriptors as two 32-bit words, read and written
-- through masks. A word is a native number below 2 ^ 32.
pub mod Fields
pub mod Descriptors
pub mod Segments
mod Tests
use p12_group.Base.{ℕ, ◌+◌, ◌-◌, ◌*◌, ◌%◌, ◌^◌, bit_and, bit_or, ltb, if◌then◌else◌}
use p12_group.Base.Words.{u32, not32, ◌<<<◌, ◌>>>◌}

pub record Descriptor : Type 0 where
  pub f0 : ℕ
  pub f1 : ℕ

-- `((uint32_t) 1 << n) - 1 << rightBit`; the shift of 1 is undefined in C for n over 31.
pub mask : ℕ → ℕ → ℕ
mask left_bit right_bit =
    let l = bit_and left_bit 0x1f in
    let r = bit_and right_bit 0x1f in
    let n = (l + 2 ^ 32 - r + 1) % 2 ^ 32 in u32 (u32 (u32 (2 ^ n) + 2 ^ 32 - 1) <<< r)

-- The new value of `*p`.
pub mms : ℕ → ℕ → ℕ → ℕ → ℕ
mms p v left_bit right_bit =
    let sm = mask left_bit right_bit in
    bit_or (bit_and p (not32 sm)) (bit_and (u32 (v <<< right_bit)) sm)

pub mme : ℕ → ℕ → ℕ → ℕ
mme v left_bit right_bit = bit_and v (mask left_bit right_bit) >>> right_bit

-- The field from bit `right_bit` to bit `left_bit` of a word.
unfoldable set_f0 : Descriptor → ℕ → ℕ → ℕ → Descriptor
set_f0 p v left_bit right_bit = record p { f0 = mms p.f0 v left_bit right_bit }

unfoldable set_f1 : Descriptor → ℕ → ℕ → ℕ → Descriptor
set_f1 p v left_bit right_bit = record p { f1 = mms p.f1 v left_bit right_bit }

pub set_null_descriptor : Descriptor → Descriptor
set_null_descriptor p = record { f0 = 0; f1 = 0 }

pub set_p : Descriptor → ℕ → Descriptor
set_p p v = set_f1 p v 15 15

pub get_p : Descriptor → ℕ
get_p p = mme p.f1 15 15

pub set_g : Descriptor → ℕ → Descriptor
set_g p v = set_f1 p v 23 23

pub get_g : Descriptor → ℕ
get_g p = mme p.f1 23 23

pub set_d : Descriptor → ℕ → Descriptor
set_d p d = set_f1 p d 22 22

pub get_d : Descriptor → ℕ
get_d p = mme p.f1 22 22

pub set_b : Descriptor → ℕ → Descriptor
set_b p d = set_d p d

pub get_b : Descriptor → ℕ
get_b p = get_d p

pub set_selector : Descriptor → ℕ → Descriptor
set_selector p selector = set_f0 p selector 31 16

pub set_offset : Descriptor → ℕ → Descriptor
set_offset p offset = let q = set_f0 p offset 15 0 in set_f1 q (offset >>> 16) 31 16

pub set_base : Descriptor → ℕ → Descriptor
set_base p base =
    let q = set_f0 p (base >>> 0) 31 16 in
    let r = set_f1 q (base >>> 16) 7 0 in set_f1 r (base >>> 24) 31 24

pub get_base : Descriptor → ℕ
get_base p =
    bit_or (bit_or (mme p.f0 31 16) (u32 (mme p.f1 7 0 <<< 16))) (u32 (mme p.f1 31 24 <<< 24))

pub set_limit : Descriptor → ℕ → Descriptor
set_limit p limit = let q = set_f0 p limit 15 0 in set_f1 q (limit >>> 16) 19 16

pub get_limit : Descriptor → ℕ
get_limit p = bit_or (mme p.f0 15 0) (u32 (mme p.f1 19 16 <<< 16))

pub set_dpl : Descriptor → ℕ → Descriptor
set_dpl p dpl = set_f1 p dpl 14 13

pub get_dpl : Descriptor → ℕ
get_dpl p = mme p.f1 14 13

pub set_s : Descriptor → ℕ → Descriptor
set_s p s = set_f1 p s 12 12

pub get_s : Descriptor → ℕ
get_s p = mme p.f1 12 12

pub set_type : Descriptor → ℕ → Descriptor
set_type p t = set_f1 p t 11 8

pub get_type : Descriptor → ℕ
get_type p = mme p.f1 11 8

pub set_k : Descriptor → ℕ → Descriptor
set_k p v = set_f1 p v 11 11

pub get_k : Descriptor → ℕ
get_k p = mme p.f1 11 11

pub set_c : Descriptor → ℕ → Descriptor
set_c p v = set_f1 p v 10 10

pub get_c : Descriptor → ℕ
get_c p = mme p.f1 10 10

pub set_r : Descriptor → ℕ → Descriptor
set_r p v = set_f1 p v 9 9

pub get_r : Descriptor → ℕ
get_r p = mme p.f1 9 9

pub set_a : Descriptor → ℕ → Descriptor
set_a p v = set_f1 p v 8 8

pub get_a : Descriptor → ℕ
get_a p = mme p.f1 8 8

pub set_e : Descriptor → ℕ → Descriptor
set_e p v = set_f1 p v 10 10

pub get_e : Descriptor → ℕ
get_e p = mme p.f1 10 10

pub set_w : Descriptor → ℕ → Descriptor
set_w p v = set_f1 p v 9 9

pub get_w : Descriptor → ℕ
get_w p = mme p.f1 9 9

pub set_code_descriptor : Descriptor → ℕ → ℕ → ℕ → Descriptor
set_code_descriptor p base limit dpl =
    let p1 = set_base (set_null_descriptor p) base in
    let p2 =
      if ltb 0xfffff limit
      then set_g (set_limit p1 (limit >>> 12)) 1
      else set_g (set_limit p1 limit) 0 in
    let p3 = set_d (set_p (set_dpl p2 dpl) 1) 1 in
    let p4 = set_c (set_k (set_s p3 1) 1) 1 in set_a (set_r p4 1) 0

pub set_data_descriptor : Descriptor → ℕ → ℕ → ℕ → Descriptor
set_data_descriptor p base limit dpl =
    let p1 = set_base (set_null_descriptor p) base in
    let p2 =
      if ltb 0xfffff limit
      then set_limit (set_g p1 1) (limit >>> 12)
      else set_limit (set_g p1 0) limit in
    let p3 = set_b (set_p (set_dpl p2 dpl) 1) 1 in
    let p4 = set_w (set_k (set_s p3 1) 0) 1 in set_a (set_e p4 0) 0

pub set_tss_descriptor : Descriptor → ℕ → ℕ → Descriptor
set_tss_descriptor p base limit =
    let p1 = set_limit (set_base (set_null_descriptor p) base) limit in
    let p2 = set_dpl (set_p p1 1) 0 in set_type (set_s p2 0) 0x9

pub set_trap_descriptor : Descriptor → ℕ → ℕ → ℕ → Descriptor
set_trap_descriptor p selector offset dpl =
    let p1 = set_offset (set_selector (set_null_descriptor p) selector) offset in
    let p2 = set_dpl (set_p p1 1) dpl in set_type (set_s p2 0) 0xf

pub set_interrupt_descriptor : Descriptor → ℕ → ℕ → ℕ → Descriptor
set_interrupt_descriptor p selector offset dpl =
    let p1 = set_offset (set_selector (set_null_descriptor p) selector) offset in
    let p2 = set_dpl (set_p p1 1) dpl in set_type (set_s p2 0) 0xe
