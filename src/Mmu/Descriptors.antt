-- ===== src/Mmu/Descriptors.antt =====
-- The descriptors that kernel/mmu.cc builds, against the layout of the two words.
use p12_group.Base.{ℕ, ◌+◌, ◌*◌, ◌/◌, ◌%◌, ◌^◌, ◌<◌, ◌≡◌, arith, ap, suc}
use p12_group.Base.Words.{◌>>>◌, bit_or_disjoint}
use p12_group.Mmu.{
  Descriptor, mms, mme, set_f0, set_f1, set_null_descriptor, set_base, get_base, set_p, set_s,
  set_dpl, set_type, set_selector, set_offset, set_trap_descriptor, set_interrupt_descriptor,
}
use p12_group.Mmu.Fields.{mme_lem, mms_lem}

pub record IsWords (p : Descriptor) : Type 0 where
  pub low : p.f0 < 2 ^ 32
  pub high : p.f1 < 2 ^ 32

-- A field that is still zero is filled by a sum.
pub stage :
    (p v r n : ℕ)
    → p < 2 ^ 32
    → n < 31
    → r + n < 32
    → p / 2 ^ r % 2 ^ suc n ≡ 0
    → mms p v (r + n) r ≡ p + v % 2 ^ suc n * 2 ^ r
stage p v r n l h k z = omega (arith, mms_lem p v r n l h k, ap (λ (t : ℕ). t * 2 ^ r) z)

-- For a descriptor of two 32-bit words and a 32-bit address, the address that `setBase` stored in
-- its three pieces is the one that `getBase` returns.
pub get_base-set_base :
    (p : Descriptor) (base : ℕ) → IsWords p → base < 2 ^ 32 → get_base (set_base p base) ≡ base
unfolding get_base set_base set_f0 set_f1
get_base-set_base p base w h =
    let f0 = mms p.f0 (base >>> 0) 31 16 in
    let f1 = mms p.f1 (base >>> 16) 7 0 in
    let g1 = mms f1 (base >>> 24) 31 24 in
    let a = mms_lem p.f0 (base >>> 0) 16 15 w.low (omega arith) (omega arith) in
    let b = mms_lem p.f1 (base >>> 16) 0 7 w.high (omega arith) (omega arith) in
    let c = mms_lem f1 (base >>> 24) 24 7 (omega arith) (omega arith) (omega arith) in
    let x : mme f0 31 16 ≡ base % 2 ^ 16 =
      omega (arith, mme_lem f0 16 15 (omega arith) (omega arith), a) in
    let y : mme g1 7 0 ≡ base / 2 ^ 16 % 2 ^ 8 =
      omega (arith, mme_lem g1 0 7 (omega arith) (omega arith), b, c) in
    let z : mme g1 31 24 ≡ base / 2 ^ 24 =
      omega (arith, mme_lem g1 24 7 (omega arith) (omega arith), b, c) in
    let m = base / 2 ^ 16 % 2 ^ 8 in
    let t = base / 2 ^ 24 in
    let i : m * 2 ^ 16 % 2 ^ 32 ≡ m * 2 ^ 16 = omega arith in
    let j : t * 2 ^ 24 % 2 ^ 32 ≡ t * 2 ^ 24 = omega arith in
    rw
      (
        x,
        y,
        z,
        i,
        j,
        bit_or_disjoint 16 (base % 2 ^ 16) m (omega arith),
        bit_or_disjoint 24 (base % 2 ^ 16 + m * 2 ^ 16) t (omega arith),
      )
      (omega arith)

-- A gate: the handler's offset in two halves, the selector, and present, privilege and type bits.
abbrev pub IsGate : ℕ → ℕ → ℕ → ℕ → Descriptor → Type 0
IsGate kind selector offset dpl p =
    (p.f0 ≡ selector * 2 ^ 16 + offset % 2 ^ 16)
    × (p.f1 ≡ offset / 2 ^ 16 * 2 ^ 16 + 2 ^ 15 + dpl * 2 ^ 13 + kind * 2 ^ 8)

module _ (selector offset dpl : ℕ) (hs : selector < 2 ^ 16) (ho : offset < 2 ^ 32)
    (hd : dpl < 4) where
  gate_low : mms (mms 0 selector 31 16) offset 15 0 ≡ selector * 2 ^ 16 + offset % 2 ^ 16
  gate_low =
      let e : mms 0 selector 31 16 ≡ selector * 2 ^ 16 =
        omega
          (arith, stage 0 selector 16 15 (omega arith) (omega arith) (omega arith) (omega arith)) in
      rw e (
        omega (
          arith,
          stage (selector * 2 ^ 16) offset 0 15 (omega arith) (omega arith) (omega arith)
              (omega arith),
        ))

  gate_high :
      (kind : ℕ)
      → kind < 16
      → mms (mms (mms (mms (mms 0 (offset >>> 16) 31 16) 1 15 15) dpl 14 13) 0 12 12) kind 11 8
        ≡ offset / 2 ^ 16 * 2 ^ 16 + 2 ^ 15 + dpl * 2 ^ 13 + kind * 2 ^ 8
  gate_high kind hk =
      let o = offset / 2 ^ 16 * 2 ^ 16 in
      let e1 : mms 0 (offset >>> 16) 31 16 ≡ o = omega (
        arith,
        stage 0 (offset >>> 16) 16 15 (omega arith) (omega arith) (omega arith) (omega arith),
      ) in
      let e2 : mms o 1 15 15 ≡ o + 2 ^ 15 =
        omega (arith, stage o 1 15 0 (omega arith) (omega arith) (omega arith) (omega arith)) in
      let p = o + 2 ^ 15 in
      let e3 : mms p dpl 14 13 ≡ p + dpl * 2 ^ 13 =
        omega (arith, stage p dpl 13 1 (omega arith) (omega arith) (omega arith) (omega arith)) in
      let q = p + dpl * 2 ^ 13 in
      let e4 : mms q 0 12 12 ≡ q =
        omega (arith, stage q 0 12 0 (omega arith) (omega arith) (omega arith) (omega arith)) in
      rw (e1, e2, e3, e4)
        (omega (arith, stage q kind 8 3 (omega arith) (omega arith) (omega arith) (omega arith)))

  -- For a 16-bit selector, a 32-bit offset and a privilege level below 4, `setTrapDescriptor`
  -- makes the present trap gate (type 15) for them, whatever the descriptor held.
  pub set_trap_descriptor-IsGate :
      (p : Descriptor) → IsGate 0xf selector offset dpl (set_trap_descriptor p selector offset dpl)
  unfolding set_trap_descriptor set_null_descriptor set_selector set_offset set_p set_dpl set_s
      set_type set_f0 set_f1
  set_trap_descriptor-IsGate p = (gate_low, gate_high 0xf (omega arith))

  pub set_interrupt_descriptor-IsGate :
      (p : Descriptor)
      → IsGate 0xe selector offset dpl (set_interrupt_descriptor p selector offset dpl)
  unfolding set_interrupt_descriptor set_null_descriptor set_selector set_offset set_p set_dpl set_s
      set_type set_f0 set_f1
  set_interrupt_descriptor-IsGate p = (gate_low, gate_high 0xe (omega arith))
