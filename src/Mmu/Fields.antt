-- ===== src/Mmu/Fields.antt =====
-- What `mms` and `mme` of kernel/mmu.cc do to a bit field, at every position.
use native.Mathlib.Nat.{
  one-le-pow, mod-lt, div-add-mod', mul-add-mod_self_right, mod-eq_of_lt, mul-div_cancel,
  mod-mod_of_dvd, dvd-mul_right,
}
use p12_group.Base.{
  ℕ, zero, suc, ◌+◌, ◌-◌, ◌*◌, ◌/◌, ◌%◌, ◌^◌, ◌≤◌, ◌<◌, bit_and, ◌≡◌, arith, ap, sym, ◌∙◌,
}
use p12_group.Base.Words.{
  u32, ◌<<<◌, bit_and_low, bit_and_field, bit_and_complement, bit_or_select, two_pow-add,
  two_pow_mono,
}
use p12_group.Base.Division.{part_mod, part_div}
use p12_group.Mmu.{mask, mms, mme}

pred_mul : (x r : ℕ) → 1 ≤ x → (x - 1) * r + r ≡ x * r
pred_mul zero r h = absurd (omega arith)
pred_mul (suc x) r h =
    omega (arith, ap (λ (t : ℕ). t * r) (let e : suc x - 1 ≡ x = omega arith in e))

bit_and_31 : (a : ℕ) → a < 32 → bit_and a 0x1f ≡ a
bit_and_31 a h = ground (arith, bit_and_low 5 a 0)

-- n + 1 ones from bit r on fit a word.
ones_lt : (r n : ℕ) → r + n < 32 → (2 ^ suc n - 1) * 2 ^ r < 2 ^ 32
ones_lt r n k = omega (
  arith,
  two_pow_mono (r + suc n) 32 (omega arith),
  two_pow-add r (suc n),
  one-le-pow r 2,
  pred_mul (2 ^ suc n) (2 ^ r) (one-le-pow (suc n) 2 (omega arith)),
)

-- The mask of a field of n + 1 bits from bit r on.
pub mask_lem : (r n : ℕ) → n < 31 → r + n < 32 → mask (r + n) r ≡ (2 ^ suc n - 1) * 2 ^ r
unfolding mask
mask_lem r n h k =
    let el : bit_and (r + n) 0x1f ≡ r + n = bit_and_31 (r + n) k in
    let er : bit_and r 0x1f ≡ r = bit_and_31 r (omega arith) in
    let en : (r + n + 2 ^ 32 - r + 1) % 2 ^ 32 ≡ suc n = omega arith in
    let ek : (2 ^ suc n % 2 ^ 32 + 2 ^ 32 - 1) % 2 ^ 32 ≡ 2 ^ suc n - 1 =
      omega (arith, two_pow_mono (suc n) 31 (omega arith), one-le-pow (suc n) 2 (omega arith)) in
    rw (el, er, en, ek) (omega (arith, ones_lt r n k))

-- A word is its bits below r, the n + 1 bits of the field, and those above.
split_word : (v r n : ℕ) → v ≡ v % 2 ^ r + (v / 2 ^ r % 2 ^ n + v / 2 ^ r / 2 ^ n * 2 ^ n) * 2 ^ r
split_word v r n = grind arith

bit_and_ones : (v r n : ℕ) → bit_and v ((2 ^ n - 1) * 2 ^ r) ≡ v / 2 ^ r % 2 ^ n * 2 ^ r
bit_and_ones v r n =
    ap (λ t. bit_and t ((2 ^ n - 1) * 2 ^ r)) (split_word v r n)
    ∙ bit_and_field r n (v % 2 ^ r) (v / 2 ^ r % 2 ^ n) (v / 2 ^ r / 2 ^ n)
        (mod-lt v (one-le-pow r 2 (omega arith)))
        (mod-lt (v / 2 ^ r) (one-le-pow n 2 (omega arith)))

scaled_mod : (v m k : ℕ) → 1 ≤ m → 1 ≤ k → v * m % (k * m) ≡ v % k * m
scaled_mod v m k p q =
    let e : v * m ≡ v / k * (k * m) + v % k * m =
      ap (λ (t : ℕ). t * m) (sym (div-add-mod' v k)) ∙ grind arith in
    rw e (
      mul-add-mod_self_right (v / k) (k * m) (v % k * m) ∙ mod-eq_of_lt (grind (arith, mod-lt v q)))

shift_cut : (v r n j w : ℕ) → w ≡ 2 ^ n * 2 ^ j * 2 ^ r → v * 2 ^ r % w / 2 ^ r % 2 ^ n ≡ v % 2 ^ n
shift_cut v r n j w e =
    rw
      (
        e,
        scaled_mod v (2 ^ r) (2 ^ n * 2 ^ j) (one-le-pow r 2 (omega arith))
            (rw (← two_pow-add) (one-le-pow (n + j) 2 (omega arith))),
        mul-div_cancel (v % (2 ^ n * 2 ^ j)) (one-le-pow r 2 (omega arith)),
      )
      (mod-mod_of_dvd (2 ^ n) v (dvd-mul_right (2 ^ n) (2 ^ j)))

-- The field of a shifted value, cut off at 32 bits, is the value's low bits.
field_of_shift : (v r n : ℕ) → r + n < 32 → u32 (v <<< r) / 2 ^ r % 2 ^ suc n ≡ v % 2 ^ suc n
field_of_shift v r n k = shift_cut v r (suc n) (32 - r - suc n) (2 ^ 32) (
    ap (λ (t : ℕ). 2 ^ t) (let e : 32 ≡ suc n + (32 - r - suc n) + r = omega arith in e)
    ∙ two_pow-add (suc n + (32 - r - suc n)) r
    ∙ ap (λ (t : ℕ). t * 2 ^ r) (two_pow-add (suc n) (32 - r - suc n)))

-- Cutting a field out of a word, as arithmetic.
pub mme_lem : (v r n : ℕ) → n < 31 → r + n < 32 → mme v (r + n) r ≡ v / 2 ^ r % 2 ^ suc n
unfolding mme
mme_lem v r n h k =
    rw (mask_lem r n h k, bit_and_ones v r (suc n))
      (mul-div_cancel _ (one-le-pow r 2 (omega arith)))

-- Writing a field of a word, as arithmetic: the bits outside it stay.
pub mms_lem :
    (p v r n : ℕ)
    → p < 2 ^ 32
    → n < 31
    → r + n < 32
    → mms p v (r + n) r + p / 2 ^ r % 2 ^ suc n * 2 ^ r ≡ p + v % 2 ^ suc n * 2 ^ r
unfolding mms
mms_lem p v r n l h k = rw (mask_lem r n h k) (
    omega (
      arith,
      bit_or_select 32 p (u32 (v <<< r)) ((2 ^ suc n - 1) * 2 ^ r) (ones_lt r n k),
      bit_and_ones p r (suc n),
      bit_and_ones (u32 (v <<< r)) r (suc n),
      bit_and_complement 32 p ((2 ^ suc n - 1) * 2 ^ r) l (ones_lt r n k),
      ap (λ (t : ℕ). t * 2 ^ r) (field_of_shift v r n k),
    ))

-- The word that `mms` leaves: the value's low bits between the old bits below and above the field.
mms_split :
    (p v r n : ℕ)
    → p < 2 ^ 32
    → n < 31
    → r + n < 32
    → mms p v (r + n) r ≡ p % 2 ^ r + (v % 2 ^ suc n + p / 2 ^ r / 2 ^ suc n * 2 ^ suc n) * 2 ^ r
mms_split p v r n l h k = grind (arith, mms_lem p v r n l h k, split_word p r (suc n))

-- In a 32-bit word, a field of at most 31 bits that lies inside the word and was just written is
-- read back, cut off to its width; the bits below and above it are kept.
pub mme-mms :
    (p v r n : ℕ)
    → p < 2 ^ 32
    → n < 31
    → r + n < 32
    → (mme (mms p v (r + n) r) (r + n) r ≡ v % 2 ^ suc n)
      × (mms p v (r + n) r % 2 ^ r ≡ p % 2 ^ r)
      × (mms p v (r + n) r / 2 ^ r / 2 ^ suc n ≡ p / 2 ^ r / 2 ^ suc n)
mme-mms p v r n l h k =
    let low = mod-lt p (one-le-pow r 2 (omega arith)) in
    let mid = mod-lt v (one-le-pow (suc n) 2 (omega arith)) in
    let hi = p / 2 ^ r / 2 ^ suc n in
    let above = v % 2 ^ suc n + hi * 2 ^ suc n in
    (
      rw (mme_lem _ r n h k, mms_split p v r n l h k, part_div _ above _ low) (part_mod _ hi _ mid),
      rw (mms_split p v r n l h k) (part_mod _ above _ low),
      rw (mms_split p v r n l h k, part_div _ above _ low) (part_div _ hi _ mid),
    )
