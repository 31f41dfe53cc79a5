-- ===== src/Base/Words.antt =====
-- 32-bit words as native numbers, and the bit operations as arithmetic at every width.
use Prim.Native.Nat.{
  ℕ, zero, suc, ◌+◌, ◌-◌, ◌*◌, ◌/◌, ◌%◌, ◌^◌, ◌≤◌, ◌<◌, min, max, bit_and, bit_or, digits,
  bit_and-bitwise, bit_or-bitwise,
}
use mathlib.Core.Path.{◌≡◌, refl, ap}
use native.Mathlib.Nat.{pow-suc, one-le-pow, le_refl}
use native.Mathlib.Omega.{arith}

abbrev pub u32 : ℕ → ℕ
u32 n = n % 2 ^ 32

-- `~m` on 32 bits.
abbrev pub not32 : ℕ → ℕ
not32 m = 2 ^ 32 - 1 - m

infixl 75 ◌<<<◌ ◌>>>◌
abbrev pub ◌<<<◌ : ℕ → ℕ → ℕ
x <<< k = x * 2 ^ k

abbrev pub ◌>>>◌ : ℕ → ℕ → ℕ
x >>> k = x / 2 ^ k

-- The fuel of the library's recursion on binary digits does not matter once it reaches `a`.
module _ (z : ℕ → ℕ) (f : ℕ → ℕ → ℕ) where
  digits_stable : (n m a b : ℕ) → a ≤ n → a ≤ m → digits z f n a b ≡ digits z f m a b
  digits_stable zero zero a b p q = refl
  digits_stable zero (suc m) zero b p q = refl
  digits_stable zero (suc m) (suc a) b p q = absurd (omega arith)
  digits_stable (suc n) zero zero b p q = refl
  digits_stable (suc n) zero (suc a) b p q = absurd (omega arith)
  digits_stable (suc n) (suc m) zero b p q = refl
  digits_stable (suc n) (suc m) (suc a) b p q =
      rw (digits_stable n m (suc a / 2) (b / 2) (omega arith) (omega arith))

  digits_half :
      (a b : ℕ)
      → digits z f (suc a) (suc a) b
        ≡ digits z f (suc a / 2) (suc a / 2) (b / 2) * 2 + f (suc a % 2) (b % 2)
  digits_half a b =
      omega (arith, digits_stable a (suc a / 2) (suc a / 2) (b / 2) (omega arith) (le_refl _))

pub bit_and_half : (a b : ℕ) → bit_and a b ≡ bit_and (a / 2) (b / 2) * 2 + min (a % 2) (b % 2)
bit_and_half zero b = simp bit_and-bitwise (omega arith)
bit_and_half (suc a) b = simp bit_and-bitwise (digits_half (λ y. 0) min a b)

pub bit_or_half : (a b : ℕ) → bit_or a b ≡ bit_or (a / 2) (b / 2) * 2 + max (a % 2) (b % 2)
bit_or_half zero b = simp bit_or-bitwise (omega arith)
bit_or_half (suc a) b = simp bit_or-bitwise (digits_half (λ y. y) max a b)

bit_and_none_below : (n a : ℕ) → a ≤ n → bit_and a 0 ≡ 0
bit_and_none_below n zero h = omega (arith, bit_and-bitwise 0 0)
bit_and_none_below zero (suc a) h = absurd (omega arith)
bit_and_none_below (suc n) (suc a) h =
    omega (arith, bit_and_half (suc a) 0, bit_and_none_below n (suc a / 2) (omega arith))

pub bit_and-zero : (a : ℕ) → bit_and a 0 ≡ 0
bit_and-zero a = bit_and_none_below a a (le_refl _)

pub mul-two_pow : (y r : ℕ) → y * 2 ^ suc r ≡ 2 * (y * 2 ^ r)
mul-two_pow y r = omega (arith, ap (λ (t : ℕ). y * t) (pow-suc 2 r))

-- `&` with n ones at the bottom keeps the lowest n bits.
pub bit_and_low : (n mid hi : ℕ) → mid < 2 ^ n → bit_and (mid + hi * 2 ^ n) (2 ^ n - 1) ≡ mid
bit_and_low zero mid hi h = omega (arith, bit_and-zero (mid + hi * 2 ^ 0))
bit_and_low (suc n) mid hi h = ground (
  arith,
  bit_and_half (mid + hi * 2 ^ suc n) (2 ^ suc n - 1),
  mul-two_pow hi n,
  pow-suc 2 n,
  one-le-pow n 2,
  bit_and_low n (mid / 2) hi (omega (arith, pow-suc 2 n)),
)

-- `&` with n ones from bit r on cuts the field of those bits out.
pub bit_and_field :
    (r n lo mid hi : ℕ)
    → lo < 2 ^ r
    → mid < 2 ^ n
    → bit_and (lo + (mid + hi * 2 ^ n) * 2 ^ r) ((2 ^ n - 1) * 2 ^ r) ≡ mid * 2 ^ r
bit_and_field zero n lo mid hi h k = ground (arith, bit_and_low n mid hi k)
bit_and_field (suc r) n lo mid hi h k = ground (
  arith,
  bit_and_half (lo + (mid + hi * 2 ^ n) * 2 ^ suc r) ((2 ^ n - 1) * 2 ^ suc r),
  mul-two_pow (mid + hi * 2 ^ n) r,
  mul-two_pow (2 ^ n - 1) r,
  mul-two_pow mid r,
  bit_and_field r n (lo / 2) mid hi (omega (arith, pow-suc 2 r)) k,
)

-- What a mask cuts out and what its complement keeps make up the word.
pub bit_and_complement :
    (w p m : ℕ) → p < 2 ^ w → m < 2 ^ w → bit_and p m + bit_and p (2 ^ w - 1 - m) ≡ p
bit_and_complement zero p m h k =
    let e : m ≡ 0 = omega arith in
    let d : 2 ^ 0 - 1 - m ≡ 0 = omega arith in ground (arith, e, d, bit_and-zero p)
bit_and_complement (suc w) p m h k = ground (
  arith,
  pow-suc 2 w,
  bit_and_half p m,
  bit_and_half p (2 ^ suc w - 1 - m),
  bit_and_complement w (p / 2) (m / 2) (omega (arith, pow-suc 2 w)) (omega (arith, pow-suc 2 w)),
)

-- Cut out by complementary masks, two words are joined by `|` as by `+`.
pub bit_or_select :
    (w p v m : ℕ)
    → m < 2 ^ w
    → bit_or (bit_and p (2 ^ w - 1 - m)) (bit_and v m) ≡ bit_and p (2 ^ w - 1 - m) + bit_and v m
bit_or_select zero p v m k =
    let e : m ≡ 0 = omega arith in
    ground (arith, e, bit_and-zero p, bit_and-zero v, bit_or-bitwise 0 0)
bit_or_select (suc w) p v m k = ground (
  arith,
  pow-suc 2 w,
  bit_or_half (bit_and p (2 ^ suc w - 1 - m)) (bit_and v m),
  bit_and_half p (2 ^ suc w - 1 - m),
  bit_and_half v m,
  bit_or_select w (p / 2) (v / 2) (m / 2) (omega (arith, pow-suc 2 w)),
)

-- Words with no common bit: the lower one fits below bit k.
pub bit_or_disjoint : (k lo q : ℕ) → lo < 2 ^ k → bit_or lo (q * 2 ^ k) ≡ lo + q * 2 ^ k
bit_or_disjoint zero lo q h =
    let e : lo ≡ 0 = omega arith in ground (arith, e, bit_or-bitwise 0 (q * 2 ^ 0))
bit_or_disjoint (suc k) lo q h = ground (
  arith,
  bit_or_half lo (q * 2 ^ suc k),
  mul-two_pow q k,
  bit_or_disjoint k (lo / 2) q (omega (arith, pow-suc 2 k)),
)

pub two_pow-add : (a b : ℕ) → 2 ^ (a + b) ≡ 2 ^ a * 2 ^ b
two_pow-add zero b = let e : zero + b ≡ b = omega arith in rw e (omega arith)
two_pow-add (suc a) b =
    let e : suc a + b ≡ suc (a + b) = omega arith in
    rw e (
      omega (
        arith,
        pow-suc 2 (a + b),
        pow-suc 2 a,
        two_pow-add a b,
        ap (λ (t : ℕ). t * 2 ^ b) (pow-suc 2 a),
      ))

pub two_pow_mono : (a b : ℕ) → a ≤ b → 2 ^ a ≤ 2 ^ b
two_pow_mono a b h =
    let e : a + (b - a) ≡ b = omega arith in
    rw (← e) (rw two_pow-add (grind (arith, one-le-pow (b - a) 2)))
