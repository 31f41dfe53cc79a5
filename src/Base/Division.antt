-- ===== src/Base/Division.antt =====
-- Quotient and remainder of a sum whose lower part fits the divisor.
use native.Mathlib.Nat.{
  mod-eq_of_lt, add-mul-mod_self_right, add-mul-div_right, div-eq_of_lt, div-add-mod',
}
use Prim.Native.Nat.{ℕ, ◌+◌, ◌-◌, ◌*◌, ◌/◌, ◌%◌, ◌<◌}
use mathlib.Core.Path.{◌≡◌, ◌∙◌, ap}
use native.Mathlib.Omega.{arith}

pub part_mod : (lo y m : ℕ) → lo < m → (lo + y * m) % m ≡ lo
part_mod lo y m h = add-mul-mod_self_right lo y m ∙ mod-eq_of_lt h

pub part_div : (lo y m : ℕ) → lo < m → (lo + y * m) / m ≡ y
part_div lo y m h = add-mul-div_right lo y (omega arith) ∙ rw (div-eq_of_lt h) (omega arith)

pub sub-div-mul : (o b : ℕ) → o - o / b * b ≡ o % b
sub-div-mul o b = omega (arith, div-add-mod' o b)

-- A step that stays in the block.
pub within_mod : (o i b : ℕ) → o % b + i < b → (o + i) % b ≡ o % b + i
within_mod o i b h =
    ap (λ (t : ℕ). t % b)
      (let e : o + i ≡ o % b + i + o / b * b = omega (arith, div-add-mod' o b) in e)
    ∙ part_mod (o % b + i) (o / b) b h

pub within_div : (o i b : ℕ) → o % b + i < b → (o + i) / b ≡ o / b
within_div o i b h =
    ap (λ (t : ℕ). t / b)
      (let e : o + i ≡ o % b + i + o / b * b = omega (arith, div-add-mod' o b) in e)
    ∙ part_div (o % b + i) (o / b) b h
