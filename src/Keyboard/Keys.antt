-- ===== src/Keyboard/Keys.antt =====
-- The keys of kernel/kbd.cc, row by row.
use p12_group.Base.{
  ℕ, zero, suc, ◌-◌, ◌%◌, ◌<◌, ◌≡◌, inl, inr, ◌==◌, ltb, leb, if◌then◌else◌, Bool, true, false,
  ◌||◌, ◌&&◌, List, [], ◌∷◌, get_elem?, Option, none, some, refl, ap, ◌∙◌, arith, Bool-cases,
}
use mathlib.Core.Path.{ap₂}
use p12_group.Keyboard.{kbd_get}

-- The rows of the keyboard: the code of the first key, and the characters.
abbrev pub rows : List (ℕ × List ℕ)
rows =
    (0x02, 49 ∷ 50 ∷ 51 ∷ 52 ∷ 53 ∷ 54 ∷ 55 ∷ 56 ∷ 57 ∷ 48 ∷ [])
    ∷ (0x0e, 8 ∷ [])
    ∷ (0x10, 113 ∷ 119 ∷ 101 ∷ 114 ∷ 116 ∷ 121 ∷ 117 ∷ 105 ∷ 111 ∷ 112 ∷ [])
    ∷ (0x1c, 10 ∷ [])
    ∷ (0x1e, 97 ∷ 115 ∷ 100 ∷ 102 ∷ 103 ∷ 104 ∷ 106 ∷ 107 ∷ 108 ∷ [])
    ∷ (0x2c, 122 ∷ 120 ∷ 99 ∷ 118 ∷ 98 ∷ 110 ∷ 109 ∷ [])
    ∷ []

abbrev key : ℕ → List (ℕ × List ℕ) → Option ℕ
key b [] = none
key b ((first, row) ∷ rs) = elim (if leb first b then get_elem? row (b - first) else none) [
  | some c ↦ some c
  | none ↦ key b rs
]

-- A letter in upper case.
abbrev pub upper : ℕ → ℕ
upper c = if leb 97 c then (if leb c 122 then c - 32 else c) else c

-- The character of the key, in upper case while a shift key is down; a shift key goes down at its
-- code, and up at the code with the release bit.
abbrev pub typed : ℕ → Bool → ℕ × Bool
typed b shift = elim (key b rows) [
  | some c ↦ (if shift then upper c else c, shift)
  | none ↦ (0, if (b % 128 == 0x2a) || (b % 128 == 0x36) then ltb b 128 else shift)
]

eqb : Bool → Bool → Bool
eqb true true = true
eqb false false = true
eqb true false = false
eqb false true = false

eqb-eq : (a b : Bool) → eqb a b ≡ true → a ≡ b
unfolding eqb
eqb-eq true true e = refl
eqb-eq false false e = refl
eqb-eq true false e = absurd (cc)
eqb-eq false true e = absurd (cc)

abbrev agree : ℕ × Bool → ℕ × Bool → Bool
unfolding eqb
agree p q = (p.0 == q.0) && eqb p.1 q.1

agree-eq : (p q : ℕ × Bool) → agree p q ≡ true → p ≡ q
unfolding agree
agree-eq (c, s) (d, t) e =
    ap₂ (λ x y. (x, y)) (let q : c ≡ d = ground arith in q) (eqb-eq s t (ground arith))

abbrev all_below : ℕ → (ℕ → Bool) → Bool
all_below zero p = true
all_below (suc n) p = p n && all_below n p

all_below_lem : (n : ℕ) (p : ℕ → Bool) → all_below n p ≡ true → (b : ℕ) → b < n → p b ≡ true
all_below_lem zero p e b l = absurd (omega arith)
all_below_lem (suc n) p e b l = elim (Bool-cases (b == n)) [
  | inl q ↦ ap p (let r : b ≡ n = ground arith in r) ∙ ground arith
  | inr q ↦ all_below_lem n p (ground arith) b (ground arith)
]

bytes_agree : (s : Bool) → all_below 256 (λ b. agree (kbd_get b s) (typed b s)) ≡ true
unfolding kbd_get agree
bytes_agree true = refl
bytes_agree false = refl

-- For every byte b that the keyboard delivers, and with the shift keys up or down, `kbd_get` returns
-- the character that stands at the key b of the rows of the keyboard, in upper case if shift is down,
-- and 0 for any other code; shift is down behind the code of a shift key, up behind the code with the
-- release bit, and as it was behind any other.
pub kbd_get-typed : (b : ℕ) (shift : Bool) → b < 256 → kbd_get b shift ≡ typed b shift
kbd_get-typed b s l =
    agree-eq (kbd_get b s) (typed b s)
      (all_below_lem 256 (λ k. agree (kbd_get k s) (typed k s)) (bytes_agree s) b l)
