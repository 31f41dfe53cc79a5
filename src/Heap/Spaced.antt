-- ===== src/Heap/Spaced.antt =====
-- Lists of indices of available blocks: they do not overlap, so a write into one misses the others.
use p12_group.Base.{
  ℕ, ◌+◌, ◌<◌, ◌≤◌, ◌≡◌, ◌≢◌, ◌⊎◌, inl, inr, ◌==◌, true, List, [], ◌∷◌, ◌++◌, sym, ◌∙◌, has,
  has-append, Bool-cases, arith,
}

-- Two blocks that do not overlap; neither has the index 0.
abbrev pub Far : ℕ → ℕ → Type 0
Far x y = (x + 4 ≤ y) ⊎ (y + 4 ≤ x)

abbrev pub Away : ℕ → List ℕ → Type 0
Away x [] = Unit {0}
Away x (y ∷ ys) = Far x y × Away x ys

abbrev pub Spaced : List ℕ → Type 0
Spaced [] = Unit {0}
Spaced (x ∷ xs) = (x ≢ 0) × Away x xs × Spaced xs

pub Away-all : (x : ℕ) (ys : List ℕ) → ((y : ℕ) → has y ys ≡ true → Far x y) → Away x ys
Away-all x [] h = tt
Away-all x (y ∷ ys) h = (h y (ground arith), Away-all x ys (λ z m. h z (ground arith)))

pub Away-mem : (x y : ℕ) (ys : List ℕ) → Away x ys → has y ys ≡ true → Far x y
Away-mem x y [] a m = absurd (cc)
Away-mem x y (z ∷ ys) (f, a) m = elim (Bool-cases (y == z)) [
  | inl e ↦ ground arith
  | inr e ↦ Away-mem x y ys a (ground arith)
]

pub Spaced-Far :
    (y z : ℕ) (us ws : List ℕ) → Spaced (us ++ ws) → has y us ≡ true → has z ws ≡ true → Far y z
Spaced-Far y z [] ws s m n = absurd (cc)
Spaced-Far y z (u ∷ us) ws (p, a, s) m n = elim (Bool-cases (y == u)) [
  | inl e ↦
      rw (let q : y ≡ u = ground arith in q)
        (Away-mem u z (us ++ ws) a (ground (arith, has-append z us ws)))
  | inr e ↦ Spaced-Far y z us ws s (ground arith) n
]

pub Away-append : (x : ℕ) (us vs : List ℕ) → Away x us → Away x vs → Away x (us ++ vs)
Away-append x [] vs a b = b
Away-append x (u ∷ us) vs (f, a) b = (f, Away-append x us vs a b)

pub Away-without : (x y : ℕ) (us vs : List ℕ) → Away x (us ++ y ∷ vs) → Away x (us ++ vs)
Away-without x y [] vs (f, a) = a
Away-without x y (u ∷ us) vs (f, a) = (f, Away-without x y us vs a)

pub Spaced-without : (y : ℕ) (us vs : List ℕ) → Spaced (us ++ y ∷ vs) → Spaced (us ++ vs)
Spaced-without y [] vs (p, a, s) = s
Spaced-without y (u ∷ us) vs (p, a, s) = (p, Away-without u y us vs a, Spaced-without y us vs s)

pub Spaced-right : (us vs : List ℕ) → Spaced (us ++ vs) → Spaced vs
Spaced-right [] vs s = s
Spaced-right (u ∷ us) vs (p, a, s) = Spaced-right us vs s

pub Spaced-left : (us vs : List ℕ) → Spaced (us ++ vs) → Spaced us
Spaced-left [] vs s = tt
Spaced-left (u ∷ us) vs (p, a, s) = (
  p,
  Away-all u us (λ y m. Away-mem u y (us ++ vs) a (ground (arith, has-append y us vs))),
  Spaced-left us vs s,
)

-- A write that is not to a link of the list: at another index k, whether before, behind or between.
abbrev pub Off : ℕ → List ℕ → Type 0
Off k [] = Unit {0}
Off k (x ∷ xs) = (k ≢ x + 1) × (k ≢ x + 2) × Off k xs

pub Off-Away : (x k : ℕ) (ys : List ℕ) → Away x ys → x ≤ k → k < x + 4 → Off k ys
Off-Away x k [] a l h = tt
Off-Away x k (y ∷ ys) (f, a) l h = (ground arith, ground arith, Off-Away x k ys a l h)

pub Spaced-mem : (xs : List ℕ) (x : ℕ) → Spaced xs → has x xs ≡ true → x ≢ 0
Spaced-mem [] x s m = absurd (cc)
Spaced-mem (y ∷ xs) x (p, a, s) m = elim (Bool-cases (x == y)) [
  | inl e ↦ (let q : x ≡ y = ground arith in λ z. p (sym q ∙ z))
  | inr e ↦ Spaced-mem xs x s (ground arith)
]
