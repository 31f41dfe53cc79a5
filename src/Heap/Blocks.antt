-- ===== src/Heap/Blocks.antt =====
-- The blocks of the heap of kernel/heap.cc, as a list that covers the array.
use p12_group.Base.{
  ℕ, ◌+◌, ◌-◌, ◌<◌, ◌≤◌, ◌≡◌, ◌⊎◌, inl, inr, ◌==◌, true, List, [], ◌∷◌, ◌++◌, ◌∙◌, subst, has,
  Bool-cases, update, update_ne, arith,
}
use p12_group.Base.Int.{ℤ, pos, neg}

pub data Block : Type 0 where
  taken : ℕ → Block
  avail : ℕ → Block

abbrev pub words : Block → ℕ
words (taken n) = n
words (avail n) = n

-- The header and the footer of a block.
abbrev pub tag : Block → ℤ
tag (taken n) = neg n
tag (avail n) = pos n

-- A taken block has room for its tags, an available one for its links, too.
abbrev pub least : Block → ℕ
least (taken n) = 2
least (avail n) = 4

abbrev pub total : List Block → ℕ
total [] = 0
total (b ∷ bs) = words b + total bs

-- From the index i on, the array holds these blocks.
abbrev pub Tiles : (ℕ → ℤ) → ℕ → List Block → Type 0
Tiles a i [] = Unit {0}
Tiles a i (b ∷ bs) =
    (least b ≤ words b) × (a i ≡ tag b) × (a (i + words b - 1) ≡ tag b) × Tiles a (i + words b) bs

-- The indices of the available blocks.
abbrev pub starts : ℕ → List Block → List ℕ
starts i [] = []
starts i (taken n ∷ bs) = starts (i + n) bs
starts i (avail n ∷ bs) = i ∷ starts (i + n) bs

pub total-append : (xs ys : List Block) → total (xs ++ ys) ≡ total xs + total ys
total-append [] ys = omega arith
total-append (x ∷ xs) ys = omega (arith, total-append xs ys)

pub Tiles-split :
    (a : ℕ → ℤ) (i : ℕ) (xs ys : List Block)
    → Tiles a i (xs ++ ys)
    → Tiles a i xs × Tiles a (i + total xs) ys
Tiles-split a i [] ys t = (tt, subst (λ k. Tiles a k ys) (let e : i ≡ i + 0 = omega arith in e) t)
Tiles-split a i (x ∷ xs) ys (l, h, f, t) =
    let (p, q) = Tiles-split a (i + words x) xs ys t in
    let e : i + words x + total xs ≡ i + (words x + total xs) = omega arith in
    ((l, h, f, p), subst (λ k. Tiles a k ys) e q)

pub Tiles-append :
    (a : ℕ → ℤ) (i : ℕ) (xs ys : List Block)
    → Tiles a i xs
    → Tiles a (i + total xs) ys
    → Tiles a i (xs ++ ys)
Tiles-append a i [] ys t u = subst (λ k. Tiles a k ys) (let e : i + 0 ≡ i = omega arith in e) u
Tiles-append a i (x ∷ xs) ys (l, h, f, t) u =
    let e : i + (words x + total xs) ≡ i + words x + total xs = omega arith in
    (l, h, f, Tiles-append a (i + words x) xs ys t (subst (λ k. Tiles a k ys) e u))

least_pos : (b : Block) → 2 ≤ least b
least_pos (taken n) = omega arith
least_pos (avail n) = omega arith

-- A write outside of the blocks.
pub Tiles-outside :
    (a : ℕ → ℤ) (k : ℕ) (v : ℤ) (i : ℕ) (bs : List Block)
    → (k < i) ⊎ (i + total bs ≤ k)
    → Tiles a i bs
    → Tiles (update a k v) i bs
Tiles-outside a k v i [] o t = tt
Tiles-outside a k v i (b ∷ bs) o (l, h, f, t) = (
  l,
  update_ne a k i v (ground (arith, least_pos b)) ∙ h,
  update_ne a k (i + words b - 1) v (ground (arith, least_pos b)) ∙ f,
  Tiles-outside a k v (i + words b) bs (ground arith) t,
)

-- An available block lies among the blocks, and is large enough.
pub starts-bounds :
    (x i : ℕ) (bs : List Block)
    → has x (starts i bs) ≡ true
    → (a : ℕ → ℤ) → Tiles a i bs
    → (i ≤ x) × (x + 4 ≤ i + total bs)
starts-bounds x i [] m a t = absurd (cc)
starts-bounds x i (taken n ∷ bs) m a (l, h, f, t) = omega (arith, starts-bounds x (i + n) bs m a t)
starts-bounds x i (avail n ∷ bs) m a (l, h, f, t) = elim (Bool-cases (x == i)) [
  | inl e ↦ ground arith
  | inr e ↦ omega (arith, starts-bounds x (i + n) bs (ground arith) a t)
]

-- A write to a link of an available block.
pub Tiles-link :
    (a : ℕ → ℤ) (x k : ℕ) (v : ℤ) (i : ℕ) (bs : List Block)
    → has x (starts i bs) ≡ true
    → (k ≡ x + 1) ⊎ (k ≡ x + 2)
    → Tiles a i bs
    → Tiles (update a k v) i bs
Tiles-link a x k v i [] m o t = tt
Tiles-link a x k v i (taken n ∷ bs) m o (l, h, f, t) =
    let beyond = starts-bounds x (i + n) bs m a t in
    (
      l,
      update_ne a k i v (ground arith) ∙ h,
      update_ne a k (i + n - 1) v (ground arith) ∙ f,
      Tiles-link a x k v (i + n) bs m o t,
    )
Tiles-link a x k v i (avail n ∷ bs) m o (l, h, f, t) = elim (Bool-cases (x == i)) [
  | inl e ↦ (
    l,
    update_ne a k i v (ground arith) ∙ h,
    update_ne a k (i + n - 1) v (ground arith) ∙ f,
    Tiles-outside a k v (i + n) bs (ground arith) t,
  )
  | inr e ↦
      let m' : has x (starts (i + n) bs) ≡ true = ground arith in
      let beyond = starts-bounds x (i + n) bs m' a t in
      (
        l,
        update_ne a k i v (ground arith) ∙ h,
        update_ne a k (i + n - 1) v (ground arith) ∙ f,
        Tiles-link a x k v (i + n) bs m' o t,
      )
]
