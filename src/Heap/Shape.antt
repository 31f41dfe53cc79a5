-- ===== src/Heap/Shape.antt =====
-- The shape of the heap of kernel/heap.cc: blocks that cover the array, and available ones in a list.
-- `sanity` holds at each of them, and `remove` takes one off the list.
use p12_group.Base.{
  ℕ, zero, suc, ◌+◌, ◌-◌, ◌≤◌, ◌≡◌, inl, inr, ◌==◌, leb, true, false, ◌||◌, List, [], ◌∷◌, ◌++◌,
  refl, ap, sym, ◌∙◌, subst, has, has-append, Bool-cases, arith, some, length,
}
use p12_group.Base.Int.{pos, abs, same_self}
use p12_group.Heap.{Heap, sanity, size, next, prev}
use p12_group.Heap.Blocks.{
  Block, taken, avail, words, tag, least, total, Tiles, starts, total-append, Tiles-split,
}
use p12_group.Heap.Spaced.{Spaced}
use p12_group.Heap.Links.{front, last_of, Links, Links-split, has-last_of}

-- The blocks bs cover the array, and the list idxs holds some of the available ones.
pub record Linked (h : Heap) (bs : List Block) (idxs : List ℕ) : Type 0 where
  pub tiles : Tiles h.array 0 bs
  pub covers : total bs ≡ h.len
  pub first : h.avail ≡ front idxs 0
  pub links : Links h.array 0 idxs 0
  pub spaced : Spaced idxs
  pub within : (x : ℕ) → has x idxs ≡ true → has x (starts 0 bs) ≡ true

-- It holds all of them.
pub record IsHeap (h : Heap) (bs : List Block) (idxs : List ℕ) : Type 0 where
  pub linked : Linked h bs idxs
  pub complete : (x : ℕ) → has x (starts 0 bs) ≡ true → has x idxs ≡ true
  pub number : length idxs ≡ length (starts 0 bs)

pub abs-tag : (b : Block) → least b ≤ words b → abs (tag b) ≡ words b
abs-tag (taken zero) l = absurd (omega arith)
abs-tag (taken (suc n)) l = refl
abs-tag (avail n) l = refl

pub least_two : (b : Block) → 2 ≤ least b
least_two (taken n) = omega arith
least_two (avail n) = omega arith

-- The block b among the others.
pub record IsBlock (h : Heap) (i : ℕ) (b : Block) : Type 0 where
  pub header : h.array i ≡ tag b
  pub footer : h.array (i + words b - 1) ≡ tag b
  pub large : least b ≤ words b
  pub inside : i + words b ≤ h.len

pub block_at :
    (h : Heap) (xs ys : List Block) (b : Block)
    → Tiles h.array 0 (xs ++ b ∷ ys)
    → total (xs ++ b ∷ ys) ≡ h.len
    → IsBlock h (total xs) b
block_at h xs ys b t c =
    let e : 0 + total xs ≡ total xs = omega arith in
    let (l, hd, ft, _) =
      subst (λ k. Tiles h.array k (b ∷ ys)) e (Tiles-split h.array 0 xs (b ∷ ys) t).1 in
    record { header = hd; footer = ft; large = l; inside = omega (arith, total-append xs (b ∷ ys)) }

pub size-IsBlock : (h : Heap) (i : ℕ) (b : Block) → IsBlock h i b → size h i ≡ words b
size-IsBlock h i b k = ap abs k.header ∙ abs-tag b k.large

-- `sanity` lets each block pass.
pub sanity-IsBlock : (h : Heap) (i : ℕ) (b : Block) → IsBlock h i b → sanity h (pos i) ≡ some i
unfolding sanity
sanity-IsBlock h i b k =
    let s = size-IsBlock h i b k in
    let two = least_two b in
    elim (Bool-cases (i == 0)) [
      | inl z ↦ rw z (ground arith)
      | inr n ↦
          let in_array : leb h.len i ≡ false = ground (arith, k.inside, k.large, two) in
          let in_array' : leb h.len (i + words b - 1) ≡ false =
            ground (arith, k.inside, k.large, two) in
          rw (n, in_array, s, in_array', k.header, k.footer, same_self (tag b)) refl
    ]

-- An index of `starts` belongs to an available block.
pub starts-mem :
    (x i : ℕ) (bs : List Block)
    → has x (starts i bs) ≡ true
    → (xs : List Block) × (n : ℕ) × (ys : List Block) × (bs ≡ xs ++ avail n ∷ ys)
      × (x ≡ i + total xs)
starts-mem x i [] m = absurd (cc)
starts-mem x i (taken k ∷ bs) m =
    let (xs, n, ys, e, p) = starts-mem x (i + k) bs m in
    (taken k ∷ xs, n, ys, ap (◌∷◌ (taken k)) e, omega arith)
starts-mem x i (avail k ∷ bs) m = elim (Bool-cases (x == i)) [
  | inl e ↦ ([], k, bs, refl, ground arith)
  | inr e ↦
      let (xs, n, ys, e, p) = starts-mem x (i + k) bs (ground arith) in
      (avail k ∷ xs, n, ys, ap (◌∷◌ (avail k)) e, omega arith)
]

pub sanity-Linked :
    (h : Heap) (bs : List Block) (idxs : List ℕ) (x : ℕ)
    → Linked h bs idxs
    → has x idxs ≡ true
    → sanity h (pos x) ≡ some x
sanity-Linked h bs idxs x l m =
    let (xs, n, ys, e, p) = starts-mem x 0 bs (l.within x m) in
    let q : total xs ≡ x = omega arith in
    sanity-IsBlock h x (avail n) (
      subst (λ k. IsBlock h k (avail n)) q
        (block_at h xs ys (avail n) (subst (Tiles h.array 0) e l.tiles)
          (ap total (sym e) ∙ l.covers)))

pub sanity_zero : (h : Heap) → sanity h (pos 0) ≡ some 0
unfolding sanity
sanity_zero h = refl

module _ (h : Heap) (bs : List Block) (us vs : List ℕ) (x : ℕ)
    (l : Linked h bs (us ++ x ∷ vs)) where
  member : (y : ℕ) → (has y us || has y vs) ≡ true → has y (us ++ x ∷ vs) ≡ true
  member y m = ground (arith, has-append y us (x ∷ vs))

  sane_last :
      (ws : List ℕ)
      → ((y : ℕ) → has y ws ≡ true → sanity h (pos y) ≡ some y)
      → sanity h (pos (last_of 0 ws)) ≡ some (last_of 0 ws)
  sane_last [] s = sanity_zero h
  sane_last (w ∷ ws) s = s (last_of w ws) (has-last_of w ws)

  sane_front :
      (ws : List ℕ)
      → ((y : ℕ) → has y ws ≡ true → sanity h (pos y) ≡ some y)
      → sanity h (pos (front ws 0)) ≡ some (front ws 0)
  sane_front [] s = sanity_zero h
  sane_front (w ∷ ws) s = s w (ground arith)

  pub prev-Linked : prev h x ≡ some (last_of 0 us)
  unfolding prev
  prev-Linked =
      ap (sanity h) (Links-split h.array 0 us (x ∷ vs) 0 l.links).1.1
      ∙ sane_last us (λ y m. sanity-Linked h bs (us ++ x ∷ vs) y l (member y (ground arith)))

  pub next-Linked : next h x ≡ some (front vs 0)
  unfolding next
  next-Linked =
      ap (sanity h) (Links-split h.array 0 us (x ∷ vs) 0 l.links).1.0
      ∙ sane_front vs (λ y m. sanity-Linked h bs (us ++ x ∷ vs) y l (member y (ground arith)))
