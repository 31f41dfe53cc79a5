-- ===== src/Heap/Malloc.antt =====
-- `malloc` of kernel/heap.cc keeps the shape of the heap, and finds a block if there is one.
use p12_group.Base.{
  ℕ, zero, suc, ◌+◌, ◌<◌, ◌≤◌, ◌≡◌, ◌≢◌, inl, inr, ◌==◌, leb, Bool, true, false, ◌||◌, List, [],
  ◌∷◌, ◌++◌, refl, ap, sym, ◌∙◌, subst, has, has-append, Bool-cases, arith, length, append_assoc,
  append-nil, Option, none, some, ne→==,
}
use p12_group.Base.Int.{pos}
use p12_group.Heap.{Heap, size, is_avail, next, carve, fit, first_fit}
use p12_group.Heap.Blocks.{Block, avail, total, Tiles, starts}
use p12_group.Heap.Spaced.{Spaced-mem}
use p12_group.Heap.Gap.{Gap}
use p12_group.Heap.Links.{front}
use p12_group.Heap.Shape.{Linked, IsHeap, IsBlock, block_at, size-IsBlock, starts-mem, next-Linked}
use p12_group.Heap.Unlisted.{remove-Unlisted, rest-Full}
use p12_group.Heap.Make.{Full, open-Gap, has-starts}
use p12_group.Heap.Carve.{carved, carve-IsHeap}

-- The blocks bs, and some order of the available ones.
abbrev pub Shaped : Heap → List Block → Type 0
Shaped h bs = (idxs : List ℕ) × IsHeap h bs idxs

-- The blocks in front of x in the list are too small for n ints.
abbrev pub First : Heap → List ℕ → ℕ → ℕ → Type 0
First h idxs n x =
    (us : List ℕ) × (ws : List ℕ) × (idxs ≡ us ++ x ∷ ws)
    × ((y : ℕ) → has y us ≡ true → size h y < n)

-- What `malloc` may do for n ints: take the available block that is the first of the list idxs that is
-- large enough, return the index behind its header and leave the other blocks as they are; or panic, if
-- every available block is too small.
pub data Mallocs (h : Heap) (bs : List Block) (idxs : List ℕ) (n : ℕ)
    : Option (ℕ × Heap) → Type 0 where
  found :
      (xs : List Block) (s : ℕ) (ys : List Block) (h' : Heap)
      → bs ≡ xs ++ avail s ∷ ys
      → n ≤ s
      → First h idxs n (total xs)
      → Shaped h' (xs ++ (carved s n ++ ys))
      → Mallocs h bs idxs n (some (total xs + 1, h'))
  full :
      ((xs : List Block) (s : ℕ) (ys : List Block) → bs ≡ xs ++ avail s ∷ ys → s < n)
      → Mallocs h bs idxs n none

module _ (h : Heap) (bs : List Block) where
  -- The block of an index of the list.
  pub at_index :
      (idxs : List ℕ) (x : ℕ)
      → Linked h bs idxs
      → has x idxs ≡ true
      → (xs : List Block) × (s : ℕ) × (ys : List Block) × (bs ≡ xs ++ avail s ∷ ys)
        × (x ≡ total xs)
        × IsBlock h x (avail s)
  at_index idxs x l m =
      let (xs, s, ys, e, p) = starts-mem x 0 bs (l.within x m) in
      let q : x ≡ total xs = omega arith in
      (
        xs,
        s,
        ys,
        e,
        q,
        subst (λ k. IsBlock h k (avail s)) (sym q)
            (block_at h xs ys (avail s) (subst (Tiles h.array 0) e l.tiles)
              (ap total (sym e) ∙ l.covers)),
      )

pub or_false : (b : Bool) → (b || false) ≡ b
or_false true = refl
or_false false = refl

pub avail-is_avail : (h : Heap) (i s : ℕ) → h.array i ≡ pos s → 0 < s → is_avail h i ≡ true
avail-is_avail h i s e l = rw (is_avail, e) (ground arith)

-- `fit` at an available block that is large enough.
fit-Shaped :
    (h : Heap) (xs : List Block) (s : ℕ) (ys : List Block) (idxs : List ℕ) (n : ℕ)
    → IsHeap h (xs ++ avail s ∷ ys) idxs
    → has (total xs) idxs ≡ true
    → IsBlock h (total xs) (avail s)
    → 4 ≤ n
    → n ≤ s
    → (h' : Heap) × (fit (total xs) n h ≡ some (total xs + 1, h'))
      × Shaped h' (xs ++ (carved s n ++ ys))
unfolding fit
fit-Shaped h xs s ys idxs n i m b l u =
    let r = remove-Unlisted h (xs ++ avail s ∷ ys) idxs (total xs) i.linked m in
    let e : s + 0 ≡ s = omega arith in
    let z : total xs ≢ 0 = Spaced-mem idxs (total xs) i.linked.spaced m in
    let g =
      open-Gap r.after xs (avail s ∷ []) ys r.rest r.linked
        (λ y k. or_false (y == total xs) ∙ r.left_out y k) in
    let f =
      rest-Full h xs (avail s ∷ []) ys idxs i r.rest
        (λ y k o. r.kept y k (sym (or_false (y == total xs)) ∙ o)) (omega (arith, r.fewer)) in
    (
      carve (total xs) s n r.after,
      rw (r.removed, size-IsBlock h (total xs) (avail s) b) refl,
      carve-IsHeap r.after xs s ys r.rest n (subst (λ k. Gap r.after xs k ys r.rest) e g)
          (subst (λ k. Full xs k ys r.rest) e f) l u z,
    )

pub in_middle : (a : Bool) (p : ℕ) (c : Bool) → (a || (p == p || c)) ≡ true
in_middle a p c = ground arith

module _ (fuel p n : ℕ) (h : Heap) where
  pub end-first_fit : p ≡ 0 → first_fit (suc fuel) p n h ≡ none
  unfolding first_fit
  end-first_fit e = rw e refl

  pub fit-first_fit :
      (p == 0) ≡ false
      → is_avail h p ≡ true
      → leb n (size h p) ≡ true
      → first_fit (suc fuel) p n h ≡ fit p n h
  unfolding first_fit
  fit-first_fit e f g = rw (e, f, g) refl

  pub next-first_fit :
      (q : ℕ)
      → (p == 0) ≡ false
      → is_avail h p ≡ true
      → leb n (size h p) ≡ false
      → next h p ≡ some q
      → first_fit (suc fuel) p n h ≡ first_fit fuel q n h
  unfolding first_fit
  next-first_fit q e f g s = rw (e, f, g, s) refl

module _ (h : Heap) (bs : List Block) (idxs : List ℕ) (n : ℕ) (i : IsHeap h bs idxs)
    (l : 4 ≤ n) where
  listed :
      (xs : List Block) (s : ℕ) (ys : List Block)
      → bs ≡ xs ++ avail s ∷ ys
      → has (total xs) idxs ≡ true
  listed xs s ys e =
      let z : 0 + total xs ≡ total xs = omega arith in
      i.complete (total xs) (
        ap (λ k. has (total xs) (starts 0 k)) e
        ∙ has-starts (total xs) 0 xs (avail s ∷ ys)
        ∙ rw z (
            in_middle (has (total xs) (starts 0 xs)) (total xs)
              (has (total xs) (starts (total xs + s) ys))))

  all_small :
      ((y : ℕ) → has y idxs ≡ true → size h y < n)
      → (xs : List Block) (s : ℕ) (ys : List Block) → bs ≡ xs ++ avail s ∷ ys
      → s < n
  all_small k xs s ys e =
      let b =
        block_at h xs ys (avail s) (subst (Tiles h.array 0) e i.linked.tiles)
          (ap total (sym e) ∙ i.linked.covers) in
      omega (arith, k (total xs) (listed xs s ys e), size-IsBlock h (total xs) (avail s) b)

  grown :
      (us : List ℕ) (w : ℕ) (s : ℕ)
      → size h w ≡ s
      → s < n
      → ((y : ℕ) → has y us ≡ true → size h y < n)
      → (y : ℕ) → has y (us ++ w ∷ []) ≡ true
      → size h y < n
  grown us w s e u k y m = elim (Bool-cases (has y us)) [
    | inl a ↦ k y a
    | inr a ↦
        let q : y ≡ w = ground (arith, has-append y us (w ∷ [])) in
        let at_y : size h y ≡ size h w = ap (size h) q in omega (arith, at_y)
  ]

  fit-Mallocs :
      (w : ℕ) (xs : List Block) (s : ℕ) (ys : List Block)
      → bs ≡ xs ++ avail s ∷ ys
      → w ≡ total xs
      → IsBlock h w (avail s)
      → has w idxs ≡ true
      → n ≤ s
      → First h idxs n w
      → Mallocs h bs idxs n (fit w n h)
  fit-Mallocs w xs s ys e p b m u o =
      let (h', q, k) =
        fit-Shaped h xs s ys idxs n (subst (λ k. IsHeap h k idxs) e i)
          (ap (λ k. has k idxs) (sym p) ∙ m) (subst (λ k. IsBlock h k (avail s)) p b) l u in
      subst (Mallocs h bs idxs n) (sym (ap (λ k. fit k n h) p ∙ q))
        (found xs s ys h' e u (subst (First h idxs n) p o) k)

  -- The loop, from any point of the list on.
  pub first_fit-Mallocs :
      (fuel : ℕ) (us ws : List ℕ)
      → idxs ≡ us ++ ws
      → length ws < fuel
      → ((y : ℕ) → has y us ≡ true → size h y < n)
      → Mallocs h bs idxs n (first_fit fuel (front ws 0) n h)
  first_fit-Mallocs zero us ws e f k = absurd (omega arith)
  first_fit-Mallocs (suc fuel) us [] e f k =
      rw (end-first_fit fuel 0 n h refl)
        (full (all_small (λ y m. k y (ap (has y) (sym (e ∙ append-nil us)) ∙ m))))
  first_fit-Mallocs (suc fuel) us (w ∷ ws) e f k =
      let listed_w : has w idxs ≡ true =
        ap (has w) e ∙ has-append w us (w ∷ ws) ∙ in_middle (has w us) w (has w ws) in
      let (xs, s, ys, q, p, b) = at_index h bs idxs w i.linked listed_w in
      let positive : (w == 0) ≡ false = ne→== w 0 (Spaced-mem idxs w i.linked.spaced listed_w) in
      let available : is_avail h w ≡ true =
        avail-is_avail h w s b.header (omega (arith, b.large)) in
      let sz = size-IsBlock h w (avail s) b in
      elim (Bool-cases (leb n s)) [
        | inl u ↦
            rw (fit-first_fit fuel w n h positive available (ap (leb n) sz ∙ u))
              (fit-Mallocs w xs s ys q p b listed_w (ground arith) (us, ws, e, k))
        | inr u ↦
            let step = next-Linked h bs us ws w (subst (Linked h bs) e i.linked) in
            rw (next-first_fit fuel w n h (front ws 0) positive available (ap (leb n) sz ∙ u) step)
              (first_fit-Mallocs fuel (us ++ w ∷ []) ws (e ∙ sym (append_assoc us (w ∷ []) ws))
                (omega arith) (grown us w s sz (ground arith) k))
      ]
