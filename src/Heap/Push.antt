-- ===== src/Heap/Push.antt =====
-- `makeAvail` of kernel/heap.cc: a block is made in the gap and put at the front of the list.
use p12_group.Base.{
  ℕ, ◌+◌, ◌-◌, ◌<◌, ◌≤◌, ◌≡◌, ◌≢◌, ◌⊎◌, inl, inr, ◌==◌, Bool, true, false, ◌||◌, List, [], ◌∷◌,
  ◌++◌, refl, sym, ◌∙◌, subst, has, has-append, Bool-cases, update, update_ne, arith, ne→==,
}
use p12_group.Base.Int.{ℤ, pos}
use p12_group.Heap.Blocks.{
  Block, avail, total, Tiles, starts, total-append, Tiles-append, Tiles-outside, Tiles-link,
  starts-bounds,
}
use p12_group.Heap.Spaced.{Far, Spaced, Away-all}
use p12_group.Heap.Links.{front, Links, Links-start, backward}
use p12_group.Heap.Gap.{Gap, Gap-sides, still_clear, starts-append}

front-mem : (idxs : List ℕ) → front idxs 0 ≢ 0 → has (front idxs 0) idxs ≡ true
front-mem [] n = absurd (n refl)
front-mem (x ∷ xs) n = ground arith

backward-Links :
    (a : ℕ → ℤ) (p : ℕ) (idxs : List ℕ)
    → Spaced idxs
    → Links a 0 idxs 0
    → Links (backward a p (front idxs 0)) p idxs 0
backward-Links a p [] s l = tt
backward-Links a p (v ∷ vs) s l =
    let open_backward : backward a p v ≡ update a (v + 2) (pos p) = rw (ne→== v 0 s.0) refl in
    subst (λ b. Links b p (v ∷ vs) 0) (sym open_backward) (Links-start a 0 p v vs 0 s.1 l)

new_clear :
    (y p n : ℕ) (xs : List Block) (idxs : List ℕ) (c : Bool)
    → p ≡ total xs
    → (has y idxs ≡ true → (has y (starts 0 xs) || c) ≡ true)
    → has y (p ∷ idxs) ≡ true
    → (has y (starts 0 (xs ++ avail n ∷ [])) || c) ≡ true
new_clear y p n xs idxs c q h m = elim (Bool-cases (y == p)) [
  | inl e ↦
      let here : (y == 0 + total xs) ≡ true = ground (arith, q) in
      rw
        (
          starts-append 0 xs (avail n ∷ []),
          has-append y (starts 0 xs) (starts (0 + total xs) (avail n ∷ [])),
          here,
        )
        (always (has y (starts 0 xs)) c)
  | inr e ↦ still_clear y xs (avail n) c (h (ground (arith, m)))
]
  where
    always : (p q : Bool) → ((p || true) || q) ≡ true
    always true q = refl
    always false q = refl

module _ (a : ℕ → ℤ) (len : ℕ) (xs : List Block) (s : ℕ) (ys : List Block) (idxs : List ℕ)
    (g : Gap (record { array = a; len = len; avail = front idxs 0 }) xs s ys idxs) where
  abbrev p : ℕ
  p = total xs

  abbrev v : ℕ
  v = front idxs 0

  -- The link back in the old front is a write to one of the sides.
  sides : Tiles (backward a p v) 0 xs × Tiles (backward a p v) (p + s) ys
  sides = elim (Bool-cases (v == 0)) [
    | inl z ↦
        subst (λ b. Tiles b 0 xs × Tiles b (p + s) ys) (let e : a ≡ backward a p v = rw z refl in e)
          (g.left, g.right)
    | inr z ↦
        let m = front-mem idxs (ground arith) in
        let open_backward : update a (v + 2) (pos p) ≡ backward a p v = rw z refl in
        subst (λ b. Tiles b 0 xs × Tiles b (p + s) ys) open_backward
          (elim (Bool-cases (has v (starts 0 xs))) [
            | inl here ↦
                let bounds = starts-bounds v 0 xs here a g.left in
                (
                  Tiles-link a v (v + 2) (pos p) 0 xs here (inr refl) g.left,
                  Tiles-outside a (v + 2) (pos p) (p + s) ys (inl (omega arith)) g.right,
                )
            | inr there ↦
                let right : has v (starts (p + s) ys) ≡ true = ground (arith, g.clear v m) in
                let bounds = starts-bounds v (p + s) ys right a g.right in
                (
                  Tiles-outside a (v + 2) (pos p) 0 xs (inr (omega arith)) g.left,
                  Tiles-link a v (v + 2) (pos p) (p + s) ys right (inr refl) g.right,
                )
          ])
  ]

  in_gap : (k : ℕ) → p ≤ k → k < p + s → backward a p v k ≡ a k
  in_gap k l u = elim (Bool-cases (v == 0)) [
    | inl z ↦ rw z refl
    | inr z ↦
        let o = Gap-sides _ xs s ys idxs g v (front-mem idxs (ground arith)) in
        rw z (update_ne a (v + 2) k (pos p) (omega arith))
  ]

  -- The block of n ints at the start of the gap is pushed.
  pub push-Gap :
      (n : ℕ)
      → 4 ≤ n
      → n ≤ s
      → p ≢ 0
      → a p ≡ pos n
      → a (p + n - 1) ≡ pos n
      → a (p + 1) ≡ pos v
      → a (p + 2) ≡ pos 0
      → Gap
          (record { array = backward a p v; len = len; avail = p })
          (xs ++ avail n ∷ [])
          (s - n)
          ys
          (p ∷ idxs)
  push-Gap n l u z hd ft fw bw =
      let e : p + s ≡ total (xs ++ avail n ∷ []) + (s - n) =
        omega (arith, total-append xs (avail n ∷ [])) in
      let start : total xs ≡ 0 + total xs = omega arith in
      record {
        left = Tiles-append (backward a p v) 0 xs (avail n ∷ []) sides.0 (
            subst (λ k. Tiles (backward a p v) k (avail n ∷ [])) start
              (
                l,
                in_gap p (omega arith) (omega arith) ∙ hd,
                in_gap (p + n - 1) (omega arith) (omega arith) ∙ ft,
                tt,
              ));
        right = subst (λ k. Tiles (backward a p v) k ys) e sides.1;
        covers = omega (arith, g.covers, e);
        first = refl;
        links = (
          in_gap (p + 1) (omega arith) (omega arith) ∙ fw,
          in_gap (p + 2) (omega arith) (omega arith) ∙ bw,
          backward-Links a p idxs g.spaced g.links,
        );
        spaced = (
          z,
          Away-all p idxs (λ y m. let o = Gap-sides _ xs s ys idxs g y m in far y o),
          g.spaced,
        );
        clear = λ y m.
            subst (λ k. (has y (starts 0 (xs ++ avail n ∷ [])) || has y (starts k ys)) ≡ true) e
              (new_clear y p n xs idxs (has y (starts (p + s) ys)) refl (g.clear y) m);
      }
    where
      far : (y : ℕ) → (y + 4 ≤ total xs) ⊎ (total xs + s ≤ y) → Far (total xs) y
      far y (inl h) = inr h
      far y (inr h) = inl (omega (arith, h))
