-- ===== src/Heap/Merge.antt =====
-- The blocks of the heap of kernel/heap.cc around one that `free` gives back.
use p12_group.Base.{
  ℕ, ◌+◌, ◌<◌, ◌≡◌, Bool, true, false, ◌||◌, List, [], ◌∷◌, ◌++◌, refl, ap, sym, ◌∙◌, subst, has,
  arith, append_assoc,
}
use p12_group.Heap.{Heap}
use p12_group.Heap.Blocks.{Block, taken, avail, words, total, Tiles, starts, total-append}
use p12_group.Heap.Shape.{Linked, IsHeap, IsBlock, block_at, least_two}
use p12_group.Heap.Make.{has-starts}
use p12_group.Heap.Join.{gained, kept, joined, merged_start, Joined, join-Joined}

-- The block and its neighbours, once the block is free.
abbrev pub released : Block → ℕ → Block → List Block
released l s r = kept l ++ (avail (s + gained l + gained r) ∷ kept r)

-- Around a block that is to be freed: what stays, and what becomes one block.
module _ (xs : List Block) (l : Block) (s : ℕ) (r : Block) (ys : List Block) where
  abbrev pub before : List Block
  before = xs ++ kept l

  abbrev pub merged : List Block
  merged = joined l ++ (taken s ∷ joined r)

  abbrev pub behind : List Block
  behind = kept r ++ ys

  kept_joined : r ∷ ys ≡ joined r ++ (kept r ++ ys)
  kept_joined = go r
    where
      go : (b : Block) → b ∷ ys ≡ joined b ++ (kept b ++ ys)
      go (taken n) = refl
      go (avail n) = refl

  pub regroup : xs ++ l ∷ taken s ∷ r ∷ ys ≡ before ++ (merged ++ behind)
  regroup = go l
    where
      go :
          (b : Block)
          → xs ++ b ∷ taken s ∷ r ∷ ys
            ≡ (xs ++ kept b) ++ ((joined b ++ (taken s ∷ joined r)) ++ behind)
      go (taken n) =
          ap (λ k. xs ++ taken n ∷ taken s ∷ k) kept_joined
          ∙ sym (append_assoc xs (taken n ∷ []) (taken s ∷ (joined r ++ behind)))
      go (avail n) =
          ap (λ k. xs ++ avail n ∷ taken s ∷ k) kept_joined
          ∙ sym (append_assoc xs [] (avail n ∷ taken s ∷ (joined r ++ behind)))

  pub total-merged : total merged ≡ s + gained l + gained r
  total-merged = go l r
    where
      go : (b c : Block) → total (joined b ++ (taken s ∷ joined c)) ≡ s + gained b + gained c
      go (taken n) (taken m) = omega arith
      go (taken n) (avail m) = omega arith
      go (avail n) (taken m) = omega arith
      go (avail n) (avail m) = omega arith

  pub total-before : total before ≡ merged_start l (total xs) (total xs + words l)
  total-before = go l
    where
      go : (b : Block) → total (xs ++ kept b) ≡ merged_start b (total xs) (total xs + words b)
      go (taken n) = omega (arith, total-append xs (taken n ∷ []))
      go (avail n) = omega (arith, total-append xs [])

  pub starts-merged :
      starts (total before) merged
      ≡ starts (total xs) (l ∷ []) ++ starts (total xs + words l + s) (r ∷ [])
  starts-merged = go l r
    where
      go :
          (b c : Block)
          → starts (total (xs ++ kept b)) (joined b ++ (taken s ∷ joined c))
            ≡ starts (total xs) (b ∷ []) ++ starts (total xs + words b + s) (c ∷ [])
      go (taken n) (taken m) = refl
      go (taken n) (avail m) = ap (λ k. k ∷ []) (omega (arith, total-append xs (taken n ∷ [])))
      go (avail n) (taken m) = ap (λ k. k ∷ []) (omega (arith, total-append xs []))
      go (avail n) (avail m) = ap (λ k. k ∷ (k + n + s) ∷ []) (omega (arith, total-append xs []))

  pub regroup_after :
      (n : ℕ) → (before ++ avail n ∷ []) ++ behind ≡ xs ++ ((kept l ++ (avail n ∷ kept r)) ++ ys)
  regroup_after n =
      append_assoc before (avail n ∷ []) behind
      ∙ append_assoc xs (kept l) (avail n ∷ behind)
      ∙ ap (◌++◌ xs) (sym (append_assoc (kept l) (avail n ∷ kept r) ys))

module _ (h : Heap) (xs : List Block) (l : Block) (s : ℕ) (r : Block) (ys : List Block)
    (idxs : List ℕ) (i : IsHeap h (xs ++ l ∷ taken s ∷ r ∷ ys) idxs) where
  abbrev blocks : List Block
  blocks = xs ++ l ∷ taken s ∷ r ∷ ys

  abbrev at : ℕ
  at = total xs + words l

  abbrev from_left : List Block
  from_left = xs ++ l ∷ taken s ∷ []

  pub at_left-IsBlock : IsBlock h (total xs) l
  at_left-IsBlock = block_at h xs (taken s ∷ r ∷ ys) l i.linked.tiles i.linked.covers

  pub at_middle-IsBlock : IsBlock h at (taken s)
  at_middle-IsBlock =
      let e = sym (append_assoc xs (l ∷ []) (taken s ∷ r ∷ ys)) in
      subst (λ k. IsBlock h k (taken s))
        (let q : total (xs ++ l ∷ []) ≡ at = omega (arith, total-append xs (l ∷ [])) in q)
        (block_at h (xs ++ l ∷ []) (r ∷ ys) (taken s) (subst (Tiles h.array 0) e i.linked.tiles)
          (ap total (sym e) ∙ i.linked.covers))

  pub three : blocks ≡ from_left ++ r ∷ ys
  three = sym (append_assoc xs (l ∷ taken s ∷ []) (r ∷ ys))

  total-from_left : total from_left ≡ at + s
  total-from_left = omega (arith, total-append xs (l ∷ taken s ∷ []))

  pub at_right-IsBlock : IsBlock h (at + s) r
  at_right-IsBlock =
      subst (λ k. IsBlock h k r) total-from_left
        (block_at h from_left ys r (subst (Tiles h.array 0) three i.linked.tiles)
          (ap total (sym three) ∙ i.linked.covers))

  pub in_starts :
      (us : List Block) (b : Block) (vs : List Block) (y : ℕ)
      → has y (starts (total us) (b ∷ [])) ≡ true
      → has y (starts 0 (us ++ b ∷ vs)) ≡ true
  in_starts us b vs y m =
      let z : 0 + total us ≡ total us = omega arith in
      has-starts y 0 us (b ∷ vs) ∙ rw z (go b (has y (starts 0 us)) m)
    where
      go :
          (b : Block) (a : Bool)
          → has y (starts (total us) (b ∷ [])) ≡ true
          → (a || has y (starts (total us) (b ∷ vs))) ≡ true
      go (taken n) a k = absurd (cc)
      go (avail n) a k = ground arith

  -- The right neighbour is not the left one.
  beyond :
      (y : ℕ) → has y (starts (at + s) (r ∷ [])) ≡ true → has y (starts (total xs) (l ∷ [])) ≡ false
  beyond y = go l r (omega (arith, at_left-IsBlock.large, least_two l))
    where
      go :
          (b c : Block)
          → 0 < words b
          → has y (starts (total xs + words b + s) (c ∷ [])) ≡ true
          → has y (starts (total xs) (b ∷ [])) ≡ false
      go (taken n) c w m = refl
      go (avail n) (taken k) w m = absurd (cc)
      go (avail n) (avail k) w m = ground arith

  pub joined_left : Joined h blocks idxs (total xs) l
  joined_left =
      join-Joined h xs l (taken s ∷ r ∷ ys) idxs i.linked
        (λ y m. i.complete y (in_starts xs l (taken s ∷ r ∷ ys) y m))

  pub joined_right : Joined joined_left.after (from_left ++ r ∷ ys) joined_left.rest (at + s) r
  joined_right =
      subst (λ k. Joined joined_left.after (from_left ++ r ∷ ys) joined_left.rest k r)
        total-from_left
        (join-Joined joined_left.after from_left r ys joined_left.rest
          (subst (λ k. Linked joined_left.after k joined_left.rest) three joined_left.linked)
          (λ y m.
            joined_left.kept_rest y
              (i.complete y
                (subst (λ k. has y (starts 0 k) ≡ true) (sym three) (in_starts from_left r ys y m)))
              (beyond y (subst (λ k. has y (starts k (r ∷ [])) ≡ true) total-from_left m))))
