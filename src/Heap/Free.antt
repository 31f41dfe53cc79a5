-- ===== src/Heap/Free.antt =====
-- `free` of kernel/heap.cc: the block is given back, and merged with the available ones beside it.
use p12_group.Base.{
  ℕ, suc, ◌+◌, ◌-◌, ◌≤◌, ◌≡◌, ◌≢◌, Bool, true, false, ◌||◌, List, [], ◌∷◌, ◌++◌, refl, ap, sym, ◌∙◌,
  subst, has, has-append, arith, length, length-append, some,
}
use p12_group.Heap.{Heap, make_avail, coalesce, free}
use p12_group.Heap.Blocks.{Block, taken, avail, words, least, total, starts, total-append}
use p12_group.Heap.Spaced.{Spaced-mem}
use p12_group.Heap.Shape.{Linked, IsHeap, size-IsBlock, sanity-IsBlock}
use p12_group.Heap.Make.{open-Gap, make_avail-Gap, avail-Full, close-Gap}
use p12_group.Heap.Unlisted.{rest-Full}
use p12_group.Heap.Malloc.{Shaped}
use p12_group.Heap.Join.{gained, kept, Joined, left-IsBlock, right-IsBlock, taken-is_taken}
use p12_group.Heap.Merge.{
  released, before, merged, behind, regroup, regroup_after, total-merged, total-before,
  starts-merged, at_left-IsBlock, at_middle-IsBlock, at_right-IsBlock, three, in_starts,
  joined_left, joined_right,
}

both_false : (a b : Bool) → (a || b) ≡ false → (a ≡ false) × (b ≡ false)
both_false a b e = (ground arith, ground arith)

module _ (h : Heap) (xs : List Block) (l : Block) (s : ℕ) (r : Block) (ys : List Block)
    (idxs : List ℕ) (i : IsHeap h (xs ++ l ∷ taken s ∷ r ∷ ys) idxs) where
  abbrev jl : Joined h (xs ++ l ∷ taken s ∷ r ∷ ys) idxs (total xs) l
  jl = joined_left h xs l s r ys idxs i

  abbrev jr :
      Joined jl.after ((xs ++ l ∷ taken s ∷ []) ++ r ∷ ys) jl.rest (total xs + words l + s) r
  jr = joined_right h xs l s r ys idxs i

  abbrev xs' : List Block
  xs' = before xs l s r ys

  abbrev ms : List Block
  ms = merged xs l s r ys

  abbrev ys' : List Block
  ys' = behind xs l s r ys

  abbrev at : ℕ
  at = total xs + words l

  coalesce_lem : coalesce at h ≡ some (make_avail (total xs') (total ms) jr.after)
  unfolding coalesce
  coalesce_lem =
      rw
        (
          left-IsBlock h (total xs) at l (at_left-IsBlock h xs l s r ys idxs i) refl,
          right-IsBlock h at (taken s) r (at_middle-IsBlock h xs l s r ys idxs i)
              (at_right-IsBlock h xs l s r ys idxs i),
          size-IsBlock h at (taken s) (at_middle-IsBlock h xs l s r ys idxs i),
          jl.to_left at s,
          jr.to_right (s + gained l),
          total-merged xs l s r ys,
          total-before xs l s r ys,
        )
        refl

  free_lem : free (some (at + 1)) h ≡ coalesce at h
  unfolding free
  free_lem =
      let e : at + 1 ≡ suc at = omega arith in
      let b = at_middle-IsBlock h xs l s r ys idxs i in
      rw (e, sanity-IsBlock h at (taken s) b, taken-is_taken h at s b) refl

  -- Both neighbours are off the list.
  rest_clear : (y : ℕ) → has y jr.rest ≡ true → has y (starts (total xs') ms) ≡ false
  rest_clear y m =
      ap (has y) (starts-merged xs l s r ys)
      ∙ has-append y (starts (total xs) (l ∷ [])) (starts (at + s) (r ∷ []))
      ∙ rw (jl.left_out y (jr.smaller y m), jr.left_out y m) refl

  rest_complete :
      (y : ℕ) → has y idxs ≡ true → has y (starts (total xs') ms) ≡ false → has y jr.rest ≡ true
  rest_complete y m o =
      let (p, q) =
        both_false (has y (starts (total xs) (l ∷ []))) (has y (starts (at + s) (r ∷ []))) (
          sym (has-append y (starts (total xs) (l ∷ [])) (starts (at + s) (r ∷ [])))
          ∙ sym (ap (has y) (starts-merged xs l s r ys))
          ∙ o) in
      jr.kept_rest y (jl.kept_rest y m p) q

  rest_number : length idxs ≡ length (starts (total xs') ms) + length jr.rest
  rest_number =
      let e = ap length (starts-merged xs l s r ys) in
      omega (
        arith,
        e,
        length-append (starts (total xs) (l ∷ [])) (starts (at + s) (r ∷ [])),
        jl.fewer,
        jr.fewer,
      )

  start_pos : total xs' ≢ 0
  start_pos =
      go l (at_left-IsBlock h xs l s r ys idxs i).large
        (λ y m. i.complete y (in_starts h xs l s r ys idxs i xs l (taken s ∷ r ∷ ys) y m))
    where
      go :
          (b : Block)
          → least b ≤ words b
          → ((y : ℕ) → has y (starts (total xs) (b ∷ [])) ≡ true → has y idxs ≡ true)
          → total (xs ++ kept b) ≢ 0
      go (taken n) w m = omega (arith, total-append xs (taken n ∷ []))
      go (avail n) w m = omega (
        arith,
        total-append xs [],
        Spaced-mem idxs (total xs) i.linked.spaced (m (total xs) (ground arith)),
      )

  made-IsHeap :
      4 ≤ total ms
      → IsHeap
          (make_avail (total xs') (total ms) jr.after)
          ((xs' ++ avail (total ms) ∷ []) ++ ys')
          (total xs' ∷ jr.rest)
  made-IsHeap u =
      let e = regroup xs l s r ys in
      let g =
        open-Gap jr.after xs' ms ys' jr.rest
          (subst (λ k. Linked jr.after k jr.rest) (sym (three h xs l s r ys idxs i) ∙ e) jr.linked)
          rest_clear in
      let f =
        rest-Full h xs' ms ys' idxs (subst (λ k. IsHeap h k idxs) e i) jr.rest rest_complete
          rest_number in
      close-Gap _ _ (total ms - total ms) ys' _
        (make_avail-Gap jr.after xs' (total ms) ys' jr.rest (total ms) g u (omega arith) start_pos)
        (avail-Full xs' (total ms) ys' jr.rest (total ms) f (omega arith)) (omega arith)

-- In a heap of blocks, `free` of the pointer to a taken block of at least four ints, which stands
-- between two blocks, succeeds: the heap has the blocks it had, but that the block is available and is
-- one block with each of its neighbours that was available.
pub free-Shaped :
    (h : Heap) (xs : List Block) (l : Block) (s : ℕ) (r : Block) (ys : List Block) (idxs : List ℕ)
    → IsHeap h (xs ++ l ∷ taken s ∷ r ∷ ys) idxs
    → 4 ≤ s
    → (h' : Heap) × (free (some (total xs + words l + 1)) h ≡ some h')
      × Shaped h' (xs ++ (released l s r ++ ys))
free-Shaped h xs l s r ys idxs i u =
    let e = total-merged xs l s r ys in
    let n = s + gained l + gained r in
    let k = made-IsHeap h xs l s r ys idxs i (omega (arith, e)) in
    (
      _,
      free_lem h xs l s r ys idxs i ∙ coalesce_lem h xs l s r ys idxs i,
      (
        _,
        subst
            (λ b.
              IsHeap
                (make_avail (total (before xs l s r ys)) (total (merged xs l s r ys))
                  (jr h xs l s r ys idxs i).after)
                b (total (before xs l s r ys) ∷ (jr h xs l s r ys idxs i).rest))
            (ap (λ m. (before xs l s r ys ++ avail m ∷ []) ++ behind xs l s r ys) e
              ∙ regroup_after xs l s r ys n)
            k,
      ),
    )
