-- ===== src/Heap/Join.antt =====
-- The steps of `free` of kernel/heap.cc at a block and its two neighbours, available or not.
use p12_group.Base.{
  ℕ, zero, suc, ◌+◌, ◌-◌, ◌<◌, ◌≡◌, ◌==◌, leb, true, false, List, [], ◌∷◌, ◌++◌, refl, ap, sym, ◌∙◌,
  has, arith, length, some,
}
use p12_group.Base.Int.{pos, neg, abs, sub_ℕ}
use p12_group.Heap.{Heap, sanity, size, left, right, is_avail, is_taken, join_left, join_right}
use p12_group.Heap.Blocks.{Block, taken, avail, words, total, starts}
use p12_group.Heap.Shape.{
  Linked, IsBlock, block_at, size-IsBlock, sanity-IsBlock, abs-tag, least_two,
}
use p12_group.Heap.Unlisted.{remove-Unlisted}
use p12_group.Heap.Malloc.{avail-is_avail, or_false}

-- The ints that a neighbour adds to a block that is freed, and what stays and what goes of it.
abbrev pub gained : Block → ℕ
gained (taken n) = 0
gained (avail n) = n

abbrev pub kept : Block → List Block
kept (taken n) = taken n ∷ []
kept (avail n) = []

abbrev pub joined : Block → List Block
joined (taken n) = []
joined (avail n) = avail n ∷ []

-- Where the block starts, if the block b at the index l is to the left of it, at the index idx.
abbrev pub merged_start : Block → ℕ → ℕ → ℕ
merged_start (taken n) l idx = idx
merged_start (avail n) l idx = l

neg-is_taken : (h : Heap) (i s : ℕ) → h.array i ≡ neg s → 0 < s → is_taken h i ≡ true
neg-is_taken h i zero e l = absurd (omega arith)
neg-is_taken h i (suc s) e l = rw (is_taken, e) refl

neg-is_avail : (h : Heap) (i s : ℕ) → h.array i ≡ neg s → is_avail h i ≡ false
neg-is_avail h i zero e = rw (is_avail, e) (ground arith)
neg-is_avail h i (suc s) e = rw (is_avail, e) refl

pub taken-is_taken : (h : Heap) (i s : ℕ) → IsBlock h i (taken s) → is_taken h i ≡ true
taken-is_taken h i s b = neg-is_taken h i s b.header (omega (arith, b.large))

start-sub : (j i w : ℕ) → suc j ≡ i + w → sub_ℕ (j + 1) w ≡ pos i
start-sub j i w e = rw (let l : leb w (j + 1) ≡ true = ground arith in l) (ap pos (omega arith))

-- The neighbours of a block.
pub left-IsBlock :
    (h : Heap) (i idx : ℕ) (b : Block) → IsBlock h i b → idx ≡ i + words b → left h idx ≡ some i
unfolding left
left-IsBlock h i zero b k e = absurd (omega (arith, k.large, least_two b))
left-IsBlock h i (suc j) b k e =
    let q : i + words b - 1 ≡ j = omega arith in
    let s : size h j ≡ words b = ap (size h) (sym q) ∙ ap abs k.footer ∙ abs-tag b k.large in
    rw s (ap (sanity h) (start-sub j i (words b) e) ∙ sanity-IsBlock h i b k)

pub right-IsBlock :
    (h : Heap) (idx : ℕ) (b : Block) (c : Block)
    → IsBlock h idx b
    → IsBlock h (idx + words b) c
    → right h idx ≡ some (idx + words b)
unfolding right
right-IsBlock h idx b c k m = rw (size-IsBlock h idx b k) (sanity-IsBlock h (idx + words b) c m)

-- The block b at the index x is off the list, if it was on it.
pub record Joined (h : Heap) (bs : List Block) (idxs : List ℕ) (x : ℕ) (b : Block) : Type 0 where
  pub after : Heap
  pub rest : List ℕ
  pub linked : Linked after bs rest
  pub kept_rest :
      (y : ℕ) → has y idxs ≡ true → has y (starts x (b ∷ [])) ≡ false → has y rest ≡ true
  pub left_out : (y : ℕ) → has y rest ≡ true → has y (starts x (b ∷ [])) ≡ false
  pub fewer : length idxs ≡ length (starts x (b ∷ [])) + length rest
  pub to_left :
      (idx sz : ℕ) → join_left x idx sz h ≡ some (merged_start b x idx, sz + gained b, after)
  pub to_right : (sz : ℕ) → join_right x sz h ≡ some (sz + gained b, after)
  pub smaller : (y : ℕ) → has y rest ≡ true → has y idxs ≡ true

pub join-Joined :
    (h : Heap) (xs : List Block) (b : Block) (ys : List Block) (idxs : List ℕ)
    → Linked h (xs ++ b ∷ ys) idxs
    → ((y : ℕ) → has y (starts (total xs) (b ∷ [])) ≡ true → has y idxs ≡ true)
    → Joined h (xs ++ b ∷ ys) idxs (total xs) b
unfolding join_left join_right
join-Joined h xs (taken n) ys idxs l m =
    let e = neg-is_avail h (total xs) n (block_at h xs ys (taken n) l.tiles l.covers).header in
    record {
      after = h;
      rest = idxs;
      linked = l;
      kept_rest = λ y k o. k;
      left_out = λ y k. refl;
      fewer = omega arith;
      to_left =
          λ idx sz. rw e (ap (λ k. some (idx, k, h)) (let q : sz ≡ sz + 0 = omega arith in q));
      to_right = λ sz. rw e (ap (λ k. some (k, h)) (let q : sz ≡ sz + 0 = omega arith in q));
      smaller = λ y k. k;
    }
join-Joined h xs (avail n) ys idxs l m =
    let k = block_at h xs ys (avail n) l.tiles l.covers in
    let e = avail-is_avail h (total xs) n k.header (omega (arith, k.large)) in
    let r =
      remove-Unlisted h (xs ++ avail n ∷ ys) idxs (total xs) l (m (total xs) (ground arith)) in
    let s =
      size-IsBlock r.after (total xs) (avail n)
        (block_at r.after xs ys (avail n) r.linked.tiles r.linked.covers) in
    record {
      after = r.after;
      rest = r.rest;
      linked = r.linked;
      kept_rest = λ y k o. r.kept y k (sym (or_false (y == total xs)) ∙ o);
      left_out = λ y k. or_false (y == total xs) ∙ r.left_out y k;
      fewer = omega (arith, r.fewer);
      to_left = λ idx sz. rw (e, r.removed, s) refl;
      to_right = λ sz. rw (e, r.removed, s) refl;
      smaller = r.among;
    }
