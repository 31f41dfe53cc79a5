-- ===== src/Fat/Alloc.antt =====
-- The free list of the file system under `remNextAvail`, `addAvailBlk` and `setNextBlk` of
-- kernel/fs.cc, against a list of block numbers.
use p12_group.Base.{
  has, Distinct, Disjoint, Distinct-append, ℕ, ◌<◌, ◌≡◌, ◌≢◌, refl, false, List, [], ◌∷◌, ◌++◌,
  arith, length, update, update_self, update_ne, some,
}
use p12_group.Fat.{
  Fat439, with_avail, add_avail_blk, rem_next_avail, set_next_blk, next_blk, chain_end,
}
use p12_group.Fat.Chains.{Chain, last_of, chain_end_lem, Chain-append, Chain-update}

-- The free blocks, in the order in which they are handed out.
abbrev pub FreeList : Fat439 → List ℕ → Type 0
FreeList fs xs = Chain fs.fat fs.super.avail xs × Distinct xs

taken :
    (fs : Fat439) (x : ℕ) (xs : List ℕ)
    → FreeList fs (x ∷ xs)
    → rem_next_avail fs ≡ (x, with_avail fs (fs.fat x) (update fs.fat x 0))
unfolding rem_next_avail
taken fs x xs (c, d) = ground arith

-- With a free block, `remNextAvail` returns the first one: it leaves the free list, its own chain
-- is just itself, and every other entry of the table stays.
pub rem_next_avail_some :
    (fs : Fat439) (x : ℕ) (xs : List ℕ)
    → FreeList fs (x ∷ xs)
    → ((rem_next_avail fs).0 ≡ x)
      × FreeList (rem_next_avail fs).1 xs
      × Chain (rem_next_avail fs).1.fat x (x ∷ [])
      × ((b : ℕ) → b ≢ x → (rem_next_avail fs).1.fat b ≡ fs.fat b)
rem_next_avail_some fs x xs (c, d) = rw (taken fs x xs (c, d)) (
  refl,
  (Chain-update fs.fat x 0 (fs.fat x) xs d.0 c.2, d.1),
  (refl, c.1, update_self fs.fat x 0),
  λ b h. update_ne fs.fat x b 0 h,
)

-- With none, 0 is returned and nothing changes.
pub rem_next_avail_none : (fs : Fat439) → FreeList fs [] → rem_next_avail fs ≡ (0, fs)
unfolding rem_next_avail
rem_next_avail_none fs (c, d) = ground arith

-- For a chain of distinct blocks that has an end, shares no block with the free list, and is no
-- longer than the table: `addAvailBlk` of its first block ends, and the free list is then the
-- chain's blocks, in order, before those that were free.
pub add_avail_blk-FreeList :
    (fs : Fat439) (blk : ℕ) (ys xs : List ℕ)
    → FreeList fs xs
    → Chain fs.fat blk (blk ∷ ys)
    → Distinct (blk ∷ ys)
    → Disjoint (blk ∷ ys) xs
    → length ys < fs.super.n_blocks
    → (fs' : Fat439) × (add_avail_blk fs blk ≡ some fs') × FreeList fs' (blk ∷ ys ++ xs)
unfolding add_avail_blk
add_avail_blk-FreeList fs blk ys xs (c, d) k e j n =
    let fs' = with_avail fs blk (update fs.fat (last_of blk ys) fs.super.avail) in
    let ends : chain_end fs.super.n_blocks fs.fat blk ≡ some (last_of blk ys) =
      chain_end_lem fs.super.n_blocks fs.fat blk ys n k.2 in
    (
      fs',
      rw (ends, add_avail_blk) refl,
      (Chain-append fs.fat blk ys fs.super.avail xs k e j c, Distinct-append (blk ∷ ys) xs e d j),
    )

-- In a table with at least one block, a block that `remNextAvail` took and `addAvailBlk` gives
-- back is the first free block again, and the free list is the one before.
pub add_avail_blk-rem_next_avail :
    (fs : Fat439) (x : ℕ) (xs : List ℕ)
    → FreeList fs (x ∷ xs)
    → 0 < fs.super.n_blocks
    → (fs' : Fat439) × (add_avail_blk (rem_next_avail fs).1 x ≡ some fs') × FreeList fs' (x ∷ xs)
add_avail_blk-rem_next_avail fs x xs f n =
    let (_, rest, own, _) = rem_next_avail_some fs x xs f in
    add_avail_blk-FreeList (rem_next_avail fs).1 x [] xs rest own (refl, tt)
      (λ a h. ground (arith, f.1.0)) (rw (taken fs x xs f) n)

-- `write` takes a block x with `remNextAvail` and links it behind `blk`, which is not free, with
-- `setNextBlk`: but the end mark of x is copied, so that `blk` is followed by no block, and x is
-- not on the free list either, which is the rest.
pub set_next_blk-lost :
    (fs : Fat439) (x : ℕ) (xs : List ℕ) (blk : ℕ)
    → FreeList fs (x ∷ xs)
    → has blk xs ≡ false
    → (next_blk (set_next_blk (rem_next_avail fs).1 blk x) blk ≡ 0)
      × FreeList (set_next_blk (rem_next_avail fs).1 blk x) xs
unfolding set_next_blk next_blk
set_next_blk-lost fs x xs blk f o =
    let (_, rest, own, _) = rem_next_avail_some fs x xs f in
    (
      rw (update_self (rem_next_avail fs).1.fat blk ((rem_next_avail fs).1.fat x)) own.2,
      (Chain-update (rem_next_avail fs).1.fat blk _ _ xs o rest.0, rest.1),
    )
