-- ===== src/UserHeap/Calls.antt =====
-- `malloc` and `free` of user/heap.c on a heap of blocks do what those of kernel/heap.cc do.
use p12_group.Base.{
  ℕ, zero, suc, ◌+◌, ◌%◌, ◌^◌, ◌<◌, ◌≤◌, ◌≡◌, ◌≢◌, inl, inr, ◌==◌, leb, true, false, List, [], ◌∷◌,
  ◌++◌, refl, ap, sym, ◌∙◌, subst, has, has-append, Bool-cases, arith, length, append_assoc, Option,
  none, some, ne→==,
}
use p12_group.Base.Int.{pos}
use p12_group.Heap
use p12_group.Heap.{Heap, ◌>>=◌, is_avail, is_taken, size}
use p12_group.Heap.Blocks.{Block, taken, words, total}
use p12_group.Heap.Spaced.{Spaced-mem}
use p12_group.Heap.Links.{front}
use p12_group.Heap.Shape.{Linked, IsHeap, next-Linked}
use p12_group.Heap.Unlisted.{remove-Unlisted}
use p12_group.Heap.Malloc.{
  at_index, avail-is_avail, in_middle, end-first_fit, fit-first_fit, next-first_fit,
}
use p12_group.Heap.Allocate.{sanity-first, length-starts-total}
use p12_group.UserHeap.{
  next, remove, fit, first_fit, malloc, free, ints_of, copy_block, move_block, realloc,
}
use p12_group.Heap.Free
use p12_group.Heap.Malloc.{Shaped}
use p12_group.Heap.Merge.{released, at_middle-IsBlock}
use p12_group.Heap.Join.{taken-is_taken}
use p12_group.UserHeap.Agree.{Below, next-Below, remove-Below, carve_lem, free-Below}

-- What the user programs see of a call of the kernel's `malloc`: the null pointer for its panic.
abbrev pub outcome : Heap → Option (ℕ × Heap) → Option ℕ × Heap
outcome h none = (none, h)
outcome h (some (p, h')) = (some p, h')

module _ (fuel p n : ℕ) (h : Heap) where
  user-end : p ≡ 0 → first_fit (suc fuel) p n h ≡ some (none, h)
  unfolding first_fit
  user-end e = rw e refl

  user-fit : (p == 0) ≡ false → leb n (size h p) ≡ true → first_fit (suc fuel) p n h ≡ fit p n h
  unfolding first_fit
  user-fit e g = rw (e, g) refl

  user-next :
      (q : ℕ)
      → (p == 0) ≡ false
      → leb n (size h p) ≡ false
      → next h p ≡ some q
      → first_fit (suc fuel) p n h ≡ first_fit fuel q n h
  unfolding first_fit
  user-next q e g s = rw (e, g, s) refl

both_remove : (h h' : Heap) (w : ℕ) → Heap.remove w h ≡ some h' → remove w h ≡ some h'
both_remove h h' w e = subst (λ o. Below o (remove w h)) e (remove-Below h w)

both_next : (h : Heap) (w x : ℕ) → Heap.next h w ≡ some x → next h w ≡ some x
both_next h w x e = subst (λ o. Below o (next h w)) e (next-Below h w)

both_fit :
    (h h' : Heap) (w n : ℕ)
    → Heap.remove w h ≡ some h'
    → fit w n h ≡ some (outcome h (Heap.fit w n h))
unfolding fit Heap.fit
both_fit h h' w n e = rw (both_remove h h' w e, e, carve_lem w (size h w) n h') refl

module _ (h : Heap) (bs : List Block) (idxs : List ℕ) (n : ℕ) (i : IsHeap h bs idxs) where
  same_fit : (w : ℕ) → has w idxs ≡ true → fit w n h ≡ some (outcome h (Heap.fit w n h))
  same_fit w m = let r = remove-Unlisted h bs idxs w i.linked m in both_fit h r.after w n r.removed

  same_first_fit :
      (fuel : ℕ) (us ws : List ℕ)
      → idxs ≡ us ++ ws
      → length ws < fuel
      → first_fit fuel (front ws 0) n h ≡ some (outcome h (Heap.first_fit fuel (front ws 0) n h))
  same_first_fit zero us ws e f = absurd (omega arith)
  same_first_fit (suc fuel) us [] e f =
      rw (user-end fuel 0 n h refl, end-first_fit fuel 0 n h refl) refl
  same_first_fit (suc fuel) us (w ∷ ws) e f =
      let m : has w idxs ≡ true =
        ap (has w) e ∙ has-append w us (w ∷ ws) ∙ in_middle (has w us) w (has w ws) in
      let (xs, s, ys, q, p, b) = at_index h bs idxs w i.linked m in
      let z : (w == 0) ≡ false = ne→== w 0 (Spaced-mem idxs w i.linked.spaced m) in
      let a = avail-is_avail h w s b.header (omega (arith, b.large)) in
      elim (Bool-cases (leb n (size h w))) [
        | inl u ↦ rw (user-fit fuel w n h z u, fit-first_fit fuel w n h z a u) (same_fit w m)
        | inr u ↦
            let k = next-Linked h bs us ws w (subst (Linked h bs) e i.linked) in
            let k' = both_next h w (front ws 0) k in
            rw
              (
                user-next fuel w n h (front ws 0) z u k',
                next-first_fit fuel w n h (front ws 0) z a u k,
              )
              (same_first_fit fuel (us ++ w ∷ []) ws (e ∙ sym (append_assoc us (w ∷ []) ws))
                (omega arith))
      ]

user_malloc :
    (h : Heap) (n : ℕ)
    → n ≢ 0
    → malloc (pos n) h ≡ first_fit (h.len + 1) h.avail (ints_of (pos n)) h
unfolding malloc
user_malloc h n z = rw (ne→== n 0 z) refl

kernel_malloc :
    (h : Heap) (n q : ℕ)
    → n ≢ 0
    → n + 3 < 2 ^ 31
    → Heap.sanity h (pos h.avail) ≡ some q
    → Heap.malloc n h ≡ Heap.first_fit (h.len + 1) q (ints_of (pos n)) h
unfolding Heap.malloc
kernel_malloc h n q z l s =
    let e : (n + 3) % 2 ^ 32 ≡ n + 3 = omega arith in rw (ne→== n 0 z, s, e) refl

-- In a heap of blocks, for more than 0 and fewer than 2^31 - 3 bytes: the `malloc` of the user programs
-- ends, it returns the pointer and leaves the heap that the kernel's returns and leaves, and where that
-- one panics it returns the null pointer and leaves the heap as it is.
pub malloc-outcome :
    (h : Heap) (bs : List Block) (idxs : List ℕ) (bytes : ℕ)
    → IsHeap h bs idxs
    → bytes ≢ 0
    → bytes + 3 < 2 ^ 31
    → malloc (pos bytes) h ≡ some (outcome h (Heap.malloc bytes h))
malloc-outcome h bs idxs bytes i n l =
    let run =
      same_first_fit h bs idxs (ints_of (pos bytes)) i (h.len + 1) [] idxs refl (
        omega
          (arith, i.number, i.linked.covers, length-starts-total h.array 0 bs i.linked.tiles)) in
    user_malloc h bytes n
    ∙ ap (λ q. first_fit (h.len + 1) q (ints_of (pos bytes)) h) i.linked.first
    ∙ run
    ∙ ap (λ o. some (outcome h o))
        (sym (kernel_malloc h bytes (front idxs 0) n l (sanity-first h bs idxs i.linked)))

-- In a heap of blocks, the `free` of the user programs, of the pointer to a taken block of at least four
-- ints that stands between two blocks, does what the kernel's does: it leaves the heap with the blocks it
-- had, but that the block is available and is one block with each of its neighbours that was available.
pub free-Shaped :
    (h : Heap) (xs : List Block) (l : Block) (s : ℕ) (r : Block) (ys : List Block) (idxs : List ℕ)
    → IsHeap h (xs ++ l ∷ taken s ∷ r ∷ ys) idxs
    → 4 ≤ s
    → (h' : Heap) × (free (some (total xs + words l + 1)) h ≡ some h')
      × (Heap.free (some (total xs + words l + 1)) h ≡ some h')
      × Shaped h' (xs ++ (released l s r ++ ys))
free-Shaped h xs l s r ys idxs i u =
    let p = some (total xs + words l + 1) in
    let (h', e, k) = Heap.Free.free-Shaped h xs l s r ys idxs i u in
    (h', subst (λ o. Below o (free p h)) e (free-Below p h), e, k)

taken-realloc :
    (h h' : Heap) (p idx n : ℕ)
    → p ≡ suc idx
    → is_taken h idx ≡ true
    → malloc (pos (suc n)) h ≡ some (none, h)
    → free (some p) h ≡ some h'
    → realloc (some p) (suc n) h ≡ some (none, h')
unfolding realloc move_block copy_block
taken-realloc h h' zero idx n q t m f = absurd (omega arith)
taken-realloc h h' (suc p) idx n q t m f =
    let k : idx ≡ p = omega arith in
    let t' : is_taken h p ≡ true = ap (is_taken h) (sym k) ∙ t in rw (t', m, f) refl

-- In a heap of blocks, where the kernel's `malloc` of the new size would panic, for a new size of more
-- than 0 and fewer than 2^31 - 3 bytes: `realloc` of the pointer to a taken block of at least four ints
-- that stands between two blocks returns the null pointer, and the old block is no longer taken: the heap
-- has the blocks it had, but that this one is available and is one with each available neighbour.
pub realloc-full :
    (h : Heap) (xs : List Block) (l : Block) (s : ℕ) (r : Block) (ys : List Block) (idxs : List ℕ)
    (n : ℕ)
    → IsHeap h (xs ++ l ∷ taken s ∷ r ∷ ys) idxs
    → 4 ≤ s
    → n ≢ 0
    → n + 3 < 2 ^ 31
    → Heap.malloc n h ≡ none
    → (h' : Heap) × (realloc (some (total xs + words l + 1)) n h ≡ some (none, h'))
      × Shaped h' (xs ++ (released l s r ++ ys))
realloc-full h xs l s r ys idxs zero i u z b e = absurd (z refl)
realloc-full h xs l s r ys idxs (suc n) i u z b e =
    let (h', f, g, k) = free-Shaped h xs l s r ys idxs i u in
    let at = total xs + words l in
    let t = taken-is_taken h at s (at_middle-IsBlock h xs l s r ys idxs i) in
    let m = malloc-outcome h _ idxs (suc n) i z b ∙ ap (λ o. some (outcome h o)) e in
    (h', taken-realloc h h' (at + 1) at n (omega arith) t m f, k)
