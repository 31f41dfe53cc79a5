-- ===== src/UserHeap.antt =====
-- user/heap.c: the allocator of the user programs, which is that of kernel/heap.cc with the panics left
-- out. What reads or writes no heap of its own is taken from Heap. `none` is an access in front of the
-- array, which is undefined.
pub mod Agree
pub mod Calls
mod Tests
use p12_group.Base.{
  ℕ, zero, suc, ◌+◌, ◌-◌, ◌*◌, ◌/◌, ◌%◌, ◌^◌, ◌==◌, ltb, leb, if◌then◌else◌, Bool, true, false,
  Option, none, some, ◌&&◌,
}
use p12_group.Base.Int.{ℤ, pos, negsuc, neg}
use p12_group.Heap.{
  Heap, size, header_from_footer, footer_from_header, set_next, set_prev, write, is_avail, is_taken,
  ◌>>=◌,
}

abbrev pub total_ints : ℕ
total_ints = 0x100000

-- An index that is read or written; every value of `sanity` is the index that it is given.
unfoldable pub sanity : ℤ → Option ℕ
sanity (negsuc i) = none
sanity (pos i) = some i

unfoldable pub left : Heap → ℕ → Option ℕ
unfolding sanity
left h zero = none
left h (suc i) = sanity (header_from_footer h i)

unfoldable pub right : Heap → ℕ → Option ℕ
unfolding sanity
right h i = sanity (pos (i + size h i))

unfoldable pub next : Heap → ℕ → Option ℕ
unfolding sanity
next h i = sanity (h.array (i + 1))

unfoldable pub prev : Heap → ℕ → Option ℕ
unfolding sanity
prev h i = sanity (h.array (i + 2))

unfoldable pub unlink : ℕ → ℕ → Heap → Heap
unlink p n h =
    let h1 = if p == 0 then record h { avail = n } else set_next p n h in
    if n == 0 then h1 else set_prev n p h1

unfoldable pub remove : ℕ → Heap → Option Heap
unfolding prev next unlink
remove i h = do p ← prev h i; n ← next h i; some (unlink p n h)

unfoldable pub make_avail : ℕ → ℕ → Heap → Heap
make_avail i ints h =
    let h1 = write i (pos ints) h in
    let h2 = write (footer_from_header h1 i) (pos ints) h1 in
    let h3 = set_prev i 0 (set_next i h2.avail h2) in
    let h4 = if h3.avail == 0 then h3 else set_prev h3.avail i h3 in record h4 { avail = i }

unfoldable pub make_taken : ℕ → ℕ → Heap → Heap
make_taken i ints h = let h1 = write i (neg ints) h in write (footer_from_header h1 i) (neg ints) h1

-- The array is the program's own: its ints are zero at the start.
unfoldable pub heap_init : Heap
unfolding make_avail make_taken
heap_init = make_taken (total_ints - 2) 2 (
    make_avail 2 (total_ints - 4)
      (make_taken 0 2 (record { array = λ i. pos 0; len = total_ints; avail = 0 })))

unfoldable pub carve : ℕ → ℕ → ℕ → Heap → Heap
unfolding make_avail make_taken
carve p sz ints h =
    if leb 4 (sz - ints)
    then make_avail (p + ints) (sz - ints) (make_taken p ints h)
    else make_taken p sz h

unfoldable pub fit : ℕ → ℕ → Heap → Option (Option ℕ × Heap)
unfolding remove carve
fit p ints h = do h' ← remove p h; some (some (p + 1), carve p (size h p) ints h')

-- The loop of `malloc` on fuel, a block that is not available among those it takes; the null pointer is
-- `none`. Out of fuel, the list has a cycle, and the source does not return.
unfoldable pub first_fit : ℕ → ℕ → ℕ → Heap → Option (Option ℕ × Heap)
unfolding fit next
first_fit zero p ints h = none
first_fit (suc fuel) p ints h =
    let rest = next h p >>= (λ q. first_fit fuel q ints h) in
    if p == 0 then some (none, h) else if leb ints (size h p) then fit p ints h else rest

-- The ints of a block for so many bytes, a `long`; division of a negative number rounds towards 0.
abbrev pub ints_of : ℤ → ℕ
ints_of (pos n) = let ints = (n + 3) / 4 + 2 in if ltb ints 4 then 4 else ints
ints_of (negsuc n) = 4

abbrev pub is_zero : ℤ → Bool
is_zero (pos n) = n == 0
is_zero (negsuc n) = false

unfoldable pub malloc : ℤ → Heap → Option (Option ℕ × Heap)
unfolding first_fit
malloc bytes h =
    if is_zero bytes then some (some 0, h) else first_fit (h.len + 1) h.avail (ints_of bytes) h

unfoldable pub join_left : ℕ → ℕ → ℕ → Heap → Option (ℕ × ℕ × Heap)
unfolding remove
join_left l idx sz h =
    if is_avail h l then remove l h >>= (λ h'. some (l, sz + size h' l, h')) else some (idx, sz, h)

unfoldable pub join_right : ℕ → ℕ → Heap → Option (ℕ × Heap)
unfolding remove
join_right r sz h =
    if is_avail h r then remove r h >>= (λ h'. some (sz + size h' r, h')) else some (sz, h)

unfoldable pub coalesce : ℕ → Heap → Option Heap
unfolding left right join_left join_right make_avail
coalesce idx h = do
  l ← left h idx
  r ← right h idx
  (i, sz, h1) ← join_left l idx (size h idx) h
  (sz', h2) ← join_right r sz h1
  some (make_avail i sz' h2)

-- A block that is free already is left alone.
unfoldable pub free : Option ℕ → Heap → Option Heap
unfolding coalesce
free none h = some h
free (some zero) h = some h
free (some (suc idx)) h = if is_taken h idx then coalesce idx h else some h

-- An int as its 32 bits, and the int with k of its low bytes from another one.
abbrev pub word_of : ℤ → ℕ
word_of (pos n) = n
word_of (negsuc n) = 2 ^ 32 - 1 - n

abbrev pub int_of : ℕ → ℤ
int_of w = if ltb w (2 ^ 31) then pos w else negsuc (2 ^ 32 - 1 - w)

abbrev pub low_bytes : ℕ → ℤ → ℤ → ℤ
low_bytes k new old = int_of (word_of old / 256 ^ k * 256 ^ k + word_of new % 256 ^ k)

-- `memcpy` of m bytes between two places of the array that do not overlap.
unfoldable pub memcpy : ℕ → ℕ → ℕ → Heap → Heap
memcpy dest src m h = record h {
  array = λ i.
      let k = i - dest in
      if leb dest i && ltb (4 * k) m
      then (if leb (4 * k + 4) m
          then h.array (src + k)
          else low_bytes (m % 4) (h.array (src + k)) (h.array i))
      else h.array i;
}

-- The end of `realloc` for the block of sz bytes whose pointer is p: the old block is freed, whether there
-- is a new one or not. The size is a `long`, of which the smaller one is copied.
unfoldable pub copy_block : ℕ → ℕ → ℕ → Option ℕ × Heap → Heap
unfolding memcpy
copy_block p sz new_size (none, h) = h
copy_block p sz new_size (some q, h) = memcpy q p (if ltb sz new_size then sz else new_size) h

unfoldable pub move_block : ℕ → ℕ → ℕ → Heap → Option (Option ℕ × Heap)
unfolding malloc copy_block free
move_block p sz new_size h = do
  r ← malloc (pos new_size) h
  h' ← free (some p) (copy_block p sz new_size r)
  some (r.0, h')

-- `realloc` for a size that is not negative.
unfoldable pub realloc : Option ℕ → ℕ → Heap → Option (Option ℕ × Heap)
unfolding malloc free move_block
realloc none new_size h = malloc (pos new_size) h
realloc (some p) zero h = free (some p) h >>= (λ h'. some (none, h'))
realloc (some zero) (suc n) h = none
realloc (some (suc idx)) (suc n) h =
    if is_taken h idx then move_block (suc idx) (size h idx * 4) (suc n) h else some (none, h)
