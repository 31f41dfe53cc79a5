-- ===== src/Heap.antt =====
-- kernel/heap.cc: the first-fit allocator. The heap is an array of ints; a block has its size in its
-- first and its last int, negative if it is taken, and an available block keeps the indices of its
-- neighbours in the list of available blocks behind its first int. `none` is `Debug::panic`, or an
-- access in front of the array. `malloc` and `free` disable interrupts around the bodies below.
pub mod Blocks
pub mod Spaced
pub mod Links
pub mod Shape
pub mod Remove
pub mod Gap
pub mod Push
pub mod Make
pub mod Carve
pub mod Unlisted
pub mod Malloc
pub mod Allocate
pub mod Join
pub mod Merge
pub mod Free
pub mod Settled
pub mod Init
mod Tests
use p12_group.Base.{
  ℕ, zero, suc, ◌+◌, ◌-◌, ◌/◌, ◌%◌, ◌^◌, ◌==◌, ltb, leb, if◌then◌else◌, Bool, true, false, Option,
  none, some, update,
}
use p12_group.Base.Int.{ℤ, pos, negsuc, neg, abs, sub_ℕ, same}

pub record Heap : Type 0 where
  pub array : ℕ → ℤ
  pub len : ℕ
  pub avail : ℕ

infixl 5 ◌>>=◌
abbrev pub ◌>>=◌ : {A B : Type 0} → Option A → (A → Option B) → Option B
none >>= f = none
some a >>= f = f a

abbrev pub write : ℕ → ℤ → Heap → Heap
write i v h = record h { array = update h.array i v }

abbrev pub size : Heap → ℕ → ℕ
size h i = abs (h.array i)

abbrev pub header_from_footer : Heap → ℕ → ℤ
header_from_footer h i = sub_ℕ (i + 1) (size h i)

abbrev pub footer_from_header : Heap → ℕ → ℕ
footer_from_header h i = i + size h i - 1

unfoldable pub sanity : Heap → ℤ → Option ℕ
sanity h (negsuc i) = none
sanity h (pos i) =
    if i == 0
    then some 0
    else if leb h.len i
    then none
    else if leb h.len (footer_from_header h i)
    then none
    else if same (h.array i) (h.array (footer_from_header h i))
    then some i
    else none

-- `left(0)` would read in front of the array.
unfoldable pub left : Heap → ℕ → Option ℕ
unfolding sanity
left h zero = none
left h (suc i) = sanity h (header_from_footer h i)

unfoldable pub right : Heap → ℕ → Option ℕ
unfolding sanity
right h i = sanity h (pos (i + size h i))

unfoldable pub next : Heap → ℕ → Option ℕ
unfolding sanity
next h i = sanity h (h.array (i + 1))

unfoldable pub prev : Heap → ℕ → Option ℕ
unfolding sanity
prev h i = sanity h (h.array (i + 2))

abbrev pub set_next : ℕ → ℕ → Heap → Heap
set_next i x h = write (i + 1) (pos x) h

abbrev pub set_prev : ℕ → ℕ → Heap → Heap
set_prev i x h = write (i + 2) (pos x) h

-- `remove` once both neighbours are read.
unfoldable pub unlink : ℕ → ℕ → Heap → Heap
unlink p n h =
    let h1 = if p == 0 then record h { avail = n } else set_next p n h in
    if n == 0 then h1 else set_prev n p h1

unfoldable pub remove : ℕ → Heap → Option Heap
unfolding prev next unlink
remove i h = do p ← prev h i; n ← next h i; some (unlink p n h)

unfoldable pub make_avail : ℕ → ℕ → Heap → Heap
make_avail i ints h =
    let h1 = write i (pos ints) h in
    let h2 = write (footer_from_header h1 i) (pos ints) h1 in
    let h3 = set_prev i 0 (set_next i h2.avail h2) in
    let h4 = if h3.avail == 0 then h3 else set_prev h3.avail i h3 in record h4 { avail = i }

unfoldable pub make_taken : ℕ → ℕ → Heap → Heap
make_taken i ints h = let h1 = write i (neg ints) h in write (footer_from_header h1 i) (neg ints) h1

abbrev pub is_avail : Heap → ℕ → Bool
is_avail h i = elim (h.array i) [ pos n ↦ ltb 0 n | negsuc n ↦ false ]

abbrev pub is_taken : Heap → ℕ → Bool
is_taken h i = elim (h.array i) [ pos n ↦ false | negsuc n ↦ true ]

-- `Heap::init` for `len` ints.
unfoldable pub init : ℕ → (ℕ → ℤ) → Heap
unfolding make_avail make_taken
init len array =
    make_taken (len - 2) 2
      (make_avail 2 (len - 4) (make_taken 0 2 (record { array = array; len = len; avail = 0 })))

-- The block p of sz ints is taken from the list, and what it has beyond `ints`, if it is enough for a
-- block, is given back.
unfoldable pub carve : ℕ → ℕ → ℕ → Heap → Heap
unfolding make_avail make_taken
carve p sz ints h =
    if leb 4 (sz - ints)
    then make_avail (p + ints) (sz - ints) (make_taken p ints h)
    else make_taken p sz h

unfoldable pub fit : ℕ → ℕ → Heap → Option (ℕ × Heap)
unfolding remove carve
fit p ints h = do h' ← remove p h; some (p + 1, carve p (size h p) ints h')

-- The loop of `malloc` on fuel. At the end of the list it panics, the heap is full.
unfoldable pub first_fit : ℕ → ℕ → ℕ → Heap → Option (ℕ × Heap)
unfolding fit next
first_fit zero p ints h = none
first_fit (suc fuel) p ints h =
    let rest = next h p >>= (λ q. first_fit fuel q ints h) in
    if p == 0
    then none
    else if is_avail h p
    then if leb ints (size h p) then fit p ints h else rest
    else none

-- The ints of a block for so many bytes.
abbrev pub ints_of : ℕ → ℕ
ints_of bytes = let ints = (bytes + 3) % 2 ^ 32 / 4 + 2 in if ltb ints 4 then 4 else ints

-- The result is the index of the int that the pointer leads to; the free list is shorter than the
-- array, which is the fuel.
unfoldable pub malloc : ℕ → Heap → Option (ℕ × Heap)
unfolding first_fit sanity
malloc bytes h =
    if bytes == 0
    then some (0, h)
    else sanity h (pos h.avail) >>= λ p. first_fit (h.len + 1) p (ints_of bytes) h

-- `free` with the block and its neighbours.
unfoldable pub join_left : ℕ → ℕ → ℕ → Heap → Option (ℕ × ℕ × Heap)
unfolding remove
join_left l idx sz h =
    if is_avail h l then remove l h >>= (λ h'. some (l, sz + size h' l, h')) else some (idx, sz, h)

unfoldable pub join_right : ℕ → ℕ → Heap → Option (ℕ × Heap)
unfolding remove
join_right r sz h =
    if is_avail h r then remove r h >>= (λ h'. some (sz + size h' r, h')) else some (sz, h)

unfoldable pub coalesce : ℕ → Heap → Option Heap
unfolding left right join_left join_right make_avail
coalesce idx h = do
  l ← left h idx
  r ← right h idx
  (i, sz, h1) ← join_left l idx (size h idx) h
  (sz', h2) ← join_right r sz h1
  some (make_avail i sz' h2)

unfoldable pub release : ℕ → Heap → Option Heap
unfolding coalesce sanity
release idx h = sanity h (pos idx) >>= λ i. if is_taken h i then coalesce i h else none

-- `none` is the null pointer, and the start of the array is what `malloc(0)` returned.
unfoldable pub free : Option ℕ → Heap → Option Heap
unfolding release
free none h = some h
free (some zero) h = some h
free (some (suc idx)) h = release idx h
