-- ===== src/Heap/Tests.antt =====
-- The allocator of kernel/heap.cc on small heaps.
use p12_group.Base.{ℕ, ◌+◌, ◌≡◌, List, [], ◌∷◌, refl, arith, Option, none, some}
use p12_group.Base.Int.{ℤ, pos}
use p12_group.Heap.{Heap, init, malloc, free, ints_of, make_taken}
use p12_group.Heap.Blocks.{Block, taken, avail}
use p12_group.Heap.Shape.{IsHeap}
use p12_group.Heap.Malloc.{Mallocs, Shaped}
use p12_group.Heap.Allocate.{malloc-Mallocs}
use p12_group.Heap.Free.{free-Shaped}
use p12_group.Heap.Init.{init-IsHeap}
use p12_group.Heap.Settled.{free-malloc}

abbrev zeros : ℕ → ℤ
zeros i = pos 0

abbrev small : Heap
unfolding init
small = init 20 zeros

abbrev small_blocks : List Block
small_blocks = taken 2 ∷ avail 16 ∷ taken 2 ∷ []

small-IsHeap : IsHeap (init 20 zeros) small_blocks (2 ∷ [])
small-IsHeap = init-IsHeap 20 zeros (omega arith)

malloc-Mallocs_example :
    Mallocs (init 20 zeros) small_blocks (2 ∷ []) (ints_of 8) (malloc 8 (init 20 zeros))
malloc-Mallocs_example =
    malloc-Mallocs (init 20 zeros) small_blocks (2 ∷ []) 8 small-IsHeap (omega arith)

-- What a call leaves.
abbrev heap_of : Option (ℕ × Heap) → Heap
heap_of none = small
heap_of (some (p, h)) = h

abbrev index_of : Option (ℕ × Heap) → ℕ
index_of none = 0
index_of (some (p, h)) = p

returns : index_of (malloc 8 small) ≡ 3
unfolding malloc init
returns = refl

malloc-small : malloc 8 (init 20 zeros) ≡ some (3, heap_of (malloc 8 (init 20 zeros)))
unfolding malloc init
malloc-small = refl

free-malloc_example :
    (h'' : Heap) × (free (some 3) (heap_of (malloc 8 (init 20 zeros))) ≡ some h'')
    × Shaped h'' small_blocks
free-malloc_example =
    free-malloc (init 20 zeros) small_blocks (2 ∷ []) 8 3 (heap_of (malloc 8 (init 20 zeros)))
      small-IsHeap tt (omega arith) malloc-small

-- The count of bytes wraps when it is rounded up: the largest request is given the smallest block.
wraps : ints_of 0xffffffff ≡ 4
wraps = refl

-- Three taken blocks.
abbrev crowded : Heap
unfolding make_taken
crowded =
    make_taken 6 2 (make_taken 2 4 (make_taken 0 2 (record { array = zeros; len = 8; avail = 0 })))

crowded-IsHeap : IsHeap crowded (taken 2 ∷ taken 4 ∷ taken 2 ∷ []) []
unfolding crowded
crowded-IsHeap = record {
  linked = record {
    tiles = (omega arith, refl, refl, (omega arith, refl, refl, (omega arith, refl, refl, tt)));
    covers = refl;
    first = refl;
    links = tt;
    spaced = tt;
    within = λ y m. absurd (cc);
  };
  complete = λ y m. absurd (cc);
  number = refl;
}

free-Shaped_example :
    (h' : Heap) × (free (some (0 + 2 + 0 + 1)) crowded ≡ some h')
    × Shaped h' (taken 2 ∷ avail (4 + 0 + 0) ∷ taken 2 ∷ [])
free-Shaped_example =
    free-Shaped crowded [] (taken 2) 4 (taken 2) [] [] crowded-IsHeap (omega arith)
