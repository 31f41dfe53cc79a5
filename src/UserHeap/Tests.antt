-- ===== src/UserHeap/Tests.antt =====
-- The allocator of user/heap.c on small heaps.
use p12_group.Base.{ℕ, ◌+◌, ◌≡◌, [], ◌∷◌, refl, arith, none, some}
use p12_group.Base.Int.{ℤ, pos}
use p12_group.Heap
use p12_group.Heap.{Heap, init, make_taken}
use p12_group.Heap.Blocks.{taken, avail}
use p12_group.Heap.Shape.{IsHeap}
use p12_group.Heap.Malloc.{Shaped}
use p12_group.Heap.Init.{init-IsHeap}
use p12_group.UserHeap.{malloc, realloc, low_bytes}
use p12_group.UserHeap.Calls.{outcome, malloc-outcome, realloc-full}

abbrev zeros : ℕ → ℤ
zeros i = pos 0

malloc-outcome_example :
    malloc (pos 8) (init 20 zeros) ≡ some (outcome (init 20 zeros) (Heap.malloc 8 (init 20 zeros)))
malloc-outcome_example =
    malloc-outcome (init 20 zeros) (taken 2 ∷ avail 16 ∷ taken 2 ∷ []) (2 ∷ []) 8
      (init-IsHeap 20 zeros (omega arith)) (omega arith) (omega arith)

-- Three taken blocks.
abbrev crowded : Heap
unfolding make_taken
crowded =
    make_taken 6 2 (make_taken 2 4 (make_taken 0 2 (record { array = zeros; len = 8; avail = 0 })))

crowded-IsHeap : IsHeap crowded (taken 2 ∷ taken 4 ∷ taken 2 ∷ []) []
unfolding crowded
crowded-IsHeap = record {
  linked = record {
    tiles = (omega arith, refl, refl, (omega arith, refl, refl, (omega arith, refl, refl, tt)));
    covers = refl;
    first = refl;
    links = tt;
    spaced = tt;
    within = λ y m. absurd (cc);
  };
  complete = λ y m. absurd (cc);
  number = refl;
}

is_full : Heap.malloc 100 crowded ≡ none
unfolding Heap.malloc crowded
is_full = refl

realloc-full_example :
    (h' : Heap) × (realloc (some (0 + 2 + 0 + 1)) 100 crowded ≡ some (none, h'))
    × Shaped h' (taken 2 ∷ avail (4 + 0 + 0) ∷ taken 2 ∷ [])
realloc-full_example =
    realloc-full crowded [] (taken 2) 4 (taken 2) [] [] 100 crowded-IsHeap (omega arith)
      (omega arith) (omega arith) is_full

-- Three bytes of an int are copied, the fourth stays.
copies_low : low_bytes 3 (pos 0x12345678) (pos 0x55aaaaaa) ≡ pos 0x55345678
copies_low = refl
