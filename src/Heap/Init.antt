-- ===== src/Heap/Init.antt =====
-- The heap that `Heap::init` of kernel/heap.cc makes.
use p12_group.Base.{ℕ, ◌+◌, ◌-◌, ◌≤◌, ◌≡◌, [], ◌∷◌, refl, subst, arith}
use p12_group.Base.Int.{ℤ}
use p12_group.Heap.{Heap, make_avail, make_taken, init}
use p12_group.Heap.Blocks.{taken, avail}
use p12_group.Heap.Shape.{IsHeap}
use p12_group.Heap.Gap.{Gap, make_taken-Gap}
use p12_group.Heap.Make.{Full, make_avail-Gap, taken-Full, avail-Full, close-Gap}

-- `init` on an array of at least eight ints makes a heap of three blocks: taken ones of two ints at
-- both ends, and an available one between them.
pub init-IsHeap :
    (len : ℕ) (array : ℕ → ℤ)
    → 8 ≤ len
    → IsHeap (init len array) (taken 2 ∷ avail (len - 4) ∷ taken 2 ∷ []) (2 ∷ [])
unfolding init
init-IsHeap len array u =
    let h0 : Heap = record { array = array; len = len; avail = 0 } in
    let g0 : Gap h0 [] len [] [] = record {
      left = tt;
      right = tt;
      covers = omega arith;
      first = refl;
      links = tt;
      spaced = tt;
      clear = λ y m. absurd (cc);
    } in
    let f0 : Full [] len [] [] = record { complete = λ y m. absurd (cc); number = omega arith } in
    let n = len - 4 in
    let g1 = make_taken-Gap h0 [] len [] [] 2 g0 (omega arith) (omega arith) in
    let f1 = taken-Full [] len [] [] 2 f0 (omega arith) in
    let g2 =
      make_avail-Gap (make_taken 0 2 h0) (taken 2 ∷ []) (len - 2) [] [] n g1 (omega arith)
        (omega arith) (omega arith) in
    let f2 = avail-Full (taken 2 ∷ []) (len - 2) [] [] n f1 (omega arith) in
    let g3 =
      make_taken-Gap (make_avail 2 n (make_taken 0 2 h0)) (taken 2 ∷ avail n ∷ []) (len - 2 - n) []
        (2 ∷ []) 2 g2 (omega arith) (omega arith) in
    let f3 = taken-Full (taken 2 ∷ avail n ∷ []) (len - 2 - n) [] (2 ∷ []) 2 f2 (omega arith) in
    let k =
      close-Gap _ (taken 2 ∷ avail n ∷ taken 2 ∷ []) (len - 2 - n - 2) [] (2 ∷ []) g3 f3
        (omega arith) in
    subst
      (λ i.
        IsHeap (make_taken i 2 (make_avail 2 n (make_taken 0 2 h0)))
          (taken 2 ∷ avail n ∷ taken 2 ∷ []) (2 ∷ []))
      (let q : 2 + (n + 0) ≡ len - 2 = omega arith in q) k
