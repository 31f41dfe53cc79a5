-- ===== src/Heap/Carve.antt =====
-- What `malloc` of kernel/heap.cc makes of the block that it has taken off the list.
use p12_group.Base.{
  ℕ, ◌+◌, ◌-◌, ◌≤◌, ◌≡◌, ◌≢◌, inl, inr, ◌==◌, leb, if◌then◌else◌, true, false, List, [], ◌∷◌, ◌++◌,
  ap, ◌∙◌, subst, has, has-append, Bool-cases, arith, append_assoc,
}
use p12_group.Heap.{Heap, make_avail, make_taken, carve}
use p12_group.Heap.Blocks.{Block, taken, avail, total, total-append}
use p12_group.Heap.Spaced.{Far, Away-mem, Spaced}
use p12_group.Heap.Shape.{IsHeap}
use p12_group.Heap.Gap.{Gap, make_taken-Gap}
use p12_group.Heap.Make.{Full, make_avail-Gap, taken-Full, avail-Full, close-Gap}

-- What becomes of an available block of s ints, of which n are asked for.
abbrev pub carved : ℕ → ℕ → List Block
carved s n = if leb 4 (s - n) then taken n ∷ avail (s - n) ∷ [] else taken s ∷ []

pub mem-split :
    (x : ℕ) (idxs : List ℕ)
    → has x idxs ≡ true
    → (us : List ℕ) × (vs : List ℕ) × (idxs ≡ us ++ x ∷ vs)
mem-split x [] m = absurd (cc)
mem-split x (y ∷ idxs) m = elim (Bool-cases (x == y)) [
  | inl e ↦ ([], idxs, ap (λ k. k ∷ idxs) (let q : y ≡ x = ground arith in q))
  | inr e ↦ let (us, vs, q) = mem-split x idxs (ground arith) in (y ∷ us, vs, ap (◌∷◌ y) q)
]

Far-ne : (x y : ℕ) → Far x y → (y == x) ≡ false
Far-ne x y f = ground arith

-- Without the block x, the list holds the others.
pub without-mem :
    (x y : ℕ) (us vs : List ℕ)
    → Spaced (us ++ x ∷ vs)
    → has y (us ++ x ∷ vs) ≡ true
    → (y == x) ≡ false
    → has y (us ++ vs) ≡ true
without-mem x y us vs s m n = ground (arith, has-append y us (x ∷ vs), has-append y us vs)

pub without_self :
    (x : ℕ) (us vs : List ℕ)
    → Spaced (us ++ x ∷ vs)
    → (y : ℕ) → has y (us ++ vs) ≡ true
    → (y == x) ≡ false
without_self x [] vs s y m = Far-ne x y (Away-mem x y vs s.1 m)
without_self x (u ∷ us) vs s y m = elim (Bool-cases (y == u)) [
  | inl e ↦
      let far = Away-mem u x (us ++ x ∷ vs) s.1 (ground (arith, has-append x us (x ∷ vs))) in
      ground arith
  | inr e ↦ without_self x us vs s.2 y (ground arith)
]

pub carve-IsHeap :
    (h : Heap) (xs : List Block) (s : ℕ) (ys : List Block) (idxs : List ℕ) (n : ℕ)
    → Gap h xs s ys idxs
    → Full xs s ys idxs
    → 4 ≤ n
    → n ≤ s
    → total xs ≢ 0
    → (idxs' : List ℕ) × IsHeap (carve (total xs) s n h) (xs ++ (carved s n ++ ys)) idxs'
unfolding carve
carve-IsHeap h xs s ys idxs n g f l u z = elim (Bool-cases (leb 4 (s - n))) [
  | inl large ↦
      let p = total xs in
      let e : total (xs ++ taken n ∷ []) ≡ p + n = omega (arith, total-append xs (taken n ∷ [])) in
      let g2 = make_taken-Gap h xs s ys idxs n g u (omega arith) in
      let f2 = taken-Full xs s ys idxs n f u in
      let g3 =
        make_avail-Gap (make_taken p n h) (xs ++ taken n ∷ []) (s - n) ys idxs (s - n) g2
          (ground arith) (omega arith) (omega (arith, e)) in
      let f3 = avail-Full (xs ++ taken n ∷ []) (s - n) ys idxs (s - n) f2 (omega arith) in
      let k = close-Gap _ _ (s - n - (s - n)) ys _ g3 f3 (omega arith) in
      rw large (
        total (xs ++ taken n ∷ []) ∷ idxs,
        subst
            (λ t.
              IsHeap (make_avail t (s - n) (make_taken p n h))
                (xs ++ (taken n ∷ avail (s - n) ∷ ys)) (total (xs ++ taken n ∷ []) ∷ idxs))
            e
            (subst
              (λ bs.
                IsHeap (make_avail (total (xs ++ taken n ∷ [])) (s - n) (make_taken p n h)) bs
                  (total (xs ++ taken n ∷ []) ∷ idxs))
              (append_assoc (xs ++ taken n ∷ []) (avail (s - n) ∷ []) ys
                ∙ append_assoc xs (taken n ∷ []) (avail (s - n) ∷ ys))
              k),
      )
  | inr small ↦
      let g2 = make_taken-Gap h xs s ys idxs s g (omega arith) (omega arith) in
      let f2 = taken-Full xs s ys idxs s f (omega arith) in
      rw small (
        idxs,
        subst (λ bs. IsHeap (make_taken (total xs) s h) bs idxs) (append_assoc xs (taken s ∷ []) ys)
            (close-Gap _ _ (s - s) ys idxs g2 f2 (omega arith)),
      )
]
