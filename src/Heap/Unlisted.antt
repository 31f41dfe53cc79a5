-- ===== src/Heap/Unlisted.antt =====
-- A block of the heap of kernel/heap.cc that `remove` takes off the list, and the gap that the blocks
-- between two others leave once none of them is in the list.
use p12_group.Base.{
  ℕ, suc, ◌+◌, ◌≡◌, inl, inr, ◌==◌, Bool, true, false, ◌||◌, List, ◌∷◌, ◌++◌, refl, ap, sym, ◌∙◌,
  subst, has, has-append, Bool-cases, arith, length, length-append, some,
}
use p12_group.Heap.{Heap, remove}
use p12_group.Heap.Blocks.{Block, total, Tiles, Tiles-split, starts, starts-bounds}
use p12_group.Heap.Shape.{Linked, IsHeap}
use p12_group.Heap.Remove.{remove-Linked}
use p12_group.Heap.Make.{Full, has-starts, length-starts}
use p12_group.Heap.Carve.{mem-split, without-mem, without_self}

-- What `remove` of the block x leaves of the list idxs.
pub record Unlisted (h : Heap) (bs : List Block) (idxs : List ℕ) (x : ℕ) : Type 0 where
  pub after : Heap
  pub rest : List ℕ
  pub removed : remove x h ≡ some after
  pub linked : Linked after bs rest
  pub kept : (y : ℕ) → has y idxs ≡ true → (y == x) ≡ false → has y rest ≡ true
  pub left_out : (y : ℕ) → has y rest ≡ true → (y == x) ≡ false
  pub among : (y : ℕ) → has y rest ≡ true → has y idxs ≡ true
  pub fewer : length idxs ≡ suc (length rest)
  pub len : after.len ≡ h.len

more :
    (y : ℕ) (us : List ℕ) (x : ℕ) (vs : List ℕ)
    → has y (us ++ vs) ≡ true
    → has y (us ++ x ∷ vs) ≡ true
more y us x vs k = ground (arith, has-append y us (x ∷ vs), has-append y us vs)

pub remove-Unlisted :
    (h : Heap) (bs : List Block) (idxs : List ℕ) (x : ℕ)
    → Linked h bs idxs
    → has x idxs ≡ true
    → Unlisted h bs idxs x
remove-Unlisted h bs idxs x l m =
    let (us, vs, e) = mem-split x idxs m in
    let l' = subst (Linked h bs) e l in
    let (h', r, k, n) = remove-Linked h bs us vs x l' in
    record {
      after = h';
      rest = us ++ vs;
      removed = r;
      linked = k;
      kept = λ y i o. without-mem x y us vs l'.spaced (sym (ap (has y) e) ∙ i) o;
      left_out = without_self x us vs l'.spaced;
      among = λ y k. ap (has y) e ∙ more y us x vs k;
      fewer = ap length e ∙ omega (arith, length-append us (x ∷ vs), length-append us vs);
      len = n;
    }

module _ (h : Heap) (xs ms ys : List Block) (idxs : List ℕ)
    (i : IsHeap h (xs ++ (ms ++ ys)) idxs) where
  abbrev p : ℕ
  p = total xs

  -- The blocks beside ms are none of ms.
  apart :
      (y : ℕ)
      → (has y (starts 0 xs) || has y (starts (p + total ms) ys)) ≡ true
      → has y (starts p ms) ≡ false
  apart y m =
      let z : 0 + total xs ≡ total xs = omega arith in
      let (t, u) = Tiles-split h.array 0 xs (ms ++ ys) i.linked.tiles in
      let (v, w) = Tiles-split h.array p ms ys (subst (λ k. Tiles h.array k (ms ++ ys)) z u) in
      elim (Bool-cases (has y (starts p ms))) [
        | inr o ↦ o
        | inl o ↦
            let among = starts-bounds y p ms o h.array v in
            elim (Bool-cases (has y (starts 0 xs))) [
              | inl a ↦ absurd (omega (arith, starts-bounds y 0 xs a h.array t))
              | inr a ↦
                  absurd (omega (arith, starts-bounds y (p + total ms) ys (ground arith) h.array w))
            ]
      ]

  starts_three :
      (y : ℕ)
      → has y (starts 0 (xs ++ (ms ++ ys)))
        ≡ (has y (starts 0 xs) || (has y (starts p ms) || has y (starts (p + total ms) ys)))
  starts_three y =
      let z : 0 + total xs ≡ total xs = omega arith in
      has-starts y 0 xs (ms ++ ys) ∙ rw (z, has-starts y p ms ys) refl

  length_three :
      length (starts 0 (xs ++ (ms ++ ys)))
      ≡ length (starts 0 xs) + (length (starts p ms) + length (starts (p + total ms) ys))
  length_three =
      let z : 0 + total xs ≡ total xs = omega arith in
      length-starts 0 xs (ms ++ ys) ∙ rw (z, length-starts p ms ys) refl

  -- A list without the blocks of ms holds the blocks beside them.
  pub rest-Full :
      (rest : List ℕ)
      → ((y : ℕ) → has y idxs ≡ true → has y (starts p ms) ≡ false → has y rest ≡ true)
      → length idxs ≡ length (starts p ms) + length rest
      → Full xs (total ms) ys rest
  rest-Full rest k n = record {
    complete = λ y m.
        k y
          (i.complete y (
            starts_three y
            ∙ beside (has y (starts 0 xs)) (has y (starts p ms)) (has y (starts (p + total ms) ys))
                m))
          (apart y m);
    number = omega (arith, n, i.number, length_three);
  }
    where
      beside : (a b c : Bool) → (a || c) ≡ true → (a || (b || c)) ≡ true
      beside a b c m = ground arith
