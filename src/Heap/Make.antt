-- ===== src/Heap/Make.antt =====
-- `makeTaken` and `makeAvail` of kernel/heap.cc in a gap, and how a gap opens and closes.
use p12_group.Base.{
  ℕ, ◌+◌, ◌-◌, ◌≤◌, ◌≡◌, ◌≢◌, inl, inr, ◌==◌, Bool, true, false, ◌||◌, List, [], ◌∷◌, ◌++◌, refl,
  ap, sym, ◌∙◌, subst, has, has-append, Bool-cases, update, update_self, update_ne, arith, length,
  length-append, append-nil,
}
use p12_group.Base.Int.{pos}
use p12_group.Heap.{Heap, write, set_next, set_prev, make_avail}
use p12_group.Heap.Blocks.{
  Block, taken, avail, words, total, Tiles, starts, total-append, Tiles-split, Tiles-append,
}
use p12_group.Heap.Links.{backward}
use p12_group.Heap.Shape.{Linked, IsHeap}
use p12_group.Heap.Gap.{Gap, write-Gap, tags-Gap, starts-append, tagged}
use p12_group.Heap.Push.{push-Gap}

-- The array with the tags and the links of a new block.
abbrev made : Heap → ℕ → ℕ → Heap
made h p n = set_prev p 0 (set_next p h.avail (write (p + n - 1) (pos n) (write p (pos n) h)))

make_avail_lem :
    (p n : ℕ) (h : Heap)
    → make_avail p n h
      ≡ record { array = backward (made h p n).array p h.avail; len = h.len; avail = p }
unfolding make_avail
make_avail_lem p n h = elim (Bool-cases (h.avail == 0)) [
  | inl e ↦ rw (e, tagged h p n (pos n) refl) refl
  | inr e ↦ rw (e, tagged h p n (pos n) refl) refl
]

-- `makeAvail` at the start of the gap, which is not the start of the array.
pub make_avail-Gap :
    (h : Heap) (xs : List Block) (s : ℕ) (ys : List Block) (idxs : List ℕ) (n : ℕ)
    → Gap h xs s ys idxs
    → 4 ≤ n
    → n ≤ s
    → total xs ≢ 0
    → Gap (make_avail (total xs) n h) (xs ++ avail n ∷ []) (s - n) ys (total xs ∷ idxs)
make_avail-Gap h xs s ys idxs n g l u z =
    let p = total xs in
    let h2 = write (p + n - 1) (pos n) (write p (pos n) h) in
    let g2 = tags-Gap h xs s ys idxs n g u (pos n) (omega arith) in
    let g3 = write-Gap h2 xs s ys idxs (p + 1) (pos h.avail) g2 (omega arith) (omega arith) in
    let g4 =
      write-Gap (set_next p h.avail h2) xs s ys idxs (p + 2) (pos 0) g3 (omega arith)
        (omega arith) in
    let a1 = update h.array p (pos n) in
    let a2 = h2.array in
    let a3 = update a2 (p + 1) (pos h.avail) in
    subst (λ k. Gap k (xs ++ avail n ∷ []) (s - n) ys (p ∷ idxs)) (sym (make_avail_lem p n h))
      (subst
        (λ v.
          Gap (record { array = backward (made h p n).array p v; len = h.len; avail = p })
            (xs ++ avail n ∷ []) (s - n) ys (p ∷ idxs))
        (sym g.first)
        (push-Gap (made h p n).array h.len xs s ys idxs
          (subst
            (λ v. Gap (record { array = (made h p n).array; len = h.len; avail = v }) xs s ys idxs)
            g.first g4)
          n l u z
          (update_ne a3 (p + 2) p (pos 0) (omega arith)
            ∙ update_ne a2 (p + 1) p (pos h.avail) (omega arith)
            ∙ update_ne a1 (p + n - 1) p (pos n) (omega arith)
            ∙ update_self h.array p (pos n))
          (update_ne a3 (p + 2) (p + n - 1) (pos 0) (omega arith)
            ∙ update_ne a2 (p + 1) (p + n - 1) (pos h.avail) (omega arith)
            ∙ update_self a1 (p + n - 1) (pos n))
          (update_ne a3 (p + 2) (p + 1) (pos 0) (omega arith)
            ∙ update_self a2 (p + 1) (pos h.avail)
            ∙ ap pos g.first)
          (update_self a3 (p + 2) (pos 0))))

-- The list holds each available block beside the gap.
pub record Full (xs : List Block) (s : ℕ) (ys : List Block) (idxs : List ℕ) : Type 0 where
  pub complete :
      (y : ℕ) → (has y (starts 0 xs) || has y (starts (total xs + s) ys)) ≡ true → has y idxs ≡ true
  pub number : length idxs ≡ length (starts 0 xs) + length (starts (total xs + s) ys)

pub has-starts :
    (y i : ℕ) (xs ys : List Block)
    → has y (starts i (xs ++ ys)) ≡ (has y (starts i xs) || has y (starts (i + total xs) ys))
has-starts y i xs ys =
    rw (starts-append i xs ys) (has-append y (starts i xs) (starts (i + total xs) ys))

pub length-starts :
    (i : ℕ) (xs ys : List Block)
    → length (starts i (xs ++ ys)) ≡ length (starts i xs) + length (starts (i + total xs) ys)
length-starts i xs ys =
    rw (starts-append i xs ys) (length-append (starts i xs) (starts (i + total xs) ys))

next_gap :
    (xs : List Block) (b : Block) (s : ℕ)
    → words b ≤ s
    → total xs + s ≡ total (xs ++ b ∷ []) + (s - words b)
next_gap xs b s u = omega (arith, total-append xs (b ∷ []))

pub taken-Full :
    (xs : List Block) (s : ℕ) (ys : List Block) (idxs : List ℕ) (n : ℕ)
    → Full xs s ys idxs
    → n ≤ s
    → Full (xs ++ taken n ∷ []) (s - n) ys idxs
taken-Full xs s ys idxs n f u =
    let e = next_gap xs (taken n) s u in
    let same_list : starts 0 (xs ++ taken n ∷ []) ≡ starts 0 xs =
      starts-append 0 xs (taken n ∷ []) ∙ append-nil (starts 0 xs) in
    record {
      complete = λ y. rw (same_list, sym e) (f.complete y);
      number = rw (same_list, sym e) f.number;
    }

pub avail-Full :
    (xs : List Block) (s : ℕ) (ys : List Block) (idxs : List ℕ) (n : ℕ)
    → Full xs s ys idxs
    → n ≤ s
    → Full (xs ++ avail n ∷ []) (s - n) ys (total xs ∷ idxs)
avail-Full xs s ys idxs n f u =
    let e = next_gap xs (avail n) s u in
    let z : 0 + total xs ≡ total xs = omega arith in
    record {
      complete = λ y.
          rw (sym e, has-starts y 0 xs (avail n ∷ []), z)
            (regroup y (total xs) (has y (starts 0 xs)) (has y (starts (total xs + s) ys))
              (has y idxs) (f.complete y));
      number = rw (sym e) (omega (arith, length-starts 0 xs (avail n ∷ []), f.number));
    }
  where
    regroup :
        (y p : ℕ) (a c m : Bool)
        → ((a || c) ≡ true → m ≡ true)
        → ((a || (y == p || false)) || c) ≡ true
        → (y == p || m) ≡ true
    regroup y p a c m h = ground (arith, h)

-- A gap of no ints is none.
pub close-Gap :
    (h : Heap) (xs : List Block) (s : ℕ) (ys : List Block) (idxs : List ℕ)
    → Gap h xs s ys idxs
    → Full xs s ys idxs
    → s ≡ 0
    → IsHeap h (xs ++ ys) idxs
close-Gap h xs s ys idxs g f z =
    let e : total xs + s ≡ 0 + total xs = omega arith in
    record {
      linked = record {
        tiles = Tiles-append h.array 0 xs ys g.left (subst (λ k. Tiles h.array k ys) e g.right);
        covers = omega (arith, total-append xs ys, g.covers);
        first = g.first;
        links = g.links;
        spaced = g.spaced;
        within = λ y m.
            has-starts y 0 xs ys
            ∙ subst (λ k. (has y (starts 0 xs) || has y (starts k ys)) ≡ true) e (g.clear y m);
      };
      complete = λ y m. f.complete y (
          subst (λ k. (has y (starts 0 xs) || has y (starts k ys)) ≡ true) (sym e)
            (sym (has-starts y 0 xs ys) ∙ m));
      number =
          f.number
          ∙ subst (λ k. length (starts 0 xs) + length (starts k ys) ≡ length (starts 0 (xs ++ ys)))
              (sym e) (sym (length-starts 0 xs ys));
    }

-- The blocks ms, of which the list holds none, become a gap.
pub open-Gap :
    (h : Heap) (xs ms ys : List Block) (idxs : List ℕ)
    → Linked h (xs ++ (ms ++ ys)) idxs
    → ((y : ℕ) → has y idxs ≡ true → has y (starts (total xs) ms) ≡ false)
    → Gap h xs (total ms) ys idxs
open-Gap h xs ms ys idxs l o =
    let z : 0 + total xs ≡ total xs = omega arith in
    let (t, u) = Tiles-split h.array 0 xs (ms ++ ys) l.tiles in
    record {
      left = t;
      right =
          (Tiles-split h.array (total xs) ms ys (subst (λ k. Tiles h.array k (ms ++ ys)) z u)).1;
      covers = omega (arith, l.covers, total-append xs (ms ++ ys), total-append ms ys);
      first = l.first;
      links = l.links;
      spaced = l.spaced;
      clear = λ y m.
          beside (has y (starts 0 xs)) (has y (starts (total xs) ms))
            (has y (starts (total xs + total ms) ys)) (o y m)
            (sym (has-starts y 0 xs (ms ++ ys) ∙ rw (z, has-starts y (total xs) ms ys) refl)
              ∙ l.within y m);
    }
  where
    beside : (a b c : Bool) → b ≡ false → (a || (b || c)) ≡ true → (a || c) ≡ true
    beside a b c e h = ground arith
