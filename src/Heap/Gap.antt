-- ===== src/Heap/Gap.antt =====
-- The heap of kernel/heap.cc while a block is made: in order but for a gap, into which `makeTaken` and
-- `makeAvail` write.
use p12_group.Base.{
  ℕ, zero, suc, ◌+◌, ◌-◌, ◌<◌, ◌≤◌, ◌≡◌, ◌≢◌, ◌⊎◌, inl, inr, Bool, true, false, ◌||◌, List, [], ◌∷◌,
  ◌++◌, refl, ap, sym, ◌∙◌, subst, has, has-append, Bool-cases, update, update_self, update_ne,
  arith,
}
use p12_group.Base.Int.{ℤ, neg, abs}
use p12_group.Heap.{Heap, write, make_taken, footer_from_header}
use p12_group.Heap.Blocks.{
  Block, taken, avail, words, tag, least, total, Tiles, starts, total-append, Tiles-append,
  Tiles-outside, starts-bounds,
}
use p12_group.Heap.Spaced.{Spaced, Off}
use p12_group.Heap.Links.{front, Links, Links-update}

-- A gap of s ints lies between the blocks xs and ys; the list holds no block of the gap.
pub record Gap (h : Heap) (xs : List Block) (s : ℕ) (ys : List Block) (idxs : List ℕ) : Type 0 where
  pub left : Tiles h.array 0 xs
  pub right : Tiles h.array (total xs + s) ys
  pub covers : total xs + s + total ys ≡ h.len
  pub first : h.avail ≡ front idxs 0
  pub links : Links h.array 0 idxs 0
  pub spaced : Spaced idxs
  pub clear :
      (y : ℕ) → has y idxs ≡ true → (has y (starts 0 xs) || has y (starts (total xs + s) ys)) ≡ true

pub starts-append :
    (i : ℕ) (xs ys : List Block) → starts i (xs ++ ys) ≡ starts i xs ++ starts (i + total xs) ys
starts-append i [] ys = ap (λ k. starts k ys) (omega arith)
starts-append i (taken n ∷ xs) ys =
    starts-append (i + n) xs ys ∙ ap (λ k. starts (i + n) xs ++ starts k ys) (omega arith)
starts-append i (avail n ∷ xs) ys =
    ap (◌∷◌ i)
      (starts-append (i + n) xs ys ∙ ap (λ k. starts (i + n) xs ++ starts k ys) (omega arith))

-- A block of the list lies before the gap or behind it.
pub Gap-sides :
    (h : Heap) (xs : List Block) (s : ℕ) (ys : List Block) (idxs : List ℕ)
    → Gap h xs s ys idxs
    → (y : ℕ) → has y idxs ≡ true
    → (y + 4 ≤ total xs) ⊎ (total xs + s ≤ y)
Gap-sides h xs s ys idxs g y m = elim (Bool-cases (has y (starts 0 xs))) [
  | inl e ↦ inl (omega (arith, starts-bounds y 0 xs e h.array g.left))
  | inr e ↦ inr (starts-bounds y (total xs + s) ys (ground (arith, g.clear y m)) h.array g.right).0
]

Off-all : (k : ℕ) (ys : List ℕ) → ((y : ℕ) → has y ys ≡ true → (k ≢ y + 1) × (k ≢ y + 2)) → Off k ys
Off-all k [] h = tt
Off-all k (y ∷ ys) h =
    let (n, m) = h y (ground arith) in (n, m, Off-all k ys (λ z e. h z (ground arith)))

-- A write into the gap.
pub write-Gap :
    (h : Heap) (xs : List Block) (s : ℕ) (ys : List Block) (idxs : List ℕ) (k : ℕ) (v : ℤ)
    → Gap h xs s ys idxs
    → total xs ≤ k
    → k < total xs + s
    → Gap (write k v h) xs s ys idxs
write-Gap h xs s ys idxs k v g l u = record {
  left = Tiles-outside h.array k v 0 xs (inr (omega arith)) g.left;
  right = Tiles-outside h.array k v (total xs + s) ys (inl u) g.right;
  covers = g.covers;
  first = g.first;
  links =
      Links-update h.array k v 0 idxs 0
        (Off-all k idxs
          (λ y m. let o = Gap-sides h xs s ys idxs g y m in (omega arith, omega arith)))
        g.links;
  spaced = g.spaced;
  clear = g.clear;
}

pub still_clear :
    (y : ℕ) (xs : List Block) (b : Block) (c : Bool)
    → (has y (starts 0 xs) || c) ≡ true
    → (has y (starts 0 (xs ++ b ∷ [])) || c) ≡ true
still_clear y xs b c m =
    rw (starts-append 0 xs (b ∷ []), has-append y (starts 0 xs) (starts (0 + total xs) (b ∷ [])))
      (or_more (has y (starts 0 xs)) (has y (starts (0 + total xs) (b ∷ []))) c m)
  where
    or_more : (p q r : Bool) → (p || r) ≡ true → ((p || q) || r) ≡ true
    or_more true q r h = refl
    or_more false true r h = refl
    or_more false false r h = h

-- The gap, once a block stands at its start.
shrink-Gap :
    (h : Heap) (xs : List Block) (s : ℕ) (ys : List Block) (idxs : List ℕ) (b : Block)
    → Gap h xs s ys idxs
    → h.array (total xs) ≡ tag b
    → h.array (total xs + words b - 1) ≡ tag b
    → least b ≤ words b
    → words b ≤ s
    → Gap h (xs ++ b ∷ []) (s - words b) ys idxs
shrink-Gap h xs s ys idxs b g hd ft l u =
    let z : total xs ≡ 0 + total xs = omega arith in
    let e : total xs + s ≡ total (xs ++ b ∷ []) + (s - words b) =
      omega (arith, total-append xs (b ∷ [])) in
    record {
      left =
          Tiles-append h.array 0 xs (b ∷ []) g.left
            (subst (λ k. Tiles h.array k (b ∷ [])) z (l, hd, ft, tt));
      right = subst (λ k. Tiles h.array k ys) e g.right;
      covers = omega (arith, g.covers, e);
      first = g.first;
      links = g.links;
      spaced = g.spaced;
      clear = λ y m.
          subst (λ k. (has y (starts 0 (xs ++ b ∷ [])) || has y (starts k ys)) ≡ true) e
            (still_clear y xs b (has y (starts (total xs + s) ys)) (g.clear y m));
    }

abs-neg : (n : ℕ) → abs (neg n) ≡ n
abs-neg zero = refl
abs-neg (suc n) = refl

pub tagged :
    (h : Heap) (p n : ℕ) (v : ℤ) → abs v ≡ n → footer_from_header (write p v h) p ≡ p + n - 1
tagged h p n v e = ap (λ t. p + abs t - 1) (update_self h.array p v) ∙ ap (λ t. p + t - 1) e

module _ (h : Heap) (xs : List Block) (s : ℕ) (ys : List Block) (idxs : List ℕ) (n : ℕ)
    (g : Gap h xs s ys idxs) (u : n ≤ s) where
  -- The header and the footer are written.
  pub tags-Gap :
      (v : ℤ) → 2 ≤ n → Gap (write (total xs + n - 1) v (write (total xs) v h)) xs s ys idxs
  tags-Gap v l =
      write-Gap (write (total xs) v h) xs s ys idxs (total xs + n - 1) v
        (write-Gap h xs s ys idxs (total xs) v g (omega arith) (omega arith)) (omega arith)
        (omega arith)

  -- `makeTaken` at the start of the gap.
  pub make_taken-Gap : 2 ≤ n → Gap (make_taken (total xs) n h) (xs ++ taken n ∷ []) (s - n) ys idxs
  unfolding make_taken
  make_taken-Gap l =
      let v = neg n in
      let p = total xs in
      subst (λ k. Gap (write k v (write p v h)) (xs ++ taken n ∷ []) (s - n) ys idxs)
        (sym (tagged h p n v (abs-neg n)))
        (shrink-Gap (write (p + n - 1) v (write p v h)) xs s ys idxs (taken n) (tags-Gap v l)
          (update_ne (update h.array p v) (p + n - 1) p v (omega arith) ∙ update_self h.array p v)
          (update_self (update h.array p v) (p + n - 1) v) l u)
