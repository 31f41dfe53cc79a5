-- ===== src/Heap/Settled.antt =====
-- Settled heaps of kernel/heap.cc: `free` after `malloc`.
use p12_group.Base.{
  ℕ, ◌+◌, ◌-◌, ◌≤◌, ◌≡◌, ◌≢◌, inl, inr, leb, List, [], ◌∷◌, ◌++◌, refl, ap, sym, ◌∙◌, subst,
  Bool-cases, arith, append_assoc, Option, none, some,
}
use p12_group.Heap.{Heap, malloc, ints_of, free}
use p12_group.Heap.Blocks.{Block, taken, avail, total, total-append}
use p12_group.Heap.Shape.{IsHeap}
use p12_group.Heap.Malloc.{Mallocs, found, full, Shaped}
use p12_group.Heap.Carve.{carved}
use p12_group.Heap.Free.{free-Shaped}
use p12_group.Heap.Merge.{released}
use p12_group.Heap.Allocate.{malloc-Mallocs, four-ints_of}

-- Behind a block, each available block is followed by a taken one.
abbrev pub Closed : Block → List Block → Type 0
Closed (taken n) [] = Unit {0}
Closed (avail n) [] = ⊥
Closed (taken n) (b ∷ bs) = Closed b bs
Closed (avail n) (taken m ∷ bs) = Closed (taken m) bs
Closed (avail n) (avail m ∷ bs) = ⊥

-- No two available blocks touch, and the first and the last block are taken.
abbrev pub Settled : List Block → Type 0
Settled bs = Closed (avail 0) bs

Closed-taken :
    (s : ℕ) (ys : List Block)
    → Closed (avail s) ys
    → (b : ℕ) × (vs : List Block) × (ys ≡ taken b ∷ vs)
Closed-taken s [] c = absurd c
Closed-taken s (taken b ∷ vs) c = (b, vs, refl)
Closed-taken s (avail b ∷ vs) c = absurd c

-- An available block stands between two taken ones.
neighbours :
    (a : ℕ) (xs : List Block) (s : ℕ) (ys : List Block)
    → Closed (taken a) (xs ++ avail s ∷ ys)
    → (us : List Block) × (x : ℕ) × (y : ℕ) × (vs : List Block) × (taken a ∷ xs
        ≡ us ++ taken x ∷ [])
      × (ys ≡ taken y ∷ vs)
neighbours a [] s ys c = let (b, vs, e) = Closed-taken s ys c in ([], a, b, vs, refl, e)
neighbours a (taken k ∷ xs) s ys c =
    let (us, x, y, vs, e, f) = neighbours k xs s ys c in
    (taken a ∷ us, x, y, vs, ap (◌∷◌ (taken a)) e, f)
neighbours a (avail k ∷ []) s ys c = absurd c
neighbours a (avail k ∷ taken j ∷ xs) s ys c =
    let (us, x, y, vs, e, f) = neighbours j xs s ys c in
    (taken a ∷ avail k ∷ us, x, y, vs, ap (λ z. taken a ∷ avail k ∷ z) e, f)
neighbours a (avail k ∷ avail j ∷ xs) s ys c = absurd c

between :
    (xs : List Block) (s : ℕ) (ys : List Block)
    → Settled (xs ++ avail s ∷ ys)
    → (us : List Block) × (x : ℕ) × (y : ℕ) × (vs : List Block) × (xs ≡ us ++ taken x ∷ [])
      × (ys ≡ taken y ∷ vs)
between [] s ys c = absurd c
between (taken a ∷ xs) s ys c = neighbours a xs s ys c
between (avail a ∷ xs) s ys c = absurd c

-- What `free` makes of a block that `malloc` took out of an available one.
give_back :
    (h : Heap) (us : List Block) (x s y : ℕ) (vs : List Block) (n : ℕ)
    → Shaped h ((us ++ taken x ∷ []) ++ (carved s n ++ taken y ∷ vs))
    → 4 ≤ n
    → n ≤ s
    → (h' : Heap) × (free (some (total (us ++ taken x ∷ []) + 1)) h ≡ some h')
      × Shaped h' ((us ++ taken x ∷ []) ++ avail s ∷ taken y ∷ vs)
give_back h us x s y vs n (idxs, i) l u =
    let e : total us + x + 1 ≡ total (us ++ taken x ∷ []) + 1 =
      omega (arith, total-append us (taken x ∷ [])) in
    elim (Bool-cases (leb 4 (s - n))) [
      | inl large ↦
          let carved_list : carved s n ≡ taken n ∷ avail (s - n) ∷ [] = rw large refl in
          let q : n + 0 + (s - n) ≡ s = omega arith in
          let (h', f, k) =
            free-Shaped h us (taken x) n (avail (s - n)) (taken y ∷ vs) idxs
              (subst (λ b. IsHeap h b idxs)
                (ap (λ b. (us ++ taken x ∷ []) ++ (b ++ taken y ∷ vs)) carved_list
                  ∙ append_assoc us (taken x ∷ []) _)
                i)
              l in
          (
            h',
            ap (λ m. free (some m) h) (sym e) ∙ f,
            subst (Shaped h')
                (ap (λ m. us ++ taken x ∷ avail m ∷ taken y ∷ vs) q
                  ∙ sym (append_assoc us (taken x ∷ []) (avail s ∷ taken y ∷ vs)))
                k,
          )
      | inr small ↦
          let carved_list : carved s n ≡ taken s ∷ [] = rw small refl in
          let q : s + 0 + 0 ≡ s = omega arith in
          let (h', f, k) =
            free-Shaped h us (taken x) s (taken y) vs idxs
              (subst (λ b. IsHeap h b idxs)
                (ap (λ b. (us ++ taken x ∷ []) ++ (b ++ taken y ∷ vs)) carved_list
                  ∙ append_assoc us (taken x ∷ []) (taken s ∷ taken y ∷ vs))
                i)
              (omega arith) in
          (
            h',
            ap (λ m. free (some m) h) (sym e) ∙ f,
            subst (Shaped h')
                (ap (λ m. us ++ taken x ∷ avail m ∷ taken y ∷ vs) q
                  ∙ sym (append_assoc us (taken x ∷ []) (avail s ∷ taken y ∷ vs)))
                k,
          )
    ]

-- What `free` does with the pointer that `malloc` returned.
abbrev Returned : List Block → Option (ℕ × Heap) → Type 0
Returned bs none = Unit {0}
Returned bs (some (p, h)) = (h' : Heap) × (free (some p) h ≡ some h') × Shaped h' bs

Mallocs-Returned :
    (h : Heap) (bs : List Block) (idxs : List ℕ) (n : ℕ) (o : Option (ℕ × Heap))
    → Settled bs
    → 4 ≤ n
    → Mallocs h bs idxs n o
    → Returned bs o
Mallocs-Returned h bs idxs n _ c l (full u) = tt
Mallocs-Returned h0 bs idxs n _ c l (found xs s ys h e u o k) =
    let (us, x, y, vs, p, q) = between xs s ys (subst Settled e c) in
    let k' = subst (λ b. Shaped h (xs ++ (carved s n ++ b))) q k in
    let k'' = subst (λ b. Shaped h (b ++ (carved s n ++ taken y ∷ vs))) p k' in
    let (h', f, z) = give_back h us x s y vs n k'' l u in
    let whole : (us ++ taken x ∷ []) ++ avail s ∷ taken y ∷ vs ≡ bs =
      ap (λ b. b ++ avail s ∷ taken y ∷ vs) (sym p) ∙ ap (λ b. xs ++ avail s ∷ b) (sym q) ∙ sym e in
    (h', ap (λ b. free (some (total b + 1)) h) p ∙ f, subst (Shaped h') whole z)

-- In a settled heap (no two available blocks touch, and the first and the last block are taken),
-- `free` of the pointer that `malloc` of some bytes returned succeeds, and the heap has the blocks
-- that it had before the `malloc`.
pub free-malloc :
    (h : Heap) (bs : List Block) (idxs : List ℕ) (bytes : ℕ) (p : ℕ) (h' : Heap)
    → IsHeap h bs idxs
    → Settled bs
    → bytes ≢ 0
    → malloc bytes h ≡ some (p, h')
    → (h'' : Heap) × (free (some p) h' ≡ some h'') × Shaped h'' bs
free-malloc h bs idxs bytes p h' i c n e = subst (Returned bs) e (
    Mallocs-Returned h bs idxs (ints_of bytes) (malloc bytes h) c (four-ints_of bytes)
      (malloc-Mallocs h bs idxs bytes i n))

Closed-behind :
    (p : Block) (xs ys zs : List Block)
    → ((q : Block) → Closed q ys → Closed q zs)
    → Closed p (xs ++ ys)
    → Closed p (xs ++ zs)
Closed-behind p [] ys zs f c = f p c
Closed-behind (taken n) (x ∷ xs) ys zs f c = Closed-behind x xs ys zs f c
Closed-behind (avail n) (taken m ∷ xs) ys zs f c = Closed-behind (taken m) xs ys zs f c
Closed-behind (avail n) (avail m ∷ xs) ys zs f c = absurd c

Closed-avail : (m k : ℕ) (ys : List Block) → Closed (avail m) ys → Closed (avail k) ys
Closed-avail m k [] c = absurd c
Closed-avail m k (taken n ∷ ys) c = c
Closed-avail m k (avail n ∷ ys) c = absurd c

Closed-any : (m k : ℕ) (ys : List Block) → Closed (avail m) ys → Closed (taken k) ys
Closed-any m k [] c = absurd c
Closed-any m k (taken n ∷ ys) c = c
Closed-any m k (avail n ∷ ys) c = absurd c

carved-Closed :
    (q : Block) (s n : ℕ) (ys : List Block) → Closed q (avail s ∷ ys) → Closed q (carved s n ++ ys)
carved-Closed (avail k) s n ys c = absurd c
carved-Closed (taken k) s n ys c = elim (Bool-cases (leb 4 (s - n))) [
  | inl e ↦ rw e (Closed-avail s (s - n) ys c)
  | inr e ↦ rw e (Closed-any s s ys c)
]

released-Closed :
    (q l : Block) (s : ℕ) (r : Block) (ys : List Block)
    → Closed q (l ∷ taken s ∷ r ∷ ys)
    → Closed q (released l s r ++ ys)
released-Closed (avail k) (avail a) s r ys c = absurd c
released-Closed (avail k) (taken a) s (taken b) ys c = c
released-Closed (avail k) (taken a) s (avail b) ys c = Closed-avail b (s + 0 + b) ys c
released-Closed (taken k) (taken a) s (taken b) ys c = c
released-Closed (taken k) (taken a) s (avail b) ys c = Closed-avail b (s + 0 + b) ys c
released-Closed (taken k) (avail a) s (taken b) ys c = c
released-Closed (taken k) (avail a) s (avail b) ys c = Closed-avail b (s + a + b) ys c

-- `malloc` and `free` keep the heap settled.
carved-Settled :
    (xs : List Block) (s n : ℕ) (ys : List Block)
    → Settled (xs ++ avail s ∷ ys)
    → Settled (xs ++ (carved s n ++ ys))
carved-Settled xs s n ys = Closed-behind (avail 0) xs _ _ (λ q. carved-Closed q s n ys)

released-Settled :
    (xs : List Block) (l : Block) (s : ℕ) (r : Block) (ys : List Block)
    → Settled (xs ++ l ∷ taken s ∷ r ∷ ys)
    → Settled (xs ++ (released l s r ++ ys))
released-Settled xs l s r ys = Closed-behind (avail 0) xs _ _ (λ q. released-Closed q l s r ys)
