-- ===== src/BoundedBuffer/Ring.antt =====
-- The array of kernel/bb.h with its two indices is a first-in first-out queue of at most n values.
use p12_group.Base.{
  ℕ, zero, suc, ◌+◌, ◌-◌, ◌≤◌, ◌<◌, ◌≡◌, refl, arith, ◌==◌, ltb, if◌then◌else◌, List, [], ◌∷◌, ◌++◌,
  length, get_or, set, length-set, length-append, length-replicate, get_or-set_self, get_or-set_ne,
}
use p12_group.BoundedBuffer.{BoundedBuffer, bounded_buffer, store, load}

-- The index i places after a, in a ring of n.
abbrev pub around : ℕ → ℕ → ℕ → ℕ
around n a i = if ltb (a + i) n then a + i else a + i - n

-- The ring holds the values xs, oldest first, from `head` on.
pub record Holds {A : Type 0} (d : A) (b : BoundedBuffer A) (xs : List A) : Type 0 where
  pub size : length b.arr ≡ b.n
  pub fits : length xs ≤ b.n
  pub head : b.head < b.n
  pub tail : b.tail ≡ around b.n b.head (length xs)
  pub items : (i : ℕ) → i < length xs → get_or b.arr (around b.n b.head i) d ≡ get_or xs i d

module _ {A : Type 0} (d : A) where
  -- A new buffer holds nothing.
  pub bounded_buffer-Holds : (n : ℕ) (a : A) → 0 < n → Holds d (bounded_buffer n a) []
  unfolding bounded_buffer
  bounded_buffer-Holds n a h = record {
    size = length-replicate n a;
    fits = omega arith;
    head = h;
    tail = ground arith;
    items = λ i l. absurd (omega arith);
  }

  get_or-snoc :
      (xs : List A) (v : A) (i : ℕ)
      → get_or (xs ++ v ∷ []) i d
        ≡ (if ltb i (length xs) then get_or xs i d else if i == length xs then v else d)
  get_or-snoc [] v zero = refl
  get_or-snoc [] v (suc i) = ground arith
  get_or-snoc (x ∷ xs) v zero = ground arith
  get_or-snoc (x ∷ xs) v (suc i) = ground (arith, get_or-snoc xs v i)

  module _ (b : BoundedBuffer A) (v : A) (xs : List A) (h : Holds d b xs)
      (room : length xs < b.n) where
    item_after :
        (i : ℕ)
        → i < length xs + 1
        → get_or (set b.arr b.tail v) (around b.n b.head i) d ≡ get_or (xs ++ v ∷ []) i d
    item_after i k = ground (
      arith,
      get_or-snoc xs v i,
      get_or-set_self b.arr b.tail v d,
      get_or-set_ne b.arr b.tail (around b.n b.head i) v d,
      h.items i,
      h.tail,
      h.size,
      h.head,
    )

    -- A value stored while there is room becomes the last one.
    pub store-Holds : Holds d (store b v) (xs ++ v ∷ [])
    unfolding store
    store-Holds = record {
      size = omega (arith, length-set b.arr b.tail v, h.size);
      fits = omega (arith, length-append xs (v ∷ []));
      head = h.head;
      tail = ground (arith, length-append xs (v ∷ []), h.tail, h.head);
      items = λ i k. item_after i (omega (arith, length-append xs (v ∷ [])));
    }

  -- The value loaded is the oldest one, and the rest stays.
  pub load-Holds :
      (b : BoundedBuffer A) (x : A) (xs : List A)
      → Holds d b (x ∷ xs)
      → ((load d b).0 ≡ x) × Holds d (load d b).1 xs
  unfolding load
  load-Holds b x xs h = (
    ground (arith, h.items 0, h.head),
    record {
      size = h.size;
      fits = omega (arith, h.fits);
      head = ground (arith, h.head);
      tail = ground (arith, h.tail, h.head, h.fits);
      items = λ i k. ground (arith, h.items (suc i), h.head, h.fits);
    },
  )
