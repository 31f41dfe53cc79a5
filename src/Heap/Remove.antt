-- ===== src/Heap/Remove.antt =====
-- `remove` of kernel/heap.cc takes a block off the list of available ones, and changes nothing else.
use p12_group.Base.{
  ℕ, ◌+◌, ◌≡◌, ◌≢◌, inl, inr, ◌==◌, if◌then◌else◌, true, ◌||◌, List, [], ◌∷◌, ◌++◌, refl, sym, ◌∙◌,
  subst, has, has-append, Bool-cases, update, arith, some, ne→==,
}
use p12_group.Base.Int.{ℤ, pos}
use p12_group.Heap.{Heap, unlink, remove}
use p12_group.Heap.Blocks.{Block, Tiles, starts, Tiles-link}
use p12_group.Heap.Spaced.{Spaced, Spaced-without, Spaced-left}
use p12_group.Heap.Links.{
  front, last_of, Links, forward, backward, unlinked-Links, has-last_of, last_of-pos,
}
use p12_group.Heap.Shape.{Linked, prev-Linked, next-Linked}

unlink-array : (p n : ℕ) (h : Heap) → (unlink p n h).array ≡ backward (forward h.array p n) p n
unfolding unlink
unlink-array p n h = elim (Bool-cases (p == 0)) [
  | inl e ↦ elim (Bool-cases (n == 0)) [ inl f ↦ rw (e, f) refl | inr f ↦ rw (e, f) refl ]
  | inr e ↦ elim (Bool-cases (n == 0)) [ inl f ↦ rw (e, f) refl | inr f ↦ rw (e, f) refl ]
]

unlink-rest :
    (p n : ℕ) (h : Heap)
    → ((unlink p n h).len ≡ h.len) × ((unlink p n h).avail ≡ (if p == 0 then n else h.avail))
unfolding unlink
unlink-rest p n h = ground arith

forward-Tiles :
    (a : ℕ → ℤ) (p n : ℕ) (bs : List Block)
    → (p ≢ 0 → has p (starts 0 bs) ≡ true)
    → Tiles a 0 bs
    → Tiles (forward a p n) 0 bs
forward-Tiles a p n bs m t = elim (Bool-cases (p == 0)) [
  | inl e ↦ rw e t
  | inr e ↦
      let open_forward : forward a p n ≡ update a (p + 1) (pos n) = rw e refl in
      subst (λ b. Tiles b 0 bs) (sym open_forward)
        (Tiles-link a p (p + 1) (pos n) 0 bs (m (ground arith)) (inl refl) t)
]

backward-Tiles :
    (a : ℕ → ℤ) (p n : ℕ) (bs : List Block)
    → (n ≢ 0 → has n (starts 0 bs) ≡ true)
    → Tiles a 0 bs
    → Tiles (backward a p n) 0 bs
backward-Tiles a p n bs m t = elim (Bool-cases (n == 0)) [
  | inl e ↦ rw e t
  | inr e ↦
      let open_backward : backward a p n ≡ update a (n + 2) (pos p) = rw e refl in
      subst (λ b. Tiles b 0 bs) (sym open_backward)
        (Tiles-link a n (n + 2) (pos p) 0 bs (m (ground arith)) (inr refl) t)
]

module _ (h : Heap) (bs : List Block) (us vs : List ℕ) (x : ℕ)
    (l : Linked h bs (us ++ x ∷ vs)) where
  in_starts : (y : ℕ) → (has y us || has y vs) ≡ true → has y (starts 0 bs) ≡ true
  in_starts y m = l.within y (ground (arith, has-append y us (x ∷ vs)))

  last_start :
      (ws : List ℕ)
      → ((y : ℕ) → has y ws ≡ true → has y (starts 0 bs) ≡ true)
      → last_of 0 ws ≢ 0
      → has (last_of 0 ws) (starts 0 bs) ≡ true
  last_start [] s n = absurd (n refl)
  last_start (w ∷ ws) s n = s (last_of w ws) (has-last_of w ws)

  front_start :
      (ws : List ℕ)
      → ((y : ℕ) → has y ws ≡ true → has y (starts 0 bs) ≡ true)
      → front ws 0 ≢ 0
      → has (front ws 0) (starts 0 bs) ≡ true
  front_start [] s n = absurd (n refl)
  front_start (w ∷ ws) s n = s w (ground arith)

  new_front :
      (ws : List ℕ)
      → Spaced (ws ++ x ∷ vs)
      → h.avail ≡ front (ws ++ x ∷ vs) 0
      → (if last_of 0 ws == 0 then front vs 0 else h.avail) ≡ front (ws ++ vs) 0
  new_front [] s e = refl
  new_front (w ∷ ws) s e =
      rw (ne→== (last_of w ws) 0 (last_of-pos w ws (Spaced-left (w ∷ ws) (x ∷ vs) s))) e

  abbrev unlinked : Heap
  unlinked = unlink (last_of 0 us) (front vs 0) h

  unlinked-Linked : Linked unlinked bs (us ++ vs)
  unlinked-Linked =
      let p = last_of 0 us in
      let n = front vs 0 in
      let (len, av) = unlink-rest p n h in
      record {
        tiles =
            subst (λ b. Tiles b 0 bs) (sym (unlink-array p n h))
              (backward-Tiles (forward h.array p n) p n bs
                (front_start vs (λ y m. in_starts y (ground arith)))
                (forward-Tiles h.array p n bs (last_start us (λ y m. in_starts y (ground arith)))
                  l.tiles));
        covers = l.covers ∙ sym len;
        first = av ∙ new_front us l.spaced l.first;
        links =
            subst (λ b. Links b 0 (us ++ vs) 0) (sym (unlink-array p n h))
              (unlinked-Links h.array us vs x l.spaced l.links);
        spaced = Spaced-without x us vs l.spaced;
        within = λ y m. in_starts y (ground (arith, has-append y us vs));
      }

  -- `remove` of a block of the list.
  pub remove-Linked :
      (h' : Heap) × (remove x h ≡ some h') × Linked h' bs (us ++ vs) × (h'.len ≡ h.len)
  unfolding remove
  remove-Linked = (
    unlinked,
    rw (prev-Linked h bs us vs x l, next-Linked h bs us vs x l) refl,
    unlinked-Linked,
    (unlink-rest (last_of 0 us) (front vs 0) h).0,
  )
