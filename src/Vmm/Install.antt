-- ===== src/Vmm/Install.antt =====
-- `getPTE` of kernel/vmm.cc makes the table that an address needs.
use p12_group.Base.{
  ℕ, ◌+◌, ◌*◌, ◌/◌, ◌%◌, ◌<◌, ◌≤◌, ◌≡◌, ◌≢◌, ◌⊎◌, inl, inr, ◌==◌, true, false, List, [], has,
  Option, none, some, refl, ap, sym, ◌∙◌, subst, arith, Bool-cases, update_self, update_ne,
}
use p12_group.Vmm.{
  Memory, frame, is_present, write, dir_index, table_index, alloc, with_table, ◌>>=◌,
}
use p12_group.Vmm.Space.{
  Chain-aligned, Chain-same, entry_of, table_of, Used, Space, walk, walk_present, walk_absent,
  walk_same, apart, outside, dir_index-bound, table_index-bound,
}
use p12_group.Vmm.Frames.{Allocs, allocated, exhausted, alloc-Allocs}

-- What `with_table` does for the directory entry i.
pub data HasTable (m : Memory) (pd : ℕ) (fs : List ℕ) (i : ℕ) : Option Memory → Type 0 where
  table_ready :
      (m' : Memory) (fs' : List ℕ)
      → Space m' pd fs'
      → is_present (entry_of m' pd i) ≡ true
      → ((va : ℕ) → walk m' pd va ≡ walk m pd va)
      → HasTable m pd fs i (some m')
  no_table :
      is_present (entry_of m pd i) ≡ false → fs ≡ [] → m.avail ≡ m.limit → HasTable m pd fs i none

-- A fresh frame becomes the table of the entry i, by the word v.
module _ (m : Memory) (pd : ℕ) (fs : List ℕ) (i p v : ℕ) (s : Space m pd fs) (l : i < 1024)
    (u : Used m fs p) (n : p ≢ pd)
    (fresh : (j : ℕ) → j < 1024 → is_present (entry_of m pd j) ≡ true → table_of m pd j ≢ p)
    (e : frame v ≡ p) where
  abbrev set : Memory
  set = write (pd + 4 * i) v m

  entry_self : entry_of set pd i ≡ v
  entry_self = update_self m.word (pd + 4 * i) v

  entry_other : (j : ℕ) → j ≢ i → entry_of set pd j ≡ entry_of m pd j
  entry_other j d = update_ne m.word (pd + 4 * i) (pd + 4 * j) v (omega arith)

  table_self : table_of set pd i ≡ p
  table_self = ap frame entry_self ∙ e

  table_cases :
      (j : ℕ)
      → is_present (entry_of set pd j) ≡ true
      → ((j ≡ i) × (table_of set pd j ≡ p))
        ⊎ ((j ≢ i) × (is_present (entry_of m pd j) ≡ true) × (table_of set pd j ≡ table_of m pd j))
  table_cases j k = elim (Bool-cases (j == i)) [
    | inl q ↦ (let r : j ≡ i = ground arith in inl (r, ap (table_of set pd) r ∙ table_self))
    | inr q ↦
        (let r : j ≢ i = ground arith in
          inr (r, sym (ap is_present (entry_other j r)) ∙ k, ap frame (entry_other j r)))
  ]

  set-Space : Space set pd fs
  set-Space = record {
    first = s.first;
    chain =
        Chain-same m.word set.word fs (λ f k. update_ne m.word (pd + 4 * i) f v (in_list f k))
          s.chain;
    below = s.below;
    aligned = s.aligned;
    bounded = s.bounded;
    directory = s.directory;
    tables = λ j b k. elim (table_cases j k) [
      | inl c ↦ subst (λ t. Used m fs t × (t ≢ pd)) (sym c.1) (u, n)
      | inr c ↦ subst (λ t. Used m fs t × (t ≢ pd)) (sym c.2) (s.tables j b c.1)
    ];
    distinct = λ j k b c x y q. elim (table_cases j x) [
      | inl f ↦ elim (table_cases k y) [
        | inl g ↦ f.0 ∙ sym g.0
        | inr g ↦ absurd (fresh k c g.1 (sym g.2 ∙ sym q ∙ f.1))
      ]
      | inr f ↦ elim (table_cases k y) [
        | inl g ↦ absurd (fresh j b f.1 (sym f.2 ∙ q ∙ g.1))
        | inr g ↦ s.distinct j k b c f.1 g.1 (sym f.2 ∙ q ∙ g.2)
      ]
    ];
  }
    where
      in_list : (f : ℕ) → has f fs ≡ true → f ≢ pd + 4 * i
      in_list f k =
          let c = Chain-aligned m.word fs f s.chain k in
          let d : f ≢ pd = differs f k s.directory in
          λ q. apart f pd 0 (4 * i) c s.directory.0 d (omega arith) (omega arith) (omega arith)
        where
          differs : (f : ℕ) → has f fs ≡ true → Used m fs pd → f ≢ pd
          differs f k (a, b, c) = ground arith

  -- A walk through the new table finds nothing, and any other one is as before.
  pub set-walk_self :
      (va : ℕ)
      → dir_index va ≡ i
      → is_present v ≡ true
      → ((a : ℕ) → p ≤ a → a < p + 4096 → m.word a ≡ 0)
      → walk set pd va ≡ 0
  set-walk_self va d k z =
      walk_present set pd va
        (ap (λ j. is_present (entry_of set pd j)) d ∙ ap is_present entry_self ∙ k)
      ∙ ap (λ j. set.word (table_of set pd j + 4 * table_index va)) d
      ∙ ap (λ t. set.word (t + 4 * table_index va)) table_self
      ∙ update_ne m.word (pd + 4 * i) (p + 4 * table_index va) v (
          apart p pd (4 * table_index va) (4 * i) u.0 s.directory.0 n
            (omega (arith, table_index-bound va)) (omega arith))
      ∙ z (p + 4 * table_index va) (omega arith) (omega (arith, table_index-bound va))

  pub set-walk_other : (va : ℕ) → dir_index va ≢ i → walk set pd va ≡ walk m pd va
  set-walk_other va d = walk_same m set pd va (entry_other (dir_index va) d) (λ k.
      let (w, o) = s.tables (dir_index va) (dir_index-bound va) k in
      update_ne m.word (pd + 4 * i) (table_of m pd (dir_index va) + 4 * table_index va) v (
        apart (table_of m pd (dir_index va)) pd (4 * table_index va) (4 * i) w.0 s.directory.0 o
          (omega (arith, table_index-bound va)) (omega arith)))

-- The entry i has no table yet.
module _ (m : Memory) (pd : ℕ) (fs : List ℕ) (i : ℕ) (s : Space m pd fs) (l : i < 1024)
    (absent : is_present (entry_of m pd i) ≡ false) where
  word_of : ℕ → ℕ
  word_of p = p / 8 * 8 + 7

  word-aligned : (p : ℕ) → p % 4096 ≡ 0 → (frame (word_of p) ≡ p) × (is_present (word_of p) ≡ true)
  unfolding word_of
  word-aligned p a = (omega arith, ground arith)

  new_table :
      (o : Option (ℕ × Memory))
      → Allocs m pd fs o
      → HasTable m pd fs i (o >>= (λ r. some (write (pd + 4 * i) (word_of r.0) r.1)))
  new_table _ (exhausted a b) = no_table absent a b
  new_table _ (allocated p m' fs' s' u n fresh out zero_in) =
      let (e, k) = word-aligned p u.0 in
      table_ready (set m' pd fs' i p (word_of p) s' l u n fresh' e) fs'
        (set-Space m' pd fs' i p (word_of p) s' l u n fresh' e)
        (ap is_present (update_self m'.word (pd + 4 * i) (word_of p)) ∙ k)
        (λ va. same_walk va (word_of p) e k)
    where
      same_entry : (j : ℕ) → j < 1024 → entry_of m' pd j ≡ entry_of m pd j
      same_entry j b =
          out (pd + 4 * j) (outside pd p (4 * j) s.directory.0 u.0 (λ q. n (sym q)) (omega arith))

      fresh' : (j : ℕ) → j < 1024 → is_present (entry_of m' pd j) ≡ true → table_of m' pd j ≢ p
      fresh' j b x q =
          fresh j b (sym (ap is_present (same_entry j b)) ∙ x) (sym (ap frame (same_entry j b)) ∙ q)

      before : (va : ℕ) → walk m' pd va ≡ walk m pd va
      before va = walk_same m m' pd va (same_entry (dir_index va) (dir_index-bound va)) (λ k.
          out (table_of m pd (dir_index va) + 4 * table_index va) (
            outside (table_of m pd (dir_index va)) p (4 * table_index va)
              (s.tables (dir_index va) (dir_index-bound va) k).0.0 u.0
              (fresh (dir_index va) (dir_index-bound va) k) (omega (arith, table_index-bound va))))

      same_walk :
          (va w : ℕ) (e : frame w ≡ p) (k : is_present w ≡ true)
          → walk (set m' pd fs' i p w s' l u n fresh' e) pd va ≡ walk m pd va
      same_walk va w e k = elim (Bool-cases (dir_index va == i)) [
        | inl q ↦
            let r : dir_index va ≡ i = ground arith in
            set-walk_self m' pd fs' i p w s' l u n fresh' e va r k zero_in
            ∙ sym (walk_absent m pd va (ap (λ j. is_present (entry_of m pd j)) r ∙ absent))
        | inr q ↦
            set-walk_other m' pd fs' i p w s' l u n fresh' e va
              (let r : dir_index va ≢ i = ground arith in r)
            ∙ before va
      ]

  with_table-HasTable_absent : HasTable m pd fs i (with_table (pd + 4 * i) m)
  unfolding with_table word_of
  with_table-HasTable_absent = rw absent (new_table (alloc m) (alloc-Allocs m pd fs s))

-- `with_table` leaves every walk as it is, and there is a table for the entry i then; or no frame is left.
pub with_table-HasTable :
    (m : Memory) (pd : ℕ) (fs : List ℕ) (i : ℕ)
    → Space m pd fs
    → i < 1024
    → HasTable m pd fs i (with_table (pd + 4 * i) m)
unfolding with_table
with_table-HasTable m pd fs i s l = elim (Bool-cases (is_present (entry_of m pd i))) [
  | inl e ↦ rw e (table_ready m fs s e (λ va. refl))
  | inr e ↦ with_table-HasTable_absent m pd fs i s l e
]
