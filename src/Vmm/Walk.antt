-- ===== src/Vmm/Walk.antt =====
-- `pmap` and `punmap` of kernel/vmm.cc: what the tables have for each address.
use p12_group.Base.{
  ℕ, ◌+◌, ◌*◌, ◌/◌, ◌^◌, ◌<◌, ◌≡◌, ◌≢◌, inl, inr, ◌==◌, if◌then◌else◌, Bool, true, false, List, [],
  has, Option, none, some, refl, ap, sym, ◌∙◌, arith, Bool-cases, update_self, update_ne,
}
use p12_group.Vmm.{
  Memory, frame, is_present, write, dir_index, table_index, with_table, pmap, punmap, entry, ◌>>=◌,
}
use p12_group.Vmm.Space.{
  Chain-aligned, entry_of, table_of, Used, Space, walk, walk_same, apart, dir_index-bound,
  table_index-bound,
}
use p12_group.Vmm.Frames.{same-Space}
use p12_group.Vmm.Install.{HasTable, table_ready, no_table, with_table-HasTable}

-- The page of va has the entry v, and every other page the one it had; or its table is missing and there
-- was no frame for it, and the kernel panics.
pub data Maps (m : Memory) (pd : ℕ) (fs : List ℕ) (va v : ℕ) : Option Memory → Type 0 where
  page_set :
      (m' : Memory) (fs' : List ℕ)
      → Space m' pd fs'
      → ((va' : ℕ)
          → va' < 2 ^ 32
          → walk m' pd va' ≡ (if va' / 4096 == va / 4096 then v else walk m pd va'))
      → Maps m pd fs va v (some m')
  no_frame :
      is_present (entry_of m pd (dir_index va)) ≡ false
      → fs ≡ []
      → m.avail ≡ m.limit
      → Maps m pd fs va v none

-- An entry of a table is written.
module _ (m : Memory) (pd : ℕ) (fs : List ℕ) (va v : ℕ) (s : Space m pd fs) (u : va < 2 ^ 32)
    (k : is_present (entry_of m pd (dir_index va)) ≡ true) where
  abbrev t : ℕ
  t = table_of m pd (dir_index va)

  abbrev at : ℕ
  at = t + 4 * table_index va

  abbrev after : Memory
  after = write at v m

  own : Used m fs t × (t ≢ pd)
  own = s.tables (dir_index va) (dir_index-bound va) k

  same_entry : (j : ℕ) → j < 1024 → entry_of after pd j ≡ entry_of m pd j
  same_entry j l = update_ne m.word at (pd + 4 * j) v (
      apart pd t (4 * j) (4 * table_index va) s.directory.0 own.0.0 (λ q. own.1 (sym q))
        (omega arith) (omega (arith, table_index-bound va)))

  after-Space : Space after pd fs
  after-Space =
      same-Space m pd fs after.word s (λ f h. update_ne m.word at f v (in_list f h)) same_entry
    where
      differs : (f : ℕ) → has f fs ≡ true → Used m fs t → f ≢ t
      differs f h (a, b, c) = ground arith

      in_list : (f : ℕ) → has f fs ≡ true → f ≢ at
      in_list f h q =
          apart f t 0 (4 * table_index va) (Chain-aligned m.word fs f s.chain h) own.0.0
            (differs f h own.0) (omega arith) (omega (arith, table_index-bound va))
            (omega (arith, q))

  other_page : (va' : ℕ) → va' < 2 ^ 32 → va' / 4096 ≢ va / 4096 → walk after pd va' ≡ walk m pd va'
  other_page va' b d =
      walk_same m after pd va' (same_entry (dir_index va') (dir_index-bound va')) (λ h.
        update_ne m.word at (table_of m pd (dir_index va') + 4 * table_index va') v (elsewhere h))
    where
      elsewhere :
          is_present (entry_of m pd (dir_index va')) ≡ true
          → table_of m pd (dir_index va') + 4 * table_index va' ≢ at
      elsewhere h = elim (Bool-cases (dir_index va' == dir_index va)) [
        | inl e ↦
            let r : dir_index va' ≡ dir_index va = ground arith in
            let n : table_index va' ≢ table_index va = omega (arith, r, d, b, u) in
            λ q. n (omega (arith, q, ap (table_of m pd) r))
        | inr e ↦
            let r : dir_index va' ≢ dir_index va = ground arith in
            apart (table_of m pd (dir_index va')) t (4 * table_index va') (4 * table_index va)
              (s.tables (dir_index va') (dir_index-bound va') h).0.0 own.0.0
              (λ q. r (
                s.distinct (dir_index va') (dir_index va) (dir_index-bound va') (dir_index-bound va)
                  h k q))
              (omega (arith, table_index-bound va')) (omega (arith, table_index-bound va))
      ]

  this_page : (va' : ℕ) → va' < 2 ^ 32 → va' / 4096 ≡ va / 4096 → walk after pd va' ≡ v
  this_page va' b d =
      let r : dir_index va' ≡ dir_index va = omega arith in
      let q : table_index va' ≡ table_index va = omega arith in
      ap
        (λ j.
          if is_present (entry_of after pd j)
          then after.word (table_of after pd j + 4 * table_index va')
          else 0)
        r
      ∙ walk_present_at (table_index va') q
    where
      walk_present_at :
          (j : ℕ)
          → j ≡ table_index va
          → (if is_present (entry_of after pd (dir_index va))
              then after.word (table_of after pd (dir_index va) + 4 * j)
              else 0)
            ≡ v
      walk_present_at j q =
          rw (ap is_present (same_entry (dir_index va) (dir_index-bound va)) ∙ k) (
            ap (λ x. after.word (frame x + 4 * j)) (same_entry (dir_index va) (dir_index-bound va))
            ∙ ap (λ i. after.word (t + 4 * i)) q
            ∙ update_self m.word at v)

  pub after-Maps : Maps m pd fs va v (some after)
  after-Maps = page_set after fs after-Space (λ va' b. elim (Bool-cases (va' / 4096 == va / 4096)) [
    | inl e ↦ this_page va' b (let r : va' / 4096 ≡ va / 4096 = ground arith in r) ∙ rw e refl
    | inr e ↦ other_page va' b (let r : va' / 4096 ≢ va / 4096 = ground arith in r) ∙ rw e refl
  ])

-- The two steps of a write through the reference that `getPTE` returns.
abbrev located : ℕ → ℕ → Memory → Option (ℕ × Memory)
located pd va m = some (frame (m.word (pd + 4 * dir_index va)) + 4 * table_index va, m)

abbrev stored : ℕ → ℕ × Memory → Option Memory
stored v (a, m) = some (write a v m)

-- The entry of va, through `getPTE`.
module _ (m : Memory) (pd : ℕ) (fs : List ℕ) (va v : ℕ) (u : va < 2 ^ 32) where
  entry-Maps :
      (o : Option Memory)
      → HasTable m pd fs (dir_index va) o
      → Maps m pd fs va v (o >>= located pd va >>= stored v)
  entry-Maps _ (no_table n a b) = no_frame n a b
  entry-Maps _ (table_ready m' fs' s k w) = before (after-Maps m' pd fs' va v s u k)
    where
      before :
          Maps m' pd fs' va v (some (after m' pd fs' va v s u k))
          → Maps m pd fs va v (some (after m' pd fs' va v s u k))
      before (page_set m2 fs2 s2 f) =
          page_set m2 fs2 s2
            (λ va' b. f va' b ∙ ap (λ x. if va' / 4096 == va / 4096 then v else x) (w va'))

-- In the memory of a space, `pmap` gives the page of the address va the entry with the frame of pa, the
-- present bit and the bits for user and write as asked, and leaves the entry of every other page as it
-- was; it panics only when the table for va is missing and no frame is left.
pub pmap-Maps :
    (m : Memory) (pd : ℕ) (fs : List ℕ) (va pa : ℕ) (for_user for_write : Bool)
    → Space m pd fs
    → va < 2 ^ 32
    → Maps m pd fs va (entry pa for_user for_write) (pmap pd va pa for_user for_write m)
unfolding pmap
pmap-Maps m pd fs va pa for_user for_write s u =
    entry-Maps m pd fs va (entry pa for_user for_write) u (with_table (pd + 4 * dir_index va) m)
      (with_table-HasTable m pd fs (dir_index va) s (dir_index-bound va))

-- In the memory of a space, `punmap` clears the entry of the page of the address va, and leaves the entry of
-- every other page as it was; it panics only when the table for va is missing and no frame is left.
pub punmap-Maps :
    (m : Memory) (pd : ℕ) (fs : List ℕ) (va : ℕ)
    → Space m pd fs
    → va < 2 ^ 32
    → Maps m pd fs va 0 (punmap pd va m)
unfolding punmap
punmap-Maps m pd fs va s u =
    entry-Maps m pd fs va 0 u (with_table (pd + 4 * dir_index va) m)
      (with_table-HasTable m pd fs (dir_index va) s (dir_index-bound va))
