-- ===== src/Vmm/Space.antt =====
-- The shape of the memory of kernel/vmm.cc: free frames in a chain, and the tables of an address space.
use p12_group.Base.{
  ℕ, ◌+◌, ◌*◌, ◌%◌, ◌^◌, ◌<◌, ◌≤◌, ◌≡◌, ◌≢◌, ◌⊎◌, inl, inr, ◌==◌, if◌then◌else◌, true, false, List,
  [], ◌∷◌, has, refl, ap, sym, ◌∙◌, arith, Bool-cases,
}
use p12_group.Vmm.{Memory, frame, is_present, dir_index, table_index}

-- The first frame of the list, 0 if it is empty; each frame's first word leads to the next.
abbrev pub head_of : List ℕ → ℕ
head_of [] = 0
head_of (f ∷ fs) = f

abbrev pub Chain : (ℕ → ℕ) → List ℕ → Type 0
Chain word [] = Unit {0}
Chain word (f ∷ fs) =
    (f ≢ 0) × (f % 4096 ≡ 0) × (word f ≡ head_of fs) × (has f fs ≡ false) × Chain word fs

-- The table of the directory entry i.
abbrev pub entry_of : Memory → ℕ → ℕ → ℕ
entry_of m pd i = m.word (pd + 4 * i)

abbrev pub table_of : Memory → ℕ → ℕ → ℕ
table_of m pd i = frame (entry_of m pd i)

-- A frame in use: it was handed out, and it is not free.
abbrev pub Used : Memory → List ℕ → ℕ → Type 0
Used m fs t = (t % 4096 ≡ 0) × (t < m.avail) × (has t fs ≡ false)

-- fs are the free frames below avail; the directory and each of its tables are frames in use, and
-- they are different.
pub record Space (m : Memory) (pd : ℕ) (fs : List ℕ) : Type 0 where
  pub first : m.first_free ≡ head_of fs
  pub chain : Chain m.word fs
  pub below : (f : ℕ) → has f fs ≡ true → f < m.avail
  pub aligned : (m.avail % 4096 ≡ 0) × (m.limit % 4096 ≡ 0)
  pub bounded : (m.avail ≤ m.limit) × (m.limit < 2 ^ 32)
  pub directory : Used m fs pd
  pub tables :
      (i : ℕ)
      → i < 1024
      → is_present (entry_of m pd i) ≡ true
      → Used m fs (table_of m pd i) × (table_of m pd i ≢ pd)
  pub distinct :
      (i j : ℕ)
      → i < 1024
      → j < 1024
      → is_present (entry_of m pd i) ≡ true
      → is_present (entry_of m pd j) ≡ true
      → table_of m pd i ≡ table_of m pd j
      → i ≡ j

-- The entry that the tables have for an address, 0 if there is no table.
abbrev pub walk : Memory → ℕ → ℕ → ℕ
walk m pd va =
    if is_present (entry_of m pd (dir_index va))
    then m.word (table_of m pd (dir_index va) + 4 * table_index va)
    else 0

pub dir_index-bound : (va : ℕ) → dir_index va < 1024
dir_index-bound va = omega arith

pub table_index-bound : (va : ℕ) → table_index va < 1024
table_index-bound va = omega arith

-- A write outside of the free frames' first words.
pub Chain-same :
    (word word' : ℕ → ℕ) (fs : List ℕ)
    → ((f : ℕ) → has f fs ≡ true → word' f ≡ word f)
    → Chain word fs
    → Chain word' fs
Chain-same word word' [] s c = tt
Chain-same word word' (f ∷ fs) s (z, a, n, d, c) =
    (z, a, s f (ground arith) ∙ n, d, Chain-same word word' fs (λ g m. s g (ground arith)) c)

pub Chain-aligned :
    (word : ℕ → ℕ) (fs : List ℕ) (f : ℕ) → Chain word fs → has f fs ≡ true → f % 4096 ≡ 0
Chain-aligned word [] f c m = absurd (cc)
Chain-aligned word (g ∷ fs) f (z, a, n, d, c) m = elim (Bool-cases (f == g)) [
  | inl e ↦ (let q : f ≡ g = ground arith in omega arith)
  | inr e ↦ Chain-aligned word fs f c (ground arith)
]

-- Addresses in different frames.
pub apart :
    (t u k l : ℕ) → t % 4096 ≡ 0 → u % 4096 ≡ 0 → t ≢ u → k < 4096 → l < 4096 → t + k ≢ u + l
apart t u k l a b n c d = omega arith

pub outside :
    (t u k : ℕ) → t % 4096 ≡ 0 → u % 4096 ≡ 0 → t ≢ u → k < 4096 → (t + k < u) ⊎ (u + 4096 ≤ t + k)
outside t u k a b n c = omega arith

pub walk_present :
    (m : Memory) (pd va : ℕ)
    → is_present (entry_of m pd (dir_index va)) ≡ true
    → walk m pd va ≡ m.word (table_of m pd (dir_index va) + 4 * table_index va)
walk_present m pd va e = rw e refl

pub walk_absent :
    (m : Memory) (pd va : ℕ) → is_present (entry_of m pd (dir_index va)) ≡ false → walk m pd va ≡ 0
walk_absent m pd va e = rw e refl

-- A walk reads an entry of the directory, and one of its table.
pub walk_same :
    (m m' : Memory) (pd va : ℕ)
    → entry_of m' pd (dir_index va) ≡ entry_of m pd (dir_index va)
    → (is_present (entry_of m pd (dir_index va)) ≡ true
        → m'.word (table_of m pd (dir_index va) + 4 * table_index va)
          ≡ m.word (table_of m pd (dir_index va) + 4 * table_index va))
    → walk m' pd va ≡ walk m pd va
walk_same m m' pd va e w = elim (Bool-cases (is_present (entry_of m pd (dir_index va)))) [
  | inl k ↦
      walk_present m' pd va (ap is_present e ∙ k)
      ∙ ap (λ x. m'.word (frame x + 4 * table_index va)) e
      ∙ w k
      ∙ sym (walk_present m pd va k)
  | inr k ↦ walk_absent m' pd va (ap is_present e ∙ k) ∙ sym (walk_absent m pd va k)
]
