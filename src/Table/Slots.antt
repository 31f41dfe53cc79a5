-- ===== src/Table/Slots.antt =====
-- The slots of kernel/table.cc: which one open takes, and what get and close do to it.
use p12_group.Base.{
  ℕ, zero, suc, ◌+◌, ◌-◌, ◌^◌, ◌%◌, ◌==◌, ◌<◌, ◌≤◌, ◌≡◌, ◌≢◌, if◌then◌else◌, refl, ap, sym, List,
  [], ◌∷◌, get_or, set, Option, none, some, length, update, update_self, get_or-set_self, arith,
  ◌⊎◌, inl, inr, ne→==, lt→ltb,
}
use p12_group.Base.Int.{ℤ, pos}
use p12_group.Resource.{ResourceType, same_type, Resource, Store, Run, ok, fault, deref, ref, unref}
use p12_group.Table.{
  Table, slot, put_slot, first_free, open_at, open_resource, close, get, err_no_id,
}

-- The slots of a table are those of its array.
abbrev pub IsTable : Table → Type 0
IsTable t = length t.array ≡ t.n

abbrev pub with_count : Resource → ℕ → Resource
with_count r c = record r { count = c }

abbrev pub Found : List ℕ → ℕ → ℕ → Option ℕ → Type 0
Found array i togo none = (j : ℕ) → i ≤ j → j < i + togo → get_or array j 0 ≢ 0
Found array i togo (some k) =
    (i ≤ k)
    × (k < i + togo)
    × (get_or array k 0 ≡ 0)
    × ((j : ℕ) → i ≤ j → j < k → get_or array j 0 ≢ 0)

first_free_step :
    (array : List ℕ) (i togo : ℕ) (rest : Option ℕ)
    → Found array (suc i) togo rest
    → Found array i (suc togo) (if get_or array i 0 == 0 then some i else rest)
first_free_step array i togo none f = ground arith
first_free_step array i togo (some k) f = ground arith

pub first_free-Found : (array : List ℕ) (i togo : ℕ) → Found array i togo (first_free array i togo)
unfolding first_free
first_free-Found array i zero = λ j l m. absurd (omega arith)
first_free-Found array i (suc togo) =
    first_free_step array i togo (first_free array (suc i) togo)
      (first_free-Found array (suc i) togo)

-- What `open p` may do: take the lowest free slot from 2 on and a reference, or refuse.
pub data Opens (p : ℕ) (r : Resource) (t : Table) (h : Store) : Run (ℤ × Table) → Type 0 where
  full : ((j : ℕ) → 2 ≤ j → j < t.n → slot t j ≢ 0) → Opens p r t h (ok (err_no_id, t) h)
  opened :
      (i : ℕ)
      → 2 ≤ i
      → i < t.n
      → slot t i ≡ 0
      → ((j : ℕ) → 2 ≤ j → j < i → slot t j ≢ 0)
      → Opens p r t h
          (ok (pos i, put_slot t i p) (update h p (some (with_count r ((r.count + 1) % 2 ^ 32)))))

pub ref_lem :
    (p : ℕ) (r : Resource) (h : Store)
    → p ≢ 0
    → h p ≡ some r
    → ref p h ≡ ok p (update h p (some (with_count r ((r.count + 1) % 2 ^ 32))))
unfolding ref deref
ref_lem p r h n e = rw (ne→== p 0 n, ne→== p 0 n, e) refl

open_at-Opens :
    (p : ℕ) (r : Resource) (t : Table) (h : Store) (o : Option ℕ)
    → p ≢ 0
    → h p ≡ some r
    → Found t.array 2 (t.n - 2) o
    → Opens p r t h (open_at p t o h)
unfolding open_at
open_at-Opens p r t h none n e f = full (λ j l m. f j l (omega arith))
open_at-Opens p r t h (some i) n e (l, m, z, below) =
    rw (ref_lem p r h n e) (opened i l (omega arith) z below)

-- `open` of an object takes the lowest free slot from 2 on and one more reference to the object;
-- with no slot free it returns ERR_NO_ID, and table and objects stay as they are.
pub open_resource-Opens :
    (p : ℕ) (r : Resource) (t : Table) (h : Store)
    → p ≢ 0
    → h p ≡ some r
    → Opens p r t h (open_resource p t h)
unfolding open_resource
open_resource-Opens p r t h n e =
    open_at-Opens p r t h (first_free t.array 2 (t.n - 2)) n e
      (first_free-Found t.array 2 (t.n - 2))

-- The operation returns, and with what holds of its result and of the objects then.
abbrev pub After : {A : Type 0} → Run A → (A → Store → Type 0) → Type 0
After (ok a h) P = P a h
After fault P = ◌≡◌ {A = ℕ} 0 1

pub get_lem :
    (i p : ℕ) (r : Resource) (t : Table) (h : Store) (type : ResourceType)
    → i < t.n
    → slot t i ≡ p
    → p ≢ 0
    → h p ≡ some r
    → get (pos i) type t h ≡ ok (if same_type r.type type then p else 0) h
unfolding get deref
get_lem i p r t h type l e n f = rw (lt→ltb i t.n l, e, ne→== p 0 n, f) refl

pub unref_lem :
    (p : ℕ) (r : Resource) (h : Store)
    → p ≢ 0
    → h p ≡ some r
    → 1 < r.count
    → unref p h ≡ ok p (update h p (some (with_count r ((r.count + 2 ^ 32 - 1) % 2 ^ 32))))
unfolding unref deref
unref_lem p r h n e l = rw (ne→== p 0 n, ne→== p 0 n, e, ne→== r.count 1 (omega arith)) refl

close_lem :
    (i p : ℕ) (r : Resource) (t : Table) (h : Store)
    → 2 ≤ i
    → i < t.n
    → slot t i ≡ p
    → p ≢ 0
    → h p ≡ some r
    → 1 < r.count
    → close (pos i) t h
      ≡ ok
          (pos 0, put_slot t i 0)
          (update h p (some (with_count r ((r.count + 2 ^ 32 - 1) % 2 ^ 32))))
unfolding close
close_lem i p r t h two l e n f c =
    rw (lt→ltb i t.n l, ne→== i 1 (omega arith), e, unref_lem p r h n f c, ne→== p 0 n) refl

-- An object after one more reference and one less.
same_object :
    (p : ℕ) (r : Resource) (h : Store) (v : Option Resource) (q : ℕ)
    → h p ≡ some r
    → r.count + 1 < 2 ^ 32
    → update
        (update h p v)
        p
        (some (with_count r (((r.count + 1) % 2 ^ 32 + 2 ^ 32 - 1) % 2 ^ 32)))
        q
      ≡ h q
same_object p r h v q e l =
    let c : ((r.count + 1) % 2 ^ 32 + 2 ^ 32 - 1) % 2 ^ 32 ≡ r.count = omega arith in
    rw c (ground (arith, e))

set_back : (xs : List ℕ) (i p : ℕ) → get_or xs i 0 ≡ 0 → set (set xs i p) i 0 ≡ xs
set_back [] i p e = refl
set_back (x ∷ xs) zero p e = ap (λ y. y ∷ xs) (sym e)
set_back (x ∷ xs) (suc i) p e = ap (◌∷◌ x) (set_back xs i p e)

same_slots : (t : Table) (i p : ℕ) → slot t i ≡ 0 → put_slot (put_slot t i p) i 0 ≡ t
same_slots t i p e = ap (λ a. record t { array = a }) (set_back t.array i p e)

get_opened :
    (p : ℕ) (r : Resource) (t : Table) (h : Store) (x : Run (ℤ × Table)) (type : ResourceType)
    → IsTable t
    → p ≢ 0
    → Opens p r t h x
    → After x λ s h'.
      (s.0 ≡ err_no_id) ⊎ (get s.0 type s.1 h' ≡ ok (if same_type r.type type then p else 0) h')
get_opened p r t h _ type s n (full f) = inl refl
get_opened p r t h _ type s n (opened i l m z b) =
    let r' = with_count r ((r.count + 1) % 2 ^ 32) in
    inr (
      get_lem i p r' (put_slot t i p) (update h p (some r')) type m
        (get_or-set_self t.array i p 0 (omega (arith, s))) n (update_self h p (some r')))

-- In the descriptor that a successful `open` returned, `get` finds the object, if its type is the one
-- asked for, and nullptr otherwise.
pub get-open_resource :
    (p : ℕ) (r : Resource) (t : Table) (h : Store) (type : ResourceType)
    → IsTable t
    → p ≢ 0
    → h p ≡ some r
    → After (open_resource p t h) λ s h'.
      (s.0 ≡ err_no_id) ⊎ (get s.0 type s.1 h' ≡ ok (if same_type r.type type then p else 0) h')
get-open_resource p r t h type s n e =
    get_opened p r t h _ type s n (open_resource-Opens p r t h n e)

-- The table and the objects are as they were.
abbrev pub Restored : Table → Store → Run (ℤ × Table) → Type 0
Restored t h x = After x λ s h'. (s.0 ≡ pos 0) × (s.1 ≡ t) × ((q : ℕ) → h' q ≡ h q)

close_opened :
    (p : ℕ) (r : Resource) (t : Table) (h : Store) (x : Run (ℤ × Table))
    → IsTable t
    → p ≢ 0
    → h p ≡ some r
    → 0 < r.count
    → r.count + 1 < 2 ^ 32
    → Opens p r t h x
    → After x λ s h'. (s.0 ≡ err_no_id) ⊎ Restored t h (close s.0 s.1 h')
close_opened p r t h _ s n e c d (full f) = inl refl
close_opened p r t h _ s n e c d (opened i l m z b) =
    let r' = with_count r ((r.count + 1) % 2 ^ 32) in
    inr (
      rw
        (close_lem i p r' (put_slot t i p) (update h p (some r')) l m
          (get_or-set_self t.array i p 0 (omega (arith, s))) n (update_self h p (some r'))
          (omega arith))
        (refl, same_slots t i p z, λ q. same_object p r h (some r') q e d))

-- `close` of the descriptor that a successful `open` returned takes both back: the table is the one
-- before, and so is every object, its count included. The object has a reference already, and fewer
-- than the count can hold.
pub close-open_resource :
    (p : ℕ) (r : Resource) (t : Table) (h : Store)
    → IsTable t
    → p ≢ 0
    → h p ≡ some r
    → 0 < r.count
    → r.count + 1 < 2 ^ 32
    → After (open_resource p t h) λ s h'. (s.0 ≡ err_no_id) ⊎ Restored t h (close s.0 s.1 h')
close-open_resource p r t h s n e c d =
    close_opened p r t h _ s n e c d (open_resource-Opens p r t h n e)

get_empty :
    (i : ℕ) (t : Table) (h : Store) (type : ResourceType)
    → i < t.n
    → slot t i ≡ 0
    → get (pos i) type t h ≡ fault
unfolding get deref
get_empty i t h type l e = rw (lt→ltb i t.n l, e) refl

-- `close` of a descriptor, from 2 on, of an object that others refer to as well succeeds, and the next
-- `get` of that descriptor reads the type of nullptr.
pub get-close :
    (i p : ℕ) (r : Resource) (t : Table) (h : Store) (type : ResourceType)
    → IsTable t
    → 2 ≤ i
    → i < t.n
    → slot t i ≡ p
    → p ≢ 0
    → h p ≡ some r
    → 1 < r.count
    → After (close (pos i) t h) λ s h'. (s.0 ≡ pos 0) × (get (pos i) type s.1 h' ≡ fault)
get-close i p r t h type s two l e n f c =
    rw (close_lem i p r t h two l e n f c) (
      refl,
      get_empty i (put_slot t i 0) _ type l (get_or-set_self t.array i 0 0 (omega (arith, s))),
    )
