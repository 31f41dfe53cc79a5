-- ===== src/Table.antt =====
-- kernel/table.cc, kernel/err.h: a process's table of resources. Slot 0 is unused, slot 1 holds the
-- working directory. The table's mutex surrounds each body below; the bodies run one at a time.
pub mod Slots
mod Tests
use p12_group.Base.{
  ℕ, zero, suc, ◌+◌, ◌-◌, ◌==◌, ltb, if◌then◌else◌, Bool, true, false, List, [], ◌∷◌, get_or, set,
  Option, none, some, length,
}
use p12_group.Base.Int.{ℤ, pos, negsuc, neg}
use p12_group.Resource.{
  ResourceType, directory, same_type, Resource, Run, M, ◌>>=◌, ◌>>◌, pure, deref, ref, unref,
}

-- Error codes of kernel/err.h.
abbrev pub err_invalid_id : ℤ
err_invalid_id = neg 1002

abbrev pub err_no_id : ℤ
err_no_id = neg 1003

abbrev pub err_not_dir : ℤ
err_not_dir = neg 1007

abbrev pub err_close_wd : ℤ
err_close_wd = neg 1013

-- `array[0 .. n)`, an address or 0 in each slot.
pub record Table : Type 0 where
  pub n : ℕ
  pub array : List ℕ

abbrev pub slot : Table → ℕ → ℕ
slot t i = get_or t.array i 0

abbrev pub put_slot : Table → ℕ → ℕ → Table
put_slot t i p = record t { array = set t.array i p }

unfoldable pub add_working_dir : ℕ → Table → M (ℤ × Table)
add_working_dir p t = do
  r ← deref p
  if same_type r.type directory
      then (do
        (if slot t 1 == 0 then pure 0 else unref (slot t 1))
        q ← ref p
        pure (pos 0, put_slot t 1 q))
      else pure (err_not_dir, t)

unfoldable pub close_working_dir : Table → M (ℤ × Table)
close_working_dir t = do
  r ← deref (slot t 1)
  if same_type r.type directory
      then (do unref (slot t 1); pure (pos 0, put_slot t 1 0))
      else pure (err_not_dir, t)

-- The first empty slot from `i` on, with `togo` slots left.
unfoldable pub first_free : List ℕ → ℕ → ℕ → Option ℕ
first_free array i zero = none
first_free array i (suc togo) =
    let rest = first_free array (suc i) togo in if get_or array i 0 == 0 then some i else rest

unfoldable pub open_at : ℕ → Table → Option ℕ → M (ℤ × Table)
open_at p t none = pure (err_no_id, t)
open_at p t (some i) = do q ← ref p; pure (pos i, put_slot t i q)

unfoldable pub open_resource : ℕ → Table → M (ℤ × Table)
unfolding first_free open_at
open_resource p t = open_at p t (first_free t.array 2 (t.n - 2))

unfoldable pub close : ℤ → Table → M (ℤ × Table)
close (negsuc i) t = pure (err_invalid_id, t)
close (pos i) t =
    if ltb i t.n
    then if i == 1 then pure (err_close_wd, t) else (do
      unref (slot t i)
      pure (if slot t i == 0 then err_invalid_id else pos 0, put_slot t i 0))
    else pure (err_invalid_id, t)

-- The slots from `i` on are emptied, `togo` of them.
unfoldable pub close_from : ℕ → ℕ → Table → M Table
close_from i zero t = pure t
close_from i (suc togo) t = do unref (slot t i); close_from (suc i) togo (put_slot t i 0)

unfoldable pub close_all : Table → M Table
unfolding close_from
close_all t = close_from 2 (t.n - 2) t

-- The destructor, up to the release of the array.
unfoldable pub destroy : Table → M Table
unfolding close_from
destroy t = close_from 0 t.n t

-- `get` reads the type of whatever the slot holds, nullptr included.
unfoldable pub get : ℤ → ResourceType → Table → M ℕ
get (negsuc fd) type t = pure 0
get (pos fd) type t =
    if ltb fd t.n
    then (do r ← deref (slot t fd); pure (if same_type r.type type then slot t fd else 0))
    else pure 0
