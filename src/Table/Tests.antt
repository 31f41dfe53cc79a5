-- ===== src/Table/Tests.antt =====
-- A table of four slots and an object that has one reference.
use p12_group.Base.{◌==◌, ◌≡◌, ◌⊎◌, if◌then◌else◌, refl, [], ◌∷◌, none, some, arith}
use p12_group.Base.Int.{pos}
use p12_group.Resource.{semaphore, file, Resource, Store, fault, ref, deref}
use p12_group.Table.{Table, open_resource, open_at, first_free, close, get, err_no_id}
use p12_group.Table.Slots.{After, Restored, close-open_resource, get-close}

abbrev small : Table
small = record { n = 4; array = 0 ∷ 64 ∷ 80 ∷ 0 ∷ [] }

abbrev object : Resource
object = record { type = file; count = 1 }

abbrev objects : Store
objects p =
    if p == 96
    then some object
    else if p == 80
    then some (record { type = semaphore; count = 2 })
    else none

close-open_resource_example :
    After
      (open_resource 96 small objects)
      λ s h'. (s.0 ≡ err_no_id) ⊎ Restored small objects (close s.0 s.1 h')
close-open_resource_example =
    close-open_resource 96 object small objects refl (omega arith) refl (omega arith) (omega arith)

get-close_example :
    After
      (close (pos 2) small objects)
      λ s h'. (s.0 ≡ pos 0) × (get (pos 2) semaphore s.1 h' ≡ fault)
get-close_example =
    get-close 2 80 (record { type = semaphore; count = 2 }) small objects semaphore refl
      (omega arith) (omega arith) refl (omega arith) refl (omega arith)

-- The object gets the lowest free slot, 3.
lowest_slot : After (open_resource 96 small objects) λ s h'. s.0 ≡ pos 3
unfolding open_resource open_at first_free ref deref
lowest_slot = refl
