-- ===== src/Syscall/Ids.antt =====
-- The calls of kernel/syscall.cc for an id that is not one of the table.
use p12_group.Base.{ℕ, ◌≤◌, ◌≡◌, ltb, Bool, true, false, arith, refl}
use p12_group.Base.Int.{ℤ, pos, negsuc}
use p12_group.Block.Interface.{BlockDevice}
use p12_group.Resource
use p12_group.Resource.{ResourceType, Store}
use p12_group.Table
use p12_group.Table.{Table, err_invalid_id}
use p12_group.Syscall.{
  System, Answer, returns, Call, exit, semaphore, down, up, join, getlen, read, seek, close,
  unknown, with_object, syscall, down_object, up_object, join_object, getlen_object, seek_object,
  word_of,
}

-- The calls whose first argument is an id.
abbrev pub by_id : Call → Bool
by_id exit = false
by_id semaphore = false
by_id down = true
by_id up = true
by_id join = true
by_id getlen = true
by_id read = false
by_id seek = true
by_id close = true
by_id unknown = false

abbrev pub Outside : ℤ → ℕ → Type 0
Outside (pos i) n = n ≤ i
Outside (negsuc i) n = Unit {0}

get-Outside :
    (fd : ℤ) (type : ResourceType) (t : Table) (h : Store)
    → Outside fd t.n
    → Table.get fd type t h ≡ Resource.ok 0 h
unfolding Table.get
get-Outside (negsuc i) type t h o = refl
get-Outside (pos i) type t h o = let e : ltb i t.n ≡ false = ground arith in rw e refl

close-Outside :
    (fd : ℤ) (t : Table) (h : Store)
    → Outside fd t.n
    → Table.close fd t h ≡ Resource.ok (err_invalid_id, t) h
unfolding Table.close
close-Outside (negsuc i) t h o = refl
close-Outside (pos i) t h o = let e : ltb i t.n ≡ false = ground arith in rw e refl

module _ {S : Type 0} where
  with_object-Outside :
      (type : ResourceType) (fd : ℤ) (f : ℕ → System S → Answer S) (y : System S)
      → Outside fd y.table.n
      → with_object type fd f y ≡ returns err_invalid_id y
  unfolding with_object
  with_object-Outside type fd f y o = rw (with_object, get-Outside fd type y.table y.objects o) refl

-- For each call whose first argument is an id (down, up, join, getlen, seek and close), with an id that is
-- negative or behind the end of the table: it returns ERR_INVALID_ID, and nothing changes.
pub syscall-Outside :
    {S : Type 0} (dev : BlockDevice S) (c : Call) (fd a1 : ℤ) (y : System S)
    → by_id c ≡ true
    → Outside fd y.table.n
    → syscall dev c fd a1 y ≡ returns err_invalid_id y
unfolding syscall
syscall-Outside dev exit fd a1 y b o = absurd (cc)
syscall-Outside dev semaphore fd a1 y b o = absurd (cc)
syscall-Outside dev down fd a1 y b o = with_object-Outside ResourceType.semaphore fd down_object y o
syscall-Outside dev up fd a1 y b o = with_object-Outside ResourceType.semaphore fd up_object y o
syscall-Outside dev join fd a1 y b o =
    with_object-Outside ResourceType.process fd (join_object fd) y o
syscall-Outside dev getlen fd a1 y b o = with_object-Outside ResourceType.file fd getlen_object y o
syscall-Outside dev read fd a1 y b o = absurd (cc)
syscall-Outside dev seek fd a1 y b o =
    with_object-Outside ResourceType.file fd (seek_object (word_of a1)) y o
syscall-Outside dev close fd a1 y b o = rw (close-Outside fd y.table y.objects o) refl
syscall-Outside dev unknown fd a1 y b o = absurd (cc)
