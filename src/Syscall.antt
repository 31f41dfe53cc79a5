-- ===== src/Syscall.antt =====
-- kernel/syscall.cc: the calls of a user program on its semaphores, processes and files. The state puts the
-- kernel, the objects and the table of the current process together; what an object holds is found under
-- its address. A call that switches away ends at the switch. Not among the calls: fork and execv, the ones
-- on directories, and those that are port input and output.
pub mod Ids
pub mod Units
mod Tests
use p12_group.Base.{
  ℕ, zero, suc, ◌+◌, ◌-◌, ◌*◌, ◌%◌, ◌^◌, ◌==◌, ltb, leb, ◌&&◌, if◌then◌else◌, Bool, true, false,
  List, [], ◌∷◌, length, get_or, Option, none, some, update,
}
use p12_group.Base.Int.{ℤ, pos, negsuc}
use p12_group.Process
use p12_group.Process.{Kernel, Process}
use p12_group.Resource
use p12_group.Resource.{ResourceType, Resource, Store}
use p12_group.Semaphore
use p12_group.Semaphore.{Semaphore}
use p12_group.Table
use p12_group.Table.{Table, err_invalid_id}
use p12_group.Lifecycle
use p12_group.Fat.{Fat439}
use p12_group.Files.{File, Result, err, got, file_read}
use p12_group.Files
use p12_group.Block.Interface.{BlockDevice}

-- `fresh` is the address that `new` would return, `done` the event of a process, and `bytes` the memory
-- of the program.
pub record System (S : Type 0) : Type 0 where
  pub kernel : Kernel
  pub objects : Store
  pub table : Table
  pub semaphore : ℕ → Semaphore
  pub done : ℕ → Semaphore
  pub file : ℕ → File
  pub fresh : ℕ
  pub device : S
  pub fs : Fat439
  pub bytes : ℕ → ℕ

-- The call returns a value to the program, or the program is switched away in it or ended; an access to a
-- deleted object, or a panic.
pub data Answer (S : Type 0) : Type 0 where
  returns : ℤ → System S → Answer S
  switched : System S → Answer S
  fault : Answer S
  stopped : Answer S

-- The numbers 0, 3, 4, 5, 6, 9, 10, 11 and 12 of the calls, and any number that has none.
pub data Call : Type 0 where
  exit semaphore down up join getlen read seek close unknown : Call

-- An unsigned word as the `long` that is returned, and a `long` as a word.
abbrev pub long_of : ℕ → ℤ
long_of w = if ltb w (2 ^ 31) then pos w else negsuc (2 ^ 32 - 1 - w)

abbrev pub word_of : ℤ → ℕ
word_of (pos n) = n
word_of (negsuc n) = 2 ^ 32 - 1 - n

-- The i-th argument in memory at an address.
abbrev pub argument : (ℕ → ℕ) → ℕ → ℕ → ℕ
argument m a i =
    m (a + 4 * i)
    + m (a + 4 * i + 1) * 2 ^ 8
    + m (a + 4 * i + 2) * 2 ^ 16
    + m (a + 4 * i + 3) * 2 ^ 24

abbrev pub fill : ℕ → List ℕ → (ℕ → ℕ) → ℕ → ℕ
fill a bs m i = if leb a i && ltb i (a + length bs) then get_or bs (i - a) 0 else m i

module _ {S : Type 0} where
  -- `get`, the test of its result, and what follows with the object.
  unfoldable pub with_object : ResourceType → ℤ → (ℕ → System S → Answer S) → System S → Answer S
  with_object type fd f y = elim (Table.get fd type y.table y.objects) [
    | Resource.fault ↦ fault
    | Resource.ok p objects ↦
        let y' = record y { objects = objects } in
        if p == 0 then returns err_invalid_id y' else f p y'
  ]

  -- The end of a call of the table.
  abbrev pub of_table : Resource.Run (ℤ × Table) → System S → Answer S
  of_table Resource.fault y = fault
  of_table (Resource.ok (rc, t) objects) y = returns rc (record y { table = t; objects = objects })

  -- `exit`, as far as the switch to the next process.
  unfoldable pub exit_call : ℤ → System S → Answer S
  exit_call code y =
      elim (Lifecycle.exit code (y.done y.kernel.current) y.table y.objects y.kernel) [
        | Lifecycle.ended d t objects k ↦ switched (record y {
          done = update y.done y.kernel.current d;
          table = t;
          objects = objects;
          kernel = k;
        })
        | Lifecycle.returns objects k ↦
            returns (negsuc 0) (record y { objects = objects; kernel = k })
        | Lifecycle.fault ↦ fault
        | Lifecycle.stopped ↦ stopped
      ]

  -- `semaphore` for a count that is not negative.
  unfoldable pub semaphore_call : ℕ → System S → Answer S
  semaphore_call count y =
      let p = y.fresh in
      let objects =
        update y.objects p (some (record { type = ResourceType.semaphore; count = 0 })) in
      of_table (Table.open_resource p y.table objects)
        (record y { semaphore = update y.semaphore p (Semaphore.semaphore count) })

  unfoldable pub down_object : ℕ → System S → Answer S
  down_object p y = elim (Semaphore.down (y.semaphore p) y.kernel) [
    | Process.panic ↦ stopped
    | Process.ok r k ↦
        let y' = record y { kernel = k; semaphore = update y.semaphore p r.1 } in
        if r.0 then returns (pos 0) y' else switched y'
  ]

  unfoldable pub up_object : ℕ → System S → Answer S
  up_object p y = elim (Semaphore.up (y.semaphore p) y.kernel) [
    | Process.panic ↦ stopped
    | Process.ok s k ↦ returns (pos 0) (record y { kernel = k; semaphore = update y.semaphore p s })
  ]

  -- The value of `join`: the exit code, whatever `close` returns.
  abbrev pub with_value : ℤ → Answer S → Answer S
  with_value v (returns rc y) = returns v y
  with_value v (switched y) = switched y
  with_value v fault = fault
  with_value v stopped = stopped

  -- `join` once the event has let the caller through.
  unfoldable pub joined : ℤ → ℕ → System S → Answer S
  joined fd p y =
      with_value (y.kernel.process p).exit_code (of_table (Table.close fd y.table y.objects) y)

  unfoldable pub join_object : ℤ → ℕ → System S → Answer S
  unfolding joined
  join_object fd p y = elim (Semaphore.wait (y.done p) y.kernel) [
    | Process.panic ↦ stopped
    | Process.ok r k ↦
        let y' = record y { kernel = k; done = update y.done p r.1 } in
        if r.0 then joined fd p y' else switched y'
  ]

  unfoldable pub getlen_object : ℕ → System S → Answer S
  getlen_object p y = returns (long_of (y.file p).open_file.length) y

  unfoldable pub read_object : BlockDevice S → ℕ → ℕ → ℕ → System S → Answer S
  read_object dev buf n p y =
      let (r, f) = file_read dev y.device y.fs (y.file p) n in
      elim r [
        | err e ↦ returns e y
        | got bs ↦
            returns (pos (length bs))
              (record y { file = update y.file p f; bytes = fill buf bs y.bytes })
      ]

  unfoldable pub seek_object : ℕ → ℕ → System S → Answer S
  seek_object offset p y =
      returns (pos 0) (record y { file = update y.file p (Files.seek offset (y.file p)) })

  unfoldable pub close_call : ℤ → System S → Answer S
  close_call fd y = of_table (Table.close fd y.table y.objects) y

  -- `syscallHandler`, for the numbers 0, 3 to 6, 9 to 12, and those behind the last one.
  unfoldable pub syscall : BlockDevice S → Call → ℤ → ℤ → System S → Answer S
  unfolding with_object exit_call semaphore_call down_object up_object join_object getlen_object
      read_object seek_object close_call
  syscall dev exit a0 a1 y = exit_call a0 y
  syscall dev semaphore a0 a1 y = semaphore_call (word_of a0) y
  syscall dev down a0 a1 y = with_object ResourceType.semaphore a0 down_object y
  syscall dev up a0 a1 y = with_object ResourceType.semaphore a0 up_object y
  syscall dev join a0 a1 y = with_object ResourceType.process a0 (join_object a0) y
  syscall dev getlen a0 a1 y = with_object ResourceType.file a0 getlen_object y
  syscall dev read a0 a1 y =
      let at = word_of a0 in
      with_object ResourceType.file (long_of (argument y.bytes at 0))
        (read_object dev (argument y.bytes at 1) (argument y.bytes at 2)) y
  syscall dev seek a0 a1 y = with_object ResourceType.file a0 (seek_object (word_of a1)) y
  syscall dev close a0 a1 y = close_call a0 y
  syscall dev unknown a0 a1 y = returns (negsuc 0) y
