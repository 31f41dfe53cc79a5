-- ===== src/Process.antt =====
-- kernel/process.cc, kernel/process.h: processes, the nesting of interrupt disabling, the ready queue
-- and the switch from one process to the next. A process is named by its address, 0 is nullptr; a
-- queue of processes is the list of its members from head to tail.
pub mod Interrupts
pub mod Scheduler
pub mod Switch
pub mod Turns
pub mod Invariant
pub mod Fair
mod Tests
use p12_group.Base.{
  ℕ, ◌+◌, ◌-◌, ◌^◌, ◌%◌, Bool, true, false, List, [], ◌∷◌, ◌++◌, Option, none, some, ◌==◌, leb,
  if◌then◌else◌, update, not,
}
use p12_group.Base.Int.{ℤ, pos}

pub data State : Type 0 where
  ready running blocked terminated : State

-- `stack_longs` is the depth of the kernel stack; `started` tells a process that was switched away
-- from inside `yield` from one whose saved stack still leads to `runProcess`.
pub record Process : Type 0 where
  pub state : State
  pub disable_count : ℕ
  pub i_depth : ℕ
  pub i_count : ℕ
  pub is_killed : Bool
  pub kill_code : ℤ
  pub exit_code : ℤ
  pub stack_longs : ℕ
  pub started : Bool

-- The static members of `Process`, the processor's interrupt flag, and the address that `new` would
-- return.
pub record Kernel : Type 0 where
  pub process : ℕ → Process
  pub current : ℕ
  pub ready_queue : List ℕ
  pub reaper_queue : List ℕ
  pub idle_process : ℕ
  pub interrupts : Bool
  pub fresh : ℕ

-- `Debug::panic` stops the system.
pub data Run (A : Type 0) : Type 0 where
  ok : A → Kernel → Run A
  panic : Run A

abbrev pub M : Type 0 → Type 0
M A = Kernel → Run A

module _ {A B : Type 0} where
  abbrev pub and_then : Run A → (A → M B) → Run B
  and_then (ok a k) f = f a k
  and_then panic f = panic

  infixl 5 ◌>>=◌
  abbrev pub ◌>>=◌ : M A → (A → M B) → M B
  m >>= f = λ k. and_then (m k) f

infixl 5 ◌>>◌
abbrev pub ◌>>◌ : {B : Type 0} → M (Unit {0}) → M B → M B
m >> n = m >>= λ _. n

abbrev pub pure : {A : Type 0} → A → M A
pure = ok

abbrev pub stack_limit : ℕ
stack_limit = 2048

abbrev pub set_process : Kernel → ℕ → Process → Kernel
set_process k p c = record k { process = update k.process p c }

-- `Pic::off` and `Pic::on`: `cli` and `sti`.
abbrev pub off : Kernel → Kernel
off k = record k { interrupts = false }

abbrev pub on : Kernel → Kernel
on k = record k { interrupts = true }

unfoldable pub disable : M (Unit {0})
disable k =
    let me = k.current in
    let c = k.process me in
    if me == 0
    then ok tt (off k)
    else ok tt
        (set_process (off k) me (record c { disable_count = (c.disable_count + 1) % 2 ^ 32 }))

unfoldable pub enable : M (Unit {0})
enable k =
    let me = k.current in
    let c = k.process me in
    if me == 0
    then ok tt k
    else if c.disable_count == 0
    then panic
    else if c.disable_count == 1
    then ok tt (on (set_process k me (record c { disable_count = 0 })))
    else ok tt (set_process k me (record c { disable_count = c.disable_count - 1 }))

-- The marks that `Pic` puts around the handling of an interrupt.
unfoldable pub start_irq : M (Unit {0})
start_irq k =
    let me = k.current in
    let c = k.process me in
    if me == 0
    then panic
    else if c.disable_count == 0
    then ok tt (
        set_process k me (record c {
          i_count = (c.i_count + 1) % 2 ^ 32;
          i_depth = (c.i_depth + 1) % 2 ^ 32;
          disable_count = 1;
        }))
    else panic

unfoldable pub end_irq : M (Unit {0})
end_irq k =
    let me = k.current in
    let c = k.process me in
    if me == 0
    then ok tt k
    else if c.disable_count == 1
    then ok tt (
        set_process k me
          (record c { i_depth = (c.i_depth + 2 ^ 32 - 1) % 2 ^ 32; disable_count = 0 }))
    else panic

-- `makeReady` between its `disable` and its `enable`.
unfoldable pub enqueue_ready : ℕ → Kernel → Kernel
enqueue_ready p k =
    let k' = set_process k p (record (k.process p) { state = ready }) in
    if p == k.idle_process then k' else record k' { ready_queue = k'.ready_queue ++ p ∷ [] }

unfoldable pub make_ready : ℕ → M (Unit {0})
unfolding enqueue_ready
make_ready p = do disable; (λ k. ok tt (enqueue_ready p k)); enable

-- The current process goes where `yield` puts it: onto the queue that is given, or, with none, onto
-- the ready queue. The queue is returned.
unfoldable pub leave : Option (List ℕ) → M (List ℕ)
leave q k =
    let me = k.current in
    let c = k.process me in
    elim q [
      | none ↦ if me == 0 then ok [] k else and_then (make_ready me k) (λ _ k'. ok [] k')
      | some waiting ↦
          if me == 0
          then ok waiting k
          else if not (c.i_depth == 0)
          then panic
          else ok (waiting ++ me ∷ []) (set_process k me (record c { state = blocked }))
    ]

-- A process as its constructor leaves it, made ready.
abbrev pub new_process : Process
new_process = record {
  state = ready;
  disable_count = 0;
  i_depth = 0;
  i_count = 0;
  is_killed = false;
  kill_code = pos 0;
  exit_code = pos 0;
  stack_longs = 6;
  started = false;
}

-- The idle process, made now if there is none; `makeReady` never queues it.
unfoldable pub idle : M ℕ
idle k =
    if k.idle_process == 0
    then ok k.fresh
        (record (set_process k k.fresh new_process) { idle_process = k.fresh; fresh = k.fresh + 1 })
    else ok k.idle_process k

-- The process that runs next: the head of the ready queue, or the idle process.
unfoldable pub pick : M ℕ
unfolding idle
pick k = elim k.ready_queue [
  | [] ↦ idle k
  | next ∷ rest ↦ ok next (record k { ready_queue = rest })
]

-- `next` is marked as running, and `prev` as stopped inside `yield`.
unfoldable pub take_over : ℕ → ℕ → Kernel → Kernel
take_over next prev k =
    let k' = set_process k next (record (k.process next) { state = running }) in
    if prev == 0 then k' else set_process k' prev (record (k'.process prev) { started = true })

-- `dispatch` up to `contextSwitch`, which saves the place where `prev` stopped and loads the interrupt
-- flag of the process it switches to.
unfoldable pub dispatch : ℕ → ℕ → M (Unit {0})
dispatch next prev k =
    let k' = take_over next prev k in
    if leb stack_limit (k'.process next).stack_longs
    then panic
    else if next == prev
    then ok tt k'
    else ok tt (record k' { current = next; interrupts = (k'.process next).disable_count == 0 })

-- `dispatch` and the `enable` behind it. If another process is switched to, the place behind the switch
-- is reached when the caller runs again (`checkKilled`, which Lifecycle has, and `enable`); if the caller
-- itself is picked, there is no switch, and it goes on at once.
unfoldable pub turn : ℕ → ℕ → M (Unit {0})
unfolding dispatch enable
turn next me k = and_then (dispatch next me k) (λ _ k'. if next == me then enable k' else ok tt k')

-- `yield` up to the switch to another process, or to its end if the caller goes on.
unfoldable pub yield : Option (List ℕ) → M (List ℕ)
unfolding leave pick turn
yield q = do
  disable
  me ← (λ k. ok k.current k)
  waiting ← leave q
  next ← pick
  turn next me
  pure waiting
