-- ===== src/Lifecycle.antt =====
-- kernel/process.cc: how a process ends. `exit` gives its resources back, lets the processes that
-- joined it go on, and leaves it to the reaper; `kill` marks it, and `checkKilled` ends a marked one.
-- The virtual `onExit` and `onKill` do nothing in every class of the kernel.
pub mod Finish
mod Tests
use p12_group.Base.{
  ℕ, zero, suc, ◌+◌, Bool, true, false, List, [], ◌∷◌, ◌++◌, none, some, ◌==◌, if◌then◌else◌,
  length,
}
use p12_group.Base.Int.{ℤ, pos}
use p12_group.Process.{
  Kernel, Process, State, Run, ok, panic, and_then, M, ◌>>=◌, ◌>>◌, pure, disable, enable,
  make_ready, yield, set_process, terminated,
}
use p12_group.Semaphore.{Semaphore, signal}
use p12_group.Resource
use p12_group.Table.{Table, close_all, close_working_dir}

abbrev pub is_terminated : State → Bool
is_terminated State.terminated = true
is_terminated State.running = false
is_terminated State.blocked = false
is_terminated State.ready = false

abbrev pub is_running : State → Bool
is_running State.terminated = false
is_running State.running = true
is_running State.blocked = false
is_running State.ready = false

abbrev pub is_blocked : State → Bool
is_blocked State.terminated = false
is_blocked State.running = false
is_blocked State.blocked = true
is_blocked State.ready = false

abbrev pub is_ready : State → Bool
is_ready State.terminated = false
is_ready State.running = false
is_ready State.blocked = false
is_ready State.ready = true

unfoldable pub start : ℕ → M (Unit {0})
start p = make_ready p

-- The current process goes to the reaper, and the next one runs. Nothing follows the switch: the
-- process is never dispatched again.
unfoldable pub retire : M (Unit {0})
retire k =
    let me = k.current in
    ok tt (record (set_process k me (record (k.process me) { state = terminated })) {
      reaper_queue = k.reaper_queue ++ me ∷ [];
      current = 0;
    })

unfoldable pub finish : M (Unit {0})
unfolding retire
finish = do disable; retire; queue ← yield none; pure tt

unfoldable pub set_exit_code : ℤ → M (Unit {0})
set_exit_code code k =
    ok tt (set_process k k.current (record (k.process k.current) { exit_code = code }))

-- The end of the process, `done` being its event.
unfoldable pub end_process : ℤ → Semaphore → M Semaphore
unfolding finish set_exit_code
end_process code done = do set_exit_code code; done' ← signal done; finish; pure done'

-- What `exit` leaves of the event and the table of the process, the objects and the kernel, once the
-- next process runs; or the caller runs on. `fault` is an access to a deleted object, and `stopped` is
-- a panic.
pub data Exit : Type 0 where
  ended : Semaphore → Table → Resource.Store → Kernel → Exit
  returns : Resource.Store → Kernel → Exit
  fault : Exit
  stopped : Exit

unfoldable pub exit : ℤ → Semaphore → Table → Resource.Store → Kernel → Exit
unfolding end_process
exit code done t objects k =
    let closing = Resource.and_then (close_all t objects) close_working_dir in
    let result : Exit = elim closing [
      | Resource.fault ↦ fault
      | Resource.ok (rc, t') objects' ↦ elim (end_process code done k) [
        | panic ↦ stopped
        | ok done' k' ↦ ended done' t' objects' k'
      ]
    ] in
    if k.current == 0 then returns objects k else result

-- A turn of `checkReaper`: the process that is to be deleted, 0 if there is none.
unfoldable pub take_dead : Kernel → ℕ × Kernel
take_dead k = elim k.reaper_queue [ [] ↦ (0, k) | p ∷ rest ↦ (p, record k { reaper_queue = rest }) ]

unfoldable pub reap : M ℕ
unfolding take_dead
reap = do disable; p ← (λ k. let r = take_dead k in ok r.0 r.1); enable; pure p

-- The loop of `checkReaper` on fuel; each turn but the last takes a process off the queue.
unfoldable pub reap_loop : ℕ → Resource.Store → Kernel → Exit
unfolding reap
reap_loop zero objects k = stopped
reap_loop (suc fuel) objects k = elim (reap k) [
  | panic ↦ stopped
  | ok p k' ↦ elim (Resource.unref p objects) [
    | Resource.fault ↦ fault
    | Resource.ok q objects' ↦
        let rest = reap_loop fuel objects' k' in if p == 0 then returns objects' k' else rest
  ]
]

unfoldable pub check_reaper : Resource.Store → Kernel → Exit
unfolding reap_loop
check_reaper objects k = reap_loop (length k.reaper_queue + 1) objects k

unfoldable pub check_killed : Semaphore → Table → Resource.Store → Kernel → Exit
unfolding check_reaper exit
check_killed done t objects k = elim (check_reaper objects k) [
  | ended done' t' objects' k' ↦ ended done' t' objects' k'
  | returns objects' k' ↦
      let c = k'.process k'.current in
      let gone = exit c.kill_code done t objects' k' in
      if k'.current == 0
      then returns objects' k'
      else if c.is_killed
      then gone
      else returns objects' k'
  | fault ↦ fault
  | stopped ↦ stopped
]

-- The mark that `kill` leaves: the code of the first caller counts.
unfoldable pub mark_killed : ℕ → ℤ → M (Unit {0})
mark_killed p code = do
  disable
  (λ k.
      let c = k.process p in
      ok tt (
        if c.is_killed
        then k
        else set_process k p (record c { is_killed = true; kill_code = code })))
  enable

unfoldable pub kill : ℕ → ℤ → Semaphore → Table → Resource.Store → Kernel → Exit
unfolding mark_killed check_killed
kill p code done t objects k = elim (mark_killed p code k) [
  | panic ↦ stopped
  | ok _ k' ↦ check_killed done t objects k'
]
