-- ===== src/Process/Tests.antt =====
-- Three processes at concrete values: the theorems of this folder applied.
use p12_group.Process.{
  Run, ok, panic, leave, pick, turn, dispatch, take_over, make_ready, enqueue_ready, disable,
  enable,
}
use p12_group.Process.Fair.{stays, yields, waits_its_turn}
use p12_group.Process.Switch.{Switched, after_yield}
use p12_group.Base.{◌≡◌, true, refl, arith, ◌==◌, if◌then◌else◌, [], ◌∷◌, none}
use p12_group.Process.{Kernel, Process, State, running, ready, blocked, yield, new_process}
use p12_group.Process.Interrupts.{Ensures}
use p12_group.Process.Scheduler.{IsScheduled, Fits}
use p12_group.Process.Invariant.{yield-IsScheduled}

abbrev at_state : State → Process
at_state s = record new_process { state = s }

-- Process 10 runs, 20 and 30 are ready, 40 is blocked, 99 is the idle process.
abbrev busy : Kernel
busy = record {
  process = λ p. at_state (if p == 10 then running else if p == 40 then blocked else ready);
  current = 10;
  ready_queue = 20 ∷ 30 ∷ [];
  reaper_queue = [];
  idle_process = 99;
  interrupts = true;
  fresh = 200;
}

busy-IsScheduled : IsScheduled busy
busy-IsScheduled = record {
  runs = omega arith;
  running = refl;
  distinct = (refl, (refl, tt));
  not_null = refl;
  not_current = refl;
  not_idle = refl;
  waits = λ p h. ground arith;
}

busy-Fits : Fits busy
busy-Fits = record { stacks = λ p. omega arith; counts = λ p. omega arith }

yield-IsScheduled_example :
    Ensures
      (λ _ k'. IsScheduled k' × Switched busy 20 (30 ∷ 10 ∷ []) after_yield k')
      (yield none busy)
yield-IsScheduled_example =
    yield-IsScheduled busy 20 (30 ∷ []) busy-IsScheduled refl (omega arith) busy-Fits

abbrev state_of : {A : Type 0} → Run A → Kernel
state_of (ok a k) = k
state_of panic = busy

-- Process 20 runs when 10 has given way, and 30 when 20 has.
abbrev next_state : Kernel
next_state = state_of (yield none busy)

abbrev last_state : Kernel
last_state = state_of (yield none next_state)

first_turn : yield none busy ≡ ok [] next_state
unfolding yield leave pick turn dispatch take_over make_ready enqueue_ready disable enable
first_turn = refl

second_turn : yield none next_state ≡ ok [] last_state
unfolding yield leave pick turn dispatch take_over make_ready enqueue_ready disable enable
second_turn = refl

waits_its_turn_example : last_state.current ≡ 30
waits_its_turn_example = waits_its_turn 2 busy last_state 30 (20 ∷ []) [] refl refl (
    yields 1 busy next_state last_state none [] first_turn
      (yields 0 next_state last_state last_state none [] second_turn (stays last_state)))
