-- ===== src/Lifecycle/Tests.antt =====
-- The end of a process of kernel/process.cc.
use p12_group.Base.{true, refl, arith, ◌==◌, if◌then◌else◌, [], ◌∷◌}
use p12_group.Process.{Kernel, Process, State, running, ready, new_process}
use p12_group.Process.Interrupts.{Ensures}
use p12_group.Process.Scheduler.{IsScheduled}
use p12_group.Lifecycle.{finish}
use p12_group.Lifecycle.Finish.{Finished, finish-Finished}

abbrev at_state : State → Process
at_state s = record new_process { state = s }

-- Process 10 runs, 20 and 30 are ready, 50 ended before.
abbrev busy : Kernel
busy = record {
  process = λ p. at_state (if p == 10 then running else ready);
  current = 10;
  ready_queue = 20 ∷ 30 ∷ [];
  reaper_queue = 50 ∷ [];
  idle_process = 99;
  interrupts = true;
  fresh = 200;
}

busy-IsScheduled : IsScheduled busy
busy-IsScheduled = record {
  runs = omega arith;
  running = refl;
  distinct = (refl, (refl, tt));
  not_null = refl;
  not_current = refl;
  not_idle = refl;
  waits = λ p h. ground arith;
}

finish-Finished_example : Ensures (λ _. Finished busy 20 (30 ∷ [])) (finish busy)
finish-Finished_example =
    finish-Finished busy 20 (30 ∷ []) busy-IsScheduled refl
      (record { stacks = λ p. omega arith; counts = λ p. omega arith })
