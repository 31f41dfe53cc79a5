-- ===== src/Timers/Tests.antt =====
-- A clock at tick 100 with 10 ticks a second: 10 runs, 20 is ready, 30 sleeps until tick 120.
use p12_group.Base.{ℕ, ◌≡◌, true, refl, arith, ◌==◌, if◌then◌else◌, [], ◌∷◌}
use p12_group.Process.{Kernel, running, ready, blocked, new_process}
use p12_group.Process.Interrupts.{Ensures}
use p12_group.Process.Scheduler.{Fits}
use p12_group.Timers.{Clock, with_timer, set_waiting, handler}
use p12_group.Timers.Wake.{Woken, Ticked, handler-Ticked}

abbrev busy : Kernel
busy = record {
  process = λ p. record new_process {
    state = if p == 10 then running else if p == 20 then ready else blocked;
  };
  current = 10;
  ready_queue = 20 ∷ [];
  reaper_queue = [];
  idle_process = 99;
  interrupts = true;
  fresh = 200;
}

busy-Fits : Fits busy
busy-Fits = record { stacks = λ p. omega arith; counts = λ p. omega arith }

abbrev clock : ℕ → Clock
clock jiffies = record {
  timers = record { target = 120; waiting = 30 ∷ 40 ∷ [] } ∷ [];
  idle_jiffies = 7;
  jiffies = jiffies;
  hz = 10;
}

handler-Ticked_example :
    Ensures
      (λ c' k'. Ticked 120 (clock 119).timers c' × Woken busy (30 ∷ 40 ∷ []) k')
      (handler (clock 119) busy)
handler-Ticked_example =
    handler-Ticked (clock 119) busy (omega arith, tt) (omega arith) (omega arith) (omega arith) refl

-- A new target goes before a later one, and an old one is shared.
new_target :
    set_waiting 110 (10 ∷ []) (with_timer 110 (clock 100).timers)
    ≡ record { target = 110; waiting = 10 ∷ [] } ∷ (clock 100).timers
new_target = refl
