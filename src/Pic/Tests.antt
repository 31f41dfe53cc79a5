-- ===== src/Pic/Tests.antt =====
-- An interrupt of the disk, at concrete values.
use p12_group.Base.{true, refl, arith, ◌==◌, if◌then◌else◌, [], ◌∷◌}
use p12_group.Process.{Kernel, running, ready, new_process}
use p12_group.Process.Interrupts.{Ensures}
use p12_group.Process.Scheduler.{IsScheduled}
use p12_group.Timers.{Clock}
use p12_group.Pic.{Ports, pic_irq}
use p12_group.Pic.Irq.{Interrupted, pic_irq-Interrupted}

-- Process 10 runs, 20 and 30 are ready, 99 is the idle process.
abbrev busy : Kernel
busy = record {
  process = λ p. record new_process { state = if p == 10 then running else ready };
  current = 10;
  ready_queue = 20 ∷ 30 ∷ [];
  reaper_queue = [];
  idle_process = 99;
  interrupts = true;
  fresh = 200;
}

busy-IsScheduled : IsScheduled busy
busy-IsScheduled = record {
  runs = omega arith;
  running = refl;
  distinct = (refl, (refl, tt));
  not_null = refl;
  not_current = refl;
  not_idle = refl;
  waits = λ p h. ground arith;
}

abbrev clock : Clock
clock = record { timers = []; idle_jiffies = 0; jiffies = 5; hz = 1000 }

abbrev quiet : Ports
quiet = record { written = []; device = λ w p. 0 }

pic_irq-Interrupted_example :
    Ensures
      (λ r k'. Interrupted busy 20 (30 ∷ []) 15 clock quiet r.0 r.1 k')
      (pic_irq 15 clock quiet busy)
pic_irq-Interrupted_example =
    pic_irq-Interrupted busy 20 (30 ∷ []) 15 clock quiet busy-IsScheduled refl refl (omega arith)
      (record { stacks = λ p. omega arith; counts = λ p. omega arith }) (omega arith)
