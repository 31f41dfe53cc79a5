-- ===== src/Syscall/Tests.antt =====
-- Calls of the process 10, whose table has four slots, the slot 3 free.
use p12_group.Base.{
  ℕ, ◌-◌, ◌<◌, ◌≤◌, ◌≡◌, ◌≢◌, ◌==◌, if◌then◌else◌, true, refl, arith, [], ◌∷◌, none, some,
}
use p12_group.Base.Int.{pos}
use p12_group.Block.Ram.{Memory, disk_of}
use p12_group.Process.{Kernel, running, ready, new_process}
use p12_group.Process.Interrupts.{Same}
use p12_group.Semaphore
use p12_group.Semaphore.Uncontended.{IsLive}
use p12_group.Resource.{ResourceType}
use p12_group.Table.{slot, err_invalid_id}
use p12_group.Syscall.{System, returns, Call, syscall}
use p12_group.Syscall.Ids.{syscall-Outside}
use p12_group.Syscall.Units.{IsLowest, semaphore-down-up}

abbrev busy : Kernel
busy = record {
  process = λ p. record new_process { state = if p == 10 then running else ready };
  current = 10;
  ready_queue = 20 ∷ [];
  reaper_queue = [];
  idle_process = 99;
  interrupts = true;
  fresh = 200;
}

abbrev small : System Memory
small = record {
  kernel = busy;
  objects = λ p. if p == 80 then some (record { type = ResourceType.file; count = 1 }) else none;
  table = record { n = 4; array = 0 ∷ 0 ∷ 80 ∷ 0 ∷ [] };
  semaphore = λ p. Semaphore.semaphore 0;
  done = λ p. Semaphore.semaphore 0;
  file = λ p. record {
    open_file = record { start = 5; type = 1; length = 20; parent_dir = 2; current_blk = 5 };
    offset = 0;
  };
  fresh = 96;
  device = λ b i. 0;
  fs = record { super = record { n_blocks = 16; avail = 8; root = 2 }; fat = λ b. 0 };
  bytes = λ a. 0;
}

syscall-Outside_example :
    syscall (disk_of 512) Call.join (pos 4) (pos 0) small ≡ returns err_invalid_id small
syscall-Outside_example =
    syscall-Outside (disk_of 512) Call.join (pos 4) (pos 0) small refl (omega arith)

slot_2 : (j : ℕ) → 2 ≤ j → j < 3 → slot small.table j ≢ 0
slot_2 j l m = let e : j ≡ 2 = omega arith in rw e (omega arith)

lowest : IsLowest small.table 3
lowest = record { from_two = omega arith; inside = omega arith; free = refl; below = slot_2 }

busy-IsLive : IsLive busy
busy-IsLive = record { runs = omega arith; small = omega arith }

semaphore-down-up_example :
    (y1 : System Memory) × (y2 : System Memory) × (y3 : System Memory) × (syscall
        (disk_of 512)
        Call.semaphore
        (pos 2)
        (pos 0)
        small
      ≡ returns (pos 3) y1)
    × (syscall (disk_of 512) Call.down (pos 3) (pos 0) y1 ≡ returns (pos 0) y2)
    × (syscall (disk_of 512) Call.up (pos 3) (pos 0) y2 ≡ returns (pos 0) y3)
    × (y2.semaphore 96 ≡ Semaphore.semaphore (2 - 1))
    × (y3.semaphore 96 ≡ Semaphore.semaphore 2)
    × Same busy busy.process y3.kernel
semaphore-down-up_example =
    semaphore-down-up (disk_of 512) small 2 3 (pos 0) (omega arith) lowest refl busy-IsLive
      (omega arith)
