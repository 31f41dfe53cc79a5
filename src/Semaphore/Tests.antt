-- ===== src/Semaphore/Tests.antt =====
-- A mutex between processes 10 and 20: the theorems of this folder applied to a run of the code.
use p12_group.Base.{arith, ◌≤◌, ◌≡◌, ◌⊎◌, true, refl, ◌==◌, if◌then◌else◌, [], ◌∷◌, length}
use p12_group.Process.{
  Kernel, running, ready, Run, ok, panic, new_process, disable, enable, make_ready, enqueue_ready,
  yield, leave, pick, turn, dispatch, take_over,
}
use p12_group.Process.Turns.{CanWait}
use p12_group.Semaphore.{mutex, down, up, give, take, resume_down}
use p12_group.Semaphore.Tokens.{
  System, Reach, here, next, acquires, blocks, releases, resumes, elsewhere, bounded_holders,
}

abbrev busy : Kernel
busy = record {
  process = λ p. record new_process { state = if p == 10 then running else ready };
  current = 10;
  ready_queue = 20 ∷ [];
  reaper_queue = [];
  idle_process = 99;
  interrupts = true;
  fresh = 200;
}

abbrev start : System
start = record { kernel = busy; sem = mutex; asleep = []; inside = [] }

abbrev final : {A : Type 0} → Run A → Kernel
final (ok a k) = k
final panic = busy

busy-CanWait : CanWait busy
busy-CanWait = record {
  runs = omega arith;
  not_idle = omega arith;
  not_ready = refl;
  not_fresh = omega arith;
}

-- Process 10 takes the mutex.
abbrev locked : System
locked = record {
  kernel = final (down mutex busy);
  sem = record { count = 0; waiting = [] };
  asleep = [];
  inside = 10 ∷ [];
}

-- Process 20 runs next, and has to wait.
abbrev switched : Kernel
switched = record busy { current = 20; ready_queue = 10 ∷ [] }

switched-CanWait : CanWait switched
switched-CanWait = record {
  runs = omega arith;
  not_idle = omega arith;
  not_ready = refl;
  not_fresh = omega arith;
}

abbrev contended : System
contended = record {
  kernel = final (down locked.sem switched);
  sem = record { count = 0; waiting = 20 ∷ [] };
  asleep = 20 ∷ [];
  inside = 10 ∷ [];
}

-- Process 10, which runs again, hands the mutex to 20.
abbrev handed : System
handed = record {
  kernel = final (up contended.sem contended.kernel);
  sem = record { count = 0; waiting = [] };
  asleep = 20 ∷ [];
  inside = [];
}

-- Process 20 runs again where it stopped in `yield`, with interrupts disabled twice.
abbrev back : Kernel
back = record handed.kernel {
  process =
      λ p. record new_process { state = if p == 20 then running else ready; disable_count = 2 };
  current = 20;
  ready_queue = [];
}

-- And process 20 returns from `down`.
abbrev resumed : System
resumed = record {
  kernel = final (resume_down back);
  sem = handed.sem;
  asleep = [];
  inside = 20 ∷ [];
}

run : Reach start resumed
unfolding down disable enable take yield leave pick turn dispatch take_over up give make_ready
    enqueue_ready resume_down
run =
    next
      (next
        (next
          (next
            (next
              (next here
                (acquires busy (final (down mutex busy)) mutex locked.sem [] [] busy-CanWait refl))
              (elsewhere (final (down mutex busy)) switched locked.sem [] (10 ∷ [])))
            (blocks switched (final (down locked.sem switched)) locked.sem contended.sem []
              (10 ∷ []) switched-CanWait refl))
          (releases contended.kernel handed.kernel contended.sem handed.sem (20 ∷ []) (10 ∷ []) refl
            refl))
        (elsewhere handed.kernel back handed.sem (20 ∷ []) []))
      (resumes back (final (resume_down back)) handed.sem (20 ∷ []) [] refl refl refl)

bounded_holders_example :
    (length resumed.inside ≤ 1) × ((resumed.sem.waiting ≡ []) ⊎ (resumed.sem.count ≡ 0))
bounded_holders_example = bounded_holders 1 busy resumed run
