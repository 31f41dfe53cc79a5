-- ===== src/BoundedBuffer/Tests.antt =====
-- A buffer of two places: the theorems of Queue.antt, and what blocks.
use p12_group.Base.{ℕ, zero, suc, get_or, ◌<◌, ◌≡◌, true, refl, arith, ◌==◌, if◌then◌else◌, [], ◌∷◌}
use p12_group.Process.{Kernel, running, ready, new_process}
use p12_group.Process.Interrupts.{Ensures, Same}
use p12_group.Semaphore.{semaphore}
use p12_group.Semaphore.Uncontended.{IsLive}
use p12_group.BoundedBuffer.{BoundedBuffer, put, get}
use p12_group.BoundedBuffer.Ring.{around}
use p12_group.BoundedBuffer.Queue.{IsQueue, put-IsQueue, get-IsQueue}

abbrev busy : Kernel
busy = record {
  process = λ p. record new_process { state = if p == 10 then running else ready };
  current = 10;
  ready_queue = 20 ∷ [];
  reaper_queue = [];
  idle_process = 99;
  interrupts = true;
  fresh = 200;
}

busy-IsLive : IsLive busy
busy-IsLive = record { runs = omega arith; small = omega arith }

-- The only value stands in the last place: the next one goes to place 0.
abbrev wrapped : BoundedBuffer ℕ
wrapped = record {
  arr = 5 ∷ 7 ∷ [];
  n = 2;
  mutex = semaphore 1;
  head = 1;
  tail = 0;
  n_full = semaphore 1;
  n_empty = semaphore 1;
}

one_item : (i : ℕ) → i < 1 → get_or wrapped.arr (around 2 1 i) 0 ≡ get_or (7 ∷ []) i 0
one_item zero l = refl
one_item (suc i) l = absurd (omega arith)

wrapped-IsQueue : IsQueue 0 wrapped (7 ∷ [])
wrapped-IsQueue = record {
  ring = record {
    size = refl;
    fits = omega arith;
    head = omega arith;
    tail = refl;
    items = one_item;
  };
  full = refl;
  empty = refl;
  free = refl;
}

put-IsQueue_example :
    Ensures
      (λ r k'. (r.0 ≡ true) × IsQueue 0 r.1 (7 ∷ 8 ∷ []) × Same busy busy.process k')
      (put 8 wrapped busy)
put-IsQueue_example =
    put-IsQueue 0 wrapped 8 (7 ∷ []) busy busy-IsLive wrapped-IsQueue (omega arith)

get-IsQueue_example :
    Ensures
      (λ r k'. (r.0 ≡ true) × (r.1 ≡ 7) × IsQueue 0 r.2 [] × Same busy busy.process k')
      (get 0 wrapped busy)
get-IsQueue_example = get-IsQueue 0 wrapped 7 [] busy busy-IsLive wrapped-IsQueue
