-- ===== src/Semaphore.antt =====
-- kernel/semaphore.cc, kernel/semaphore.h: counting semaphores, and the mutex and the event made of
-- them. An operation that may switch to another process ends, as `yield` does, at the switch.
pub mod Steps
pub mod Tokens
pub mod Uncontended
mod Tests
use p12_group.Base.{
  ℕ, ◌+◌, ◌-◌, ◌^◌, ◌%◌, Bool, true, false, List, [], ◌∷◌, none, some, ◌==◌, if◌then◌else◌,
}
use p12_group.Process.{
  Kernel, Run, ok, panic, and_then, M, ◌>>=◌, ◌>>◌, pure, disable, enable, make_ready, yield,
}

-- `count` is an `int`; every use below keeps it at or above zero.
pub record Semaphore : Type 0 where
  pub count : ℕ
  pub waiting : List ℕ

abbrev pub semaphore : ℕ → Semaphore
semaphore count = record { count = count; waiting = [] }

-- The two branches of `down` between its `disable` and its `enable`. The flag tells whether the caller
-- runs on: a process that blocks goes on behind `yield` when it runs again, or at once if `yield` has
-- found no other process.
unfoldable pub take : Semaphore → M (Bool × Semaphore)
take s k =
    if s.count == 0
    then if k.current == 0
      then panic
      else and_then (yield (some s.waiting) k)
          (λ w k'. ok (k'.current == k.current, record s { waiting = w }) k')
    else ok (true, record s { count = s.count - 1 }) k

-- What a blocked caller does when it runs again: the ends of `yield` and of `down`.
unfoldable pub resume_down : M (Unit {0})
resume_down = do enable; enable

unfoldable pub down : Semaphore → M (Bool × Semaphore)
unfolding take
down s = do
  disable
  r ← take s
  (λ k. if r.0 then and_then (enable k) (λ _ k'. ok r k') else ok r k)

unfoldable pub give : Semaphore → M Semaphore
give s k = elim s.waiting [
  | [] ↦ ok (record s { count = s.count + 1 }) k
  | p ∷ rest ↦ and_then (make_ready p k) (λ _ k'. ok (record s { waiting = rest }) k')
]

unfoldable pub up : Semaphore → M Semaphore
unfolding give
up s = do disable; s' ← give s; enable; pure s'

-- `Mutex`: a semaphore that starts at 1.
abbrev pub mutex : Semaphore
mutex = semaphore 1

unfoldable pub lock : Semaphore → M (Bool × Semaphore)
unfolding down
lock s = down s

unfoldable pub unlock : Semaphore → M Semaphore
unfolding up
unlock s = up s

-- `Event`: a semaphore that starts at 0; whoever gets through `wait` lets the next one through.
abbrev pub event : Semaphore
event = semaphore 0

unfoldable pub wait : Semaphore → M (Bool × Semaphore)
unfolding down up
wait s = do
  r ← down s
  (λ k. if r.0 then and_then (up r.1 k) (λ s' k'. ok (true, s') k') else ok r k)

-- The rest of `wait` in a process that was blocked there.
unfoldable pub resume_wait : Semaphore → M Semaphore
unfolding resume_down up
resume_wait s = do resume_down; up s

unfoldable pub signal : Semaphore → M Semaphore
unfolding up
signal s = up s
