-- ===== src/Timers.antt =====
-- kernel/pit.cc and the timers of kernel/process.cc: the tick count, and the processes that sleep until
-- a later one. The list of timers that `next` links is the list of its members.
pub mod Order
pub mod Wake
pub mod Sleep
mod Tests
use p12_group.Base.{
  ℕ, zero, suc, ◌+◌, ◌*◌, ◌/◌, ◌^◌, ◌%◌, Bool, true, false, List, [], ◌∷◌, Option, none, some, ◌==◌,
  ltb, if◌then◌else◌,
}
use p12_group.Process.{
  Kernel, Run, ok, and_then, M, ◌>>=◌, ◌>>◌, pure, disable, enable, make_ready, yield,
}

pub record Timer : Type 0 where
  pub target : ℕ
  pub waiting : List ℕ

abbrev pub timer : ℕ → Timer
timer target = record { target = target; waiting = [] }

-- `Process::timers` and `idleJiffies`, `Pit::jiffies` and `hz`.
pub record Clock : Type 0 where
  pub timers : List Timer
  pub idle_jiffies : ℕ
  pub jiffies : ℕ
  pub hz : ℕ

abbrev pub freq : ℕ
freq = 1193182

-- `Pit::init`, up to the programming of the device; `none` for its panic, and for a frequency of 0,
-- at which the source divides by it.
unfoldable pub init : ℕ → Clock → Option Clock
init zero c = none
init (suc h) c =
    let d = freq / suc h in
    if ltb d (2 ^ 16) then if d == 0 then none else some (record c { hz = freq / d }) else none

pub seconds : Clock → ℕ
seconds c = c.jiffies / c.hz

-- The list with a timer for the target: the one that is there, or a new one before the first later one.
abbrev pub with_timer : ℕ → List Timer → List Timer
with_timer target [] = timer target ∷ []
with_timer target (p ∷ ps) =
    let rest = with_timer target ps in
    if p.target == target
    then p ∷ ps
    else if ltb target p.target
    then timer target ∷ p ∷ ps
    else p ∷ rest

-- `p->waiting` of the timer p for the target, and its change.
abbrev pub waiting_at : ℕ → List Timer → List ℕ
waiting_at target [] = []
waiting_at target (p ∷ ps) =
    let rest = waiting_at target ps in if p.target == target then p.waiting else rest

abbrev pub set_waiting : ℕ → List ℕ → List Timer → List Timer
set_waiting target w [] = []
set_waiting target w (p ∷ ps) =
    let rest = set_waiting target w ps in
    if p.target == target then record p { waiting = w } ∷ ps else p ∷ rest

-- The flag tells whether the caller runs on; a process that sleeps continues with the two `enable`s at
-- the ends of `yield` and of `sleepUntil`, at once if `yield` has found no other process.
unfoldable pub sleep : ℕ → Clock → M (Bool × Clock)
sleep target c k =
    let ps = with_timer target c.timers in
    if ltb c.jiffies target
    then and_then (yield (some (waiting_at target ps)) k) (λ w k'.
      let c' = record c { timers = set_waiting target w ps } in
      if k'.current == k.current
      then and_then (enable k') (λ _ k2. ok (true, c') k2)
      else ok (false, c') k')
    else and_then (enable k) (λ _ k'. ok (true, c) k')

unfoldable pub sleep_until : ℕ → Clock → M (Bool × Clock)
unfolding sleep
sleep_until second c = do disable; sleep (second * c.hz % 2 ^ 32) c

unfoldable pub sleep_for : ℕ → Clock → M (Bool × Clock)
unfolding sleep_until
sleep_for s c = sleep_until ((seconds c + s) % 2 ^ 32) c

-- `while (!first->waiting.isEmpty()) ...`
unfoldable pub wake : List ℕ → M (Unit {0})
wake [] = pure tt
wake (p ∷ ps) = do make_ready p; wake ps

unfoldable pub count_idle : Clock → Kernel → Clock
count_idle c k =
    if k.current == k.idle_process
    then record c { idle_jiffies = (c.idle_jiffies + 1) % 2 ^ 32 }
    else c

unfoldable pub fire : List Timer → Clock → M Clock
unfolding wake
fire [] c k = ok c k
fire (first ∷ rest) c k =
    if c.jiffies == first.target
    then and_then (wake first.waiting k) (λ _ k'. ok (record c { timers = rest }) k')
    else ok c k

unfoldable pub tick : Clock → M Clock
unfolding fire count_idle
tick c = do disable; c' ← (λ k. fire c.timers (count_idle c k) k); enable; pure c'

-- `Pit::handler`
unfoldable pub handler : Clock → M Clock
unfolding tick
handler c = tick (record c { jiffies = (c.jiffies + 1) % 2 ^ 32 })
