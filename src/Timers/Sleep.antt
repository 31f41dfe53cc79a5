-- ===== src/Timers/Sleep.antt =====
-- `sleepUntil` of kernel/process.cc: who runs on, and who waits for which tick.
use p12_group.Base.{
  ℕ, ◌+◌, ◌*◌, ◌^◌, ◌%◌, ◌<◌, ◌≤◌, ◌≡◌, ◌≢◌, ◌⊎◌, inl, inr, refl, arith, true, false, List, [], ◌∷◌,
  ◌++◌, some, ◌==◌, ltb, ltb→lt, if◌then◌else◌, ◌∙◌, Bool-cases, ap,
}
use p12_group.Process.{Kernel, disable, enable, yield}
use p12_group.Process.Interrupts.{Ensures, bind, count, once_more, Same, disable-Same, enable-Same}
use p12_group.Process.Scheduler.{Fits}
use p12_group.Process.Switch.{yield-blocks}
use p12_group.Timers.{Clock, with_timer, waiting_at, set_waiting, sleep, sleep_until}
use p12_group.Timers.Order.{
  Later, with_timer-Later, waiting_at-with_timer, set_waiting-Later, waiting_at-set_waiting,
}

-- The sleeper `me` is the last one that waits for its target, and nothing else has changed.
pub record Sleeps (me target : ℕ) (c c' : Clock) : Type 0 where
  pub later : Later c.jiffies c'.timers
  pub jiffies : c'.jiffies ≡ c.jiffies
  pub waiting :
      (t : ℕ)
      → waiting_at t c'.timers
        ≡ (if t == target then waiting_at target c.timers ++ me ∷ [] else waiting_at t c.timers)

asleep :
    (target me : ℕ) (w : List ℕ) (c : Clock)
    → Later c.jiffies c.timers
    → c.jiffies < target
    → w ≡ waiting_at target (with_timer target c.timers) ++ me ∷ []
    → Sleeps me target c (record c { timers = set_waiting target w (with_timer target c.timers) })
asleep target me w c s l e =
    let h : w ≡ waiting_at target c.timers ++ me ∷ [] =
      e ∙ ap (λ q. q ++ me ∷ []) (waiting_at-with_timer target c.jiffies target c.timers s) in
    record {
      later =
          set_waiting-Later target c.jiffies w _ (with_timer-Later target c.jiffies c.timers l s);
      jiffies = refl;
      waiting = λ t.
          waiting_at-set_waiting target c.jiffies t w c.timers s
          ∙ ap (λ q. if t == target then q else waiting_at t c.timers) h;
    }

disabled-Fits :
    (k k1 : Kernel) → Fits k → count k k.current + 3 < 2 ^ 32 → Same k (once_more k) k1 → Fits k1
disabled-Fits k k1 f l s = record {
  stacks = λ p. ground (arith, s.process p, f.stacks p);
  counts = λ p. ground (arith, s.process p, f.counts p, l);
}

module _ (k : Kernel) (next : ℕ) (rest : List ℕ) (r : k.current ≢ 0) (d : next ≢ k.current)
    (q : k.ready_queue ≡ next ∷ rest) (f : Fits k) (n : count k k.current + 3 < 2 ^ 32)
    (z : (k.process k.current).i_depth ≡ 0) (c : Clock) (s : Later c.jiffies c.timers) where
  sleep-Sleeps :
      (target : ℕ) (k1 : Kernel)
      → Same k (once_more k) k1
      → Ensures
          (λ r k'.
            ((r.0 ≡ true) × (target ≤ c.jiffies) × (r.1 ≡ c) × (k'.current ≡ k.current))
            ⊎ ((r.0 ≡ false)
                × (c.jiffies < target)
                × (k'.current ≡ next)
                × Sleeps k.current target c r.1))
          (sleep target c k1)
  unfolding sleep
  sleep-Sleeps target k1 s1 =
      let away : (k2 : Kernel) → k2.current ≡ next → (k2.current == k1.current) ≡ false =
        λ k2 e. ground (arith, s1.current, d) in
      elim (Bool-cases (ltb c.jiffies target)) [
        | inl l ↦
            rw (l, sleep)
              (bind _ _ (yield (some (waiting_at target (with_timer target c.timers))) k1) _
                (yield-blocks k1 next rest (rw s1.current r) (rw s1.current d) (s1.ready_queue ∙ q)
                  (disabled-Fits k k1 f n s1) (waiting_at target (with_timer target c.timers))
                  (rw s1.current (ground (arith, s1.process k.current, z))))
                λ w k2 (e, y). rw (away k2 y.current) (
                  inr (
                    refl,
                    ltb→lt c.jiffies target l,
                    y.current,
                    asleep target k.current w c s (ltb→lt c.jiffies target l) (
                        e
                        ∙ ap (λ p. waiting_at target (with_timer target c.timers) ++ p ∷ [])
                            s1.current),
                  )))
        | inr l ↦
            rw (l, sleep)
              (bind _ _ (enable k1) _
                (enable-Same k1 (rw s1.current r)
                  (rw s1.current (ground (arith, s1.process k.current))))
                λ _ k2 (s2, _). inl (refl, ground arith, refl, s2.current ∙ s1.current))
      ]

  -- With the timers in order and after the present tick, in a process outside of an interrupt with
  -- another one ready, and stacks and counts that fit: for a target that has passed `sleepUntil`
  -- returns at once and changes no timer; for a later one it switches to the ready process, the caller
  -- is the last of those that wait for the target, the others wait as before, and the timers are in
  -- order again.
  pub sleep_until-Sleeps :
      (second : ℕ)
      → Ensures
          (λ r k'.
            ((r.0 ≡ true)
              × (second * c.hz % 2 ^ 32 ≤ c.jiffies)
              × (r.1 ≡ c)
              × (k'.current ≡ k.current))
            ⊎ ((r.0 ≡ false)
                × (c.jiffies < second * c.hz % 2 ^ 32)
                × (k'.current ≡ next)
                × Sleeps k.current (second * c.hz % 2 ^ 32) c r.1))
          (sleep_until second c k)
  unfolding sleep_until
  sleep_until-Sleeps second =
      bind _ _ (disable k) _ (disable-Same k r (omega (arith, f.counts k.current)))
        λ _ k1 (s1, _). sleep-Sleeps (second * c.hz % 2 ^ 32) k1 s1
