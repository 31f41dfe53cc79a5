-- ===== src/Timers/Wake.antt =====
-- `tick` of kernel/process.cc, called by `Pit::handler`: who is woken.
use p12_group.Base.{
  ℕ, ◌+◌, ◌^◌, ◌%◌, ◌<◌, ◌≡◌, ◌≢◌, refl, sym, arith, false, List, [], ◌∷◌, ◌++◌, append_assoc,
  append-nil, has, ◌==◌, if◌then◌else◌, ◌∙◌, Bool-cases, inl, inr, ap, subst,
}
use p12_group.Process.{Kernel, disable, enable, make_ready}
use p12_group.Process.Interrupts.{
  Ensures, bind, mono, count, once_more, once_less, Same, disable-Same, enable-Same,
}
use p12_group.Process.Scheduler.{MadeReady, made_ready, make_ready-MadeReady}
use p12_group.Timers.{Timer, Clock, waiting_at, wake, fire, count_idle, tick, handler}
use p12_group.Timers.Order.{Later, Later-le, waiting_at-early}

-- The processes ps have been made ready, in this order, and nothing else has changed.
pub record Woken (k : Kernel) (ps : List ℕ) (k' : Kernel) : Type 0 where
  pub current : k'.current ≡ k.current
  pub idle_process : k'.idle_process ≡ k.idle_process
  pub ready_queue : k'.ready_queue ≡ k.ready_queue ++ ps
  pub process :
      (p : ℕ) → k'.process p ≡ (if has p ps then made_ready (k.process p) else k.process p)

none-Woken : (k : Kernel) → Woken k [] k
none-Woken k = record {
  current = refl;
  idle_process = refl;
  ready_queue = sym (append-nil k.ready_queue);
  process = λ p. refl;
}

next-Woken :
    (k k1 k2 : Kernel) (p : ℕ) (ps : List ℕ)
    → has k.idle_process (p ∷ ps) ≡ false
    → MadeReady k p k1
    → Woken k1 ps k2
    → Woken k (p ∷ ps) k2
next-Woken k k1 k2 p ps i m w = record {
  current = w.current ∙ m.current;
  idle_process = w.idle_process ∙ m.idle_process;
  ready_queue =
      w.ready_queue
      ∙ ap (λ q. q ++ ps) (m.ready_queue ∙ ground (arith, i))
      ∙ append_assoc k.ready_queue (p ∷ []) ps;
  process = λ q. ground (arith, w.process q, m.process q);
}

wake-Woken :
    (ps : List ℕ) (k : Kernel)
    → k.current ≢ 0
    → count k k.current + 1 < 2 ^ 32
    → has k.idle_process ps ≡ false
    → Ensures (λ _. Woken k ps) (wake ps k)
unfolding wake
wake-Woken [] k r n i = none-Woken k
wake-Woken (p ∷ ps) k r n i =
    bind _ _ (make_ready p k) _ (make_ready-MadeReady k p r n) λ _ k1 (m, _).
      mono _ _ (wake ps k1)
        (wake-Woken ps k1 (rw m.current r) (rw m.current (ground (arith, m.process k.current)))
          (rw m.idle_process (ground (arith, i))))
        λ _ k2 w. next-Woken k k1 k2 p ps i m w

-- The timer of this tick is gone, and the others are as before.
pub record Fired (c c' : Clock) : Type 0 where
  pub jiffies : c'.jiffies ≡ c.jiffies
  pub later : Later c.jiffies c'.timers
  pub waiting :
      (t : ℕ) → waiting_at t c'.timers ≡ (if t == c.jiffies then [] else waiting_at t c.timers)

early_timer :
    (j : ℕ) (p : Timer) (ps : List Timer)
    → j < p.target
    → Later p.target ps
    → (t : ℕ) → waiting_at t (p ∷ ps) ≡ (if t == j then [] else waiting_at t (p ∷ ps))
early_timer j p ps l s t = ground (arith, waiting_at-early t j (p ∷ ps))

due_timer :
    (p : Timer) (ps : List Timer)
    → Later p.target ps
    → (t : ℕ) → waiting_at t ps ≡ (if t == p.target then [] else waiting_at t (p ∷ ps))
due_timer p ps s t = ground (arith, waiting_at-early t p.target ps)

fire-Fired :
    (ts : List Timer) (i : ℕ) (c : Clock) (k : Kernel)
    → c.timers ≡ ts
    → c.jiffies ≡ i + 1
    → Later i ts
    → k.current ≢ 0
    → count k k.current + 1 < 2 ^ 32
    → has k.idle_process (waiting_at c.jiffies ts) ≡ false
    → Ensures (λ c' k'. Fired c c' × Woken k (waiting_at c.jiffies ts) k') (fire ts c k)
unfolding fire
fire-Fired [] i c k e j s r n z =
    (record { jiffies = refl; later = rw e tt; waiting = λ t. rw e (ground arith) }, none-Woken k)
fire-Fired (p ∷ ps) i c k e j s r n z = elim (Bool-cases (c.jiffies == p.target)) [
  | inl y ↦
      let eq : p.target ≡ c.jiffies = ground arith in
      let same : waiting_at c.jiffies (p ∷ ps) ≡ p.waiting = ground arith in
      rw (y, fire, same)
        (bind _ _ (wake p.waiting k) _
          (wake-Woken p.waiting k r n (ap (has k.idle_process) (sym same) ∙ z))
          λ _ k' w. (
            record {
              jiffies = refl;
              later = Later-le p.target c.jiffies ps (omega arith) s.1;
              waiting = λ t. rw e (
                  subst (λ x. waiting_at t ps ≡ (if t == x then [] else waiting_at t (p ∷ ps))) eq
                    (due_timer p ps s.1 t));
            },
            w,
          ))
  | inr y ↦
      let lt : c.jiffies < p.target = ground arith in
      let nobody : waiting_at c.jiffies (p ∷ ps) ≡ [] =
        waiting_at-early c.jiffies c.jiffies (p ∷ ps) (omega arith) (lt, s.1) in
      rw (y, fire, nobody)
        (
          record {
            jiffies = refl;
            later = rw e (lt, s.1);
            waiting = λ t. rw e (early_timer c.jiffies p ps lt s.1 t);
          },
          none-Woken k,
        )
]

count_idle_lem :
    (c : Clock) (k : Kernel)
    → ((count_idle c k).timers ≡ c.timers) × ((count_idle c k).jiffies ≡ c.jiffies)
unfolding count_idle
count_idle_lem c k = ground arith

around-Woken :
    (k k1 k2 k3 : Kernel) (ps : List ℕ)
    → Same k (once_more k) k1
    → Woken k1 ps k2
    → Same k2 (once_less k2) k3
    → Woken k ps k3
around-Woken k k1 k2 k3 ps s1 w s3 = record {
  current = s3.current ∙ w.current ∙ s1.current;
  idle_process = s3.idle_process ∙ w.idle_process ∙ s1.idle_process;
  ready_queue = s3.ready_queue ∙ w.ready_queue ∙ ap (λ q. q ++ ps) s1.ready_queue;
  process = λ p. ground (arith, s3.process p, w.process p, s1.process p, w.current, s1.current);
}

-- What the tick that makes the count j leaves: the timers after j as before, and none for j.
pub record Ticked (j : ℕ) (ts : List Timer) (c' : Clock) : Type 0 where
  pub jiffies : c'.jiffies ≡ j
  pub later : Later j c'.timers
  pub waiting : (t : ℕ) → waiting_at t c'.timers ≡ (if t == j then [] else waiting_at t ts)

Fired-Ticked :
    (j : ℕ) (ts : List Timer) (c c' : Clock)
    → c.jiffies ≡ j
    → c.timers ≡ ts
    → Fired c c'
    → Ticked j ts c'
Fired-Ticked j ts c c' e f h = record {
  jiffies = h.jiffies ∙ e;
  later = subst (λ i. Later i c'.timers) e h.later;
  waiting = λ t. h.waiting t ∙ rw (e, f) refl;
}

tick-Ticked :
    (c : Clock) (i : ℕ) (k : Kernel)
    → c.jiffies ≡ i + 1
    → Later i c.timers
    → k.current ≢ 0
    → count k k.current + 2 < 2 ^ 32
    → has k.idle_process (waiting_at c.jiffies c.timers) ≡ false
    → Ensures
        (λ c' k'. Ticked c.jiffies c.timers c' × Woken k (waiting_at c.jiffies c.timers) k')
        (tick c k)
unfolding tick
tick-Ticked c i k j s r n z =
    bind _ _ (disable k) _ (disable-Same k r (omega (arith, n))) λ _ k1 (s1, _).
      let (ts, js) = count_idle_lem c k1 in
      let r1 : k1.current ≢ 0 = rw s1.current r in
      let n1 : count k1 k1.current ≡ count k k.current + 1 =
        rw s1.current (ground (arith, s1.process k.current)) in
      bind _ _ (fire c.timers (count_idle c k1) k1) _
        (fire-Fired c.timers i (count_idle c k1) k1 ts (js ∙ j) s r1 (omega (arith, n1))
          (rw (js, s1.idle_process) z))
        λ c' k2 (h, w).
          bind _ _ (enable k2) _
            (enable-Same k2 (rw w.current r1)
              (rw w.current (ground (arith, w.process k1.current, n1))))
            λ _ k3 (s3, _). (
              Fired-Ticked c.jiffies c.timers (count_idle c k1) c' js ts h,
              subst (λ x. Woken k (waiting_at x c.timers) k3) js
                  (around-Woken k k1 k2 k3 _ s1 w s3),
            )

-- With the timers in order and after the present tick, which is not the last that a word can count, in
-- a running process whose count does not wrap, and the idle process not asleep: the next tick moves the
-- count by one and makes ready, in the order in which they went to sleep, exactly the processes that
-- wait for it; the others wait as before, and the timers are in order and after the tick again.
pub handler-Ticked :
    (c : Clock) (k : Kernel)
    → Later c.jiffies c.timers
    → c.jiffies + 1 < 2 ^ 32
    → k.current ≢ 0
    → count k k.current + 2 < 2 ^ 32
    → has k.idle_process (waiting_at (c.jiffies + 1) c.timers) ≡ false
    → Ensures
        (λ c' k'.
          Ticked (c.jiffies + 1) c.timers c' × Woken k (waiting_at (c.jiffies + 1) c.timers) k')
        (handler c k)
unfolding handler
handler-Ticked c k s l r n z =
    let e : (c.jiffies + 1) % 2 ^ 32 ≡ c.jiffies + 1 = omega arith in
    subst
      (λ j.
        Ensures
          (λ c' k'.
            Ticked (c.jiffies + 1) c.timers c' × Woken k (waiting_at (c.jiffies + 1) c.timers) k')
          (tick (record c { jiffies = j }) k))
      (sym e) (tick-Ticked (record c { jiffies = c.jiffies + 1 }) c.jiffies k refl s r n z)
