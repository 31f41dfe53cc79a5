-- ===== src/Pic/Irq.antt =====
-- An interrupt of kernel/pic.cc switches to the next process.
use p12_group.Base.{
  false, ℕ, ◌<◌, ◌≡◌, ◌≢◌, refl, arith, ◌∙◌, ap, sym, subst, ◌==◌, leb, if◌then◌else◌, List, [],
  ◌∷◌, ◌++◌, none, has, Bool-cases, inl, inr, ne→==, Distinct,
}
use p12_group.Process.{Kernel, ok, start_irq, yield}
use p12_group.Process.Interrupts.{Ensures, count, bind}
use p12_group.Process.Scheduler.{IsScheduled, Fits}
use p12_group.Process.Switch.{yield-Switched}
use p12_group.Process.Invariant.{after_yield-IsScheduled}
use p12_group.Timers.{Clock}
use p12_group.Pic.{Ports, c1, c2, serve, pic_eoi, pic_irq}

-- The running process is marked as interrupted; nothing else changes.
record Marked (k k' : Kernel) : Type 0 where
  current : k'.current ≡ k.current
  ready_queue : k'.ready_queue ≡ k.ready_queue
  idle_process : k'.idle_process ≡ k.idle_process
  state : (p : ℕ) → (k'.process p).state ≡ (k.process p).state
  stack : (p : ℕ) → (k'.process p).stack_longs ≡ (k.process p).stack_longs
  counts : (p : ℕ) → count k' p ≡ (if p == k.current then 1 else count k p)

start_irq-Marked :
    (k : Kernel) → k.current ≢ 0 → count k k.current ≡ 0 → Ensures (λ _. Marked k) (start_irq k)
unfolding start_irq
start_irq-Marked k n z =
    rw (ne→== k.current 0 n, z)
      (record {
        current = refl;
        ready_queue = refl;
        idle_process = refl;
        state = λ p. ground arith;
        stack = λ p. ground arith;
        counts = λ p. ground arith;
      })

Marked-IsScheduled : (k k1 : Kernel) → Marked k k1 → IsScheduled k → IsScheduled k1
Marked-IsScheduled k k1 m s = record {
  runs = λ e. s.runs (sym m.current ∙ e);
  running = ap (λ p. (k1.process p).state) m.current ∙ m.state k.current ∙ s.running;
  distinct = subst Distinct (sym m.ready_queue) s.distinct;
  not_null = ap (has 0) m.ready_queue ∙ s.not_null;
  not_current = rw (m.current, m.ready_queue) s.not_current;
  not_idle = rw (m.idle_process, m.ready_queue) s.not_idle;
  waits = λ p h. m.state p ∙ s.waits p (ap (has p) (sym m.ready_queue) ∙ h);
}

Marked-Fits : (k k1 : Kernel) → Marked k k1 → Fits k → Fits k1
Marked-Fits k k1 m f = record {
  stacks = λ p. subst (λ n. n < 2048) (sym (m.stack p)) (f.stacks p);
  counts = λ p. ground (arith, m.counts p, f.counts p);
}

-- The next process runs, the interrupted one is the last of the ready queue, the clock is as it was, and
-- the controllers have the end of the interrupt: the second one, if the interrupt is its own, then the
-- first one.
pub record Interrupted (k : Kernel) (next : ℕ) (rest : List ℕ) (irq : ℕ) (c : Clock) (s : Ports)
    (c' : Clock) (s' : Ports) (k' : Kernel) : Type 0 where
  pub scheduled : IsScheduled k'
  pub current : k'.current ≡ next
  pub ready_queue : k'.ready_queue ≡ rest ++ k.current ∷ []
  pub clock : c' ≡ c
  pub written :
      s'.written
      ≡ (if leb 8 irq then (c1, 0x20) ∷ (c2, 0x20) ∷ s.written else (c1, 0x20) ∷ s.written)

eoi-written :
    (irq : ℕ) (s : Ports)
    → (pic_eoi irq s).written
      ≡ (if leb 8 irq then (c1, 0x20) ∷ (c2, 0x20) ∷ s.written else (c1, 0x20) ∷ s.written)
unfolding pic_eoi
eoi-written irq s = elim (Bool-cases (leb 8 irq)) [ inl e ↦ rw e refl | inr e ↦ rw e refl ]

serve_other : (irq : ℕ) (c : Clock) (k : Kernel) → irq ≢ 0 → serve irq c k ≡ ok c k
unfolding serve
serve_other irq c k n = rw (ne→== irq 0 n) refl

-- From a state that follows the scheduling discipline, where another process is ready, interrupts are
-- not disabled, the running process is not the idle one and the stacks and counts fit: an interrupt
-- other than the timer's switches to the head of the ready queue without a panic. The discipline holds
-- afterwards, the interrupted process is at the end of the ready queue, the clock is as it was, and the
-- controllers are told the end of the interrupt, the second one exactly if the number is 8 or more.
pub pic_irq-Interrupted :
    (k : Kernel) (next : ℕ) (rest : List ℕ) (irq : ℕ) (c : Clock) (s : Ports)
    → IsScheduled k
    → k.ready_queue ≡ next ∷ rest
    → count k k.current ≡ 0
    → k.current ≢ k.idle_process
    → Fits k
    → irq ≢ 0
    → Ensures (λ r k'. Interrupted k next rest irq c s r.0 r.1 k') (pic_irq irq c s k)
unfolding pic_irq
pic_irq-Interrupted k next rest irq c s i q z d f n =
    bind _ _ (start_irq k) _ (start_irq-Marked k i.runs z) λ _ k1 m.
      let i1 = Marked-IsScheduled k k1 m i in
      let q1 = m.ready_queue ∙ q in
      let ne : next ≢ k1.current = ground (arith, ap (has k1.current) q1, i1.not_current) in
      let same_none : (k' : Kernel) → k'.current ≡ next → (k'.current == k.current) ≡ false =
        λ k' e. ground (arith, m.current, ne) in
      rw (serve_other irq c k1 n) (
        bind _ _ (yield none k1) _
          (yield-Switched k1 next rest i1.runs ne q1 (Marked-Fits k k1 m f)
            (ground (arith, m.current, m.idle_process, d)))
          λ _ k' w. rw (same_none k' w.current) (record {
            scheduled =
                after_yield-IsScheduled k1 next rest i1 q1 k'
                  (ground (arith, m.current, m.idle_process, d)) w;
            current = w.current;
            ready_queue = w.ready_queue ∙ ap (λ p. rest ++ p ∷ []) m.current;
            clock = refl;
            written = eoi-written irq s;
          }))
