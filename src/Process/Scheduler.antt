-- ===== src/Process/Scheduler.antt =====
-- Who runs and who waits after `makeReady` and `yield` of kernel/process.cc.
use p12_group.Base.{
  ℕ, ◌+◌, ◌^◌, ◌<◌, ◌≡◌, ◌≢◌, true, false, arith, ◌∙◌, ◌==◌, if◌then◌else◌, [], ◌∷◌, ◌++◌, has,
  Distinct,
}
use p12_group.Process.{
  Kernel, Process, State, disable, enable, make_ready, enqueue_ready, stack_limit, ready,
}
use p12_group.Process.Interrupts.{
  Ensures, count, bind, mono, once_more, once_less, Same, disable-Same, enable-Same,
}

-- The ready queue holds each process that waits for the processor once, and neither the one that has
-- it nor the idle process; the states say the same.
pub record IsScheduled (k : Kernel) : Type 0 where
  pub runs : k.current ≢ 0
  pub running : (k.process k.current).state ≡ State.running
  pub distinct : Distinct k.ready_queue
  pub not_null : has 0 k.ready_queue ≡ false
  pub not_current : has k.current k.ready_queue ≡ false
  pub not_idle : has k.idle_process k.ready_queue ≡ false
  pub waits : (p : ℕ) → has p k.ready_queue ≡ true → (k.process p).state ≡ State.ready

-- What every process needs for a switch: room on its stack, and a count that does not wrap.
pub record Fits (k : Kernel) : Type 0 where
  pub stacks : (p : ℕ) → (k.process p).stack_longs < stack_limit
  pub counts : (p : ℕ) → count k p + 2 < 2 ^ 32

abbrev pub made_ready : Process → Process
made_ready c = record c { state = ready }

-- The state after `makeReady p`, at each process.
pub record MadeReady (k : Kernel) (p : ℕ) (k' : Kernel) : Type 0 where
  pub current : k'.current ≡ k.current
  pub ready_queue :
      k'.ready_queue ≡ (if p == k.idle_process then k.ready_queue else k.ready_queue ++ p ∷ [])
  pub reaper_queue : k'.reaper_queue ≡ k.reaper_queue
  pub idle_process : k'.idle_process ≡ k.idle_process
  pub process : (q : ℕ) → k'.process q ≡ (if q == p then made_ready (k.process q) else k.process q)

enqueue_ready-MadeReady : (k : Kernel) (p : ℕ) → MadeReady k p (enqueue_ready p k)
unfolding enqueue_ready
enqueue_ready-MadeReady k p = record {
  current = ground arith;
  ready_queue = ground arith;
  reaper_queue = ground arith;
  idle_process = ground arith;
  process = λ q. ground arith;
}

enqueue_ready-interrupts : (k : Kernel) (p : ℕ) → (enqueue_ready p k).interrupts ≡ k.interrupts
unfolding enqueue_ready
enqueue_ready-interrupts k p = ground arith

settle :
    (k k1 k2 k3 : Kernel) (p : ℕ)
    → Same k (once_more k) k1
    → MadeReady k1 p k2
    → Same k2 (once_less k2) k3
    → MadeReady k p k3
settle k k1 k2 k3 p s1 s2 s3 = record {
  current = s3.current ∙ s2.current ∙ s1.current;
  ready_queue = ground (arith, s3.ready_queue, s2.ready_queue, s1.ready_queue, s1.idle_process);
  reaper_queue = s3.reaper_queue ∙ s2.reaper_queue ∙ s1.reaper_queue;
  idle_process = s3.idle_process ∙ s2.idle_process ∙ s1.idle_process;
  process = λ q. ground (arith, s3.process q, s2.process q, s1.process q, s2.current, s1.current);
}

-- Called by a running process whose count does not wrap, `makeReady p` puts p at the end of the
-- ready queue, unless p is the idle process, marks it as ready, changes no other process, and
-- leaves interrupts on exactly if the caller's count is 0.
pub make_ready-MadeReady :
    (k : Kernel) (p : ℕ)
    → k.current ≢ 0
    → count k k.current + 1 < 2 ^ 32
    → Ensures
        (λ _ k'. MadeReady k p k' × (k'.interrupts ≡ (count k k.current == 0)))
        (make_ready p k)
unfolding make_ready
make_ready-MadeReady k p r l = bind _ _ (disable k) _ (disable-Same k r l) λ _ k1 (s1, i1).
    let s2 = enqueue_ready-MadeReady k1 p in
    let cur : (enqueue_ready p k1).current ≡ k.current = s2.current ∙ s1.current in
    let n : count (enqueue_ready p k1) (enqueue_ready p k1).current ≡ count k k.current + 1 =
      rw cur (ground (arith, s2.process k.current, s1.process k.current)) in
    let i2 : (enqueue_ready p k1).interrupts ≡ false = enqueue_ready-interrupts k1 p ∙ i1 in
    mono _ _ (enable (enqueue_ready p k1))
      (enable-Same (enqueue_ready p k1) (rw cur r) (omega (arith, n)))
      λ _ k3 (s3, i3). (settle k k1 (enqueue_ready p k1) k3 p s1 s2 s3, ground (arith, i3, i2, n))
