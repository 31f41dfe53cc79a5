-- ===== src/Process/Switch.antt =====
-- The switch from one process to the next in `yield` and `dispatch` of kernel/process.cc.
use p12_group.Base.{
  ℕ, ◌+◌, ◌^◌, ◌<◌, ◌≡◌, ◌≢◌, true, false, refl, arith, ◌∙◌, ap, subst, ◌==◌, if◌then◌else◌, List,
  [], ◌∷◌, ◌++◌, none, some, leb, ne→==,
}
use p12_group.Process.{
  Kernel, Process, disable, make_ready, leave, pick, dispatch, turn, yield, stack_limit, ready,
  running, blocked, ◌>>=◌, ◌>>◌, pure, take_over,
}
use p12_group.Process.Interrupts.{Ensures, count, bind, mono, once_more, Same, disable-Same}
use p12_group.Process.Scheduler.{Fits, MadeReady, make_ready-MadeReady}

abbrev pub after_yield : Process → Process
after_yield c = record c { state = ready; disable_count = c.disable_count + 1; started = true }

abbrev pub after_block : Process → Process
after_block c = record c { state = blocked; disable_count = c.disable_count + 1; started = true }

abbrev pub after_dispatch : Process → Process
after_dispatch c = record c { state = running }

-- The state after a switch to `next`, with `me` changed by f and the ready queue left as `queue`.
pub record Switched (k : Kernel) (next : ℕ) (queue : List ℕ) (f : Process → Process) (k' : Kernel)
    : Type 0 where
  pub current : k'.current ≡ next
  pub ready_queue : k'.ready_queue ≡ queue
  pub idle_process : k'.idle_process ≡ k.idle_process
  pub reaper_queue : k'.reaper_queue ≡ k.reaper_queue
  pub interrupts : k'.interrupts ≡ (count k next == 0)
  pub process :
      (p : ℕ)
      → k'.process p ≡ (
          if p == k.current
          then f (k.process p)
          else if p == next
          then after_dispatch (k.process p)
          else k.process p)

abbrev pub started : Process → Process
started c = record c { started = true }

take_over-process :
    (k : Kernel) (next p : ℕ)
    → k.current ≢ 0
    → next ≢ k.current
    → (take_over next k.current k).process p ≡ (
        if p == k.current
        then started (k.process p)
        else if p == next
        then after_dispatch (k.process p)
        else k.process p)
unfolding take_over
take_over-process k next p r d = ground arith

take_over-rest :
    (k : Kernel) (next prev : ℕ)
    → ((take_over next prev k).ready_queue ≡ k.ready_queue)
      × ((take_over next prev k).idle_process ≡ k.idle_process)
      × ((take_over next prev k).reaper_queue ≡ k.reaper_queue)
unfolding take_over
take_over-rest k next prev = ground arith

dispatch-Switched :
    (k : Kernel) (next : ℕ)
    → k.current ≢ 0
    → next ≢ k.current
    → (k.process next).stack_longs < stack_limit
    → Ensures (λ _. Switched k next k.ready_queue started) (dispatch next k.current k)
unfolding dispatch
dispatch-Switched k next r d f =
    let t = take_over-process k next in
    let rest = take_over-rest k next k.current in
    let ne : (next == k.current) ≡ false = ground arith in
    let at : (take_over next k.current k).process next ≡ after_dispatch (k.process next) =
      ground (arith, t next r d) in
    let fits : leb stack_limit ((take_over next k.current k).process next).stack_longs ≡ false =
      ground (arith, at) in
    rw (fits, ne, dispatch)
      (record {
        current = refl;
        ready_queue = rest.0;
        idle_process = rest.1;
        reaper_queue = rest.2;
        interrupts = ap (λ (c : Process). c.disable_count == 0) at;
        process = λ p. t p r d;
      })

turn-Switched :
    (k : Kernel) (next : ℕ)
    → k.current ≢ 0
    → next ≢ k.current
    → (k.process next).stack_longs < stack_limit
    → Ensures (λ _. Switched k next k.ready_queue started) (turn next k.current k)
unfolding turn
turn-Switched k next r d f =
    bind _ _ (dispatch next k.current k) _ (dispatch-Switched k next r d f)
      λ _ k' s. rw (ne→== next k.current d) s

-- The two last steps: the head of the ready queue runs.
hand_over :
    (k : Kernel) (next : ℕ) (rest waiting : List ℕ)
    → k.current ≢ 0
    → next ≢ k.current
    → k.ready_queue ≡ next ∷ rest
    → (k.process next).stack_longs < stack_limit
    → Ensures
        (λ w k'. (w ≡ waiting) × Switched k next rest started k')
        ((pick >>= λ n. turn n k.current >> pure waiting) k)
unfolding pick
hand_over k next rest waiting r d q f =
    rw (q, pick)
      (bind _ _ (turn next k.current popped) _ (turn-Switched popped next r d f) λ _ k' s. (
        refl,
        record {
          current = s.current;
          ready_queue = s.ready_queue;
          idle_process = s.idle_process;
          reaper_queue = s.reaper_queue;
          interrupts = s.interrupts;
          process = s.process;
        },
      ))
  where
    popped : Kernel
    popped = record k { ready_queue = rest }

-- What `yield` did before the switch, seen from the process that gives way.
merge_ready :
    (k k1 k2 k3 : Kernel) (next : ℕ) (rest : List ℕ)
    → next ≢ k.current
    → Same k (once_more k) k1
    → MadeReady k1 k1.current k2
    → Switched k2 next rest started k3
    → Switched k next rest after_yield k3
merge_ready k k1 k2 k3 next rest d s1 s2 s3 = record {
  current = s3.current;
  ready_queue = s3.ready_queue;
  idle_process = s3.idle_process ∙ s2.idle_process ∙ s1.idle_process;
  reaper_queue = s3.reaper_queue ∙ s2.reaper_queue ∙ s1.reaper_queue;
  interrupts = ground (arith, s3.interrupts, s2.process next, s1.process next);
  process = λ p. ground (arith, s3.process p, s2.process p, s1.process p, s2.current, s1.current);
}

leave-MadeReady :
    (k : Kernel)
    → k.current ≢ 0
    → count k k.current + 1 < 2 ^ 32
    → Ensures (λ _. MadeReady k k.current) (leave none k)
unfolding leave
leave-MadeReady k r l =
    let nz : (k.current == 0) ≡ false = ground arith in
    rw (nz, leave)
      (bind _ _ (make_ready k.current k) _ (make_ready-MadeReady k k.current r l) λ _ k2 s. s.0)

-- A process that blocks goes to the end of the queue that it waits on.
record Blocked (k : Kernel) (waiting w : List ℕ) (k' : Kernel) : Type 0 where
  queue : w ≡ waiting ++ k.current ∷ []
  current : k'.current ≡ k.current
  ready_queue : k'.ready_queue ≡ k.ready_queue
  reaper_queue : k'.reaper_queue ≡ k.reaper_queue
  idle_process : k'.idle_process ≡ k.idle_process
  process :
      (p : ℕ)
      → k'.process p
        ≡ (if p == k.current then record (k.process p) { state = blocked } else k.process p)

leave-Blocked :
    (k : Kernel) (waiting : List ℕ)
    → k.current ≢ 0
    → (k.process k.current).i_depth ≡ 0
    → Ensures (Blocked k waiting) (leave (some waiting) k)
unfolding leave
leave-Blocked k waiting r z =
    let nz : (k.current == 0) ≡ false = ground arith in
    let top : ((k.process k.current).i_depth == 0) ≡ true = ground arith in
    rw (nz, top, leave)
      (record {
        queue = refl;
        current = refl;
        ready_queue = refl;
        reaper_queue = refl;
        idle_process = refl;
        process = λ p. ground arith;
      })

merge-Blocked :
    (k k1 k2 k3 : Kernel) (next : ℕ) (rest waiting w : List ℕ)
    → next ≢ k.current
    → Same k (once_more k) k1
    → Blocked k1 waiting w k2
    → Switched k2 next rest started k3
    → Switched k next rest after_block k3
merge-Blocked k k1 k2 k3 next rest waiting w d s1 s2 s3 = record {
  current = s3.current;
  ready_queue = s3.ready_queue;
  idle_process = s3.idle_process ∙ s2.idle_process ∙ s1.idle_process;
  reaper_queue = s3.reaper_queue ∙ s2.reaper_queue ∙ s1.reaper_queue;
  interrupts = ground (arith, s3.interrupts, s2.process next, s1.process next, s1.current);
  process = λ p. ground (arith, s3.process p, s2.process p, s1.process p, s2.current, s1.current);
}

module _ (k : Kernel) (next : ℕ) (rest : List ℕ) (r : k.current ≢ 0) (d : next ≢ k.current)
    (q : k.ready_queue ≡ next ∷ rest) (f : Fits k) where
  -- With another process at the head of the ready queue, the running process not the idle one,
  -- and stacks and counts that fit: `yield` puts the running process at the end of the ready
  -- queue and the head runs, with interrupts as its own count says; every other process stays as
  -- it is.
  pub yield-Switched :
      k.current ≢ k.idle_process
      → Ensures (λ _. Switched k next (rest ++ k.current ∷ []) after_yield) (yield none k)
  unfolding yield
  yield-Switched i =
      bind _ _ (disable k) _ (disable-Same k r (omega (arith, f.counts k.current))) λ _ k1 (s1, i1).
        let c1 : count k1 k1.current ≡ count k k.current + 1 =
          rw s1.current (ground (arith, s1.process k.current)) in
        bind _ _ (leave none k1) _
          (leave-MadeReady k1 (rw s1.current r) (omega (arith, c1, f.counts k.current)))
          λ w k2 s2. ready_step k1 k2 w s1 s2
    where
      ready_step :
          (k1 k2 : Kernel) (w : List ℕ)
          → Same k (once_more k) k1
          → MadeReady k1 k1.current k2
          → Ensures
              (λ _. Switched k next (rest ++ k.current ∷ []) after_yield)
              ((pick >>= λ n. turn n k1.current >> pure w) k2)
      ready_step k1 k2 w s1 s2 =
          let cur : k2.current ≡ k.current = s2.current ∙ s1.current in
          subst
            (λ c.
              Ensures (λ _. Switched k next (rest ++ k.current ∷ []) after_yield)
                ((pick >>= λ n. turn n c >> pure w) k2))
            s2.current
            (mono _ _ ((pick >>= λ n. turn n k2.current >> pure w) k2)
              (hand_over k2 next (rest ++ k.current ∷ []) w (rw cur r) (rw cur d)
                (ground (arith, s2.ready_queue, s1.ready_queue, s1.idle_process, s1.current, q))
                (ground (arith, s2.process next, s1.process next, f.stacks next, s1.current)))
              λ _ k3 h. merge_ready k k1 k2 k3 next (rest ++ k.current ∷ []) d s1 s2 h.1)

  -- A process that blocks goes to the end of the queue that it names, and the first ready one runs.
  pub yield-blocks :
      (waiting : List ℕ)
      → (k.process k.current).i_depth ≡ 0
      → Ensures
          (λ w k'. (w ≡ waiting ++ k.current ∷ []) × Switched k next rest after_block k')
          (yield (some waiting) k)
  unfolding yield
  yield-blocks waiting z =
      bind _ _ (disable k) _ (disable-Same k r (omega (arith, f.counts k.current))) λ _ k1 (s1, i1).
        bind _ _ (leave (some waiting) k1) _
          (leave-Blocked k1 waiting (rw s1.current r)
            (rw s1.current (ground (arith, s1.process k.current))))
          λ w k2 s2. blocked_step k1 k2 w s1 s2
    where
      blocked_step :
          (k1 k2 : Kernel) (w : List ℕ)
          → Same k (once_more k) k1
          → Blocked k1 waiting w k2
          → Ensures
              (λ w k'. (w ≡ waiting ++ k.current ∷ []) × Switched k next rest after_block k')
              ((pick >>= λ n. turn n k1.current >> pure w) k2)
      blocked_step k1 k2 w s1 s2 =
          let cur : k2.current ≡ k.current = s2.current ∙ s1.current in
          subst
            (λ c.
              Ensures
                (λ w k'. (w ≡ waiting ++ k.current ∷ []) × Switched k next rest after_block k')
                ((pick >>= λ n. turn n c >> pure w) k2))
            s2.current
            (mono _ _ ((pick >>= λ n. turn n k2.current >> pure w) k2)
              (hand_over k2 next rest w (rw cur r) (rw cur d) (s2.ready_queue ∙ s1.ready_queue ∙ q)
                (ground (arith, s2.process next, s1.process next, f.stacks next, s1.current)))
              λ v k3 h. (
                h.0 ∙ s2.queue ∙ ap (λ c. waiting ++ c ∷ []) s1.current,
                merge-Blocked k k1 k2 k3 next rest waiting w d s1 s2 h.1,
              ))
