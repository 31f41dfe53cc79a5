-- ===== src/Lifecycle/Finish.antt =====
-- The last switch of a process in `exit` of kernel/process.cc.
use p12_group.Base.{
  ℕ, ◌<◌, ◌≡◌, ◌≢◌, true, false, refl, arith, ◌∙◌, ap, sym, subst, ◌==◌, if◌then◌else◌, ◌||◌, List,
  [], ◌∷◌, ◌++◌, none, leb, has, Distinct, update, update_self, ne→==,
}
use p12_group.Process.{
  Kernel, disable, leave, pick, dispatch, turn, yield, stack_limit, running, terminated, take_over,
}
use p12_group.Process.Interrupts.{Ensures, bind, once_more, Same, disable-Same}
use p12_group.Process.Scheduler.{IsScheduled, Fits}
use p12_group.Lifecycle.{finish}

-- `yield` without a current process.
record Started (k : Kernel) (next : ℕ) (rest : List ℕ) (k' : Kernel) : Type 0 where
  current : k'.current ≡ next
  ready_queue : k'.ready_queue ≡ rest
  reaper_queue : k'.reaper_queue ≡ k.reaper_queue
  idle_process : k'.idle_process ≡ k.idle_process
  process :
      (p : ℕ)
      → k'.process p ≡ (if p == next then record (k.process p) { state = running } else k.process p)

dispatch-Started :
    (k : Kernel) (next : ℕ)
    → next ≢ 0
    → (k.process next).stack_longs < stack_limit
    → Ensures (λ _. Started k next k.ready_queue) (dispatch next 0 k)
unfolding dispatch take_over
dispatch-Started k next n s =
    let p' = update k.process next (record (k.process next) { state = running }) in
    let e : p' next ≡ record (k.process next) { state = running } = update_self k.process next _ in
    let fits : leb stack_limit (p' next).stack_longs ≡ false = rw e (ground arith) in
    rw (fits, ne→== next 0 n)
      (record {
        current = refl;
        ready_queue = refl;
        reaper_queue = refl;
        idle_process = refl;
        process = λ p. ground arith;
      })

turn-Started :
    (k : Kernel) (next : ℕ)
    → next ≢ 0
    → (k.process next).stack_longs < stack_limit
    → Ensures (λ _. Started k next k.ready_queue) (turn next 0 k)
unfolding turn
turn-Started k next n s =
    bind _ _ (dispatch next 0 k) _ (dispatch-Started k next n s) λ _ k' w. rw (ne→== next 0 n) w

yield-Started :
    (k : Kernel) (next : ℕ) (rest : List ℕ)
    → k.current ≡ 0
    → k.ready_queue ≡ next ∷ rest
    → next ≢ 0
    → (k.process next).stack_longs < stack_limit
    → Ensures (λ _. Started k next rest) (yield none k)
unfolding yield disable leave pick
yield-Started k next rest c q n s =
    let k1 : Kernel = record k { current = 0; ready_queue = rest; interrupts = false } in
    rw (c, q)
      (bind _ _ (turn next 0 k1) _ (turn-Started k1 next n s) (λ _ k' w. record {
        current = w.current;
        ready_queue = w.ready_queue;
        reaper_queue = w.reaper_queue;
        idle_process = w.idle_process;
        process = w.process;
      }))

-- The process me is gone: the next one runs, the scheduling discipline holds, and me is at the end of
-- the reaper's queue, TERMINATED, and not on the ready queue.
pub record Finished (k : Kernel) (next : ℕ) (rest : List ℕ) (k' : Kernel) : Type 0 where
  pub scheduled : IsScheduled k'
  pub current : k'.current ≡ next
  pub ready_queue : k'.ready_queue ≡ rest
  pub reaper_queue : k'.reaper_queue ≡ k.reaper_queue ++ k.current ∷ []
  pub state : (k'.process k.current).state ≡ terminated
  pub not_ready : has k.current k'.ready_queue ≡ false

module _ (k : Kernel) (next : ℕ) (rest : List ℕ) (s : IsScheduled k)
    (q : k.ready_queue ≡ next ∷ rest) where
  members : (p : ℕ) → has p k.ready_queue ≡ (p == next || has p rest)
  members p = ap (has p) q

  abbrev retired : Kernel → Kernel
  retired k1 = record k1 {
    process = update k1.process k1.current (record (k1.process k1.current) { state = terminated });
    reaper_queue = k1.reaper_queue ++ k1.current ∷ [];
    current = 0;
  }

  after-Finished :
      (k1 k' : Kernel)
      → Same k (once_more k) k1
      → Started (retired k1) next rest k'
      → Finished k next rest k'
  after-Finished k1 k' a w =
      let d = subst Distinct q s.distinct in
      let n : next ≢ 0 = ground (arith, members 0, s.not_null) in
      let m : next ≢ k.current = ground (arith, members k.current, s.not_current) in
      let gone : has k.current rest ≡ false = ground (arith, members k.current, s.not_current) in
      let same : (p : ℕ) → p ≢ k.current → p ≢ next → (k'.process p).state ≡ (k.process p).state =
        λ p x y. ground (arith, w.process p, a.process p, a.current) in
      record {
        scheduled = record {
          runs = rw w.current n;
          running = rw w.current (ground (arith, w.process next));
          distinct = rw w.ready_queue d.1;
          not_null = rw w.ready_queue (ground (arith, members 0, s.not_null));
          not_current = rw (w.ready_queue, w.current) d.0;
          not_idle =
              rw (w.ready_queue, w.idle_process, a.idle_process)
                (ground (arith, members k.idle_process, s.not_idle));
          waits = λ p h.
              let h' : has p rest ≡ true = ap (has p) (sym w.ready_queue) ∙ h in
              same p (ground (arith, gone)) (ground (arith, d.0))
              ∙ s.waits p (ground (arith, members p));
        };
        current = w.current;
        ready_queue = w.ready_queue;
        reaper_queue = w.reaper_queue ∙ rw (a.reaper_queue, a.current) refl;
        state = ground (arith, w.process k.current, a.current);
        not_ready = rw w.ready_queue gone;
      }

  -- From a state that follows the scheduling discipline, where another process is ready and the stacks
  -- and counts fit, the end of `exit` switches to the head of the ready queue without a panic. The
  -- discipline holds afterwards, and the process that ended is TERMINATED, at the end of the queue of
  -- the reaper, and not on the ready queue.
  pub finish-Finished : Fits k → Ensures (λ _. Finished k next rest) (finish k)
  unfolding finish
  finish-Finished f =
      bind _ _ (disable k) _ (disable-Same k s.runs (omega (arith, f.counts k.current)))
        λ _ k1 (a, i).
          bind _ _ (yield none (retired k1)) _
            (yield-Started (retired k1) next rest refl (a.ready_queue ∙ q)
              (ground (arith, members 0, s.not_null))
              (ground (arith, a.process next, f.stacks next)))
            λ _ k' w. after-Finished k1 k' a w
