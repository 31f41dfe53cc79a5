-- ===== src/Process/Invariant.antt =====
-- The queue discipline of kernel/process.cc through `makeReady` and `yield`.
use p12_group.Base.{
  ℕ, ◌≡◌, ◌≢◌, false, arith, ◌∙◌, ap, ◌==◌, if◌then◌else◌, List, [], ◌∷◌, ◌++◌, none, some, has,
  Distinct, Distinct-snoc, has-append, subst, Bool-cases, inl, inr, ◌||◌, ◌<◌, ◌+◌, ◌^◌,
}
use p12_group.Process.{Kernel, make_ready, yield, blocked}
use p12_group.Process.Interrupts.{Ensures, count, mono}
use p12_group.Process.Scheduler.{IsScheduled, Fits, MadeReady, make_ready-MadeReady}
use p12_group.Process.Switch.{Switched, after_yield, after_block, yield-Switched, yield-blocks}

module _ (k : Kernel) (next : ℕ) (rest : List ℕ) (s : IsScheduled k)
    (q : k.ready_queue ≡ next ∷ rest) where
  Distinct-rest : (has next rest ≡ false) × Distinct rest
  Distinct-rest = subst Distinct q s.distinct

  members : (p : ℕ) → has p k.ready_queue ≡ (p == next || has p rest)
  members p = ap (has p) q

  pub next-ne-current : next ≢ k.current
  next-ne-current e = ground (arith, members k.current, s.not_current)

  pub after_yield-IsScheduled :
      (k' : Kernel)
      → k.current ≢ k.idle_process
      → Switched k next (rest ++ k.current ∷ []) after_yield k'
      → IsScheduled k'
  after_yield-IsScheduled k' i w = record {
    runs = ground (arith, w.current, members 0, s.not_null);
    running = rw w.current (ground (arith, w.process next, next-ne-current));
    distinct = rw w.ready_queue (
        Distinct-snoc rest k.current Distinct-rest.1
          (ground (arith, members k.current, s.not_current)));
    not_null =
        rw (w.ready_queue, has-append 0 rest (k.current ∷ []))
          (ground (arith, members 0, s.not_null, s.runs));
    not_current =
        rw (w.ready_queue, w.current, has-append next rest (k.current ∷ []))
          (ground (arith, Distinct-rest.0, next-ne-current));
    not_idle =
        rw (w.ready_queue, w.idle_process, has-append k.idle_process rest (k.current ∷ []))
          (ground (arith, members k.idle_process, s.not_idle));
    waits = λ p h. ground (
      arith,
      w.process p,
      ap (has p) w.ready_queue,
      has-append p rest (k.current ∷ []),
      members p,
      s.waits p,
      Distinct-rest.0,
    );
  }

  after_block-IsScheduled : (k' : Kernel) → Switched k next rest after_block k' → IsScheduled k'
  after_block-IsScheduled k' w = record {
    runs = ground (arith, w.current, members 0, s.not_null);
    running = rw w.current (ground (arith, w.process next, next-ne-current));
    distinct = rw w.ready_queue Distinct-rest.1;
    not_null = rw w.ready_queue (ground (arith, members 0, s.not_null));
    not_current = rw (w.ready_queue, w.current) Distinct-rest.0;
    not_idle =
        rw (w.ready_queue, w.idle_process) (ground (arith, members k.idle_process, s.not_idle));
    waits = λ p h. ground (
      arith,
      w.process p,
      ap (has p) w.ready_queue,
      members p,
      s.waits p,
      Distinct-rest.0,
      members k.current,
      s.not_current,
    );
  }

  -- From a state that follows the scheduling discipline, where another process is ready, the
  -- running process is not the idle one and the stacks and counts fit: `yield` does not panic. The head of
  -- the ready queue runs afterwards, the others have moved up, and the process that gave way is ready and
  -- the last of them; no other process has changed, and the discipline holds.
  pub yield-IsScheduled :
      k.current ≢ k.idle_process
      → Fits k
      → Ensures
          (λ _ k'. IsScheduled k' × Switched k next (rest ++ k.current ∷ []) after_yield k')
          (yield none k)
  yield-IsScheduled i f =
      mono _ _ (yield none k) (yield-Switched k next rest s.runs next-ne-current q f i)
        λ _ k' w. (after_yield-IsScheduled k' i w, w)

  -- From a state that follows the scheduling discipline, where another process is ready, outside
  -- of an interrupt, with stacks and counts that fit: `yield` on a queue switches without a
  -- panic, the discipline holds afterwards, and the process that blocked is at the end of that
  -- queue, in the state BLOCKED, and not on the ready queue.
  pub yield-blocks-IsScheduled :
      (waiting : List ℕ)
      → (k.process k.current).i_depth ≡ 0
      → Fits k
      → Ensures
          (λ w k'.
            IsScheduled k'
            × (w ≡ waiting ++ k.current ∷ [])
            × (has k.current k'.ready_queue ≡ false)
            × ((k'.process k.current).state ≡ blocked))
          (yield (some waiting) k)
  yield-blocks-IsScheduled waiting z f =
      mono _ _ (yield (some waiting) k)
        (yield-blocks k next rest s.runs next-ne-current q f waiting z)
        λ v k' (e, w). (
          after_block-IsScheduled k' w,
          e,
          rw w.ready_queue (ground (arith, members k.current, s.not_current)),
          ground (arith, w.process k.current),
        )

-- `makeReady` of a process that does not run and is not on the ready queue keeps the scheduling
-- discipline, if the count of the running process does not wrap.
pub make_ready-IsScheduled :
    (k : Kernel) (p : ℕ)
    → IsScheduled k
    → p ≢ 0
    → p ≢ k.current
    → has p k.ready_queue ≡ false
    → count k k.current + 1 < 2 ^ 32
    → Ensures (λ _. IsScheduled) (make_ready p k)
make_ready-IsScheduled k p s z c h l =
    mono _ _ (make_ready p k) (make_ready-MadeReady k p s.runs l) λ _ k' (m, _). queued k' m
  where
    members_after :
        (k' : Kernel)
        → MadeReady k p k'
        → (a : ℕ)
        → has a k'.ready_queue
          ≡ (if p == k.idle_process then has a k.ready_queue else has a k.ready_queue || a == p)
    members_after k' m a =
        ap (has a) m.ready_queue ∙ ground (arith, has-append a k.ready_queue (p ∷ []))

    distinct_after : (k' : Kernel) → MadeReady k p k' → Distinct k'.ready_queue
    distinct_after k' m = rw m.ready_queue (elim (Bool-cases (p == k.idle_process)) [
      | inl e ↦ rw e s.distinct
      | inr e ↦ rw e (Distinct-snoc k.ready_queue p s.distinct h)
    ])

    queued : (k' : Kernel) → MadeReady k p k' → IsScheduled k'
    queued k' m = record {
      runs = ground (arith, m.current, s.runs);
      running = rw m.current (ground (arith, m.process k.current, s.running));
      distinct = distinct_after k' m;
      not_null = ground (arith, members_after k' m 0, s.not_null);
      not_current = rw m.current (ground (arith, members_after k' m k.current, s.not_current));
      not_idle = rw m.idle_process (ground (arith, members_after k' m k.idle_process, s.not_idle));
      waits = λ q j. ground (arith, members_after k' m q, m.process q, s.waits q);
    }
