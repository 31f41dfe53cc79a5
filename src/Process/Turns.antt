-- ===== src/Process/Turns.antt =====
-- Who runs after `yield` of kernel/process.cc, from any state, if the kernel does not panic.
use p12_group.Base.{
  ℕ, ◌≡◌, ◌≢◌, ◌==◌, false, inl, inr, List, [], ◌∷◌, ◌++◌, Option, none, some, has, arith, refl, ap,
  ◌∙◌, sym, append-nil, Bool-cases, ne→==,
}
use p12_group.Process.{
  Kernel, Run, ok, panic, and_then, M, disable, enable, make_ready, enqueue_ready, leave, idle,
  pick, take_over, dispatch, turn, yield,
}

-- If the run does not panic, what it leaves satisfies P.
abbrev pub Whenever : {A : Type 0} → (A → Kernel → Type 0) → Run A → Type 0
Whenever P (ok a k) = P a k
Whenever P panic = Unit {0}

pub bind :
    {A B : Type 0} (P : A → Kernel → Type 0) (Q : B → Kernel → Type 0) (r : Run A) (f : A → M B)
    → Whenever P r
    → ((a : A) (k : Kernel) → P a k → Whenever Q (f a k))
    → Whenever Q (and_then r f)
bind P Q (ok a k) f h next = next a k h
bind P Q panic f h next = tt

pub any : {A : Type 0} (r : Run A) → Whenever (λ _ _. Unit {0}) r
any (ok a k) = tt
any panic = tt

pub mono :
    {A : Type 0} (P Q : A → Kernel → Type 0) (r : Run A)
    → Whenever P r
    → ((a : A) (k : Kernel) → P a k → Q a k)
    → Whenever Q r
mono P Q (ok a k) h weaken = weaken a k h
mono P Q panic h weaken = tt

-- What says who can run is as it was.
pub record Kept (k k' : Kernel) : Type 0 where
  pub current : k'.current ≡ k.current
  pub ready_queue : k'.ready_queue ≡ k.ready_queue
  pub idle_process : k'.idle_process ≡ k.idle_process
  pub fresh : k'.fresh ≡ k.fresh

pub disable-Kept : (k : Kernel) → Whenever (λ _. Kept k) (disable k)
unfolding disable
disable-Kept k = elim (Bool-cases (k.current == 0)) [
  | inl e ↦
      rw (e, disable)
        (record { current = refl; ready_queue = refl; idle_process = refl; fresh = refl })
  | inr e ↦
      rw (e, disable)
        (record { current = refl; ready_queue = refl; idle_process = refl; fresh = refl })
]

-- The ready queue keeps its members in their places, and may have others behind them.
pub record Grown (k k' : Kernel) : Type 0 where
  pub current : k'.current ≡ k.current
  pub more : List ℕ
  pub ready_queue : k'.ready_queue ≡ k.ready_queue ++ more

enable-Kept :
    (k : Kernel)
    → Whenever (λ _ k'. (k'.current ≡ k.current) × (k'.ready_queue ≡ k.ready_queue)) (enable k)
unfolding enable
enable-Kept k = ground arith

enqueue_ready-Grown : (p : ℕ) (k : Kernel) → Grown k (enqueue_ready p k)
unfolding enqueue_ready
enqueue_ready-Grown p k = elim (Bool-cases (p == k.idle_process)) [
  | inl e ↦
      rw (e, enqueue_ready)
        (record { current = refl; more = []; ready_queue = sym (append-nil k.ready_queue) })
  | inr e ↦ rw (e, enqueue_ready) (record { current = refl; more = p ∷ []; ready_queue = refl })
]

make_ready-Grown : (p : ℕ) (k : Kernel) → Whenever (λ _. Grown k) (make_ready p k)
unfolding make_ready
make_ready-Grown p k = bind _ _ (disable k) _ (disable-Kept k) λ _ k1 h.
    let g = enqueue_ready-Grown p k1 in
    mono _ (λ _. Grown k) (enable (enqueue_ready p k1)) (enable-Kept (enqueue_ready p k1))
      λ _ k2 e. record {
        current = e.0 ∙ g.current ∙ h.current;
        more = g.more;
        ready_queue = e.1 ∙ g.ready_queue ∙ ap (λ t. t ++ g.more) h.ready_queue;
      }

leave-Grown : (q : Option (List ℕ)) (k : Kernel) → Whenever (λ _. Grown k) (leave q k)
unfolding leave
leave-Grown none k = elim (Bool-cases (k.current == 0)) [
  | inl e ↦
      rw (e, leave)
        (record { current = refl; more = []; ready_queue = sym (append-nil k.ready_queue) })
  | inr e ↦
      rw (e, leave)
        (bind _ (λ _. Grown k) (make_ready k.current k) _ (make_ready-Grown k.current k)
          λ _ k' g. g)
]
leave-Grown (some w) k = elim (Bool-cases (k.current == 0)) [
  | inl e ↦
      rw (e, leave)
        (record { current = refl; more = []; ready_queue = sym (append-nil k.ready_queue) })
  | inr e ↦ elim (Bool-cases ((k.process k.current).i_depth == 0)) [
    | inl d ↦
        rw (e, d, leave)
          (record { current = refl; more = []; ready_queue = sym (append-nil k.ready_queue) })
    | inr d ↦ rw (e, d, leave) tt
  ]
]

dispatch_lem :
    (n : ℕ) (k : Kernel)
    → Whenever
        (λ _ k'. (k'.current ≡ n) × (k'.ready_queue ≡ k.ready_queue))
        (dispatch n k.current k)
unfolding dispatch take_over
dispatch_lem n k = ground arith

pub turn_lem :
    (n : ℕ) (k : Kernel)
    → Whenever (λ _ k'. (k'.current ≡ n) × (k'.ready_queue ≡ k.ready_queue)) (turn n k.current k)
unfolding turn
turn_lem n k = bind _ _ (dispatch n k.current k) _ (dispatch_lem n k) λ _ k1 h.
    elim (Bool-cases (n == k.current)) [
      | inl e ↦ rw e (
          mono _ (λ _ k'. (k'.current ≡ n) × (k'.ready_queue ≡ k.ready_queue)) (enable k1)
            (enable-Kept k1) λ _ k2 f. (f.0 ∙ h.0, f.1 ∙ h.1))
      | inr e ↦ rw e h
    ]

-- Whatever `yield` is called with: the head of the ready queue runs, and the others are where they were.
pub yield_head :
    (q : Option (List ℕ)) (k : Kernel) (next : ℕ) (rest : List ℕ)
    → k.ready_queue ≡ next ∷ rest
    → Whenever
        (λ _ k'. (k'.current ≡ next) × (more : List ℕ) × (k'.ready_queue ≡ rest ++ more))
        (yield q k)
unfolding yield pick
yield_head q k next rest e = bind _ _ (disable k) _ (disable-Kept k) λ _ k1 h.
    bind _ _ (leave q k1) _ (leave-Grown q k1) λ w k2 g.
      let f : k2.ready_queue ≡ next ∷ (rest ++ g.more) =
        g.ready_queue ∙ ap (λ t. t ++ g.more) (h.ready_queue ∙ e) in
      let popped : Kernel = record k2 { ready_queue = rest ++ g.more } in
      rw (f, sym g.current)
        (bind _ _ (turn next k2.current popped) _ (turn_lem next popped)
          λ _ k3 t. (t.0, g.more, t.1))

-- Whoever has another process to switch to: not the idle one, and neither on the ready queue nor about to
-- be made.
pub record CanWait (k : Kernel) : Type 0 where
  pub runs : k.current ≢ 0
  pub not_idle : k.current ≢ k.idle_process
  pub not_ready : has k.current k.ready_queue ≡ false
  pub not_fresh : k.current ≢ k.fresh

pub Kept-CanWait : (k k' : Kernel) → Kept k k' → CanWait k → CanWait k'
Kept-CanWait k k' h c = record {
  runs = rw h.current c.runs;
  not_idle = rw (h.current, h.idle_process) c.not_idle;
  not_ready = rw (h.current, h.ready_queue) c.not_ready;
  not_fresh = rw (h.current, h.fresh) c.not_fresh;
}

pick_other :
    (k : Kernel) (q : List ℕ)
    → k.ready_queue ≡ q
    → CanWait k
    → Whenever (λ n k'. (n ≢ k.current) × (k'.current ≡ k.current)) (pick k)
unfolding pick idle
pick_other k [] e c = elim (Bool-cases (k.idle_process == 0)) [
  | inl z ↦ rw (e, z, pick, idle) (λ f. c.not_fresh (sym f), refl)
  | inr z ↦ rw (e, z, pick, idle) (λ f. c.not_idle (sym f), refl)
]
pick_other k (n ∷ rest) e c =
    rw (e, pick) (λ f. (ground (arith, c.not_ready, ap (has k.current) e)), refl)

leave_waits :
    (k : Kernel) (w : List ℕ)
    → CanWait k
    → Whenever (λ q k'. (q ≡ w ++ k.current ∷ []) × Kept k k') (leave (some w) k)
unfolding leave
leave_waits k w c = elim (Bool-cases ((k.process k.current).i_depth == 0)) [
  | inl d ↦
      rw (ne→== k.current 0 c.runs, d, leave)
        (refl, record { current = refl; ready_queue = refl; idle_process = refl; fresh = refl })
  | inr d ↦ rw (ne→== k.current 0 c.runs, d, leave) tt
]

-- The caller of `yield` on a queue is at its end, and another process runs.
pub yield_waits :
    (k : Kernel) (w : List ℕ)
    → CanWait k
    → Whenever (λ q k'. (q ≡ w ++ k.current ∷ []) × (k'.current ≢ k.current)) (yield (some w) k)
unfolding yield
yield_waits k w c = bind _ _ (disable k) _ (disable-Kept k) λ _ k1 h.
    let c1 = Kept-CanWait k k1 h c in
    bind _ _ (leave (some w) k1) _ (leave_waits k1 w c1) λ q k2 (l, g).
      bind _ _ (pick k2) _ (pick_other k2 k2.ready_queue refl (Kept-CanWait k1 k2 g c1))
        λ n k3 (o, e). rw (sym (e ∙ g.current)) (
          bind _ _ (turn n k3.current k3) _ (turn_lem n k3) λ _ k4 t. (
            l ∙ ap (λ p. w ++ p ∷ []) h.current,
            λ f. o (sym t.0 ∙ f ∙ sym (g.current ∙ h.current)),
          ))
