-- ===== src/Timers/Order.antt =====
-- The list of timers: in the order of their targets, one for each.
use p12_group.Base.{
  ℕ, ◌<◌, ◌≤◌, ◌≡◌, refl, arith, List, [], ◌∷◌, ◌==◌, ltb, if◌then◌else◌, Bool-cases, inl, inr,
  ltb→lt,
}
use p12_group.Timers.{Timer, with_timer, waiting_at, set_waiting}

-- Each target lies after the one before, and the first one after j.
abbrev pub Later : ℕ → List Timer → Type 0
Later j [] = Unit {0}
Later j (p ∷ ps) = (j < p.target) × Later p.target ps

pub Later-le : (j i : ℕ) (ps : List Timer) → i ≤ j → Later j ps → Later i ps
Later-le j i [] l s = tt
Later-le j i (p ∷ ps) l s = (omega (arith, s), s.1)

pub waiting_at-early : (t j : ℕ) (ps : List Timer) → t ≤ j → Later j ps → waiting_at t ps ≡ []
waiting_at-early t j [] l s = refl
waiting_at-early t j (p ∷ ps) l s =
    ground (arith, s, waiting_at-early t p.target ps (omega (arith, s)) s.1)

pub with_timer-Later :
    (target j : ℕ) (ps : List Timer) → j < target → Later j ps → Later j (with_timer target ps)
with_timer-Later target j [] l s = (l, tt)
with_timer-Later target j (p ∷ ps) l s = elim (Bool-cases (p.target == target)) [
  | inl e ↦ rw e s
  | inr n ↦ elim (Bool-cases (ltb target p.target)) [
    | inl b ↦ rw (n, b) (l, (ltb→lt target p.target b, s.1))
    | inr a ↦ rw (n, a) (s.0, with_timer-Later target p.target ps (ground arith) s.1)
  ]
]

pub waiting_at-with_timer :
    (target j t : ℕ) (ps : List Timer)
    → Later j ps
    → waiting_at t (with_timer target ps) ≡ waiting_at t ps
waiting_at-with_timer target j t [] s = ground arith
waiting_at-with_timer target j t (p ∷ ps) s =
    ground
      (arith, s, waiting_at-with_timer target p.target t ps s.1, waiting_at-early t p.target ps)

pub set_waiting-Later :
    (target j : ℕ) (w : List ℕ) (ps : List Timer) → Later j ps → Later j (set_waiting target w ps)
set_waiting-Later target j w [] s = tt
set_waiting-Later target j w (p ∷ ps) s = elim (Bool-cases (p.target == target)) [
  | inl e ↦ rw e s
  | inr n ↦ rw n (s.0, set_waiting-Later target p.target w ps s.1)
]

pub waiting_at-set_waiting :
    (target j t : ℕ) (w : List ℕ) (ps : List Timer)
    → Later j ps
    → waiting_at t (set_waiting target w (with_timer target ps))
      ≡ (if t == target then w else waiting_at t ps)
waiting_at-set_waiting target j t w [] s = ground arith
waiting_at-set_waiting target j t w (p ∷ ps) s =
    ground
      (arith, s, waiting_at-set_waiting target p.target t w ps s.1, waiting_at-early t p.target ps)
