-- ===== src/Semaphore/Steps.antt =====
-- What `down` and `up` of kernel/semaphore.cc do to the count and to the queue, on every branch.
use p12_group.Base.{
  ℕ, ◌+◌, ◌≡◌, ◌⊎◌, inl, inr, Bool, true, false, List, [], ◌∷◌, ◌++◌, some, ◌==◌, if◌then◌else◌,
  arith, refl, subst, Bool-cases, ne→==,
}
use p12_group.Process.{Kernel, ok, and_then, disable, enable, make_ready, yield}
use p12_group.Process.Turns.{Whenever, bind, any, disable-Kept, CanWait, Kept-CanWait, yield_waits}
use p12_group.Semaphore.{Semaphore, take, down, give, up}

-- `down` takes a unit of a positive count and runs on; at zero the caller joins the end of the queue.
abbrev pub Downs : ℕ → Semaphore → Bool × Semaphore → Type 0
Downs me s (b, s') =
    ((b ≡ true) × (s.count ≡ s'.count + 1) × (s'.waiting ≡ s.waiting))
    ⊎ ((b ≡ false) × (s.count ≡ 0) × (s'.count ≡ 0) × (s'.waiting ≡ s.waiting ++ me ∷ []))

take-Downs :
    (s : Semaphore) (k : Kernel) → CanWait k → Whenever (λ r _. Downs k.current s r) (take s k)
unfolding take
take-Downs s k c = elim (Bool-cases (s.count == 0)) [
  | inl z ↦
      rw (z, ne→== k.current 0 c.runs, take)
        (bind _ _ (yield (some s.waiting) k) _ (yield_waits k s.waiting c)
          λ w k' (e, o). inr (ne→== k'.current k.current o, ground arith, ground arith, e))
  | inr p ↦ rw (p, take) (inl (refl, ground arith, refl))
]

-- Of a caller that has another process to switch to.
pub down-Downs :
    (s : Semaphore) (k : Kernel) → CanWait k → Whenever (λ r _. Downs k.current s r) (down s k)
unfolding down
down-Downs s k c = bind _ _ (disable k) _ (disable-Kept k) λ _ k1 h.
    bind _ _ (take s k1) _ (take-Downs s k1 (Kept-CanWait k k1 h c))
      λ r k2 d. finish r k2 (subst (λ c. Downs c s r) h.current d)
  where
    finish :
        (r : Bool × Semaphore) (k2 : Kernel)
        → Downs k.current s r
        → Whenever
            (λ r _. Downs k.current s r)
            (if r.0 then and_then (enable k2) (λ _ k'. ok r k') else ok r k2)
    finish (true, s') k2 d =
        bind _ _ (enable k2) (λ _ k'. ok (true, s') k') (any (enable k2)) λ _ k3 _. d
    finish (false, s') k2 d = d

-- `up` hands its unit to the first process that waits, or adds it to the count.
abbrev pub Ups : Semaphore → Semaphore → Type 0
Ups s s' =
    ((s.waiting ≡ []) × (s'.waiting ≡ []) × (s'.count ≡ s.count + 1))
    ⊎ ((p : ℕ) × (s.waiting ≡ p ∷ s'.waiting) × (s'.count ≡ s.count))

give-Ups :
    (s : Semaphore) (k : Kernel) (w : List ℕ)
    → s.waiting ≡ w
    → Whenever (λ s' _. Ups s s') (give s k)
unfolding give
give-Ups s k [] e = rw (e, give) (inl (refl, e, refl))
give-Ups s k (p ∷ rest) e =
    rw (e, give) (bind _ _ (make_ready p k) _ (any (make_ready p k)) λ _ k' _. inr (p, refl, refl))

pub up-Ups : (s : Semaphore) (k : Kernel) → Whenever (λ s' _. Ups s s') (up s k)
unfolding up
up-Ups s k = bind _ _ (disable k) _ (any (disable k)) λ _ k1 _.
    bind _ _ (give s k1) _ (give-Ups s k1 s.waiting refl)
      λ s' k2 u. bind _ _ (enable k2) _ (any (enable k2)) λ _ k3 _. u
