-- ===== src/Process/Fair.antt =====
-- The ready queue of kernel/process.cc is first in, first out: who waits for the processor gets it after
-- those in front.
use p12_group.Base.{
  ℕ, suc, ◌+◌, ◌≡◌, refl, arith, ap, subst, ◌∙◌, List, [], ◌∷◌, ◌++◌, length, append_assoc, Option,
  none,
}
use p12_group.Process.{Kernel, ok, yield}
use p12_group.Process.Turns.{Whenever, yield_head}

-- From k to k' in so many switches. At a switch the running process gives way or blocks, by `yield` with a
-- queue or without one, or it ends: `exit` yields when nothing is current. Between two switches the
-- ready queue only grows, at its end, and everything else may change.
pub data Switches : ℕ → Kernel → Kernel → Type 0 where
  stays : (k : Kernel) → Switches 0 k k
  yields :
      (n : ℕ) (k k1 k' : Kernel) (q : Option (List ℕ)) (w : List ℕ)
      → yield q k ≡ ok w k1
      → Switches n k1 k'
      → Switches (suc n) k k'
  ends :
      (n : ℕ) (k k1 k2 k' : Kernel) (more w : List ℕ)
      → k1.current ≡ 0
      → k1.ready_queue ≡ k.ready_queue ++ more
      → yield none k1 ≡ ok w k2
      → Switches n k2 k'
      → Switches (suc n) k k'
  goes_on :
      (n : ℕ) (k k1 k' : Kernel) (more : List ℕ)
      → k1.current ≡ k.current
      → k1.ready_queue ≡ k.ready_queue ++ more
      → Switches n k1 k'
      → Switches n k k'

same_current : (n : ℕ) (k k' : Kernel) → n ≡ 0 → Switches n k k' → k'.current ≡ k.current
same_current n k k' z (stays _) = refl
same_current n k k' z (yields _ _ _ _ _ _ _ _) = absurd (omega arith)
same_current n k k' z (ends _ _ _ _ _ _ _ _ _ _ _) = absurd (omega arith)
same_current n k k' z (goes_on _ _ k1 _ more c q r) = same_current n k1 k' z r ∙ c

-- The state after a switch: the head of the queue runs, and the others are in front of a new one.
abbrev Advanced : ℕ → List ℕ → Kernel → Type 0
Advanced next rest k1 = (k1.current ≡ next) × (more : List ℕ) × (k1.ready_queue ≡ rest ++ more)

yield-Advanced :
    (q : Option (List ℕ)) (k k1 : Kernel) (next : ℕ) (rest w : List ℕ)
    → k.ready_queue ≡ next ∷ rest
    → yield q k ≡ ok w k1
    → Advanced next rest k1
yield-Advanced q k k1 next rest w a e =
    subst (Whenever (λ _. Advanced next rest)) e (yield_head q k next rest a)

-- A process p on the ready queue, whatever is behind it. Let the running processes give way, block or end,
-- with any changes in between that only add to the end of the ready queue, and without a panic: when
-- there have been as many switches as processes stood in front of p, and one more, p runs.
pub waits_its_turn :
    (n : ℕ) (k k' : Kernel) (p : ℕ) (us vs : List ℕ)
    → k.ready_queue ≡ us ++ p ∷ vs
    → n ≡ length us + 1
    → Switches n k k'
    → k'.current ≡ p
waits_its_turn n k k' p us vs q e (stays _) = absurd (omega arith)
waits_its_turn _ k k' p [] vs q e (yields n _ k1 _ a w y r) =
    same_current n k1 k' (omega (arith, e)) r ∙ (yield-Advanced a k k1 p vs w q y).0
waits_its_turn _ k k' p (u ∷ us) vs q e (yields n _ k1 _ a w y r) =
    let (c, more, g) = yield-Advanced a k k1 u (us ++ p ∷ vs) w q y in
    waits_its_turn n k1 k' p us (vs ++ more) (g ∙ append_assoc us (p ∷ vs) more) (omega (arith, e))
      r
waits_its_turn _ k k' p [] vs q e (ends n _ k1 k2 _ more w z a y r) =
    same_current n k2 k' (omega (arith, e)) r
    ∙ (yield-Advanced none k1 k2 p (vs ++ more) w (a ∙ ap (λ t. t ++ more) q) y).0
waits_its_turn _ k k' p (u ∷ us) vs q e (ends n _ k1 k2 _ more w z a y r) =
    let (c, more', g) =
      yield-Advanced none k1 k2 u ((us ++ p ∷ vs) ++ more) w (a ∙ ap (λ t. t ++ more) q) y in
    waits_its_turn n k2 k' p us ((vs ++ more) ++ more')
      (g
        ∙ ap (λ t. t ++ more') (append_assoc us (p ∷ vs) more)
        ∙ append_assoc us (p ∷ (vs ++ more)) more')
      (omega (arith, e)) r
waits_its_turn n k k' p us vs q e (goes_on _ _ k1 _ more c a r) =
    waits_its_turn n k1 k' p us (vs ++ more)
      (a ∙ ap (λ t. t ++ more) q ∙ append_assoc us (p ∷ vs) more) e r
