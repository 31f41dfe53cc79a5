-- ===== src/Semaphore/Tokens.antt =====
-- A semaphore as a set of units under every interleaving of `down` and `up` of kernel/semaphore.cc.
use p12_group.Base.{
  ℕ, ◌+◌, ◌≤◌, ◌≡◌, ◌⊎◌, inl, inr, true, false, List, [], ◌∷◌, ◌++◌, ◌==◌, if◌then◌else◌, arith,
  refl, length, has, subst, ap, sym, ◌∙◌, not,
}
use p12_group.Process.{Kernel, ok}
use p12_group.Process.Turns.{Whenever, CanWait}
use p12_group.Semaphore.{Semaphore, semaphore, down, resume_down, up}
use p12_group.Semaphore.Steps.{Downs, down-Downs, Ups, up-Ups}

-- The kernel, one semaphore, the processes that have blocked in `down` and have not returned from it, and
-- those that have returned from it and have not called `up` since.
pub record System : Type 0 where
  pub kernel : Kernel
  pub sem : Semaphore
  pub asleep : List ℕ
  pub inside : List ℕ

abbrev pub without : ℕ → List ℕ → List ℕ
without p [] = []
without p (x ∷ xs) = if x == p then xs else x ∷ without p xs

-- How many times p is in a list.
abbrev pub occurs : ℕ → List ℕ → ℕ
occurs p [] = 0
occurs p (x ∷ xs) = (if x == p then 1 else 0) + occurs p xs

-- What can happen. The running process calls `down`, and gets through or blocks; or, blocked there before
-- and no longer in the semaphore's queue, it runs to the end of `down`; or, inside, it calls `up`; or
-- anything happens that leaves the semaphore alone (another process is switched to, an interrupt, other code).
pub data Step : System → System → Type 0 where
  acquires :
      (k k' : Kernel) (s s' : Semaphore) (asleep inside : List ℕ)
      → CanWait k
      → down s k ≡ ok (true, s') k'
      → Step
          (record { kernel = k; sem = s; asleep = asleep; inside = inside })
          (record { kernel = k'; sem = s'; asleep = asleep; inside = k.current ∷ inside })
  blocks :
      (k k' : Kernel) (s s' : Semaphore) (asleep inside : List ℕ)
      → CanWait k
      → down s k ≡ ok (false, s') k'
      → Step
          (record { kernel = k; sem = s; asleep = asleep; inside = inside })
          (record { kernel = k'; sem = s'; asleep = k.current ∷ asleep; inside = inside })
  resumes :
      (k k' : Kernel) (s : Semaphore) (asleep inside : List ℕ)
      → has k.current asleep ≡ true
      → has k.current s.waiting ≡ false
      → resume_down k ≡ ok tt k'
      → Step
          (record { kernel = k; sem = s; asleep = asleep; inside = inside })
          (record {
            kernel = k';
            sem = s;
            asleep = without k.current asleep;
            inside = k.current ∷ inside;
          })
  releases :
      (k k' : Kernel) (s s' : Semaphore) (asleep inside : List ℕ)
      → has k.current inside ≡ true
      → up s k ≡ ok s' k'
      → Step
          (record { kernel = k; sem = s; asleep = asleep; inside = inside })
          (record { kernel = k'; sem = s'; asleep = asleep; inside = without k.current inside })
  elsewhere :
      (k k' : Kernel) (s : Semaphore) (asleep inside : List ℕ)
      → Step
          (record { kernel = k; sem = s; asleep = asleep; inside = inside })
          (record { kernel = k'; sem = s; asleep = asleep; inside = inside })

pub data Reach (a : System) : System → Type 0 where
  here : Reach a a
  next : {b c : System} → Reach a b → Step b c → Reach a c

-- Units neither vanish nor appear: `granted` are the processes that an `up` has handed one to and that have
-- not run since; with those in the queue they are the ones asleep. And nobody waits while a unit is free.
pub record IsSound (n : ℕ) (a : System) : Type 0 where
  pub granted : List ℕ
  pub units : a.sem.count + length a.inside + length granted ≡ n
  pub sleepers : (p : ℕ) → occurs p a.asleep ≡ occurs p a.sem.waiting + occurs p granted
  pub idle : (a.sem.waiting ≡ []) ⊎ (a.sem.count ≡ 0)

false-true : false ≡ true → ⊥
false-true e = cc

length-without : (p : ℕ) (xs : List ℕ) → has p xs ≡ true → length (without p xs) + 1 ≡ length xs
length-without p [] h = absurd (false-true h)
length-without p (x ∷ xs) h = ground (arith, length-without p xs)

occurs-without :
    (p q : ℕ) (xs : List ℕ)
    → has p xs ≡ true
    → occurs q (without p xs) + (if p == q then 1 else 0) ≡ occurs q xs
occurs-without p q [] h = absurd (false-true h)
occurs-without p q (x ∷ xs) h = ground (arith, occurs-without p q xs)

occurs-append : (p : ℕ) (xs ys : List ℕ) → occurs p (xs ++ ys) ≡ occurs p xs + occurs p ys
occurs-append p [] ys = omega arith
occurs-append p (x ∷ xs) ys = omega (arith, occurs-append p xs ys)

occurs-has : (p : ℕ) (xs : List ℕ) → (occurs p xs == 0) ≡ not (has p xs)
occurs-has p [] = refl
occurs-has p (x ∷ xs) = ground (arith, occurs-has p xs)

Step-IsSound : {a b : System} (n : ℕ) → Step a b → IsSound n a → IsSound n b
Step-IsSound n (acquires k k' s s' asleep inside c e) i =
    let d : Downs k.current s (true, s') =
      subst (Whenever (λ r _. Downs k.current s r)) e (down-Downs s k c) in
    got d
  where
    got :
        Downs k.current s (true, s')
        → IsSound n (record { kernel = k'; sem = s'; asleep = asleep; inside = k.current ∷ inside })
    got (inl (_, u, w)) = record {
      granted = i.granted;
      units = omega (arith, i.units, u);
      sleepers = λ p. i.sleepers p ∙ ap (λ t. occurs p t + occurs p i.granted) (sym w);
      idle = ground arith;
    }
    got (inr (f, _, _, _)) = absurd (cc)
Step-IsSound n (blocks k k' s s' asleep inside c e) i =
    let d : Downs k.current s (false, s') =
      subst (Whenever (λ r _. Downs k.current s r)) e (down-Downs s k c) in
    queued d
  where
    queued :
        Downs k.current s (false, s')
        → IsSound n (record { kernel = k'; sem = s'; asleep = k.current ∷ asleep; inside = inside })
    queued (inl (f, _, _)) = absurd (cc)
    queued (inr (_, z, z', w)) = record {
      granted = i.granted;
      units = omega (arith, i.units, z, z');
      sleepers = λ p.
          omega (arith, i.sleepers p, ap (occurs p) w, occurs-append p s.waiting (k.current ∷ []));
      idle = inr z';
    }
Step-IsSound n (resumes k k' s asleep inside h o e) i =
    let me = k.current in
    let at : has me i.granted ≡ true = ground (
      arith,
      i.sleepers me,
      occurs-has me asleep,
      occurs-has me s.waiting,
      occurs-has me i.granted,
    ) in
    record {
      granted = without me i.granted;
      units = omega (arith, i.units, length-without me i.granted at);
      sleepers = λ p.
          omega
            (arith, i.sleepers p, occurs-without me p asleep h, occurs-without me p i.granted at);
      idle = i.idle;
    }
Step-IsSound n (releases k k' s s' asleep inside h e) i =
    let u : Ups s s' = subst (Whenever (λ s' _. Ups s s')) e (up-Ups s k) in
    released u (length-without k.current inside h)
  where
    released :
        Ups s s'
        → length (without k.current inside) + 1 ≡ length inside
        → IsSound n
            (record { kernel = k'; sem = s'; asleep = asleep; inside = without k.current inside })
    released (inl (e, w, c)) l = record {
      granted = i.granted;
      units = omega (arith, i.units);
      sleepers = λ p. i.sleepers p ∙ ap (λ t. occurs p t + occurs p i.granted) (e ∙ sym w);
      idle = inl w;
    }
    released (inr (p, e, c)) l = record {
      granted = p ∷ i.granted;
      units = omega (arith, i.units);
      sleepers = λ q. omega (arith, i.sleepers q, ap (occurs q) e);
      idle = inr (ground (arith, i.idle));
    }
Step-IsSound n (elsewhere k k' s asleep inside) i = record {
  granted = i.granted;
  units = i.units;
  sleepers = i.sleepers;
  idle = i.idle;
}

pub Reach-IsSound : {a b : System} (n : ℕ) → IsSound n a → Reach a b → IsSound n b
Reach-IsSound n i here = i
Reach-IsSound n i (next r t) = Step-IsSound n t (Reach-IsSound n i r)

-- From a semaphore of count n with nobody in its queue or inside, let there be calls of `down`, by processes
-- that are neither the idle one, nor ready, nor still to be made, ends of `down` in those that had blocked there, calls of `up`
-- by those inside, and steps that leave the semaphore alone, in any order; and let no process run on that
-- has blocked and is still in the semaphore's queue. Then at most n processes are inside, returned from
-- `down` and not yet in `up`, at any time, and with a free unit nobody is in the queue.
pub bounded_holders :
    (n : ℕ) (k : Kernel) (b : System)
    → Reach (record { kernel = k; sem = semaphore n; asleep = []; inside = [] }) b
    → (length b.inside ≤ n) × ((b.sem.waiting ≡ []) ⊎ (b.sem.count ≡ 0))
bounded_holders n k b r =
    let start : IsSound n (record { kernel = k; sem = semaphore n; asleep = []; inside = [] }) =
      record { granted = []; units = omega arith; sleepers = λ p. refl; idle = inl refl } in
    let i = Reach-IsSound n start r in (omega (arith, i.units), i.idle)
