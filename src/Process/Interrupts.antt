-- ===== src/Process/Interrupts.antt =====
-- `disable` and `enable` of kernel/process.cc nest.
use p12_group.Base.{
  ℕ, ◌+◌, ◌-◌, ◌^◌, ◌%◌, ◌<◌, ◌≡◌, ◌≢◌, true, false, refl, arith, ◌==◌, if◌then◌else◌, Bool-cases,
  inl, inr,
}
use p12_group.Process.{
  Kernel, Process, Run, ok, panic, and_then, M, disable, enable, start_irq, end_irq, ◌>>◌,
}

-- The run does not panic, and what it leaves satisfies P.
abbrev pub Ensures : {A : Type 0} → (A → Kernel → Type 0) → Run A → Type 0
Ensures P (ok a k) = P a k
Ensures P panic = ⊥

pub bind :
    {A B : Type 0} (P : A → Kernel → Type 0) (Q : B → Kernel → Type 0) (r : Run A) (f : A → M B)
    → Ensures P r
    → ((a : A) (k : Kernel) → P a k → Ensures Q (f a k))
    → Ensures Q (and_then r f)
bind P Q (ok a k) f h next = next a k h
bind P Q panic f h next = absurd h

pub mono :
    {A : Type 0} (P Q : A → Kernel → Type 0) (r : Run A)
    → Ensures P r
    → ((a : A) (k : Kernel) → P a k → Q a k)
    → Ensures Q r
mono P Q (ok a k) h weaken = weaken a k h
mono P Q panic h weaken = h

abbrev pub count : Kernel → ℕ → ℕ
count k p = (k.process p).disable_count

-- In a running process whose count does not wrap, `disable` and then `enable` panic never and
-- give every process its count back; interrupts are on afterwards exactly if this was the
-- outermost pair.
pub enable-disable :
    (k : Kernel) (p : ℕ)
    → k.current ≢ 0
    → count k k.current + 1 < 2 ^ 32
    → Ensures
        (λ _ k'.
          (k'.process p ≡ k.process p)
          × (k'.interrupts ≡ (count k k.current == 0))
          × (k'.current ≡ k.current)
          × (k'.ready_queue ≡ k.ready_queue))
        ((disable >> enable) k)
unfolding disable enable
enable-disable k p h l = ground arith

-- In a running process with interrupts not disabled and a depth below 2^32, an interrupt's start, a
-- balanced `disable` and `enable` in its handler, and its end panic never: the depth and the count of
-- `disable`s are back, the number of interrupts is one more, and no other process changes.
pub end_irq-start_irq :
    (k : Kernel) (p : ℕ)
    → k.current ≢ 0
    → count k k.current ≡ 0
    → (k.process k.current).i_depth < 2 ^ 32
    → Ensures
        (λ _ k'.
          (k'.process p ≡ (
            if p == k.current
            then record (k.process p) { i_count = ((k.process p).i_count + 1) % 2 ^ 32 }
            else k.process p))
          × (k'.current ≡ k.current)
          × (k'.ready_queue ≡ k.ready_queue))
        ((start_irq >> disable >> enable >> end_irq) k)
unfolding start_irq end_irq disable enable
end_irq-start_irq k p h z l = ground arith

abbrev pub counted : Process → ℕ → Process
counted c n = record c { disable_count = n }

-- What `disable` and `enable` make of each process.
abbrev pub once_more : Kernel → ℕ → Process
once_more k p = if p == k.current then counted (k.process p) (count k p + 1) else k.process p

abbrev pub once_less : Kernel → ℕ → Process
once_less k p = if p == k.current then counted (k.process p) (count k p - 1) else k.process p

-- The same state but for the processes, which are as f tells, and the interrupt flag.
pub record Same (k : Kernel) (f : ℕ → Process) (k' : Kernel) : Type 0 where
  pub current : k'.current ≡ k.current
  pub ready_queue : k'.ready_queue ≡ k.ready_queue
  pub reaper_queue : k'.reaper_queue ≡ k.reaper_queue
  pub idle_process : k'.idle_process ≡ k.idle_process
  pub process : (p : ℕ) → k'.process p ≡ f p

pub disable-Same :
    (k : Kernel)
    → k.current ≢ 0
    → count k k.current + 1 < 2 ^ 32
    → Ensures (λ _ k'. Same k (once_more k) k' × (k'.interrupts ≡ false)) (disable k)
unfolding disable
disable-Same k h l =
    let nz : (k.current == 0) ≡ false = ground arith in
    rw (nz, disable)
      (
        record {
          current = refl;
          ready_queue = refl;
          reaper_queue = refl;
          idle_process = refl;
          process = λ p. ground arith;
        },
        refl,
      )

pub enable-Same :
    (k : Kernel)
    → k.current ≢ 0
    → 0 < count k k.current
    → Ensures
        (λ _ k'.
          Same k (once_less k) k'
          × (k'.interrupts ≡ (if count k k.current == 1 then true else k.interrupts)))
        (enable k)
unfolding enable
enable-Same k h l =
    let nz : (k.current == 0) ≡ false = ground arith in
    let ne : (count k k.current == 0) ≡ false = ground arith in
    elim (Bool-cases (count k k.current == 1)) [
      | inl one ↦
          rw (nz, ne, one, enable)
            (
              record {
                current = refl;
                ready_queue = refl;
                reaper_queue = refl;
                idle_process = refl;
                process = λ p. ground arith;
              },
              refl,
            )
      | inr more ↦
          rw (nz, ne, more, enable)
            (
              record {
                current = refl;
                ready_queue = refl;
                reaper_queue = refl;
                idle_process = refl;
                process = λ p. ground arith;
              },
              refl,
            )
    ]
