-- ===== src/Semaphore/Uncontended.antt =====
-- `down` with a free unit and `up` with nobody waiting: no switch, and the processes are as before.
use p12_group.Base.{◌+◌, ◌-◌, ◌^◌, ◌<◌, ◌≡◌, ◌≢◌, true, false, [], ◌==◌, arith, refl, ◌∙◌}
use p12_group.Process.{Kernel, disable, enable}
use p12_group.Process.Interrupts.{
  Ensures, bind, mono, count, Same, once_more, once_less, disable-Same, enable-Same,
}
use p12_group.Semaphore.{Semaphore, down, up, take, give}

-- A running process whose count does not wrap.
pub record IsLive (k : Kernel) : Type 0 where
  pub runs : k.current ≢ 0
  pub small : count k k.current + 1 < 2 ^ 32

pub Same-IsLive : (k k' : Kernel) → IsLive k → Same k k.process k' → IsLive k'
Same-IsLive k k' l s = record {
  runs = rw s.current l.runs;
  small = rw s.current (rw (s.process k.current) l.small);
}

pub Same-trans :
    (k k1 k2 : Kernel) → Same k k.process k1 → Same k1 k1.process k2 → Same k k.process k2
Same-trans k k1 k2 s t = record {
  current = t.current ∙ s.current;
  ready_queue = t.ready_queue ∙ s.ready_queue;
  reaper_queue = t.reaper_queue ∙ s.reaper_queue;
  idle_process = t.idle_process ∙ s.idle_process;
  process = λ p. t.process p ∙ s.process p;
}

nested :
    (k k1 k2 : Kernel) → Same k (once_more k) k1 → Same k1 (once_less k1) k2 → Same k k.process k2
nested k k1 k2 s t = record {
  current = t.current ∙ s.current;
  ready_queue = t.ready_queue ∙ s.ready_queue;
  reaper_queue = t.reaper_queue ∙ s.reaper_queue;
  idle_process = t.idle_process ∙ s.idle_process;
  process = λ p. ground (arith, t.process p, s.process p, s.current);
}

module _ (s : Semaphore) (k : Kernel) (l : IsLive k) where
  inner :
      (k1 : Kernel) → Same k (once_more k) k1 → Ensures (λ _ k2. Same k k.process k2) (enable k1)
  inner k1 t =
      mono _ _ (enable k1)
        (enable-Same k1 (rw t.current l.runs) (rw t.current (ground (arith, t.process k.current))))
        λ _ k2 u. nested k k1 k2 t u.0

  -- A free unit is taken and nothing else happens.
  pub down-takes :
      0 < s.count
      → Ensures
          (λ r k'. (r ≡ (true, record s { count = s.count - 1 })) × Same k k.process k')
          (down s k)
  unfolding down take
  down-takes h =
      let free : (s.count == 0) ≡ false = ground arith in
      bind _ _ (disable k) _ (disable-Same k l.runs l.small)
        λ _ k1 (t, _). rw (free, take) (bind _ _ (enable k1) _ (inner k1 t) λ _ k2 u. (refl, u))

  -- With nobody waiting the unit is added to the count.
  pub up-adds :
      s.waiting ≡ []
      → Ensures (λ r k'. (r ≡ record s { count = s.count + 1 }) × Same k k.process k') (up s k)
  unfolding up give
  up-adds e =
      bind _ _ (disable k) _ (disable-Same k l.runs l.small)
        λ _ k1 (t, _). rw (e, give) (bind _ _ (enable k1) _ (inner k1 t) λ _ k2 u. (cc, u))
