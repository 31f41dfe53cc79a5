-- ===== src/Pic.antt =====
-- kernel/pic.cc: the interrupt controllers, and the handling of an interrupt. What a port reads depends
-- on what was written to the ports before; the function `device` tells it.
pub mod Irq
mod Tests
use p12_group.Base.{
  ℕ, zero, suc, ◌+◌, ◌*◌, ◌^◌, leb, ◌==◌, if◌then◌else◌, Bool, true, false, List, [], ◌∷◌, none,
}
use p12_group.Process.{Kernel, M, ok, ◌>>=◌, ◌>>◌, pure, start_irq, end_irq, enable, yield}
use p12_group.Timers.{Clock}
use p12_group.Timers

-- The writes to the ports, the last one first.
pub record Ports : Type 0 where
  pub written : List (ℕ × ℕ)
  pub device : List (ℕ × ℕ) → ℕ → ℕ

abbrev pub outb : ℕ → ℕ → Ports → Ports
outb port v s = record s { written = (port, v) ∷ s.written }

abbrev pub inb : Ports → ℕ → ℕ
inb s port = s.device s.written port

abbrev pub c1 : ℕ
c1 = 0x20

abbrev pub d1 : ℕ
d1 = c1 + 1

abbrev pub c2 : ℕ
c2 = 0xa0

abbrev pub d2 : ℕ
d2 = c2 + 1

abbrev pub first_idt : ℕ
first_idt = 0x30

-- The writes of `init`; it also enters the handlers into the table of interrupts.
unfoldable pub init : Ports → Ports
init s0 =
    let s1 = outb c2 0x11 (outb c1 0x11 s0) in
    let s2 = outb d2 (first_idt + 8) (outb d1 first_idt s1) in
    let s3 = outb d2 2 (outb d1 (1 * 2 ^ 2) s2) in
    let s4 = outb d2 1 (outb d1 1 s3) in outb d2 0 (outb d1 0 s4)

unfoldable pub irr : Ports → ℕ × Ports
irr s = let s' = outb c2 0xa (outb c1 0xa s) in (inb s' c2 * 2 ^ 8 + inb s' c1, s')

unfoldable pub isr : Ports → ℕ × Ports
isr s = let s' = outb c2 0xb (outb c1 0xb s) in (inb s' c2 * 2 ^ 8 + inb s' c1, s')

unfoldable pub imr : Ports → ℕ
imr s = inb s d2 * 2 ^ 8 + inb s d1

unfoldable pub pic_eoi : ℕ → Ports → Ports
pic_eoi irq s = outb c1 0x20 (if leb 8 irq then outb c2 0x20 s else s)

-- The timer is the only device that is served here.
unfoldable pub serve : ℕ → Clock → M Clock
serve irq c = if irq == 0 then Timers.handler c else pure c

-- `pic_irq` up to the switch in `yield`, behind which the interrupted process goes on with `resume_irq`;
-- to its end if `yield` has found no other process.
unfoldable pub pic_irq : ℕ → Clock → Ports → M (Clock × Ports)
unfolding serve pic_eoi
pic_irq irq c s = do
  me ← (λ k. ok k.current k)
  start_irq
  c' ← serve irq c
  let s' = pic_eoi irq s
  queue ← yield none
  (λ k. if k.current == me then end_irq k else ok tt k)
  pure (c', s')

unfoldable pub resume_irq : M (Unit {0})
resume_irq = do enable; end_irq
