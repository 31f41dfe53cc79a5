-- ===== src/Ide/Tests.antt =====
-- A controller in memory, which is busy once after each command and deaf while it is, and a sector that is read from drive 1.
use p12_group.Base.{
  ◌≢◌, ℕ, ◌+◌, ◌*◌, ◌/◌, ◌%◌, ◌^◌, ◌<◌, ◌≡◌, ◌==◌, if◌then◌else◌, Bool, true, false, List, [], ◌∷◌,
  update, update_self, update_ne, arith, refl, some,
}
use p12_group.Ide.{Ports, read_block}
use p12_group.Ide.Read.{IsController, read_block-Reads}

record Board : Type 0 where
  regs : ℕ → ℕ
  disk : ℕ → ℕ → List ℕ
  pending : List ℕ
  busy : Bool

abbrev selected : Board → List ℕ
selected d =
    d.disk (d.regs 0x1f6 / 2 ^ 4 % 2)
      (d.regs 0x1f3 + d.regs 0x1f4 * 2 ^ 8 + d.regs 0x1f5 * 2 ^ 16 + d.regs 0x1f6 % 2 ^ 4 * 2 ^ 24)

abbrev first_word : List ℕ → ℕ
first_word [] = 0
first_word (w ∷ ws) = w

abbrev other_words : List ℕ → List ℕ
other_words [] = []
other_words (w ∷ ws) = ws

-- The status of a busy board and of an idle one.
abbrev status_of : Bool → ℕ
status_of b = if b then 0x80 else 0x40

abbrev board_ports : Ports Board
board_ports = record {
  in_byte = λ p d. (status_of d.busy, record d { busy = false });
  in_long = λ p d.
      if d.busy
      then (0, d)
      else (first_word d.pending, record d { pending = other_words d.pending });
  out_byte = λ p v d.
      if d.busy
      then d
      else if p == 0x1f7
      then record d { pending = selected d; busy = true }
      else record d { regs = update d.regs p v };
  out_long = λ p v d. d;
}

abbrev delay_of : Bool → ℕ
delay_of true = 1
delay_of false = 0

short_delay : (b : Bool) → delay_of b < 2
short_delay true = omega arith
short_delay false = omega arith

busy_status : (b : Bool) → status_of b / 2 ^ 7 % 2 ≡ 0 → delay_of b ≡ 0
busy_status true e = absurd (omega (arith, e))
busy_status false e = refl

done_status : (b : Bool) → delay_of b ≡ 0 → status_of b / 2 ^ 7 % 2 ≡ 0
done_status true e = absurd (omega arith)
done_status false e = refl

unready_status : (b : Bool) → status_of b / 2 ^ 6 % 2 ≢ 0 → delay_of b ≡ 0
unready_status true e = absurd (e refl)
unready_status false e = refl

ready_status : (b : Bool) → delay_of b ≡ 0 → status_of b / 2 ^ 6 % 2 ≡ 1
ready_status true e = absurd (omega arith)
ready_status false e = refl

-- A register other than 7.
register :
    (r v : ℕ) (d : Board)
    → d.busy ≡ false
    → r < 7
    → board_ports.out_byte (0x1f0 + r) v d ≡ record d { regs = update d.regs (0x1f0 + r) v }
register r v d h l = let e : (0x1f0 + r == 0x1f7) ≡ false = ground arith in rw (h, e) refl

idle_board : (d : Board) → delay_of d.busy ≡ 0 → d.busy ≡ false
idle_board d e = go d.busy e
  where
    go : (b : Bool) → delay_of b ≡ 0 → b ≡ false
    go true e = absurd (omega arith)
    go false e = refl

head_word :
    (d : Board) (w : ℕ) (ws : List ℕ)
    → d.pending ≡ w ∷ ws
    → (first_word d.pending ≡ w) × (other_words d.pending ≡ ws)
head_word d w ws e = rw e (refl, refl)

abbrev board_laws : IsController board_ports 1
board_laws = record {
  reg = λ r d. d.regs (0x1f0 + r);
  blocks = λ d. d.disk;
  pending = λ d. d.pending;
  busy = λ d. delay_of d.busy;
  unready = λ d. delay_of d.busy;
  patience = 2;
  prompt = λ d. (short_delay d.busy, short_delay d.busy);
  latched =
      λ r v d i l u. rw (register r v d (idle_board d i.0) u) (update_self d.regs (0x1f0 + r) v);
  latched_other = λ q r v d i l u n.
      rw (register q v d (idle_board d i.0) u)
        (update_ne d.regs (0x1f0 + q) (0x1f0 + r) v (omega (arith, n)));
  latched_blocks = λ r v d i l u. rw (register r v d (idle_board d i.0) u) refl;
  latched_idle = λ r v d i l u. rw (register r v d (idle_board d i.0) u) i;
  command = λ d i o l. rw (idle_board d i.0) refl;
  command_blocks = λ d i. rw (idle_board d i.0) refl;
  status_busy = λ d e. busy_status d.busy e;
  status_done = λ d e. done_status d.busy e;
  status_unready = λ d e. unready_status d.busy e;
  status_ready = λ d e. ready_status d.busy e;
  status_delay = λ d. (omega arith, omega arith);
  status_blocks = λ d. refl;
  status_pending = λ d. refl;
  word = λ d w ws i e. rw (idle_board d i.0) (head_word d w ws e);
  word_idle = λ d i. rw (idle_board d i.0) (refl, refl);
  word_blocks = λ d i. rw (idle_board d i.0) refl;
}

abbrev board : Board
board = record {
  regs = λ p. 0;
  disk = λ ch sector. ch ∷ sector ∷ 7 ∷ [];
  pending = [];
  busy = true;
}

read_block-Reads_example :
    (d' : Board) × (read_block board_ports 1 2 12 0x1234567 board
      ≡ some (1 ∷ 0x1234567 ∷ 7 ∷ [], d'))
    × (d'.disk ≡ board.disk)
read_block-Reads_example =
    read_block-Reads board_ports 1 board_laws 2 12 0x1234567 board (omega arith) (omega arith) refl
