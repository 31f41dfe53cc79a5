-- ===== src/Ide.antt =====
-- kernel/ide.cc: a drive behind the ports of its controller, which are a parameter. The driver's mutex
-- surrounds each of the two operations; what other processes do while the driver waits is not part of it.
pub mod Read
mod Tests
use p12_group.Base.{
  ℕ, zero, suc, ◌+◌, ◌-◌, ◌*◌, ◌/◌, ◌%◌, ◌^◌, ◌==◌, if◌then◌else◌, List, [], ◌∷◌, Option, none,
  some,
}
use p12_group.Heap.{◌>>=◌}
use mathlib.Core.Option

-- `inb`, `inl`, `outb` and `outl`, by port.
pub record Ports (D : Type 0) : Type 0 where
  pub in_byte : ℕ → D → ℕ × D
  pub in_long : ℕ → D → ℕ × D
  pub out_byte : ℕ → ℕ → D → D
  pub out_long : ℕ → ℕ → D → D

abbrev pub controller : ℕ → ℕ
controller drive = drive / 2 % 2

abbrev pub channel : ℕ → ℕ
channel drive = drive % 2

abbrev pub port : ℕ → ℕ
port drive = if controller drive == 0 then 0x1f0 else 0x170

-- The bits BSY and DRDY of a status.
abbrev pub is_busy : ℕ → ℕ
is_busy status = status / 2 ^ 7 % 2

abbrev pub is_ready : ℕ → ℕ
is_ready status = status / 2 ^ 6 % 2

module _ {D : Type 0} (ports : Ports D) (drive : ℕ) where
  abbrev pub get_status : D → ℕ × D
  get_status d = ports.in_byte (port drive + 7) d

  -- The two loops of `waitForDrive`, on fuel.
  unfoldable pub wait_busy : ℕ → D → Option D
  wait_busy zero d = none
  wait_busy (suc fuel) d =
      let (status, d') = get_status d in
      let rest = wait_busy fuel d' in if is_busy status == 0 then some d' else rest

  unfoldable pub wait_ready : ℕ → D → Option D
  wait_ready zero d = none
  wait_ready (suc fuel) d =
      let (status, d') = get_status d in
      let rest = wait_ready fuel d' in if is_ready status == 0 then rest else some d'

  unfoldable pub wait_for_drive : ℕ → D → Option D
  unfolding wait_busy wait_ready
  wait_for_drive fuel d = wait_busy fuel d >>= wait_ready fuel

  -- The commands to the controller for a sector; a byte is what `outb` takes of an int.
  unfoldable pub issue : ℕ → ℕ → D → D
  issue command sector d =
      let base = port drive in
      let d1 = ports.out_byte (base + 2) 1 d in
      let d2 = ports.out_byte (base + 3) (sector % 2 ^ 8) d1 in
      let d3 = ports.out_byte (base + 4) (sector / 2 ^ 8 % 2 ^ 8) d2 in
      let d4 = ports.out_byte (base + 5) (sector / 2 ^ 16 % 2 ^ 8) d3 in
      let d5 =
        ports.out_byte (base + 6) (0xe0 + channel drive * 2 ^ 4 + sector / 2 ^ 24 % 2 ^ 4) d4 in
      ports.out_byte (base + 7) command d5

  -- The words of a block, so many, one after another.
  unfoldable pub read_words : ℕ → D → List ℕ × D
  read_words zero d = ([], d)
  read_words (suc n) d =
      let (w, d1) = ports.in_long (port drive) d in let (ws, d2) = read_words n d1 in (w ∷ ws, d2)

  unfoldable pub write_words : List ℕ → D → D
  write_words [] d = d
  write_words (w ∷ ws) d = write_words ws (ports.out_long (port drive) w d)

  unfoldable pub read_block : ℕ → ℕ → ℕ → D → Option (List ℕ × D)
  unfolding wait_for_drive issue read_words
  read_block fuel block_size sector d = do
    d1 ← wait_for_drive fuel d
    d2 ← wait_for_drive fuel (issue 0x20 sector d1)
    some (read_words (block_size / 4) d2)

  unfoldable pub write_block : ℕ → ℕ → List ℕ → D → Option D
  unfolding wait_for_drive issue write_words
  write_block fuel sector buffer d = do
    d1 ← wait_for_drive fuel d
    d2 ← wait_for_drive fuel (issue 0x30 sector d1)
    some (write_words buffer d2)
