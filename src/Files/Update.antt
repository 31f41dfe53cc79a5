-- ===== src/Files/Update.antt =====
-- The operations of `OpenFile` in kernel/fs.cc that change a file: `resize`, `write`, `append`,
-- `writeFully` and `remFromOffset`. The device, the table of blocks and the file are passed on.
-- `openFilesMutex` is unlocked where it was not locked; those calls of `unlock` are counted.
pub mod Header
pub mod Append
pub mod Fuel
mod Tests
use p12_group.Base.{
  ℕ, zero, suc, ◌+◌, ◌-◌, ◌*◌, ◌/◌, ◌%◌, ◌^◌, ◌==◌, ltb, leb, if◌then◌else◌, List, [], ◌∷◌, ◌++◌,
  drop, length, Option, none, some,
}
use p12_group.Base.Int.{ℤ, pos, negsuc, neg}
use p12_group.Fat.{Fat439, rem_next_avail, set_next_blk}
use p12_group.Block.{min, read_fully, write, write_fully}
use p12_group.Block.Interface.{BlockDevice}
use p12_group.Heap.{◌>>=◌}
use p12_group.Files
use p12_group.Files.{OpenFile, block_after, block_sz, header_sz}
use mathlib.Core.Option

abbrev pub err_no_space : ℤ
err_no_space = neg 1006

pub record Disk (S : Type 0) : Type 0 where
  pub state : S
  pub fs : Fat439
  pub file : OpenFile
  pub unlocks : ℕ

-- A word in memory, the lowest byte first, and `metaData`.
abbrev pub bytes_of : ℕ → List ℕ
bytes_of w = w % 2 ^ 8 ∷ w / 2 ^ 8 % 2 ^ 8 ∷ w / 2 ^ 16 % 2 ^ 8 ∷ w / 2 ^ 24 % 2 ^ 8 ∷ []

abbrev pub meta_data : OpenFile → List ℕ
meta_data f =
    bytes_of f.type ++ (bytes_of f.length ++ (bytes_of f.parent_dir ++ bytes_of f.current_blk))

abbrev pub unlock : {S : Type 0} → Disk S → Disk S
unlock d = record d { unlocks = d.unlocks + 1 }

module _ {S : Type 0} (dev : BlockDevice S) where
  unfoldable pub resize : ℕ → Disk S → Disk S
  resize newsz d =
      let f = record d.file { length = newsz } in
      record d {
        file = f;
        state = (write dev d.state (f.start * block_sz % 2 ^ 32) (meta_data f) 16).1;
      }

  -- The block behind `blk`: the next one of the chain, or one that is taken from the free blocks.
  unfoldable pub next_block : ℕ → Disk S → ℕ × Disk S
  unfolding rem_next_avail set_next_blk
  next_block blk d =
      if d.fs.fat blk == 0
      then (let (next, fs') = rem_next_avail d.fs in
          (next, record d { fs = set_next_blk fs' blk next }))
      else (d.fs.fat blk, d)

  -- The loop of `write` on fuel: the bytes of the buffer are those from `totalWritten` on. The result is
  -- the return value of `write` and the bytes written, before `resize`.
  unfoldable pub write_rest : ℕ → Disk S → ℕ → List ℕ → ℕ → ℕ → Option (ℤ × ℕ × Disk S)
  unfolding next_block
  write_rest zero d blk buf n total = none
  write_rest (suc fuel) d blk buf n total =
      let (next, d1) = next_block blk d in
      let (written, s) =
        write dev d1.state (next * dev.block_size % 2 ^ 32) buf (min n dev.block_size) in
      let rest =
        write_rest fuel (record d1 { state = s }) next (drop written buf) (n - written)
          (total + written) in
      if n == 0
      then some (pos 0, total, d)
      else if next == 0
      then some (err_no_space, total, d1)
      else rest

  -- The end of `write`, on either way out.
  abbrev pub settle : ℤ × ℕ × Disk S → ℤ × Disk S
  settle (pos c, total, d) = (pos c, resize ((d.file.length + total) % 2 ^ 32) d)
  settle (negsuc c, total, d) = (negsuc c, unlock (resize ((d.file.length + total) % 2 ^ 32) d))

  -- Where the first bytes go, and how many of them are asked for; the subtraction wraps.
  abbrev pub first_block : Disk S → ℕ → ℕ
  first_block d offset =
      block_after ((offset + header_sz) % 2 ^ 32 / block_sz) d.fs.fat d.file.start

  abbrev pub first_place : Disk S → ℕ → ℕ
  first_place d offset =
      (first_block d offset * dev.block_size + (offset + header_sz) % 2 ^ 32 % block_sz) % 2 ^ 32

  abbrev pub first_len : ℕ → ℕ → ℕ
  first_len offset n = min n ((dev.block_size + 2 ^ 32 - (offset + header_sz) % 2 ^ 32) % 2 ^ 32)

  unfoldable pub open_write : ℕ → List ℕ → ℕ → Disk S → Option (ℤ × Disk S)
  unfolding write_rest resize
  open_write offset buf n d =
      let (written, s) = write dev d.state (first_place d offset) buf (first_len offset n) in
      Option.map settle (
        write_rest (n + 1) (record d { state = s }) (first_block d offset) (drop written buf)
          (n - written) written)

  unfoldable pub append : List ℕ → ℕ → Disk S → Option (ℤ × Disk S)
  unfolding open_write
  append buf n d = open_write d.file.length buf n d

  -- The end of a turn of `writeFully`: an error, nothing written, or another turn.
  unfoldable pub after_write :
      (List ℕ → ℕ → Disk S → Option (ℤ × Disk S))
      → List ℕ
      → ℕ
      → ℕ
      → ℤ × Disk S
      → Option (ℤ × Disk S)
  after_write again p n togo (negsuc c, d) = some (negsuc c, d)
  after_write again p n togo (pos zero, d) = some (pos (n - togo), d)
  after_write again p n togo (pos (suc c), d) = again (drop (suc c) p) (togo - suc c) d

  unfoldable pub write_turns : ℕ → ℕ → ℕ → List ℕ → ℕ → Disk S → Option (ℤ × Disk S)
  unfolding open_write after_write
  write_turns zero n offset p togo d = none
  write_turns (suc fuel) n offset p zero d = some (pos n, d)
  write_turns (suc fuel) n offset p (suc togo) d =
      open_write offset p (suc togo) d >>= after_write (write_turns fuel n offset) p n (suc togo)

  unfoldable pub open_write_fully : ℕ → List ℕ → ℕ → Disk S → Option (ℤ × Disk S)
  unfolding write_turns
  open_write_fully offset buf n d = write_turns (n + 1) n offset buf n d

  -- `remFromOffset` once the bytes behind the removed ones are known to be there; the message that is
  -- printed is left out.
  unfoldable pub move_down : ℕ → ℕ → Disk S → Option (Disk S)
  unfolding resize
  move_down entry_offset num_bytes d = do
    let at = (d.file.start * block_sz + entry_offset) % 2 ^ 32
    let togo = d.file.length - (entry_offset + num_bytes)
    buf ← read_fully dev d.state ((at + num_bytes) % 2 ^ 32) togo
    s ← write_fully dev d.state at buf togo
    some (resize (d.file.length - num_bytes) (record d { state = s }))

  unfoldable pub rem_from_offset : ℕ → ℕ → Disk S → Option (ℤ × Disk S)
  unfolding move_down
  rem_from_offset entry_offset num_bytes d =
      if ltb d.file.length num_bytes
      then some (pos 0, unlock (resize 0 d))
      else if leb d.file.length ((num_bytes + entry_offset) % 2 ^ 32)
      then some (pos 0, unlock (resize entry_offset d))
      else Option.map (λ d'. (pos 0, d')) (move_down entry_offset num_bytes d)
