-- ===== src/Block.antt =====
-- kernel/block.h, kernel/block.cc: byte-wise reads and writes over a device of fixed-size blocks. The
-- device is an interface (`readBlock`, `writeBlock` are virtual); a buffer is a list of bytes.
pub mod Interface
pub mod Memcpy
pub mod Read
pub mod Write
pub mod Ram
mod Tests
use Interface.{BlockDevice}
use Memcpy.{copy_at}
use p12_group.Base.{
  ℕ, zero, suc, ◌+◌, ◌-◌, ◌*◌, ◌/◌, ◌%◌, ◌^◌, ◌==◌, ltb, if◌then◌else◌, List, [], ◌++◌, take, drop,
  Option, none, some, length,
}
use mathlib.Core.Option

abbrev pub min : ℕ → ℕ → ℕ
min a b = if ltb a b then a else b

module _ {S : Type 0} (dev : BlockDevice S) where
  open dev use {block_size, read_block, write_block}

  -- The bytes that one call delivers; their number is the call's result.
  unfoldable pub read : S → ℕ → ℕ → List ℕ
  read s offset n =
      let sector = offset / block_size in
      let data_block = read_block s sector in
      let data_offset = offset - sector * block_size in
      let m = min n (block_size - data_offset) in take m (drop data_offset data_block)

  unfoldable pub write : S → ℕ → List ℕ → ℕ → ℕ × S
  write s offset buf n =
      let sector = offset / block_size in
      let data_block = read_block s sector in
      let data_offset = offset - sector * block_size in
      let m = min n (block_size - data_offset) in
      (m, write_block s sector (copy_at data_block data_offset (take m buf)))

  -- The loops on fuel: `none` when it runs out. `offset += c` wraps at 2^32.
  pub read_loop : ℕ → S → ℕ → ℕ → Option (List ℕ)
  read_loop zero s offset togo = none
  read_loop (suc fuel) s offset togo =
      let c = read s offset togo in
      let rest = read_loop fuel s ((offset + length c) % 2 ^ 32) (togo - length c) in
      if togo == 0 then some [] else Option.map (λ cs. c ++ cs) rest

  unfoldable pub read_fully : S → ℕ → ℕ → Option (List ℕ)
  unfolding read_loop
  read_fully s offset n = read_loop (n + 1) s offset n

  pub write_loop : ℕ → S → ℕ → List ℕ → ℕ → Option S
  write_loop zero s offset ptr togo = none
  write_loop (suc fuel) s offset ptr togo =
      let (c, s') = write s offset ptr togo in
      let rest = write_loop fuel s' ((offset + c) % 2 ^ 32) (drop c ptr) (togo - c) in
      if togo == 0 then some s else rest

  unfoldable pub write_fully : S → ℕ → List ℕ → ℕ → Option S
  unfolding write_loop
  write_fully s offset buf n = write_loop (n + 1) s offset buf n
