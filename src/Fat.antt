-- ===== src/Fat.antt =====
-- kernel/fs.cc, kernel/fs.h: the block allocator of the FAT439 file system. `fat` maps a block to the
-- next block of its chain, 0 at the end; `avail` is the first block of the chain of free blocks.
pub mod Chains
pub mod Alloc
mod Tests
use p12_group.Base.{ℕ, zero, suc, ◌==◌, if◌then◌else◌, Option, none, some, update}
use mathlib.Core.Option

pub record Super : Type 0 where
  pub n_blocks : ℕ
  pub avail : ℕ
  pub root : ℕ

pub record Fat439 : Type 0 where
  pub super : Super
  pub fat : ℕ → ℕ

abbrev pub with_avail : Fat439 → ℕ → (ℕ → ℕ) → Fat439
with_avail fs a fat = record {
  super = record { n_blocks = fs.super.n_blocks; avail = a; root = fs.super.root };
  fat = fat;
}

pub next_avail_blk : Fat439 → ℕ
next_avail_blk fs = fs.super.avail

-- `while (fat[newAvail]) newAvail = fat[newAvail];` on fuel: `none` when the chain has not ended.
pub chain_end : ℕ → (ℕ → ℕ) → ℕ → Option ℕ
chain_end zero fat blk = none
chain_end (suc fuel) fat blk =
    let rest = chain_end fuel fat (fat blk) in if fat blk == 0 then some blk else rest

-- A chain without a cycle has at most `n_blocks` blocks, which is the fuel.
unfoldable pub add_avail_blk : Fat439 → ℕ → Option Fat439
unfolding chain_end
add_avail_blk fs new_avail = elim (chain_end fs.super.n_blocks fs.fat new_avail) [
  | none ↦ none
  | some last ↦ some (with_avail fs new_avail (update fs.fat last fs.super.avail))
]

unfoldable pub rem_next_avail : Fat439 → ℕ × Fat439
rem_next_avail fs =
    let next = fs.super.avail in
    if next == 0 then (0, fs) else (next, with_avail fs (fs.fat next) (update fs.fat next 0))

unfoldable pub next_blk : Fat439 → ℕ → ℕ
next_blk fs blk = fs.fat blk

-- As written: the entry of `next_blk` is copied, not its number.
unfoldable pub set_next_blk : Fat439 → ℕ → ℕ → Fat439
set_next_blk fs blk next_blk = record fs { fat = update fs.fat blk (fs.fat next_blk) }
