-- ===== src/Block/Interface.antt =====
-- What a block device promises: the virtual functions of `BlockDevice` in kernel/block.h.
use p12_group.Base.{ℕ, ◌<◌, ◌%◌, ◌/◌, ◌≡◌, ◌≢◌, List, length, get_or}

pub record BlockDevice (S : Type 0) : Type 0 where
  pub block_size : ℕ
  pub read_block : S → ℕ → List ℕ
  pub write_block : S → ℕ → List ℕ → S

-- A block read is as long as a block; a block written is read back, and no other block changes. The laws are
-- those of an ideal device, with a block for every number; that the drive of kernel/ide.cc, which takes 28
-- bits of a number, follows them is not shown.
pub record IsBlockDevice {S : Type 0} (dev : BlockDevice S) : Type 0 where
  pub positive : 0 < dev.block_size
  pub length_read : (s : S) (b : ℕ) → length (dev.read_block s b) ≡ dev.block_size
  pub read_written :
      (s : S) (b : ℕ) (buf : List ℕ)
      → length buf ≡ dev.block_size
      → dev.read_block (dev.write_block s b buf) b ≡ buf
  pub read_other :
      (s : S) (b c : ℕ) (buf : List ℕ)
      → c ≢ b
      → dev.read_block (dev.write_block s b buf) c ≡ dev.read_block s c

-- The device as one array of bytes.
unfoldable pub byte_at : {S : Type 0} → BlockDevice S → S → ℕ → ℕ
byte_at dev s a = get_or (dev.read_block s (a / dev.block_size)) (a % dev.block_size) 0
