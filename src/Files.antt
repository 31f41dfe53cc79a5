-- ===== src/Files.antt =====
-- The files of kernel/fs.cc and kernel/fs.h: `OpenFile`, one per file in use, which finds a byte of the
-- file on the device by way of the file's chain of blocks, and `File`, which has a place in it.
pub mod Contents
pub mod Entries
pub mod Update
pub mod Shared
mod Tests
use p12_group.Base.{
  ℕ, zero, suc, ◌+◌, ◌-◌, ◌*◌, ◌/◌, ◌%◌, ◌^◌, ◌==◌, ltb, if◌then◌else◌, List, [], ◌∷◌, ◌++◌, length,
  get_or, Option, none, some,
}
use p12_group.Base.Int.{ℤ, neg}
use p12_group.Fat.{Fat439}
use p12_group.Block.{min, read, read_fully}
use p12_group.Block.Interface.{BlockDevice}
use mathlib.Core.Option

abbrev pub block_sz : ℕ
block_sz = 512

abbrev pub header_sz : ℕ
header_sz = 16

abbrev pub err_too_long : ℤ
err_too_long = neg 1000

pub record OpenFile : Type 0 where
  pub start : ℕ
  pub type : ℕ
  pub length : ℕ
  pub parent_dir : ℕ
  pub current_blk : ℕ

pub record File : Type 0 where
  pub open_file : OpenFile
  pub offset : ℕ

-- A negative result, or the bytes that were read, whose number is the result.
pub data Result : Type 0 where
  err : ℤ → Result
  got : List ℕ → Result

-- The i-th word of `metaData` in the bytes of the header, the lowest byte first.
abbrev pub word_of : List ℕ → ℕ → ℕ
word_of bs i =
    get_or bs (4 * i) 0
    + get_or bs (4 * i + 1) 0 * 2 ^ 8
    + get_or bs (4 * i + 2) 0 * 2 ^ 16
    + get_or bs (4 * i + 3) 0 * 2 ^ 24

-- `for (i = 0; i < blockInFile; i++) blockNumber = fs->fat[blockNumber];`
abbrev pub block_after : ℕ → (ℕ → ℕ) → ℕ → ℕ
block_after zero fat blk = blk
block_after (suc i) fat blk = block_after i fat (fat blk)

pub seek : ℕ → File → File
seek offset f = record f { offset = offset }

module _ {S : Type 0} (dev : BlockDevice S) (s : S) where
  -- The constructor of `OpenFile`.
  unfoldable pub open_file : ℕ → Option OpenFile
  open_file start =
      Option.map
        (λ bs. record {
          start = start;
          type = word_of bs 0;
          length = word_of bs 1;
          parent_dir = word_of bs 2;
          current_blk = word_of bs 3;
        })
        (read_fully dev s (start * block_sz % 2 ^ 32) header_sz)

  unfoldable pub open_read : Fat439 → OpenFile → ℕ → ℕ → Result
  open_read fs f offset n =
      let len = min n (f.length - offset) in
      let actual_offset = (offset + header_sz) % 2 ^ 32 in
      let blk = block_after (actual_offset / block_sz) fs.fat f.start in
      if ltb f.length offset
      then err err_too_long
      else got (read dev s ((blk * block_sz + actual_offset % block_sz) % 2 ^ 32) len)

  -- `Fat439File::read`: the file moves on by what was read.
  unfoldable pub file_read : Fat439 → File → ℕ → Result × File
  unfolding open_read
  file_read fs f n = elim (open_read fs f.open_file f.offset n) [
    | err e ↦ (err e, f)
    | got c ↦ (got c, record f { offset = (f.offset + length c) % 2 ^ 32 })
  ]

  abbrev pub prepend : List ℕ → Result × File → Result × File
  prepend c (err e, f) = (err e, f)
  prepend c (got bs, f) = (got (c ++ bs), f)

  -- The end of a turn of `File::readFully`: an error, the end of the file, or another turn.
  unfoldable pub after_read :
      (File → ℕ → Option (Result × File)) → ℕ → Result × File → Option (Result × File)
  after_read again togo (err e, f) = some (err e, f)
  after_read again togo (got [], f) = some (got [], f)
  after_read again togo (got (b ∷ bs), f) =
      Option.map (prepend (b ∷ bs)) (again f (togo - length (b ∷ bs)))

  -- `File::readFully` on fuel: `none` when it runs out.
  unfoldable pub file_read_loop : ℕ → Fat439 → File → ℕ → Option (Result × File)
  unfolding file_read after_read
  file_read_loop zero fs f togo = none
  file_read_loop (suc fuel) fs f zero = some (got [], f)
  file_read_loop (suc fuel) fs f (suc togo) =
      after_read (file_read_loop fuel fs) (suc togo) (file_read fs f (suc togo))

  unfoldable pub file_read_fully : Fat439 → File → ℕ → Option (Result × File)
  unfolding file_read_loop
  file_read_fully fs f n = file_read_loop (n + 1) fs f n

  -- The end of a turn of `OpenFile::readFully`, whose next turn reads at the same offset: it is not moved.
  unfoldable pub after_open_read : (ℕ → Option Result) → ℕ → Result → Option Result
  after_open_read again togo (err e) = some (err e)
  after_open_read again togo (got []) = some (got [])
  after_open_read again togo (got (b ∷ bs)) =
      Option.map (λ r. elim r [ err e ↦ err e | got more ↦ got (b ∷ bs ++ more) ])
        (again (togo - length (b ∷ bs)))

  unfoldable pub open_read_loop : ℕ → Fat439 → OpenFile → ℕ → ℕ → Option Result
  unfolding open_read after_open_read
  open_read_loop zero fs f offset togo = none
  open_read_loop (suc fuel) fs f offset zero = some (got [])
  open_read_loop (suc fuel) fs f offset (suc togo) =
      after_open_read (open_read_loop fuel fs f offset) (suc togo)
        (open_read fs f offset (suc togo))

  unfoldable pub open_read_fully : Fat439 → OpenFile → ℕ → ℕ → Option Result
  unfolding open_read_loop
  open_read_fully fs f offset n = open_read_loop (n + 1) fs f offset n
