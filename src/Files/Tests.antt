-- ===== src/Files/Tests.antt =====
-- A device in memory with blocks of 512 bytes, and a file of 600 bytes in its blocks 5 and 7.
use p12_group.Base.{
  ℕ, zero, suc, ◌+◌, ◌*◌, ◌<◌, ◌^◌, ◌≡◌, ◌==◌, if◌then◌else◌, refl, arith, List, length, get_or,
  some,
}
use p12_group.Block.Ram.{Memory, disk_of, disk_of-IsBlockDevice}
use p12_group.Fat.{Fat439}
use p12_group.Files.{OpenFile, got, block_after, file_read_fully, open_read_fully}
use p12_group.Files.Entries.{open_read_fully-repeats}
use p12_group.Files.Contents.{IsPart, IsReadable, content, file_read_fully-IsPart}

abbrev numbered : Memory
numbered b i = b * 1000 + i

abbrev table : Fat439
table = record {
  super = record { n_blocks = 16; avail = 8; root = 2 };
  fat = λ b. if b == 5 then 7 else 0;
}

abbrev file : OpenFile
file = record { start = 5; type = 1; length = 600; parent_dir = 2; current_blk = 5 }

small_blocks : (i b : ℕ) → b < 2 ^ 23 → block_after i table.fat b < 2 ^ 23
small_blocks zero b h = h
small_blocks (suc i) b h = small_blocks i (table.fat b) (ground arith)

file-IsReadable : IsReadable (disk_of 512) numbered table file
file-IsReadable = record {
  block_size = refl;
  blocks = λ i. small_blocks i 5 (omega arith);
  short = omega arith;
}

-- The last byte of block 5 is byte 495 of the file; the next ones lie in block 7.
file_read_fully-IsPart_example :
    (bs : List ℕ) × (file_read_fully
        (disk_of 512)
        numbered
        table
        (record { open_file = file; offset = 490 })
        200
      ≡ some (got bs, record { open_file = file; offset = 490 + length bs }))
    × IsPart (content (disk_of 512) numbered table file) 490 110 bs
file_read_fully-IsPart_example =
    file_read_fully-IsPart (disk_of 512) numbered table (disk_of-IsBlockDevice 512 (omega arith))
      file file-IsReadable 490 200 (omega arith)

-- Of ten bytes from byte 490 on, six lie in block 5; the seventh is byte 490 again.
open_read_fully-repeats_example :
    (bs : List ℕ) × (open_read_fully (disk_of 512) numbered table file 490 10 ≡ some (got bs))
    × (length bs ≡ 10)
    × (get_or bs 6 0 ≡ content (disk_of 512) numbered table file 490)
open_read_fully-repeats_example =
    open_read_fully-repeats (disk_of 512) numbered table (disk_of-IsBlockDevice 512 (omega arith))
      file file-IsReadable 490 10 (omega arith) (omega arith)
