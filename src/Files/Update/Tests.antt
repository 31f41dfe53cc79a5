-- ===== src/Files/Update/Tests.antt =====
-- A file of 20 bytes in block 5 of a device in memory.
use p12_group.Base.{◌+◌, ◌*◌, ◌≡◌, refl, arith, [], ◌∷◌, some}
use p12_group.Base.Int.{ℤ, pos}
use p12_group.Block.Ram.{Memory, disk_of, disk_of-IsBlockDevice}
use p12_group.Files.Update.{Disk, append, open_write}
use p12_group.Files.Update.Header.{IsHeader}
use p12_group.Files.Update.Append.{Appended, append-Appended}
use p12_group.Files.Update.Fuel.{Returned, open_write-ends}

abbrev numbered : Memory
numbered b i = b * 1000 + i

abbrev small : Disk Memory
small = record {
  state = numbered;
  fs = record { super = record { n_blocks = 16; avail = 8; root = 2 }; fat = λ b. 0 };
  file = record { start = 5; type = 1; length = 20; parent_dir = 2; current_blk = 5 };
  unlocks = 0;
}

small-IsHeader : IsHeader small.file
small-IsHeader = record {
  start = omega arith;
  type = omega arith;
  length = omega arith;
  parent_dir = omega arith;
  current_blk = omega arith;
}

append-Appended_example :
    (d' : Disk Memory) × (append (disk_of 512) (7 ∷ 8 ∷ 9 ∷ []) 3 small ≡ some (pos 0, d'))
    × Appended (disk_of 512) small (7 ∷ 8 ∷ 9 ∷ []) 3 d'
append-Appended_example =
    append-Appended (disk_of 512) (7 ∷ 8 ∷ 9 ∷ []) 3 small (disk_of-IsBlockDevice 512 (omega arith))
      refl small-IsHeader (omega arith) (omega arith) (omega arith)

open_write-ends_example :
    (r : ℤ × Disk Memory) × (open_write (disk_of 512) 494 (7 ∷ 8 ∷ 9 ∷ []) 3 small ≡ some r)
    × Returned r.0
open_write-ends_example =
    open_write-ends (disk_of 512) 494 (7 ∷ 8 ∷ 9 ∷ []) 3 small
      (disk_of-IsBlockDevice 512 (omega arith))
