-- ===== src/Files/Shared/Tests.antt =====
-- The file of block 5 on a device of zeros.
use p12_group.Base.{◌≡◌, refl, arith, none, some}
use p12_group.Block.{read_fully, read}
use p12_group.Block.Ram.{Memory, disk_of}
use p12_group.Files.{OpenFile, open_file}
use p12_group.Files.Shared.{OpenFiles, open_shared, close_shared}
use p12_group.Files.Shared.Counts.{counted, close_shared-open_shared}

abbrev blank : Memory
blank b i = 0

abbrev empty : OpenFile
empty = record { start = 5; type = 0; length = 0; parent_dir = 0; current_blk = 0 }

abbrev none_open : OpenFiles
none_open = record { objects = λ p. none; open_files = λ b. 0; file = λ p. empty; fresh = 96 }

header_read : open_file (disk_of 512) blank 5 ≡ some empty
unfolding open_file read_fully read
header_read = refl

close_shared-open_shared_example :
    (o1 : OpenFiles) × (o2 : OpenFiles) × (o3 : OpenFiles) × (o4 : OpenFiles) × (open_shared
        (disk_of 512)
        blank
        5
        none_open
      ≡ some (96, o1))
    × (open_shared (disk_of 512) blank 5 o1 ≡ some (96, o2))
    × (o2.objects 96 ≡ some (counted 2))
    × (o2.file 96 ≡ empty)
    × (close_shared 96 o2 ≡ some o3)
    × (o3.objects 96 ≡ some (counted 1))
    × (o3.open_files 5 ≡ 96)
    × (close_shared 96 o3 ≡ some o4)
    × (o4.objects 96 ≡ none)
    × (o4.open_files 5 ≡ 0)
close_shared-open_shared_example =
    close_shared-open_shared (disk_of 512) blank 5 empty none_open refl (omega arith) header_read
