-- ===== src/Directory/Update/Tests.antt =====
-- A directory in block 2 that has one entry, "c" for block 9; the blocks 8 and 7 are free.
use p12_group.Base.{
  ℕ, zero, suc, ◌+◌, ◌*◌, ◌^◌, ◌<◌, ◌≤◌, ◌≡◌, ◌==◌, if◌then◌else◌, refl, arith, List, [], ◌∷◌, ◌++◌,
  get_or, some, replicate,
}
use p12_group.Base.Int.{pos}
use p12_group.Block.Ram.{Memory, disk_of, disk_of-IsBlockDevice}
use p12_group.Block.Interface.{byte_at}
use p12_group.Fat.Alloc.{FreeList}
use p12_group.Files.{open_file, block_after}
use p12_group.Files.Contents.{content}
use p12_group.Files.Update.{Disk}
use p12_group.Directory.{Directory}
use p12_group.Directory.Search.{Entry, Lists}
use p12_group.Directory.Update.{mkdir}
use p12_group.Directory.Update.Mkdir.{IsDirectory, IsFresh, empty_directory, mkdir-Lists}

abbrev block_2 : List ℕ
block_2 = replicate 16 1 ++ (99 ∷ replicate 11 0 ++ 9 ∷ 0 ∷ 0 ∷ 0 ∷ [])

abbrev disk : Memory
disk b i = if b == 2 then get_or block_2 i 0 else 0

abbrev before : Disk Memory
before = record {
  state = disk;
  fs = record {
    super = record { n_blocks = 16; avail = 8; root = 2 };
    fat = λ b. if b == 8 then 7 else 0;
  };
  file = record { start = 2; type = 2; length = 16; parent_dir = 2; current_blk = 2 };
  unlocks = 0;
}

abbrev root : Directory
root = record { start = 2; content = before.file; entries = 1 }

abbrev entries : List Entry
entries = record { name = 99 ∷ []; start = 9 } ∷ []

small_blocks : (i b : ℕ) → b < 2 ^ 23 → block_after i before.fs.fat b < 2 ^ 23
small_blocks zero b h = h
small_blocks (suc i) b h = small_blocks i (before.fs.fat b) (ground arith)

chars :
    (j : ℕ)
    → j ≤ 1
    → content (disk_of 512) disk before.fs before.file (0 + j) ≡ get_or (99 ∷ []) j 0
unfolding byte_at
chars zero l = refl
chars (suc zero) l = refl
chars (suc (suc j)) l = absurd (omega arith)

before-Lists : Lists (content (disk_of 512) disk before.fs before.file) 0 entries
unfolding byte_at
before-Lists = ((omega arith, tt), omega arith, chars, refl, tt)

root-IsDirectory : IsDirectory (disk_of 512) root entries before
root-IsDirectory = record {
  header = record {
    start = omega arith;
    type = omega arith;
    length = omega arith;
    parent_dir = omega arith;
    current_blk = omega arith;
  };
  type = refl;
  readable = record {
    block_size = refl;
    blocks = λ i. small_blocks i 2 (omega arith);
    short = omega arith;
  };
  entries = refl;
  size = refl;
  room = omega arith;
  root_room = λ e. omega arith;
  lists = before-Lists;
}

ab-IsFresh : IsFresh entries (97 ∷ 98 ∷ [])
ab-IsFresh = record {
  spelled = (omega arith, (omega arith, tt));
  short = omega arith;
  no_slash = refl;
  not_dot = refl;
  not_dot_dot = refl;
  missing = refl;
}

free_blocks : FreeList before.fs (8 ∷ 7 ∷ [])
free_blocks = ((refl, omega arith, (refl, omega arith, refl)), (refl, (refl, tt)))

mkdir-Lists_example :
    (dir' : Directory) × (d' : Disk Memory) × (mkdir
        (disk_of 512)
        root
        (97 ∷ 98 ∷ [])
        []
        (replicate 12 255)
        before
      ≡ some (pos 0, dir', d'))
    × Lists
        (content (disk_of 512) d'.state d'.fs d'.file)
        0
        (entries ++ record { name = 97 ∷ 98 ∷ []; start = 8 } ∷ [])
    × (dir'.entries ≡ 1 + 1)
    × (d'.file.length ≡ 16 * (1 + 1))
    × (open_file (disk_of 512) d'.state 8 ≡ some (empty_directory 2 8))
    × FreeList d'.fs (7 ∷ [])
mkdir-Lists_example =
    mkdir-Lists (disk_of 512) root entries (97 ∷ 98 ∷ []) [] (replicate 12 255) before 8 (7 ∷ [])
      (disk_of-IsBlockDevice 512 (omega arith)) root-IsDirectory ab-IsFresh refl free_blocks
      (omega arith) (omega arith) (omega arith)
