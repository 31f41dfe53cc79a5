-- ===== src/Directory/Tests.antt =====
-- A directory in block 2: "ab" stands for block 5, "c" for block 9.
use p12_group.Base.{
  ℕ, zero, suc, ◌+◌, ◌^◌, ◌<◌, ◌≤◌, ◌≡◌, ◌==◌, if◌then◌else◌, refl, arith, List, [], ◌∷◌, ◌++◌,
  get_or, some, replicate,
}
use p12_group.Base.Int.{pos}
use p12_group.Block.Ram.{Memory, disk_of, disk_of-IsBlockDevice}
use p12_group.Block.Interface.{byte_at}
use p12_group.Fat.{Fat439}
use p12_group.Files.{OpenFile, block_after}
use p12_group.Files.Contents.{IsReadable, content}
use p12_group.Directory.{Directory, lookup, lookup_entry}
use p12_group.Directory.Search.{Entry, Lists, lookup-Lists, lookup_entry-Lists}

abbrev block_2 : List ℕ
block_2 =
    replicate 16 1
    ++ (97 ∷ 98 ∷ replicate 10 0 ++ 5 ∷ 0 ∷ 0 ∷ 0 ∷ [])
    ++ (99 ∷ replicate 11 0 ++ 9 ∷ 0 ∷ 0 ∷ 0 ∷ [])

abbrev disk : Memory
disk b i = if b == 2 then get_or block_2 i 0 else 0

abbrev table : Fat439
table = record { super = record { n_blocks = 16; avail = 8; root = 2 }; fat = λ b. 0 }

abbrev file : OpenFile
file = record { start = 2; type = 2; length = 32; parent_dir = 2; current_blk = 2 }

abbrev root : Directory
root = record { start = 2; content = file; entries = 2 }

small_blocks : (i b : ℕ) → b < 2 ^ 23 → block_after i table.fat b < 2 ^ 23
small_blocks zero b h = h
small_blocks (suc i) b h = small_blocks i (table.fat b) (omega arith)

file-IsReadable : IsReadable (disk_of 512) disk table file
file-IsReadable = record {
  block_size = refl;
  blocks = λ i. small_blocks i 2 (omega arith);
  short = omega arith;
}

abbrev entries : List Entry
entries = record { name = 97 ∷ 98 ∷ []; start = 5 } ∷ record { name = 99 ∷ []; start = 9 } ∷ []

first_name :
    (j : ℕ) → j ≤ 2 → content (disk_of 512) disk table file (0 + j) ≡ get_or (97 ∷ 98 ∷ []) j 0
unfolding byte_at
first_name zero l = refl
first_name (suc zero) l = refl
first_name (suc (suc zero)) l = refl
first_name (suc (suc (suc j))) l = absurd (omega arith)

second_name :
    (j : ℕ) → j ≤ 1 → content (disk_of 512) disk table file (16 + j) ≡ get_or (99 ∷ []) j 0
unfolding byte_at
second_name zero l = refl
second_name (suc zero) l = refl
second_name (suc (suc j)) l = absurd (omega arith)

root-Lists : Lists (content (disk_of 512) disk table file) 0 entries
unfolding byte_at
root-Lists = (
  (omega arith, (omega arith, tt)),
  omega arith,
  first_name,
  refl,
  ((omega arith, tt), omega arith, second_name, refl, tt),
)

lookup-Lists_example : lookup (disk_of 512) disk table root (99 ∷ []) [] ≡ some 9
lookup-Lists_example =
    lookup-Lists (disk_of 512) disk table (disk_of-IsBlockDevice 512 (omega arith)) file
      file-IsReadable (99 ∷ []) (omega arith, tt) root entries [] refl refl (omega arith) root-Lists
      refl refl

-- "c" is the entry 1, and its name has one character; "ab" is the entry 0.
lookup_entry-Lists_example :
    lookup_entry (disk_of 512) disk table root (97 ∷ 98 ∷ []) [] ≡ some (pos 2)
lookup_entry-Lists_example =
    lookup_entry-Lists (disk_of 512) disk table (disk_of-IsBlockDevice 512 (omega arith)) file
      file-IsReadable (97 ∷ 98 ∷ []) (omega arith, (omega arith, tt)) root entries [] refl refl
      (omega arith) root-Lists refl refl
