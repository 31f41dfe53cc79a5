-- ===== src/Mkfs/Tests.antt =====
-- The tool of fat439/mkfs.c on a small image, with the input files in memory.
use p12_group.Base.{
  ℕ, ◌+◌, ◌-◌, ◌*◌, ◌/◌, ◌%◌, ◌<◌, ◌≤◌, ◌≡◌, leb, ltb, ◌&&◌, List, [], ◌∷◌, ◌++◌, length, get_or,
  arith, refl, ap, ◌∙◌, has, Option, some,
}
use p12_group.Block.{min}
use p12_group.Block.Ram.{Memory, disk_of, disk_of-IsBlockDevice, get_or-tabulate}
use p12_group.Block.Interface.{byte_at}
use p12_group.Directory.{Directory}
use p12_group.Directory.Update.{mount_table}
use p12_group.Fat.{Fat439, Super}
use p12_group.Fat.Alloc.{FreeList}
use p12_group.Files.{got, open_file, file_read_fully}
use p12_group.Files.Contents.{IsPart}
use p12_group.Mkfs.{Image, format, laid_out, one_file}
use p12_group.Mkfs.Format.{down, format-FreeList}
use p12_group.Mkfs.Copy.{Reads}
use p12_group.Mkfs.KernelReads.{header, Behind, one_file-file_read_fully}

-- `read` takes one byte at a time.
abbrev read_one : List ℕ → ℕ → Option (List ℕ × List ℕ)
read_one [] n = some ([], [])
read_one (b ∷ bs) n = some (b ∷ [], bs)

read_one-Reads : Reads read_one (λ bs. bs)
read_one-Reads = record { some_bytes = λ f n z. go f n z }
  where
    go :
        (f : List ℕ) (n : ℕ)
        → 0 < n
        → (bs : List ℕ) × (f' : List ℕ) × (read_one f n ≡ some (bs, f'))
          × (length bs ≤ n)
          × (f ≡ bs ++ f')
          × (bs ≡ [] → f ≡ [])
    go [] n z = ([], [], refl, omega arith, refl, λ e. refl)
    go (b ∷ bs) n z = (b ∷ [], bs, refl, omega arith, refl, λ e. absurd (cc))

abbrev blank : Fat439
blank = record { super = record { n_blocks = 0; avail = 0; root = 0 }; fat = λ b. 0 }

start_free :
    FreeList (format 6 blank) (down 2 3) × ((b : ℕ) → has b (down 2 3) ≡ (leb 2 b && ltb b 6))
start_free = format-FreeList 6 blank (omega arith) (omega arith) refl

abbrev start : Image
start = record { fs = format 6 blank; bytes = λ a. 0 }

-- The memory of a disk that holds an image of 6 blocks.
abbrev ram : Image → Memory
ram m b i = laid_out 6 m (b * 512 + i)

ram_holds : (m : Image) (a : ℕ) → byte_at (disk_of 512) (ram m) a ≡ laid_out 6 m a
unfolding byte_at
ram_holds m a =
    let e : a / 512 * 512 + a % 512 ≡ a = omega arith in
    get_or-tabulate 512 (λ i. laid_out 6 m (a / 512 * 512 + i)) (a % 512) (omega arith)
    ∙ ap (laid_out 6 m) e

abbrev text : List ℕ
text = 104 ∷ 101 ∷ 108 ∷ 108 ∷ 111 ∷ []

abbrev super : Super
super = record { n_blocks = 6; avail = 4; root = 5 }

start-Behind : Behind 6 (down 2 3)
start-Behind b h = (ground (arith, h), ground (arith, h))

one_file-file_read_fully_example :
    (m' : Image) × (one_file read_one 6 text start ≡ some (5, m'))
    × (fs : Fat439) × (root : Directory) × (mount_table (disk_of 512) (ram m') super
        ≡ some (fs, root))
    × (open_file (disk_of 512) (ram m') 5 ≡ some (header 5 5))
    × (cs : List ℕ) × (file_read_fully
          (disk_of 512)
          (ram m')
          fs
          (record { open_file = header 5 5; offset = 2 })
          9
        ≡ some (got cs, record { open_file = header 5 5; offset = 2 + length cs }))
    × IsPart (λ i. get_or text i 0) 2 (min 9 (5 - 2)) cs
unfolding format
one_file-file_read_fully_example =
    one_file-file_read_fully (disk_of 512) ram read_one (λ bs. bs) 6 text start super 5 (down 2 2) 2
      9 (disk_of-IsBlockDevice 512 (omega arith)) refl ram_holds read_one-Reads start_free.0
      start-Behind (omega arith) refl (omega arith) (omega arith) (omega arith) (omega arith)
