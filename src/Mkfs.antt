-- ===== src/Mkfs.antt =====
-- fat439/mkfs.c: the tool that builds a disk image. The mapped image is its superblock, its table and the
-- bytes of its blocks. In the file the first two lie in the bytes as well, which `laid_out` says of the
-- table; to keep them apart is right as long as the blocks that are handed out lie behind the table, and
-- Mkfs.KernelReads asks for that. `none` is `exit(-1)`, or the end of the fuel.
-- `open_input` (its `open`), `read` and `basename` are those of the system that the tool runs on.
pub mod Format
pub mod Store
pub mod Copy
pub mod OneFile
pub mod KernelReads
mod Tests
use p12_group.Base.{
  ℕ, zero, suc, ◌+◌, ◌-◌, ◌*◌, ◌/◌, ◌%◌, ◌^◌, ◌==◌, ltb, leb, ◌&&◌, if◌then◌else◌, List, [], ◌∷◌,
  ◌++◌, take, length, get_or, Option, none, some, update,
}
use p12_group.Fat.{Super, Fat439, with_avail}
use p12_group.Heap.{◌>>=◌}
use mathlib.Core.Option

abbrev pub header_sz : ℕ
header_sz = 16

pub record Image : Type 0 where
  pub fs : Fat439
  pub bytes : ℕ → ℕ

-- A word, the lowest byte first.
abbrev pub bytes_of : ℕ → List ℕ
bytes_of w = w % 2 ^ 8 ∷ w / 2 ^ 8 % 2 ^ 8 ∷ w / 2 ^ 16 % 2 ^ 8 ∷ w / 2 ^ 24 % 2 ^ 8 ∷ []

-- The bytes of the image for so many blocks: the table lies at block 1, a word for each block.
abbrev pub laid_out : ℕ → Image → ℕ → ℕ
laid_out n m a =
    if leb 512 a && ltb a (512 + 4 * n)
    then get_or (bytes_of (m.fs.fat ((a - 512) / 4))) ((a - 512) % 4) 0
    else m.bytes a

unfoldable pub get_block : Image → Option (ℕ × Image)
get_block m =
    let idx = m.fs.super.avail in
    if idx == 0
    then none
    else some (idx, record m { fs = with_avail m.fs (m.fs.fat idx) (update m.fs.fat idx 0) })

-- A place in the image, as the distance from `blocks`.
abbrev pub to_ptr : ℕ → ℕ → ℕ
to_ptr idx offset = idx * 512 % 2 ^ 32 + offset

-- Bytes stored from a place on.
unfoldable pub store : ℕ → List ℕ → (ℕ → ℕ) → ℕ → ℕ
store a bs old i = if leb a i && ltb i (a + length bs) then get_or bs (i - a) 0 else old i

abbrev pub put : ℕ → List ℕ → Image → Image
put a bs m = record m { bytes = store a bs m.bytes }

-- `fileMetaData[i] = w` for the file that starts in the block.
abbrev pub put_meta : ℕ → ℕ → ℕ → Image → Image
put_meta blk i w m = put (to_ptr blk 0 + 4 * i) (bytes_of w) m

-- Where the next bytes of a file go: the block, what is left in it, and the offset in it.
pub record Place : Type 0 where
  pub current_block : ℕ
  pub left_in_block : ℕ
  pub block_offset : ℕ

-- A full block is followed by a new one.
unfoldable pub make_room : Place → Image → Option (Place × Image)
unfolding get_block
make_room p m =
    if p.left_in_block == 0
    then Option.map
        (λ (b, m'). (
          record { current_block = b; left_in_block = 512; block_offset = 0 },
          record m' { fs = record m'.fs { fat = update m'.fs.fat p.current_block b } },
        ))
        (get_block m)
    else some (p, m)

abbrev pub advance : Place → ℕ → Place
advance p n = record {
  current_block = p.current_block;
  left_in_block = p.left_in_block - n;
  block_offset = p.block_offset + n;
}

unfoldable pub start_file : ℕ → Image → Image
start_file b m = put_meta b 3 b (put_meta b 2 1023 (put_meta b 0 1 m))

abbrev pub first_place : ℕ → Place
first_place b = record {
  current_block = b;
  left_in_block = 512 - header_sz;
  block_offset = header_sz;
}

module _ {F : Type 0} (read : F → ℕ → Option (List ℕ × F)) where
  -- The end of a turn, after a `read` that did not fail: the end of the file, or another turn.
  unfoldable pub after_read :
      (Place → ℕ → F → Image → Option (ℕ × Image))
      → Place
      → ℕ
      → Image
      → List ℕ × F
      → Option (ℕ × Image)
  after_read again p total m ([], f) = some (total, m)
  after_read again p total m (c ∷ cs, f) =
      let n = length (c ∷ cs) in
      again (advance p n) ((total + n) % 2 ^ 32) f
        (put (to_ptr p.current_block p.block_offset) (c ∷ cs) m)

  -- The loop of `oneFile` on fuel; a turn reads a byte or more, or is the last one. The result is the
  -- size of the file.
  unfoldable pub copy : ℕ → Place → ℕ → F → Image → Option (ℕ × Image)
  unfolding make_room after_read
  copy zero p total f m = none
  copy (suc fuel) p total f m = do
    (p', m') ← make_room p m
    r ← read f p'.left_in_block
    after_read (copy fuel) p' total m' r

  -- `oneFile` once the file is open.
  unfoldable pub one_file : ℕ → F → Image → Option (ℕ × Image)
  unfolding get_block start_file copy
  one_file fuel f m = do
    (b, m1) ← get_block m
    (total, m2) ← copy fuel (first_place b) 0 f (start_file b m1)
    some (b, put_meta b 1 total m2)

-- `for (i = super->avail; i > lastAvail; i--) fat[i] = i - 1;`
unfoldable pub link : ℕ → ℕ → (ℕ → ℕ) → ℕ → ℕ
link zero last fat = fat
link (suc i) last fat =
    let rest = link i last (update fat (suc i) i) in if ltb last (suc i) then rest else fat

-- The superblock and the table for so many blocks.
unfoldable pub format : ℕ → Fat439 → Fat439
unfolding link
format n fs =
    let avail = (n + 2 ^ 32 - 1) % 2 ^ 32 in
    let fat_blocks = (n * 4 + 511) / 512 in
    record {
      super = record { n_blocks = n; avail = avail; root = fs.super.root };
      fat = link avail (1 + fat_blocks) fs.fat;
    }

-- The root directory, for so many files.
unfoldable pub make_root : ℕ → Image → Option (ℕ × Image)
unfolding get_block
make_root n_files m = do
  (root, m1) ← get_block m
  let m2 = record m1 { fs = record m1.fs { super = record m1.fs.super { root = root } } }
  some (
    root,
    put_meta root 3 root
        (put_meta root 2 0 (put_meta root 1 (n_files * 16 % 2 ^ 32) (put_meta root 0 2 m2))),
  )

abbrev pub zeros : ℕ → List ℕ
zeros zero = []
zeros (suc n) = 0 ∷ zeros n

-- `strncpy` of a name to a field of twelve bytes, and the word behind it.
abbrev pub entry_of : List ℕ → ℕ → List ℕ
entry_of base x = take 12 (base ++ zeros 12) ++ bytes_of x

module _ {F : Type 0} (open_input : List ℕ → Option F) (read : F → ℕ → Option (List ℕ × F))
    (basename : List ℕ → List ℕ) where
  -- The loop over the files, from the i-th one on.
  unfoldable pub add_files : ℕ → ℕ → ℕ → List (List ℕ) → Image → Option Image
  unfolding one_file
  add_files fuel root i [] m = some m
  add_files fuel root i (name ∷ names) m = do
    f ← open_input name
    (x, m') ← one_file read fuel f m
    add_files fuel root (i + 1) names
        (put (to_ptr root header_sz + i * 16) (entry_of (basename name) x) m')

  -- `main`, from the check of its arguments on, for an image of so many blocks and these files.
  unfoldable pub build : ℕ → ℕ → List (List ℕ) → Image → Option Image
  unfolding format make_root add_files
  build fuel n [] m = none
  build fuel n (name ∷ names) m = do
    (root, m') ← make_root (length (name ∷ names)) (record m { fs = format n m.fs })
    add_files fuel root 0 (name ∷ names) m'
