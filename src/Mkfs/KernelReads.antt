-- ===== src/Mkfs/KernelReads.antt =====
-- What the kernel reads of a file that fat439/mkfs.c has put on a disk: `OpenFile` and `File::readFully` of
-- kernel/fs.cc on what `oneFile` leaves.
use p12_group.Base.{
  ℕ, zero, suc, ◌+◌, ◌-◌, ◌*◌, ◌/◌, ◌%◌, ◌^◌, ◌<◌, ◌≤◌, ◌≡◌, inl, inr, true, false, ◌&&◌, ltb, leb,
  List, ◌∷◌, has, length, get_or, arith, refl, ap, ◌∙◌, sym, subst, Option, some,
}
use p12_group.Block.{min}
use p12_group.Block.Interface.{BlockDevice, IsBlockDevice, byte_at}
use p12_group.Block.Read.{Delivers, read_fully-Delivers}
use p12_group.Directory.{Directory, directory}
use p12_group.Directory.Update.{mount_table}
use p12_group.Fat.{Fat439, Super}
use p12_group.Fat.Alloc.{FreeList}
use p12_group.Files.{OpenFile, got, block_after, block_sz, open_file, word_of, file_read_fully}
use p12_group.Files.Contents.{IsPart, IsReadable, content, file_read_fully-IsPart}
use p12_group.Files.Update.Header
use p12_group.Mkfs.{Image, bytes_of, laid_out, one_file}
use p12_group.Mkfs.Format.{first_block}
use p12_group.Mkfs.Store.{word_at}
use p12_group.Mkfs.Copy.{Reads, Small}
use p12_group.Mkfs.OneFile.{Written, one_file-Written}

-- The header of a file of n bytes that starts in block x.
abbrev pub header : ℕ → ℕ → OpenFile
header x n = record { start = x; type = 1; length = n; parent_dir = 1023; current_blk = x }

four :
    {a b c d a' b' c' d' : ℕ}
    → a ≡ a'
    → b ≡ b'
    → c ≡ c'
    → d ≡ d'
    → a + b * 2 ^ 8 + c * 2 ^ 16 + d * 2 ^ 24 ≡ a' + b' * 2 ^ 8 + c' * 2 ^ 16 + d' * 2 ^ 24
four p q r s = rw (p, q, r, s) refl

made :
    (x : ℕ) {t l p c n : ℕ}
    → t ≡ 1
    → l ≡ n
    → p ≡ 1023
    → c ≡ x
    → Path
        (Option OpenFile)
        (some (record { start = x; type = t; length = l; parent_dir = p; current_blk = c }))
        (some (header x n))
made x e f g h = rw (e, f, g, h) refl

-- Two tables with the same words along a chain have the same chain.
chain_same :
    (i : ℕ) (fat fat' : ℕ → ℕ) (n x : ℕ)
    → ((b : ℕ) → b < n → fat b < 2 ^ 32 → fat' b ≡ fat b)
    → ((j : ℕ) → (block_after j fat x < n) × (block_after (suc j) fat x < 2 ^ 32))
    → block_after i fat' x ≡ block_after i fat x
chain_same zero fat fat' n x same low = refl
chain_same (suc i) fat fat' n x same low =
    ap (block_after i fat') (same x (low 0).0 (low 0).1)
    ∙ chain_same i fat fat' n (fat x) same (λ j. low (suc j))

-- A free block lies behind the table, and in the image.
abbrev pub Behind : ℕ → List ℕ → Type 0
Behind n xs = (b : ℕ) → has b xs ≡ true → (first_block n ≤ b) × (b < n)

Behind-Small : (n : ℕ) (xs : List ℕ) → n ≤ 2 ^ 23 → Behind n xs → Small xs
Behind-Small n xs l h b k = omega (arith, (h b k).1)

module _ {S : Type 0} (dev : BlockDevice S) (is : IsBlockDevice dev) (bs512 : dev.block_size ≡ 512)
    (m m' : Image) (super : Super) (x : ℕ) (xs bs : List ℕ) (w : Written m x xs bs m')
    (behind : Behind super.n_blocks (x ∷ xs)) (few : super.n_blocks ≤ 2 ^ 23)
    (short : length bs + 16 < 2 ^ 32) (s : S)
    (holds : (a : ℕ) → byte_at dev s a ≡ laid_out super.n_blocks m' a) where
  abbrev n : ℕ
  n = super.n_blocks

  own : (first_block n ≤ x) × (x < n)
  own = behind x (ground arith)

  in_table :
      (a : ℕ)
      → a < 4 * n
      → byte_at dev s (512 + a) ≡ get_or (bytes_of (m'.fs.fat (a / 4))) (a % 4) 0
  in_table a l =
      let e : (leb 512 (512 + a) && ltb (512 + a) (512 + 4 * n)) ≡ true = ground arith in
      let z : 512 + a - 512 ≡ a = omega arith in holds (512 + a) ∙ rw (e, z) refl

  behind_table : (a : ℕ) → first_block n ≤ a / 512 → byte_at dev s a ≡ m'.bytes a
  behind_table a l =
      let u : 512 + 4 * n ≤ a = omega arith in
      let e : (leb 512 a && ltb a (512 + 4 * n)) ≡ false = ground arith in holds a ∙ rw e refl

  chain_low : (i : ℕ) → block_after i m'.fs.fat x < n
  chain_low zero = own.1
  chain_low (suc i) = elim (w.ahead i) [
    | inl h ↦ (behind (block_after (suc i) m'.fs.fat x) (ground (arith, h))).1
    | inr h ↦ omega (arith, h, own.1)
  ]

  -- The kernel's table.
  module _ (words : List ℕ) (d : Delivers dev s 512 (n * 4) words) where
    abbrev fs : Fat439
    fs = record { super = super; fat = word_of words }

    byte_of_table :
        (b j : ℕ) → b < n → j < 4 → get_or words (4 * b + j) 0 ≡ get_or (bytes_of (m'.fs.fat b)) j 0
    byte_of_table b j l u =
        let q : (4 * b + j) / 4 ≡ b = omega arith in
        let r : (4 * b + j) % 4 ≡ j = omega arith in
        d.bytes (4 * b + j) (omega arith) ∙ in_table (4 * b + j) (omega arith) ∙ rw (q, r) refl

    table_word : (b : ℕ) → b < n → m'.fs.fat b < 2 ^ 32 → word_of words b ≡ m'.fs.fat b
    table_word b l u =
        let z : 4 * b + 0 ≡ 4 * b = omega arith in
        four (ap (λ t. get_or words t 0) (sym z) ∙ byte_of_table b 0 l (omega arith))
          (byte_of_table b 1 l (omega arith)) (byte_of_table b 2 l (omega arith))
          (byte_of_table b 3 l (omega arith))
        ∙ Header.word_lem (m'.fs.fat b) u

    same_chain : (i : ℕ) → block_after i (word_of words) x ≡ block_after i m'.fs.fat x
    same_chain i =
        chain_same i m'.fs.fat (word_of words) n x table_word
          (λ j. (chain_low j, omega (arith, chain_low (suc j), few)))

    header-IsReadable : IsReadable dev s fs (header x (length bs))
    header-IsReadable = record {
      block_size = bs512;
      blocks = λ i. omega (arith, same_chain i, chain_low i, few);
      short = short;
    }

    contents_lem :
        (i : ℕ) → i < length bs → content dev s fs (header x (length bs)) i ≡ get_or bs i 0
    contents_lem i l =
        let e : i + 16 ≡ 16 + i = omega arith in
        let blk = block_after ((16 + i) / 512) m'.fs.fat x in
        let at : (blk * 512 + (16 + i) % 512) / 512 ≡ blk = omega arith in
        let far : first_block n ≤ (blk * 512 + (16 + i) % 512) / 512 =
          subst (λ t. first_block n ≤ t) (sym at) (behind blk (w.placed i l)).0 in
        rw e (
          ap (λ t. byte_at dev s (t * 512 + (16 + i) % 512)) (same_chain ((16 + i) / 512))
          ∙ behind_table (blk * 512 + (16 + i) % 512) far
          ∙ w.stored i l)

    reads_back :
        (o k : ℕ)
        → o ≤ length bs
        → (cs : List ℕ) × (file_read_fully dev s fs
              (record { open_file = header x (length bs); offset = o })
              k
            ≡ some (got cs, record { open_file = header x (length bs); offset = o + length cs }))
          × IsPart (λ i. get_or bs i 0) o (min k (length bs - o)) cs
    reads_back o k l =
        let (cs, run, part) =
          file_read_fully-IsPart dev s fs is (header x (length bs)) header-IsReadable o k l in
        (
          cs,
          run,
          record {
            size = part.size;
            bytes = λ i u. part.bytes i u ∙ contents_lem (o + i) (ground arith);
          },
        )

  word_lem :
      (cs : List ℕ) (i v : ℕ)
      → Delivers dev s (x * 512) 16 cs
      → i < 4
      → word_at m'.bytes (x * 512 + 4 * i) ≡ v
      → word_of cs i ≡ v
  word_lem cs i v d l e =
      let at : (j : ℕ) → j < 4 → get_or cs (4 * i + j) 0 ≡ m'.bytes (x * 512 + 4 * i + j) = λ j u.
        let q : x * 512 + (4 * i + j) ≡ x * 512 + 4 * i + j = omega arith in
        let r : (x * 512 + (4 * i + j)) / 512 ≡ x = omega arith in
        d.bytes (4 * i + j) (omega arith)
        ∙ behind_table (x * 512 + (4 * i + j)) (subst (λ t. first_block n ≤ t) (sym r) own.0)
        ∙ ap m'.bytes q in
      let z : 4 * i + 0 ≡ 4 * i = omega arith in
      let z' : x * 512 + 4 * i + 0 ≡ x * 512 + 4 * i = omega arith in
      let first : get_or cs (4 * i) 0 ≡ m'.bytes (x * 512 + 4 * i) =
        ap (λ t. get_or cs t 0) (sym z) ∙ at 0 (omega arith) ∙ ap m'.bytes z' in
      four first (at 1 (omega arith)) (at 2 (omega arith)) (at 3 (omega arith)) ∙ e

  open_header : open_file dev s x ≡ some (header x (length bs))
  unfolding open_file
  open_header =
      let e : x * block_sz % 2 ^ 32 ≡ x * 512 = omega (arith, own.1, few) in
      let z : x * 512 ≡ x * 512 + 0 = omega arith in
      let (cs, run, d) = read_fully-Delivers dev is s (x * 512) 16 (omega (arith, own.1, few)) in
      rw (e, run)
        (made x (word_lem cs 0 1 d (omega arith) (ap (word_at m'.bytes) (sym z) ∙ w.type))
          (word_lem cs 1 (length bs) d (omega arith) w.size)
          (word_lem cs 2 1023 d (omega arith) w.parent) (word_lem cs 3 x d (omega arith) w.start))

  -- The constructor of `Fat439` reads the table.
  mounted :
      (words : List ℕ) × (root : Directory) × (mount_table dev s super
        ≡ some (record { super = super; fat = word_of words }, root))
      × Delivers dev s 512 (n * 4) words
  unfolding mount_table open_file
  mounted =
      let (words, run, d) = read_fully-Delivers dev is s 512 (n * 4) (omega (arith, few)) in
      let (head, run', _) =
        read_fully-Delivers dev is s (super.root * block_sz % 2 ^ 32) 16 (omega arith) in
      let e : n * 4 % 2 ^ 32 ≡ n * 4 = omega (arith, few) in
      (
        words,
        directory super.root (record {
          start = super.root;
          type = word_of head 0;
          length = word_of head 1;
          parent_dir = word_of head 2;
          current_blk = word_of head 3;
        }),
        rw (e, run, run') refl,
        d,
      )

-- For a device that follows the interface's laws, has blocks of 512 bytes and is in the state `disk m`
-- when it holds the bytes of the image m, table included; a superblock of at most 2^23 blocks; free blocks
-- that lie behind the table and in the image, and an entry 0 of the table that is 0; a file that can be read,
-- of fewer than 2^32 - 16 bytes, which fit into the first free block behind its header and into the further
-- ones xs with a byte to spare; fuel for one turn more than the file has bytes; and a place o in the file:
-- after `oneFile` of mkfs, which ends, the kernel reads the table from the device, opens the file at the
-- block that `oneFile` returned, finds its type and size in the header, and `readFully` of k bytes from o on,
-- along that table, delivers those bytes of the file, or the ones up to its end if they are fewer.
pub one_file-file_read_fully :
    {S F : Type 0} (dev : BlockDevice S) (disk : Image → S) (read : F → ℕ → Option (List ℕ × F))
    (rest : F → List ℕ) (fuel : ℕ) (f : F) (m : Image) (super : Super) (x : ℕ) (xs : List ℕ)
    (o k : ℕ)
    → IsBlockDevice dev
    → dev.block_size ≡ 512
    → ((m' : Image) (a : ℕ) → byte_at dev (disk m') a ≡ laid_out super.n_blocks m' a)
    → Reads read rest
    → FreeList m.fs (x ∷ xs)
    → Behind super.n_blocks (x ∷ xs)
    → super.n_blocks ≤ 2 ^ 23
    → m.fs.fat 0 ≡ 0
    → length (rest f) + 16 < 2 ^ 32
    → length (rest f) < 496 + 512 * length xs
    → length (rest f) < fuel
    → o ≤ length (rest f)
    → (m' : Image) × (one_file read fuel f m ≡ some (x, m'))
      × (fs : Fat439) × (root : Directory) × (mount_table dev (disk m') super ≡ some (fs, root))
      × (open_file dev (disk m') x ≡ some (header x (length (rest f))))
      × (cs : List ℕ) × (file_read_fully dev
            (disk m')
            fs
            (record { open_file = header x (length (rest f)); offset = o })
            k
          ≡ some
              (got cs, record { open_file = header x (length (rest f)); offset = o + length cs }))
      × IsPart (λ i. get_or (rest f) i 0) o (min k (length (rest f) - o)) cs
one_file-file_read_fully dev disk read rest fuel f m super x xs o k is b holds reads free behind few
      end short fits enough l =
    let small = Behind-Small super.n_blocks (x ∷ xs) few behind in
    let (m', run, w) =
      one_file-Written read rest fuel f m x xs reads free small end (omega arith) fits enough in
    let s = disk m' in
    let at = holds m' in
    let (words, root, mount, d) =
      mounted dev is b m m' super x xs (rest f) w behind few short s at in
    let (cs, read_back, part) =
      reads_back dev is b m m' super x xs (rest f) w behind few short s at words d o k l in
    (
      m',
      run,
      record { super = super; fat = word_of words },
      root,
      mount,
      open_header dev is b m m' super x xs (rest f) w behind few short s at,
      cs,
      read_back,
      part,
    )
