-- ===== src/Directory/Update/Mkdir.antt =====
-- `mkdir` of kernel/fs.cc against the list of the entries of a directory.
use p12_group.Base.{
  ℕ, ◌+◌, ◌*◌, ◌/◌, ◌%◌, ◌^◌, ◌<◌, ◌≤◌, ◌≡◌, ◌≢◌, ◌⊎◌, ◌==◌, ltb, leb, ◌&&◌, true, false, inl, inr,
  List, [], ◌∷◌, ◌++◌, length, has, get_or, arith, refl, ap, ◌∙◌, sym, subst, ne→==, Bool-cases,
  some,
}
use p12_group.Base.Int.{ℤ, pos}
use p12_group.Block.Interface.{BlockDevice, IsBlockDevice, byte_at}
use p12_group.Block.Write.{Stores, inside}
use p12_group.Fat.{Fat439, rem_next_avail}
use p12_group.Fat.Alloc.{FreeList, rem_next_avail_some}
use p12_group.Files.{OpenFile, open_file}
use p12_group.Files.Contents.{IsReadable, content}
use p12_group.Files.Update.{Disk, meta_data, append}
use p12_group.Files.Update.Header.{IsHeader, stored-outside, write-inside, meta_data-open_file}
use p12_group.Files.Update.Append.{Appended, append-Appended}
use p12_group.Directory.{Directory, lookup, is_dot, is_dot_dot}
use p12_group.Directory.Names.{IsName}
use p12_group.Directory.Search.{Entry, Lists, find_start, lookup-Lists}
use p12_group.Directory.Update.{
  current, entry_of, type_dir, new_directory, add_entry, make_directory, mkdir,
}
use p12_group.Directory.Update.Lists.{same-Lists, Lists-snoc, entry_of-Lists, length-entry_of}

-- A directory whose content is the file in the state, with these entries, and room for one more in its
-- first block; in the root, room for one more byte behind that, which is what `mkdir` asks for there.
pub record IsDirectory {S : Type 0} (dev : BlockDevice S) (dir : Directory) (es : List Entry)
    (d : Disk S) : Type 0 where
  pub header : IsHeader d.file
  pub type : d.file.type ≡ type_dir
  pub readable : IsReadable dev d.state d.fs d.file
  pub entries : dir.entries ≡ length es
  pub size : d.file.length ≡ 16 * length es
  pub room : 16 * length es + 32 ≤ 512
  pub root_room : dir.start ≡ d.fs.super.root → 16 * length es + 32 < 512
  pub lists : Lists (content dev d.state d.fs d.file) 0 es

-- A name that `mkdir` accepts.
pub record IsFresh (es : List Entry) (name : List ℕ) : Type 0 where
  pub spelled : IsName name
  pub short : length name < 12
  pub no_slash : has 47 name ≡ false
  pub not_dot : is_dot name ≡ false
  pub not_dot_dot : is_dot_dot name ≡ false
  pub missing : find_start es name ≡ 0

-- The header of a directory without entries.
abbrev pub empty_directory : ℕ → ℕ → OpenFile
empty_directory parent x = record {
  start = x;
  type = 2;
  length = 0;
  parent_dir = parent;
  current_blk = x;
}

make_directory_step :
    {S : Type 0} (dev : BlockDevice S) (dir : Directory) (name stale : List ℕ) (d : Disk S)
    (blk : ℕ) (fs' : Fat439) (r : ℤ × Directory × Disk S)
    → rem_next_avail d.fs ≡ (blk, fs')
    → ((dir.start == d.fs.super.root) && leb dev.block_size (d.file.length + 16 + 16)) ≡ false
    → (blk == 0) ≡ false
    → add_entry dev dir
        (entry_of name stale blk)
        (new_directory dev dir.start blk (record d { fs = fs' }))
      ≡ some r
    → make_directory dev dir name stale d ≡ some r
unfolding make_directory
make_directory_step dev dir name stale d blk fs' r e room z k = rw (room, e, z) k

mkdir_step :
    {S : Type 0} (dev : BlockDevice S) (dir : Directory) (name buffer stale : List ℕ) (d : Disk S)
    (r : ℤ × Directory × Disk S)
    → d.file.type ≡ 2
    → leb 12 (length name) ≡ false
    → has 47 name ≡ false
    → lookup dev d.state d.fs (current dev dir d) name buffer ≡ some 0
    → make_directory dev dir name stale d ≡ some r
    → mkdir dev dir name buffer stale d ≡ some r
unfolding mkdir
mkdir_step dev dir name buffer stale d r t l n f k =
    let is_dir : (d.file.type == 2) ≡ true = ground arith in rw (is_dir, l, n, f) k

module _ {S : Type 0} (dev : BlockDevice S) (is : IsBlockDevice dev) (dir : Directory)
    (es : List Entry) (name stale : List ℕ) (d : Disk S) (x : ℕ) (xs : List ℕ)
    (h : IsDirectory dev dir es d) (fresh : IsFresh es name) (size : length stale ≡ 12)
    (free : FreeList d.fs (x ∷ xs)) (low : x < 2 ^ 23) (other : x ≢ d.file.start)
    (up : dir.start < 2 ^ 32) where
  abbrev taken : Disk S
  taken = record d { fs = (rem_next_avail d.fs).1 }

  abbrev made : Disk S
  made = new_directory dev dir.start x taken

  abbrev entry : List ℕ
  entry = entry_of name stale x

  new_header : IsHeader (empty_directory dir.start x)
  new_header = record {
    start = low;
    type = omega arith;
    length = omega arith;
    parent_dir = up;
    current_blk = omega (arith, low);
  }

  made-Stores : Stores dev d.state (x * 512) (meta_data (empty_directory dir.start x)) 16 made.state
  unfolding new_directory
  made-Stores =
      let e : x * dev.block_size % 2 ^ 32 ≡ x * 512 =
        ap (λ k. x * k % 2 ^ 32) h.readable.block_size ∙ omega (arith, low) in
      rw e
        (write-inside dev is h.readable.block_size d.state (x * 512)
          (meta_data (empty_directory dir.start x)) 16 (omega arith) (omega arith)).1

  same_file : made.file ≡ d.file
  unfolding new_directory
  same_file = refl

  made_fs : made.fs ≡ (rem_next_avail d.fs).1
  unfolding new_directory
  made_fs = refl

  -- A byte of the directory's first block.
  first_block :
      (s : S) (fs : Fat439) (i : ℕ)
      → i + 16 < 512
      → content dev s fs d.file i ≡ byte_at dev s (d.file.start * 512 + (i + 16))
  first_block s fs i l =
      let q : (i + 16) / 512 ≡ 0 = omega arith in
      let r : (i + 16) % 512 ≡ i + 16 = omega arith in rw (q, r) refl

  -- In the first block, only the place of the file counts.
  swap :
      (s : S) (fs fs' : Fat439) (f f' : OpenFile) (i : ℕ)
      → f.start ≡ f'.start
      → i + 16 < 512
      → content dev s fs f i ≡ content dev s fs' f' i
  swap s fs fs' f f' i e l =
      let q : (i + 16) / 512 ≡ 0 = omega arith in
      rw q (ap (λ t. byte_at dev s (t * 512 + (i + 16) % 512)) e)

  away :
      (i : ℕ)
      → i < 512
      → (d.file.start * 512 + i < x * 512) ⊎ (x * 512 + 16 ≤ d.file.start * 512 + i)
  away i l = elim (Bool-cases (ltb x d.file.start)) [
    | inl u ↦ let v : x < d.file.start = ground arith in inr (omega arith)
    | inr u ↦ let v : d.file.start < x = ground (arith, other) in inl (omega arith)
  ]

  made_kept :
      (i : ℕ)
      → i + 16 < 512
      → content dev made.state made.fs d.file i ≡ content dev d.state d.fs d.file i
  made_kept i l =
      first_block made.state made.fs i l
      ∙ stored-outside dev d.state made.state (x * 512) (meta_data (empty_directory dir.start x)) 16
          (d.file.start * 512 + (i + 16)) made-Stores (away (i + 16) l)
      ∙ sym (first_block d.state d.fs i l)

  same_length : made.file.length ≡ d.file.length
  same_length = ap (λ f. f.length) same_file

  added :
      (d' : Disk S) × (append dev entry 16 made ≡ some (pos 0, d')) × Appended dev made entry 16 d'
  added =
      let n = length-entry_of name stale x fresh.short size (omega (arith, low)) in
      append-Appended dev entry 16 made is h.readable.block_size
        (subst IsHeader (sym same_file) h.header) (omega arith) (omega (arith, n))
        (omega (arith, same_length, h.size, h.room))

  abbrev final : Disk S
  final = added.0

  final_kept :
      (i : ℕ)
      → i < 16 * length es
      → content dev final.state final.fs final.file i ≡ content dev d.state d.fs d.file i
  final_kept i l =
      swap final.state final.fs made.fs final.file made.file i (ap (λ f. f.start) added.2.file)
        (omega (arith, h.room))
      ∙ added.2.kept i (omega (arith, same_length, h.size))
      ∙ swap made.state made.fs made.fs made.file d.file i (ap (λ f. f.start) same_file)
          (omega (arith, h.room))
      ∙ made_kept i (omega (arith, h.room))

  final_entry :
      (j : ℕ)
      → j < 16
      → content dev final.state final.fs final.file (16 * length es + j) ≡ get_or entry j 0
  final_entry j l =
      let e : 16 * length es ≡ made.file.length = omega (arith, same_length, h.size) in
      swap final.state final.fs made.fs final.file made.file (16 * length es + j)
        (ap (λ f. f.start) added.2.file) (omega (arith, h.room))
      ∙ ap (λ t. content dev final.state made.fs made.file (t + j)) e
      ∙ added.2.added j l

  final-Lists :
      Lists
        (content dev final.state final.fs final.file)
        0
        (es ++ record { name = name; start = x } ∷ [])
  final-Lists =
      let z : 0 + 16 * length es ≡ 16 * length es = omega arith in
      Lists-snoc (content dev final.state final.fs final.file) 0 es
        (record { name = name; start = x })
        (same-Lists (content dev d.state d.fs d.file) (content dev final.state final.fs final.file)
          0 es (λ i l. final_kept i (omega arith)) h.lists)
        (entry_of-Lists name stale x fresh.short size (omega (arith, low))
          (content dev final.state final.fs final.file) (0 + 16 * length es) fresh.spelled
          (λ j l.
            ap (λ t. content dev final.state final.fs final.file (t + j)) z ∙ final_entry j l))

  -- The header of the new directory is in its block.
  final_opened : open_file dev final.state x ≡ some (empty_directory dir.start x)
  final_opened =
      meta_data-open_file dev is h.readable.block_size final.state final.state
        (empty_directory dir.start x) new_header
        λ a. elim (Bool-cases (inside (x * 512) 16 a)) [
          | inl u ↦ rw u (added.2.others a (not_there a u) ∙ made-Stores a ∙ rw u refl)
          | inr u ↦ rw u refl
        ]
    where
      not_there : (a : ℕ) → inside (x * 512) 16 a ≡ true → a / 512 ≢ made.file.start
      not_there a u e =
          let v : x * 512 ≤ a = ground arith in
          let w : a < x * 512 + 16 = ground arith in
          let q : d.file.start ≡ x = omega (arith, ap (λ f. f.start) same_file) in other (sym q)

  final_free : FreeList final.fs xs
  final_free =
      subst (λ fs. FreeList fs xs) (sym (added.2.fs ∙ made_fs))
        (rem_next_avail_some d.fs x xs free).1

  abbrev grown : Directory
  grown = record dir { entries = dir.entries + 1 }

  add_entry_lem : add_entry dev dir entry made ≡ some (pos 0, grown, final)
  unfolding add_entry
  add_entry_lem = rw added.1 refl

  name_is_free :
      (buffer : List ℕ) → lookup dev d.state d.fs (current dev dir d) name buffer ≡ some 0
  name_is_free buffer =
      lookup-Lists dev d.state d.fs is d.file h.readable name fresh.spelled (current dev dir d) es
        buffer refl h.entries (omega (arith, h.size)) h.lists fresh.not_dot fresh.not_dot_dot
      ∙ ap some fresh.missing

  has_room :
      ((dir.start == d.fs.super.root) && leb dev.block_size (d.file.length + 16 + 16)) ≡ false
  has_room = elim (Bool-cases (dir.start == d.fs.super.root)) [
    | inr e ↦ rw e refl
    | inl e ↦ rw e (
        ap (λ k. leb k (d.file.length + 16 + 16)) h.readable.block_size
        ∙ ground
            (arith, h.size, h.root_room (let q : dir.start ≡ d.fs.super.root = ground arith in q)))
  ]

  mkdir_lem : (buffer : List ℕ) → mkdir dev dir name buffer stale d ≡ some (pos 0, grown, final)
  mkdir_lem buffer =
      let (first, _, own, _) = rem_next_avail_some d.fs x xs free in
      mkdir_step dev dir name buffer stale d (pos 0, grown, final) h.type
        (ground (arith, fresh.short)) fresh.no_slash (name_is_free buffer)
        (make_directory_step dev dir name stale d x (rem_next_avail d.fs).1 (pos 0, grown, final)
          (ap (λ b. (b, (rem_next_avail d.fs).1)) first) has_room (ne→== x 0 own.1) add_entry_lem)

-- On a device that follows the interface's laws, in a directory with entries es that has room for another
-- one in its first block (thirty entries at most, and fewer in the root), for a name that `mkdir` accepts and no entry has, and with a free block x below
-- 2^23 that is not the directory's own: `mkdir` returns 0; the directory has the entries it had and, behind
-- them, one of the name and x; a constructor of `OpenFile` finds an empty directory in x, with this one as
-- its parent; and x is the one block that is no longer free.
pub mkdir-Lists :
    {S : Type 0} (dev : BlockDevice S) (dir : Directory) (es : List Entry)
    (name buffer stale : List ℕ) (d : Disk S) (x : ℕ) (xs : List ℕ)
    → IsBlockDevice dev
    → IsDirectory dev dir es d
    → IsFresh es name
    → length stale ≡ 12
    → FreeList d.fs (x ∷ xs)
    → x < 2 ^ 23
    → x ≢ d.file.start
    → dir.start < 2 ^ 32
    → (dir' : Directory) × (d' : Disk S) × (mkdir dev dir name buffer stale d
        ≡ some (pos 0, dir', d'))
      × Lists (content dev d'.state d'.fs d'.file) 0 (es ++ record { name = name; start = x } ∷ [])
      × (dir'.entries ≡ length es + 1)
      × (d'.file.length ≡ 16 * (length es + 1))
      × (open_file dev d'.state x ≡ some (empty_directory dir.start x))
      × FreeList d'.fs xs
mkdir-Lists dev dir es name buffer stale d x xs is h fresh size free low other up = (
  grown dev is dir es name stale d x xs h fresh size free low other up,
  final dev is dir es name stale d x xs h fresh size free low other up,
  mkdir_lem dev is dir es name stale d x xs h fresh size free low other up buffer,
  final-Lists dev is dir es name stale d x xs h fresh size free low other up,
  omega (arith, h.entries),
  omega (
    arith,
    ap (λ f. f.length)
        (added dev is dir es name stale d x xs h fresh size free low other up).2.file,
    same_length dev is dir es name stale d x xs h fresh size free low other up,
    h.size,
  ),
  final_opened dev is dir es name stale d x xs h fresh size free low other up,
  final_free dev is dir es name stale d x xs h fresh size free low other up,
)
