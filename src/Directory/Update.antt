-- ===== src/Directory/Update.antt =====
-- The operations of `Fat439Directory` in kernel/fs.cc that change a directory or go to another one:
-- `mkdir`, `remove`, `lookupFile`, `lookupDirectory` and `getPrevDirectory`, and the construction and
-- the `sync` of `Fat439`. The file in the state is the content of the directory. A name is the list of
-- its characters; the arguments `stale` are what the buffers on the stack hold.
pub mod Lists
pub mod Mkdir
mod Tests
use p12_group.Base.{
  ℕ, zero, suc, ◌+◌, ◌-◌, ◌*◌, ◌/◌, ◌%◌, ◌^◌, ◌==◌, ltb, leb, ◌&&◌, if◌then◌else◌, Bool, true,
  false, List, [], ◌∷◌, ◌++◌, drop, length, has, get_or, Option, none, some,
}
use p12_group.Base.Int.{ℤ, pos, negsuc, neg, same}
use p12_group.Fat.{Super, Fat439, rem_next_avail, add_avail_blk}
use p12_group.Block.{read, read_fully, write, write_fully}
use p12_group.Block.Interface.{BlockDevice}
use p12_group.Files.{OpenFile, File, open_file, header_sz, block_sz, word_of}
use p12_group.Files.Update.{
  Disk, err_no_space, bytes_of, meta_data, append, resize, rem_from_offset,
}
use p12_group.Directory.{Directory, directory, refresh, dir_entry_sz, lookup, lookup_entry}
use p12_group.Heap.{◌>>=◌}
use mathlib.Core.Option

abbrev pub type_dir : ℕ
type_dir = 2

abbrev pub err_not_found : ℤ
err_not_found = neg 1001

abbrev pub err_not_dir : ℤ
err_not_dir = neg 1007

abbrev pub err_no_root_space : ℤ
err_no_root_space = neg 1008

abbrev pub err_devwrite : ℤ
err_devwrite = neg 1009

abbrev pub err_fl_namelen : ℤ
err_fl_namelen = neg 1010

abbrev pub err_fl_exist : ℤ
err_fl_exist = neg 1011

abbrev pub err_invl_char : ℤ
err_invl_char = neg 1012

abbrev pub err_is_dir : ℤ
err_is_dir = neg 1014

-- `entry` for a name of fewer than twelve characters.
abbrev pub entry_of : List ℕ → List ℕ → ℕ → List ℕ
entry_of name stale start = (name ++ 0 ∷ drop (length name + 1) stale) ++ bytes_of start

-- The magic word, "F439", and the other words of `super`.
abbrev pub magic : ℕ
magic = 0x39333446

abbrev pub super_bytes : Super → List ℕ
super_bytes s = bytes_of magic ++ (bytes_of s.n_blocks ++ (bytes_of s.avail ++ bytes_of s.root))

-- The first n words of a table in memory.
abbrev pub fat_bytes : ℕ → ℕ → (ℕ → ℕ) → List ℕ
fat_bytes zero i fat = []
fat_bytes (suc n) i fat = bytes_of (fat i) ++ fat_bytes n (suc i) fat

module _ {S : Type 0} (dev : BlockDevice S) where
  abbrev pub current : Directory → Disk S → Directory
  current dir d = record dir { content = d.file }

  -- The header of a new, empty directory.
  unfoldable pub new_directory : ℕ → ℕ → Disk S → Disk S
  new_directory parent blk d =
      let f : OpenFile = record {
        start = blk;
        type = type_dir;
        length = 0;
        parent_dir = parent;
        current_blk = blk;
      } in
      record d { state = (write dev d.state (blk * dev.block_size % 2 ^ 32) (meta_data f) 16).1 }

  -- The end of `mkdir`: the entry is appended.
  unfoldable pub add_entry : Directory → List ℕ → Disk S → Option (ℤ × Directory × Disk S)
  unfolding append
  add_entry dir entry d = do
    (success, d') ← append dev entry 16 d
    some (
        if same success (pos 0)
        then (pos 0, record dir { entries = dir.entries + 1 }, d')
        else (err_devwrite, dir, d'))

  -- `mkdir` once the name is known to be free.
  unfoldable pub make_directory :
      Directory → List ℕ → List ℕ → Disk S → Option (ℤ × Directory × Disk S)
  unfolding new_directory add_entry rem_next_avail
  make_directory dir name stale d =
      let (blk, fs') = rem_next_avail d.fs in
      if (dir.start == d.fs.super.root)
        && leb dev.block_size (d.file.length + header_sz + dir_entry_sz)
      then some (err_no_root_space, dir, d)
      else if blk == 0
      then some (err_no_space, dir, d)
      else add_entry dir (entry_of name stale blk)
          (new_directory dir.start blk (record d { fs = fs' }))

  unfoldable pub mkdir :
      Directory → List ℕ → List ℕ → List ℕ → Disk S → Option (ℤ × Directory × Disk S)
  unfolding make_directory lookup
  mkdir dir name stale stale' d =
      if d.file.type == type_dir
      then if leb 12 (length name)
        then some (err_fl_namelen, dir, d)
        else if has 47 name
        then some (err_invl_char, dir, d)
        else lookup dev d.state d.fs (current dir d) name stale >>= (λ found.
          if found == 0 then make_directory dir name stale' d else some (err_fl_exist, dir, d))
      else some (err_not_dir, dir, d)

  unfoldable pub sync_super : Disk S → Disk S
  sync_super d = record d { state = (write dev d.state 0 (super_bytes d.fs.super) 16).1 }

  unfoldable pub sync_fat : Disk S → Option (Disk S)
  sync_fat d =
      let n = d.fs.super.n_blocks in
      Option.map (λ s. record d { state = s })
        (write_fully dev d.state block_sz (fat_bytes n 0 d.fs.fat) (n * 4 % 2 ^ 32))

  unfoldable pub sync : Disk S → Option (Disk S)
  unfolding sync_fat sync_super
  sync d = Option.map sync_super (sync_fat d)

  -- `openFile`: the object that is open for the block, or a new one.
  unfoldable pub open_object : (ℕ → Option OpenFile) → ℕ → Disk S → Option OpenFile
  open_object open_files blk d = elim (open_files blk) [
    | none ↦ open_file dev d.state blk
    | some f ↦ some f
  ]

  -- The offset of an entry as `remove` computes it: -1 counts as the entry in front of the first.
  abbrev pub entry_offset : ℤ → ℕ
  entry_offset (pos i) = i * dir_entry_sz + header_sz
  entry_offset (negsuc i) = 0

  -- `obj->resize(0)` and what follows it, for an object that is not the content of the directory.
  unfoldable pub release_object : Directory → OpenFile → Disk S → Option (Directory × Disk S)
  unfolding resize add_avail_blk sync
  release_object dir obj d = do
    let emptied = resize dev 0 (record d { file = obj })
    fs' ← add_avail_blk d.fs obj.start
    d' ← sync (record d { state = emptied.state; fs = fs' })
    some (refresh (current dir d'), d')

  -- `remove` of an object other than the directory itself; `remFromOffset` never returns an error.
  unfoldable pub remove_object :
      Directory → List ℕ → List ℕ → OpenFile → Disk S → Option (ℤ × Directory × Disk S)
  unfolding lookup_entry rem_from_offset release_object
  remove_object dir name stale obj d = do
    e ← lookup_entry dev d.state d.fs (current dir d) name stale
    (code, d1) ← rem_from_offset dev (entry_offset e) dir_entry_sz d
    (dir', d2) ← release_object dir obj d1
    some (code, dir', d2)

  unfoldable pub remove :
      (ℕ → Option OpenFile)
      → Directory
      → List ℕ
      → List ℕ
      → List ℕ
      → Disk S
      → Option (ℤ × Directory × Disk S)
  unfolding lookup open_object remove_object
  remove open_files dir name stale stale' d = do
    blk ← lookup dev d.state d.fs (current dir d) name stale
    if blk == 0
        then some (err_not_found, dir, d)
        else open_object open_files blk d >>= (λ obj.
          if (obj.type == type_dir) && (if obj.length == 0 then false else true)
          then some (err_is_dir, dir, d)
          else remove_object dir name stale' obj d)

  unfoldable pub lookup_file :
      (ℕ → Option OpenFile) → Directory → List ℕ → List ℕ → Disk S → Option (Option File)
  unfolding lookup open_object
  lookup_file open_files dir name stale d = do
    idx ← lookup dev d.state d.fs (current dir d) name stale
    if idx == 0
        then some none
        else Option.map (λ f. some (record { open_file = f; offset = 0 }))
            (open_object open_files idx d)

  -- A new directory object for a block.
  unfoldable pub directory_at : (ℕ → Option OpenFile) → ℕ → Disk S → Option Directory
  unfolding open_object directory
  directory_at open_files idx d = Option.map (directory idx) (open_object open_files idx d)

  unfoldable pub lookup_directory :
      (ℕ → Option OpenFile) → Directory → List ℕ → List ℕ → Disk S → Option (Option Directory)
  unfolding lookup directory_at
  lookup_directory open_files dir name stale d = do
    idx ← lookup dev d.state d.fs (current dir d) name stale
    if idx == 0 then some none else Option.map some (directory_at open_files idx d)

  -- The search along a path, every name of which is looked up in this directory; the turn for a name that
  -- is not found is the last one.
  unfoldable pub lookup_path_from : Directory → List (List ℕ) → ℕ → List ℕ → Disk S → Option ℕ
  unfolding lookup
  lookup_path_from dir [] idx stale d = some idx
  lookup_path_from dir (name ∷ names) idx stale d =
      lookup dev d.state d.fs (current dir d) name stale
      >>= (λ i. if i == 0 then some 0 else lookup_path_from dir names i stale d)

  unfoldable pub lookup_path :
      (ℕ → Option OpenFile)
      → Directory
      → List (List ℕ)
      → List ℕ
      → Disk S
      → Option (Option Directory)
  unfolding lookup_path_from directory_at
  lookup_path open_files dir path stale d = do
    idx ← lookup_path_from dir path 0 stale d
    if idx == 0 then some none else Option.map some (directory_at open_files idx d)

  -- As written, the parent is read at the byte start + 8 of the device; `none` is the directory itself.
  unfoldable pub get_prev_directory :
      (ℕ → Option OpenFile) → Directory → Disk S → Option (Option Directory)
  unfolding directory_at
  get_prev_directory open_files dir d =
      let idx = word_of (read dev d.state ((dir.start + 8) % 2 ^ 32) 4) 0 in
      if idx == 0 then some none else Option.map some (directory_at open_files idx d)

  -- The table and the root directory, once the superblock is read.
  unfoldable pub mount_table : S → Super → Option (Fat439 × Directory)
  unfolding directory
  mount_table s super = do
    words ← read_fully dev s block_sz (super.n_blocks * 4 % 2 ^ 32)
    root ← open_file dev s super.root
    some (record { super = super; fat = word_of words }, directory super.root root)

  -- The constructor of `Fat439`; a wrong magic word stops the kernel.
  unfoldable pub mount : S → Option (Fat439 × Directory)
  unfolding mount_table
  mount s = do
    head ← read_fully dev s 0 16
    if word_of head 0 == magic
        then mount_table s
            (record { n_blocks = word_of head 1; avail = word_of head 2; root = word_of head 3 })
        else none
