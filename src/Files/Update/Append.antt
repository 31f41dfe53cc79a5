-- ===== src/Files/Update/Append.antt =====
-- `append` of kernel/fs.cc to a file that ends in its first block.
use p12_group.Base.{
  ℕ, suc, ◌+◌, ◌-◌, ◌*◌, ◌/◌, ◌%◌, ◌^◌, ◌<◌, ◌≤◌, ◌≡◌, ◌≢◌, ◌⊎◌, inl, inr, ltb, List, length, drop,
  get_or, arith, refl, ap, ◌∙◌, sym, Bool-cases, some,
}
use p12_group.Base.Int.{pos}
use p12_group.Block.{write}
use p12_group.Block.Interface.{BlockDevice, IsBlockDevice, byte_at}
use p12_group.Block.Write.{Stores}
use p12_group.Files.{OpenFile, open_file}
use p12_group.Files.Contents.{content}
use mathlib.Core.Option
use p12_group.Files.Update.{
  Disk, settle, meta_data, resize, write_rest, open_write, append, first_place, first_len,
  first_block,
}
use p12_group.Files.Update.Header.{
  IsHeader, stored-inside, stored-outside, meta_data-open_file, write-inside, resize-Stores,
}

module _ {S : Type 0} (dev : BlockDevice S) (is : IsBlockDevice dev)
    (b : dev.block_size ≡ 512) where
  write_rest_end :
      (fuel : ℕ) (d : Disk S) (blk : ℕ) (buf : List ℕ) (total : ℕ)
      → write_rest dev (suc fuel) d blk buf 0 total ≡ some (pos 0, total, d)
  unfolding write_rest
  write_rest_end fuel d blk buf total = refl

  -- A write of all the bytes that are asked for ends with the resize.
  write_all :
      (offset : ℕ) (buf : List ℕ) (n o : ℕ) (d : Disk S)
      → first_place dev d offset ≡ o
      → first_len dev offset n ≡ n
      → (write dev d.state o buf n).0 ≡ n
      → open_write dev offset buf n d
        ≡ some (
          pos 0,
          resize dev
              ((d.file.length + n) % 2 ^ 32)
              (record d { state = (write dev d.state o buf n).1 }),
        )
  unfolding open_write
  write_all offset buf n o d e f g =
      let z : n - n ≡ 0 = omega arith in
      let fuel : n + 1 ≡ suc n = omega arith in
      rw (e, f, g, z, fuel)
        (ap (Option.map (settle dev)) (
          write_rest_end n (record d { state = (write dev d.state o buf n).1 })
            (first_block dev d offset) (drop n buf) n))

  module _ (buf : List ℕ) (n : ℕ) (d : Disk S) (h : IsHeader d.file) (l : n ≤ length buf)
      (u : d.file.length + 16 + n ≤ 512) where
    abbrev old : ℕ
    old = d.file.length

    abbrev at : ℕ
    at = d.file.start * 512 + (old + 16)

    place_lem : 0 < n → first_place dev d old ≡ at
    place_lem z =
        let e : (old + 16) % 2 ^ 32 ≡ old + 16 = omega arith in
        let q : (old + 16) / 512 ≡ 0 = omega arith in
        let r : (old + 16) % 512 ≡ old + 16 = omega arith in
        rw (b, e, q, r) (omega (arith, h.start))

    len_lem : 0 < n → first_len dev old n ≡ n
    len_lem z =
        let e : (512 + 2 ^ 32 - (old + 16) % 2 ^ 32) % 2 ^ 32 ≡ 512 - (old + 16) = omega arith in
        rw (b, e) (ground arith)

    abbrev written : Disk S
    written = record d { state = (write dev d.state at buf n).1 }

    abbrev after : Disk S
    after = resize dev (old + n) written

    append_lem : 0 < n → append dev buf n d ≡ some (pos 0, after)
    unfolding append
    append_lem z =
        let e : (old + n) % 2 ^ 32 ≡ old + n = omega arith in
        let w = (write-inside dev is b d.state at buf n l (omega arith)).0 in
        write_all old buf n at d (place_lem z) (len_lem z) w
        ∙ ap (λ k. some (pos 0, resize dev k written)) e

    abbrev new_header : OpenFile
    new_header = record d.file { length = old + n }

    data-Stores : Stores dev d.state at buf n written.state
    data-Stores = (write-inside dev is b d.state at buf n l (omega arith)).1

    header-Stores :
        Stores dev written.state (d.file.start * 512) (meta_data new_header) 16 after.state
    header-Stores = resize-Stores dev is b (old + n) written h.start

    same_file : after.file ≡ new_header
    unfolding resize
    same_file = refl

    same_fs : after.fs ≡ d.fs
    unfolding resize
    same_fs = refl

    opened : open_file dev after.state d.file.start ≡ some new_header
    opened =
        meta_data-open_file dev is b written.state after.state new_header
          (record {
            start = h.start;
            type = h.type;
            length = omega arith;
            parent_dir = h.parent_dir;
            current_blk = h.current_blk;
          })
          header-Stores

    -- A byte of the device that is not the file's header.
    apart :
        (a : ℕ)
        → (a < d.file.start * 512) ⊎ (d.file.start * 512 + 16 ≤ a)
        → byte_at dev after.state a ≡ byte_at dev written.state a
    apart a o =
        stored-outside dev written.state after.state (d.file.start * 512) (meta_data new_header) 16
          a header-Stores o

    in_first :
        (fs : Disk S) (i : ℕ)
        → i < old + n
        → content dev fs.state d.fs d.file i ≡ byte_at dev fs.state (d.file.start * 512 + (i + 16))
    in_first fs i k =
        let q : (i + 16) / 512 ≡ 0 = omega arith in
        let r : (i + 16) % 512 ≡ i + 16 = omega arith in rw (q, r) refl

    old_content :
        (i : ℕ)
        → i < old
        → content dev after.state d.fs d.file i ≡ content dev d.state d.fs d.file i
    old_content i k =
        in_first after i (omega arith)
        ∙ apart (d.file.start * 512 + (i + 16)) (inr (omega arith))
        ∙ stored-outside dev d.state written.state at buf n (d.file.start * 512 + (i + 16))
            data-Stores (inl (omega arith))
        ∙ sym (in_first d i (omega arith))

    new_content : (i : ℕ) → i < n → content dev after.state d.fs d.file (old + i) ≡ get_or buf i 0
    new_content i k =
        let e : d.file.start * 512 + (old + i + 16) ≡ at + i = omega arith in
        in_first after (old + i) (omega arith)
        ∙ apart (d.file.start * 512 + (old + i + 16)) (inr (omega arith))
        ∙ ap (byte_at dev written.state) e
        ∙ stored-inside dev d.state written.state at buf n i data-Stores k

    other_blocks :
        (a : ℕ) → a / 512 ≢ d.file.start → byte_at dev after.state a ≡ byte_at dev d.state a
    other_blocks a o = elim (Bool-cases (ltb a (d.file.start * 512))) [
      | inl p ↦
          let q : a < d.file.start * 512 = ground arith in
          apart a (inl q)
          ∙ stored-outside dev d.state written.state at buf n a data-Stores (inl (omega arith))
      | inr p ↦
          let q : d.file.start * 512 + 512 ≤ a =
            (let v : d.file.start * 512 ≤ a = ground arith in omega arith) in
          apart a (inr (omega arith))
          ∙ stored-outside dev d.state written.state at buf n a data-Stores (inr (omega arith))
    ]

-- What `append` of n bytes makes of a file.
pub record Appended {S : Type 0} (dev : BlockDevice S) (d : Disk S) (buf : List ℕ) (n : ℕ)
    (d' : Disk S) : Type 0 where
  pub file : d'.file ≡ record d.file { length = d.file.length + n }
  pub fs : d'.fs ≡ d.fs
  pub opened : open_file dev d'.state d.file.start ≡ some d'.file
  pub kept :
      (i : ℕ)
      → i < d.file.length
      → content dev d'.state d.fs d.file i ≡ content dev d.state d.fs d.file i
  pub added :
      (i : ℕ) → i < n → content dev d'.state d.fs d.file (d.file.length + i) ≡ get_or buf i 0
  pub others : (a : ℕ) → a / 512 ≢ d.file.start → byte_at dev d'.state a ≡ byte_at dev d.state a

-- On a device that follows the interface's laws and has blocks of 512 bytes, for a file whose header is in
-- words and one byte or more, which fit behind the file into its first block: `append` returns 0; the
-- file is longer by these bytes, its old bytes are as before and the new ones follow them; a constructor
-- of `OpenFile` finds the same file; the table and the other blocks of the device are as before.
pub append-Appended :
    {S : Type 0} (dev : BlockDevice S) (buf : List ℕ) (n : ℕ) (d : Disk S)
    → IsBlockDevice dev
    → dev.block_size ≡ 512
    → IsHeader d.file
    → 0 < n
    → n ≤ length buf
    → d.file.length + 16 + n ≤ 512
    → (d' : Disk S) × (append dev buf n d ≡ some (pos 0, d')) × Appended dev d buf n d'
append-Appended dev buf n d is b h z l u = (
  after dev is b buf n d h l u,
  append_lem dev is b buf n d h l u z,
  record {
    file = same_file dev is b buf n d h l u;
    fs = same_fs dev is b buf n d h l u;
    opened = opened dev is b buf n d h l u ∙ ap some (sym (same_file dev is b buf n d h l u));
    kept = old_content dev is b buf n d h l u;
    added = new_content dev is b buf n d h l u;
    others = other_blocks dev is b buf n d h l u;
  },
)
