-- ===== src/Files/Update/Header.antt =====
-- `resize` of kernel/fs.cc writes the header that the constructor of `OpenFile` reads.
use p12_group.Base.{
  ℕ, ◌+◌, ◌*◌, ◌/◌, ◌%◌, ◌^◌, ◌<◌, ◌≤◌, ◌≡◌, true, false, List, length, get_or, get_or_ext, arith,
  refl, ap, ◌∙◌, subst, ◌⊎◌, inl, inr, some,
}
use p12_group.Block.{write}
use p12_group.Block.Interface.{BlockDevice, IsBlockDevice, byte_at}
use p12_group.Block.Read.{chunk, read_fully-Delivers}
use p12_group.Block.Write.{inside, Stores, write-Stores, write_count}
use p12_group.Files.{OpenFile, block_sz, open_file, word_of}
use p12_group.Files.Update.{Disk, meta_data, resize}

-- The fields of the header are words, and the first block lies below 2^32 bytes.
pub record IsHeader (f : OpenFile) : Type 0 where
  pub start : f.start < 2 ^ 23
  pub type : f.type < 2 ^ 32
  pub length : f.length < 2 ^ 32
  pub parent_dir : f.parent_dir < 2 ^ 32
  pub current_blk : f.current_blk < 2 ^ 32

pub word_lem :
    (w : ℕ)
    → w < 2 ^ 32
    → w % 2 ^ 8
        + w / 2 ^ 8 % 2 ^ 8 * 2 ^ 8
        + w / 2 ^ 16 % 2 ^ 8 * 2 ^ 16
        + w / 2 ^ 24 % 2 ^ 8 * 2 ^ 24
      ≡ w
word_lem w l = omega arith

abbrev parsed : ℕ → List ℕ → OpenFile
parsed start bs = record {
  start = start;
  type = word_of bs 0;
  length = word_of bs 1;
  parent_dir = word_of bs 2;
  current_blk = word_of bs 3;
}

parsed-meta_data : (f : OpenFile) → IsHeader f → parsed f.start (meta_data f) ≡ f
parsed-meta_data f h =
    rw
      (
        word_lem f.type h.type,
        word_lem f.length h.length,
        word_lem f.parent_dir h.parent_dir,
        word_lem f.current_blk h.current_blk,
      )
      refl

pub stored-inside :
    {S : Type 0} (dev : BlockDevice S) (s s' : S) (o : ℕ) (buf : List ℕ) (n i : ℕ)
    → Stores dev s o buf n s'
    → i < n
    → byte_at dev s' (o + i) ≡ get_or buf i 0
stored-inside dev s s' o buf n i st l =
    let u : inside o n (o + i) ≡ true = ground arith in
    st (o + i) ∙ rw u (ap (λ k. get_or buf k 0) (omega arith))

pub stored-outside :
    {S : Type 0} (dev : BlockDevice S) (s s' : S) (o : ℕ) (buf : List ℕ) (n a : ℕ)
    → Stores dev s o buf n s'
    → (a < o) ⊎ (o + n ≤ a)
    → byte_at dev s' a ≡ byte_at dev s a
stored-outside dev s s' o buf n a st l =
    let u : inside o n a ≡ false = elim l [ inl p ↦ ground arith | inr p ↦ ground arith ] in
    st a ∙ rw u refl

module _ {S : Type 0} (dev : BlockDevice S) (is : IsBlockDevice dev)
    (b : dev.block_size ≡ 512) where
  -- A device with the header in its place.
  pub meta_data-open_file :
      (s s' : S) (f : OpenFile)
      → IsHeader f
      → Stores dev s (f.start * 512) (meta_data f) 16 s'
      → open_file dev s' f.start ≡ some f
  unfolding open_file
  meta_data-open_file s s' f h st =
      let e : f.start * block_sz % 2 ^ 32 ≡ f.start * 512 = omega (arith, h.start) in
      let (cs, run, d) =
        read_fully-Delivers dev is s' (f.start * 512) 16 (omega (arith, h.start)) in
      let same : cs ≡ meta_data f = get_or_ext 0 cs (meta_data f) d.size λ i l.
        d.bytes i (omega (arith, d.size))
        ∙ stored-inside dev s s' (f.start * 512) (meta_data f) 16 i st (omega (arith, d.size)) in
      rw (e, run) (ap some (ap (parsed f.start) same ∙ parsed-meta_data f h))

  chunk_lem : (o n : ℕ) → o % 512 + n ≤ 512 → chunk dev is o n ≡ n
  chunk_lem o n l = rw b (ground arith)

  -- A write that stays inside a block is done at once.
  pub write-inside :
      (s : S) (o : ℕ) (buf : List ℕ) (n : ℕ)
      → n ≤ length buf
      → o % 512 + n ≤ 512
      → ((write dev s o buf n).0 ≡ n) × Stores dev s o buf n (write dev s o buf n).1
  write-inside s o buf n l u = (
    write_count dev is s o buf n ∙ chunk_lem o n u,
    subst (λ k. Stores dev s o buf k (write dev s o buf n).1) (chunk_lem o n u)
        (write-Stores dev is s o buf n l),
  )

  pub resize-Stores :
      (n : ℕ) (d : Disk S)
      → d.file.start < 2 ^ 23
      → Stores dev d.state
          (d.file.start * 512)
          (meta_data (record d.file { length = n }))
          16
          (resize dev n d).state
  unfolding resize
  resize-Stores n d l =
      let f = record d.file { length = n } in
      let e : d.file.start * block_sz % 2 ^ 32 ≡ d.file.start * 512 = omega arith in
      rw e
        (write-inside d.state (d.file.start * 512) (meta_data f) 16 (omega arith) (omega arith)).1
