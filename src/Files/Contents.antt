-- ===== src/Files/Contents.antt =====
-- A file of kernel/fs.cc as an array of bytes, and what `read` and `readFully` deliver of it.
use p12_group.Base.{
  ℕ, zero, suc, ◌+◌, ◌-◌, ◌*◌, ◌/◌, ◌%◌, ◌^◌, ◌<◌, ◌≤◌, ◌≡◌, ltb, false, refl, arith, List, [], ◌∷◌,
  ◌++◌, length, get_or, Option, some, ap, ◌∙◌, Bool-cases, inl, inr, ltb→lt, length-append, subst,
  sym,
}
use p12_group.Base.Division.{within_mod, within_div}
use p12_group.Fat.{Fat439}
use p12_group.Block.{min, read}
use p12_group.Block.Interface.{BlockDevice, IsBlockDevice, byte_at}
use p12_group.Block.Read.{chunk, read-Delivers}
use p12_group.Block.Memcpy.{get_or-append}
use p12_group.Files.{
  OpenFile, File, Result, got, block_after, block_sz, header_sz, open_read, file_read,
  file_read_loop, file_read_fully, after_read,
}

-- The bytes n from o on of an array.
pub record IsPart (array : ℕ → ℕ) (o n : ℕ) (bs : List ℕ) : Type 0 where
  pub size : length bs ≡ n
  pub bytes : (i : ℕ) → i < n → get_or bs i 0 ≡ array (o + i)

module _ {S : Type 0} (dev : BlockDevice S) (s : S) (fs : Fat439) where
  -- The bytes of a file: the i-th stands behind the header, in the block that follows the start on the
  -- file's chain as often as blocks lie before it.
  abbrev pub content : OpenFile → ℕ → ℕ
  content f i = byte_at dev s (
      block_after ((i + header_sz) / block_sz) fs.fat f.start * block_sz
      + (i + header_sz) % block_sz)

  -- The device has blocks of 512 bytes, the file's blocks lie below 2^32 bytes, and so does its end.
  pub record IsReadable (f : OpenFile) : Type 0 where
    pub block_size : dev.block_size ≡ block_sz
    pub blocks : (i : ℕ) → block_after i fs.fat f.start < 2 ^ 23
    pub short : f.length + header_sz < 2 ^ 32

  -- What one call delivers.
  abbrev pub piece : OpenFile → ℕ → ℕ → ℕ
  piece f o n = min (min n (f.length - o)) (block_sz - (o + header_sz) % block_sz)

  module _ (is : IsBlockDevice dev) (f : OpenFile) (fits : IsReadable f) where
    same_chunk :
        (b p l : ℕ) → chunk dev is (b * block_sz + p % block_sz) l ≡ min l (block_sz - p % block_sz)
    same_chunk b p l = rw fits.block_size (
        let e : (b * block_sz + p % block_sz) % block_sz ≡ p % block_sz = omega arith in
        ap (λ t. min l (block_sz - t)) e)

    same_byte :
        (o i : ℕ)
        → i < block_sz - (o + header_sz) % block_sz
        → byte_at dev s (
            block_after ((o + header_sz) / block_sz) fs.fat f.start * block_sz
            + (o + header_sz) % block_sz
            + i)
          ≡ content f (o + i)
    same_byte o i h =
        let p : o + i + header_sz ≡ o + header_sz + i = omega arith in
        let q : (o + i + header_sz) / block_sz ≡ (o + header_sz) / block_sz =
          rw p (within_div (o + header_sz) i block_sz (omega arith)) in
        let r : (o + i + header_sz) % block_sz ≡ (o + header_sz) % block_sz + i =
          rw p (within_mod (o + header_sz) i block_sz (omega arith)) in
        rw (q, r) (ap (byte_at dev s) (omega arith))

    read-IsPart :
        (o l a : ℕ)
        → a
          ≡ block_after ((o + header_sz) / block_sz) fs.fat f.start * block_sz
            + (o + header_sz) % block_sz
        → IsPart (content f) o (min l (block_sz - (o + header_sz) % block_sz)) (read dev s a l)
    read-IsPart o l a e =
        let d = read-Delivers dev is s a l in
        let c : chunk dev is a l ≡ min l (block_sz - (o + header_sz) % block_sz) =
          ap (λ t. chunk dev is t l) e
          ∙ same_chunk (block_after ((o + header_sz) / block_sz) fs.fat f.start) (o + header_sz)
              l in
        record {
          size = d.size ∙ c;
          bytes = λ i h.
              d.bytes i (rw c h) ∙ ap (λ t. byte_at dev s (t + i)) e ∙ same_byte o i (ground arith);
        }

    pub open_read-IsPart :
        (o n : ℕ)
        → o ≤ f.length
        → (bs : List ℕ) × (open_read dev s fs f o n ≡ got bs)
          × IsPart (content f) o (piece f o n) bs
    unfolding open_read
    open_read-IsPart o n h =
        let w : (o + header_sz) % 2 ^ 32 ≡ o + header_sz = omega (arith, fits.short) in
        let in_file : ltb f.length o ≡ false = ground arith in
        let b = block_after ((o + header_sz) / block_sz) fs.fat f.start in
        let a : (b * block_sz + (o + header_sz) % block_sz) % 2 ^ 32
            ≡ b * block_sz + (o + header_sz) % block_sz =
          omega (arith, fits.blocks ((o + header_sz) / block_sz)) in
        (
          read dev s (b * block_sz + (o + header_sz) % block_sz) (min n (f.length - o)),
          rw (in_file, w, a) refl,
          read-IsPart o (min n (f.length - o)) _ refl,
        )

    abbrev pub at_offset : ℕ → File
    at_offset o = record { open_file = f; offset = o }

    file_read-IsPart :
        (o n : ℕ)
        → o ≤ f.length
        → (bs : List ℕ) × (file_read dev s fs (at_offset o) n ≡ (got bs, at_offset (o + length bs)))
          × IsPart (content f) o (piece f o n) bs
    unfolding file_read
    file_read-IsPart o n h =
        let (bs, e, part) = open_read-IsPart o n h in
        let w : (o + length bs) % 2 ^ 32 ≡ o + length bs = ground (arith, fits.short, part.size) in
        (bs, rw (file_read, e) (ap (λ t. (got bs, at_offset t)) w), part)

    -- The rest of the file, or as much of it as is asked for.
    abbrev pub remaining : ℕ → ℕ → ℕ
    remaining o n = min n (f.length - o)

    abbrev Reads : ℕ → ℕ → Option (Result × File) → Type 0
    Reads o n r =
        (bs : List ℕ) × (r ≡ some (got bs, at_offset (o + length bs)))
        × IsPart (content f) o (remaining o n) bs

    glue :
        (o n : ℕ) (c bs : List ℕ)
        → length c ≤ remaining o n
        → IsPart (content f) o (length c) c
        → IsPart (content f) (o + length c) (remaining (o + length c) (n - length c)) bs
        → IsPart (content f) o (remaining o n) (c ++ bs)
    glue o n c bs l first more = record {
      size = ground (arith, length-append c bs, more.size);
      bytes = λ i k. get_or-append c bs i ∙ elim (Bool-cases (ltb i (length c))) [
        | inl here ↦ rw here (first.bytes i (ltb→lt i (length c) here))
        | inr later ↦
            let at : o + length c + (i - length c) ≡ o + i = ground arith in
            rw later (more.bytes (i - length c) (ground arith) ∙ ap (content f) at)
      ];
    }

    turn :
        (again : File → ℕ → Option (Result × File)) (o n : ℕ) (c : List ℕ)
        → 0 < n
        → IsPart (content f) o (piece f o n) c
        → ((p m : ℕ) → p ≤ f.length → m < n → Reads p m (again (at_offset p) m))
        → o ≤ f.length
        → Reads o n (after_read dev s again n (got c, at_offset (o + length c)))
    unfolding after_read
    turn again o n [] z part rec h =
        let none_left : remaining o n ≡ 0 = ground (arith, part.size) in
        (
          [],
          ap (λ t. some (got [], at_offset t)) (omega arith),
          record {
            size = omega (arith, none_left);
            bytes = λ i l. absurd (omega (arith, none_left));
          },
        )
    turn again o n (b ∷ bs) z part rec h =
        let c = b ∷ bs in
        let l : length c ≤ remaining o n = ground (arith, part.size) in
        let (more, e, rest) = rec (o + length c) (n - length c) (ground arith) (omega arith) in
        (
          c ++ more,
          rw e
              (ap (λ t. some (got (c ++ more), at_offset t)) (omega (arith, length-append c more))),
          glue o n c more l (rw part.size part) rest,
        )

    file_read_loop-IsPart :
        (fuel o n : ℕ)
        → n < fuel
        → o ≤ f.length
        → Reads o n (file_read_loop dev s fuel fs (at_offset o) n)
    unfolding file_read_loop
    file_read_loop-IsPart zero o n l h = absurd (omega arith)
    file_read_loop-IsPart (suc fuel) o zero l h = (
      [],
      ap (λ t. some (got [], at_offset t)) (omega arith),
      record { size = ground arith; bytes = λ i k. absurd (ground arith) },
    )
    file_read_loop-IsPart (suc fuel) o (suc n) l h =
        let (c, e, part) = file_read-IsPart o (suc n) h in
        subst (λ r. Reads o (suc n) (after_read dev s (file_read_loop dev s fuel fs) (suc n) r))
          (sym e)
          (turn (file_read_loop dev s fuel fs) o (suc n) c (omega arith) part
            (λ p m q k. file_read_loop-IsPart fuel p m (omega arith) q) h)

    -- On a device that follows the interface's laws and a readable file, from a place o in the file:
    -- `readFully` ends, delivers the n bytes of the file from o on, or those up to its end if they are
    -- fewer, whatever blocks of the chain they lie in, and leaves the file behind them.
    pub file_read_fully-IsPart :
        (o n : ℕ)
        → o ≤ f.length
        → (bs : List ℕ) × (file_read_fully dev s fs (at_offset o) n
            ≡ some (got bs, at_offset (o + length bs)))
          × IsPart (content f) o (min n (f.length - o)) bs
    unfolding file_read_fully
    file_read_fully-IsPart o n h = file_read_loop-IsPart (n + 1) o n (omega arith) h
