-- ===== src/Mkfs/OneFile.antt =====
-- `oneFile` of fat439/mkfs.c: the header and the bytes of a file, and what the kernel reads of them.
use p12_group.Base.{
  ℕ, zero, suc, ◌+◌, ◌*◌, ◌/◌, ◌%◌, ◌^◌, ◌<◌, ◌≤◌, ◌≡◌, ◌≢◌, ◌⊎◌, inl, inr, ltb, true, false, List,
  ◌∷◌, length, get_or, arith, refl, ap, ◌∙◌, sym, has, Bool-cases, Option, some,
}
use p12_group.Fat.{rem_next_avail}
use p12_group.Fat.Alloc.{FreeList, rem_next_avail_some}
use p12_group.Files.{block_after}
use p12_group.Mkfs.{
  Image, get_block, store, bytes_of, put_meta, to_ptr, first_place, start_file, copy, one_file,
}
use p12_group.Mkfs.Store.{
  store-before, store-behind, word_at, same_word, word_at-store, word_at-other,
}
use p12_group.Mkfs.Copy.{
  Reads, Ready, Copied, Ahead, Small, place, place_first, copy-Ends, get_block-some,
}

-- What the file with the bytes bs, started in block x, leaves of an image with the free blocks x ∷ xs.
pub record Written (m : Image) (x : ℕ) (xs : List ℕ) (bs : List ℕ) (m' : Image) : Type 0 where
  pub left_free : List ℕ
  pub free : FreeList m'.fs left_free
  pub among : (b : ℕ) → has b left_free ≡ true → has b xs ≡ true
  pub chain_kept : (b : ℕ) → has b (x ∷ xs) ≡ false → m'.fs.fat b ≡ m.fs.fat b
  pub bytes_kept : (a : ℕ) → has (a / 512) (x ∷ xs) ≡ false → m'.bytes a ≡ m.bytes a
  pub type : word_at m'.bytes (x * 512) ≡ 1
  pub size : word_at m'.bytes (x * 512 + 4) ≡ length bs
  pub parent : word_at m'.bytes (x * 512 + 8) ≡ 1023
  pub start : word_at m'.bytes (x * 512 + 12) ≡ x
  pub stored : (i : ℕ) → i < length bs → m'.bytes (place m'.fs.fat x (16 + i)) ≡ get_or bs i 0
  pub low : x < 2 ^ 23
  pub ahead : (i : ℕ) → Ahead (block_after (suc i) m'.fs.fat x) xs
  pub placed :
      (i : ℕ) → i < length bs → has (block_after ((16 + i) / 512) m'.fs.fat x) (x ∷ xs) ≡ true

module _ (x : ℕ) (low : x < 2 ^ 23) where
  abbrev meta : ℕ → ℕ → (ℕ → ℕ) → ℕ → ℕ
  meta i w old = store (x * 512 + 4 * i) (bytes_of w) old

  put_meta_lem : (i w : ℕ) (m : Image) → put_meta x i w m ≡ record m { bytes = meta i w m.bytes }
  put_meta_lem i w m =
      let e : to_ptr x 0 + 4 * i ≡ x * 512 + 4 * i = omega arith in
      ap (λ a. record m { bytes = store a (bytes_of w) m.bytes }) e

  abbrev headed : (ℕ → ℕ) → ℕ → ℕ
  headed old = meta 3 x (meta 2 1023 (meta 0 1 old))

  start_file_lem : (m : Image) → start_file x m ≡ record m { bytes = headed m.bytes }
  unfolding start_file
  start_file_lem m =
      ap (λ t. put_meta x 3 x (put_meta x 2 1023 t)) (put_meta_lem 0 1 m)
      ∙ ap (put_meta x 3 x) (put_meta_lem 2 1023 _)
      ∙ put_meta_lem 3 x _

  -- A store to the header leaves the other blocks, and what is behind the header.
  meta_kept :
      (i w : ℕ) (old : ℕ → ℕ) (a : ℕ)
      → i < 4
      → (a / 512 ≢ x) ⊎ (16 ≤ a % 512)
      → meta i w old a ≡ old a
  meta_kept i w old a l n = elim (Bool-cases (ltb a (x * 512 + 4 * i))) [
    | inl u ↦ store-before (x * 512 + 4 * i) (bytes_of w) old a (ground arith)
    | inr u ↦
        let v : x * 512 + 4 * i ≤ a = ground arith in
        store-behind (x * 512 + 4 * i) (bytes_of w) old a
          (elim n [ inl p ↦ omega arith | inr p ↦ omega arith ])
  ]

  headed_kept : (old : ℕ → ℕ) (a : ℕ) → a / 512 ≢ x → headed old a ≡ old a
  headed_kept old a n =
      meta_kept 3 x _ a (omega arith) (inl n)
      ∙ meta_kept 2 1023 _ a (omega arith) (inl n)
      ∙ meta_kept 0 1 old a (omega arith) (inl n)

  headed_type : (old : ℕ → ℕ) → word_at (headed old) (x * 512) ≡ 1
  headed_type old =
      word_at-other (x * 512 + 12) (x * 512) x _ (inl (omega arith))
      ∙ word_at-other (x * 512 + 8) (x * 512) 1023 _ (inl (omega arith))
      ∙ ap (λ a. word_at (store a (bytes_of 1) old) (x * 512))
          (let z : x * 512 + 4 * 0 ≡ x * 512 = omega arith in z)
      ∙ word_at-store (x * 512) 1 old (omega arith)

  headed_parent : (old : ℕ → ℕ) → word_at (headed old) (x * 512 + 8) ≡ 1023
  headed_parent old =
      word_at-other (x * 512 + 12) (x * 512 + 8) x _ (inl (omega arith))
      ∙ word_at-store (x * 512 + 8) 1023 _ (omega arith)

  headed_start : (old : ℕ → ℕ) → word_at (headed old) (x * 512 + 12) ≡ x
  headed_start old = word_at-store (x * 512 + 12) x _ (omega arith)

-- The image once the header, all but the size, is written, and then the bytes behind it.
module _ (m : Image) (x : ℕ) (xs : List ℕ) (free : FreeList m.fs (x ∷ xs)) (small : Small (x ∷ xs))
    (end : m.fs.fat 0 ≡ 0) where
  low_x : x < 2 ^ 23
  low_x = small x (ground arith)

  abbrev begun : Image
  begun = record { fs = (rem_next_avail m.fs).1; bytes = headed x low_x m.bytes }

  begun-Ready : Ready begun xs x
  begun-Ready =
      let (p, rest, own, other) = rem_next_avail_some m.fs x xs free in
      record {
        list = rest;
        fresh = free.1.0;
        nonzero = own.1;
        low = low_x;
        small = λ b h. small b (ground arith);
        last = own.2;
        end = other 0 (λ e. own.1 (sym e)) ∙ end;
      }

  abbrev finished : List ℕ → Image → Image
  finished bs m' = put_meta x 1 (length bs) m'

  module _ (bs : List ℕ) (m' : Image) (k : Copied begun xs x 16 bs m')
      (short : length bs < 2 ^ 32) where
    finished_bytes : (finished bs m').bytes ≡ meta x low_x 1 (length bs) m'.bytes
    finished_bytes = ap (λ t. t.bytes) (put_meta_lem x low_x 1 (length bs) m')

    head_kept : (a : ℕ) → a / 512 ≡ x → a % 512 < 16 → m'.bytes a ≡ headed x low_x m.bytes a
    head_kept a e l = k.bytes_kept a (ap (λ b. has b xs) e ∙ free.1.0) (inr l)

    -- A word of the header but the size.
    head_word :
        (a w : ℕ)
        → (a + 4 ≤ x * 512 + 4) ⊎ (x * 512 + 8 ≤ a)
        → x * 512 ≤ a
        → a + 4 ≤ x * 512 + 16
        → word_at (headed x low_x m.bytes) a ≡ w
        → word_at (finished bs m').bytes a ≡ w
    head_word a w apart above below e =
        ap (λ t. word_at t a) finished_bytes
        ∙ word_at-other (x * 512 + 4 * 1) a (length bs) m'.bytes
            (elim apart [ inl p ↦ inl (omega arith) | inr p ↦ inr (omega arith) ])
        ∙ same_word m'.bytes (headed x low_x m.bytes) a
            (λ i u. head_kept (a + i) (omega arith) (omega arith))
        ∙ e

    beyond :
        (i : ℕ) → (place m'.fs.fat x (16 + i) / 512 ≢ x) ⊎ (16 ≤ place m'.fs.fat x (16 + i) % 512)
    beyond i = elim (Bool-cases (ltb (16 + i) 512)) [
      | inl u ↦
          let v : 16 + i < 512 = ground arith in
          inr (rw (place_first m'.fs.fat x (16 + i) v) (omega arith))
      | inr u ↦ inl (
          leaves ((16 + i) / 512) ((16 + i) % 512)
            (let v : 512 ≤ 16 + i = ground arith in omega arith) (omega arith))
    ]
      where
        leaves : (j p : ℕ) → 0 < j → p < 512 → (block_after j m'.fs.fat x * 512 + p) / 512 ≢ x
        leaves zero p z l e = omega arith
        leaves (suc j) p z l e =
            let q : block_after (suc j) m'.fs.fat x ≡ x = omega arith in
            elim (k.ahead j) [
              | inl h ↦ ground (arith, ap (λ b. has b xs) (sym q) ∙ h, free.1.0)
              | inr h ↦ free.0.1 (sym q ∙ h)
            ]

    finished-Written : Written m x xs bs (finished bs m')
    finished-Written = record {
      left_free = k.left_free;
      free = k.free;
      among = k.among;
      chain_kept = λ b h.
          k.chain_kept b (ground arith) (ground arith)
          ∙ (rem_next_avail_some m.fs x xs free).3 b (ground arith);
      bytes_kept = λ a h.
          ap (λ t. t a) finished_bytes
          ∙ meta_kept x low_x 1 (length bs) m'.bytes a (omega arith) (inl (ground arith))
          ∙ k.bytes_kept a (ground arith) (inl (ground arith))
          ∙ headed_kept x low_x m.bytes a (ground arith);
      type =
          head_word (x * 512) 1 (inl (omega arith)) (omega arith) (omega arith)
            (headed_type x low_x m.bytes);
      size =
          ap (λ t. word_at t (x * 512 + 4)) finished_bytes
          ∙ word_at-store (x * 512 + 4) (length bs) m'.bytes short;
      parent =
          head_word (x * 512 + 8) 1023 (inr (omega arith)) (omega arith) (omega arith)
            (headed_parent x low_x m.bytes);
      start =
          head_word (x * 512 + 12) x (inr (omega arith)) (omega arith) (omega arith)
            (headed_start x low_x m.bytes);
      stored = λ i l.
          ap (λ t. t (place m'.fs.fat x (16 + i))) finished_bytes
          ∙ meta_kept x low_x 1 (length bs) m'.bytes (place m'.fs.fat x (16 + i)) (omega arith)
              (beyond i)
          ∙ k.stored i l;
      low = low_x;
      ahead = k.ahead;
      placed = k.placed;
    }

one_file_lem :
    {F : Type 0} (read : F → ℕ → Option (List ℕ × F)) (fuel : ℕ) (f : F) (m m1 m2 m' : Image)
    (x n n' : ℕ)
    → get_block m ≡ some (x, m1)
    → start_file x m1 ≡ m2
    → copy read fuel (first_place x) 0 f m2 ≡ some (n, m')
    → n ≡ n'
    → one_file read fuel f m ≡ some (x, put_meta x 1 n' m')
unfolding one_file
one_file_lem read fuel f m m1 m2 m' x n n' g s c e = rw (g, s, c, e) refl

-- For a file that can be read, of fewer than 2^32 bytes, which fit into the first free block behind its
-- header and into the further ones xs with a byte to spare, and for free blocks below 2^23, with fuel
-- for one turn more than the file has bytes: `oneFile` ends and returns the first free block; its header
-- and the bytes of the file are in place along a chain through some of the blocks xs, the others are free,
-- and what the image holds outside these blocks is as it was.
pub one_file-Written :
    {F : Type 0} (read : F → ℕ → Option (List ℕ × F)) (rest : F → List ℕ) (fuel : ℕ) (f : F)
    (m : Image) (x : ℕ) (xs : List ℕ)
    → Reads read rest
    → FreeList m.fs (x ∷ xs)
    → Small (x ∷ xs)
    → m.fs.fat 0 ≡ 0
    → length (rest f) < 2 ^ 32
    → length (rest f) < 496 + 512 * length xs
    → length (rest f) < fuel
    → (m' : Image) × (one_file read fuel f m ≡ some (x, m')) × Written m x xs (rest f) m'
one_file-Written read rest fuel f m x xs reads free small end short fits enough =
    let (m', run, k) =
      copy-Ends read rest reads fuel xs (first_place x) 0 f (begun m x xs free small end)
        (begun-Ready m x xs free small end) (omega arith) (omega arith) (omega arith) enough in
    (
      finished m x xs free small end (rest f) m',
      one_file_lem read fuel f m _ (begun m x xs free small end) m' x _ (length (rest f))
          (get_block-some m x xs free) (start_file_lem x (low_x m x xs free small end) _) run
          (omega arith),
      finished-Written m x xs free small end (rest f) m' k short,
    )
