-- ===== src/Files/Entries.antt =====
-- `OpenFile::readFully` of kernel/fs.cc: right inside of a block, where the entries of a directory lie,
-- and wrong across the end of one.
use p12_group.Base.{
  ℕ, zero, suc, ◌+◌, ◌-◌, ◌%◌, ◌<◌, ◌≤◌, ◌≡◌, refl, arith, List, [], ◌∷◌, ◌++◌, append-nil, length,
  length-append, get_or, Option, some, ap, ◌∙◌, sym, subst,
}
use p12_group.Fat.{Fat439}
use p12_group.Block.Interface.{BlockDevice, IsBlockDevice}
use p12_group.Block.Memcpy.{get_or-append}
use p12_group.Files.{
  OpenFile, Result, got, block_sz, header_sz, after_open_read, open_read_loop, open_read_fully,
}
use p12_group.Files.Contents.{IsPart, IsReadable, content, piece, open_read-IsPart}

module _ {S : Type 0} (dev : BlockDevice S) (s : S) (fs : Fat439) (is : IsBlockDevice dev)
    (f : OpenFile) (fits : IsReadable dev s fs f) (o : ℕ) where
  abbrev BytesOf : ℕ → Option Result → Type 0
  BytesOf n r =
      (bs : List ℕ) × (r ≡ some (got bs))
      × (length bs ≡ n)
      × (0 < n → get_or bs 0 0 ≡ content dev s fs f o)

  turn_ends :
      (again : ℕ → Option Result) (n : ℕ) (c : List ℕ)
      → 0 < length c
      → length c ≤ n
      → get_or c 0 0 ≡ content dev s fs f o
      → BytesOf (n - length c) (again (n - length c))
      → BytesOf n (after_open_read dev s again n (got c))
  unfolding after_open_read
  turn_ends again n [] z l g m = absurd (omega arith)
  turn_ends again n (b ∷ bs) z l g (more, e, size, first) =
      (b ∷ bs ++ more, rw e refl, omega (arith, length-append (b ∷ bs) more, size), λ _. g)

  piece-pos :
      (n : ℕ) → o < f.length → 0 < n → (0 < piece dev s fs f o n) × (piece dev s fs f o n ≤ n)
  piece-pos n h z = ground arith

  -- Every turn starts at the byte o again.
  open_read_loop_ends :
      (fuel n : ℕ) → n < fuel → o < f.length → BytesOf n (open_read_loop dev s fuel fs f o n)
  unfolding open_read_loop
  open_read_loop_ends zero n l h = absurd (omega arith)
  open_read_loop_ends (suc fuel) zero l h = ([], refl, refl, λ z. absurd (omega arith))
  open_read_loop_ends (suc fuel) (suc n) l h =
      let (c, e, part) = open_read-IsPart dev s fs is f fits o (suc n) (omega arith) in
      let first : o + 0 ≡ o = omega arith in
      let (pos, small) = piece-pos (suc n) h (omega arith) in
      subst
        (λ r. BytesOf (suc n) (after_open_read dev s (open_read_loop dev s fuel fs f o) (suc n) r))
        (sym e)
        (turn_ends (open_read_loop dev s fuel fs f o) (suc n) c (omega (arith, part.size, pos))
          (omega (arith, part.size, small)) (part.bytes 0 pos ∙ ap (content dev s fs f) first)
          (open_read_loop_ends fuel (suc n - length c) (omega (arith, part.size, pos)) h))

  nothing_left :
      (fuel n : ℕ) → 0 < fuel → n ≡ 0 → open_read_loop dev s fuel fs f o n ≡ some (got [])
  unfolding open_read_loop
  nothing_left zero n z e = absurd (omega arith)
  nothing_left (suc fuel) zero z e = refl
  nothing_left (suc fuel) (suc n) z e = absurd (omega arith)

  one_turn :
      (again : ℕ → Option Result) (n : ℕ) (c : List ℕ)
      → 0 < n
      → length c ≡ n
      → again (n - length c) ≡ some (got [])
      → after_open_read dev s again n (got c) ≡ some (got c)
  unfolding after_open_read
  one_turn again n [] z e r = absurd (omega arith)
  one_turn again n (b ∷ bs) z e r = rw r (ap (λ t. some (got (b ∷ t))) (append-nil bs))

  open_read_loop-IsPart :
      (fuel n : ℕ)
      → n < fuel
      → o + n ≤ f.length
      → (o + header_sz) % block_sz + n ≤ block_sz
      → (bs : List ℕ) × (open_read_loop dev s fuel fs f o n ≡ some (got bs))
        × IsPart (content dev s fs f) o n bs
  unfolding open_read_loop
  open_read_loop-IsPart zero n l h b = absurd (omega arith)
  open_read_loop-IsPart (suc fuel) zero l h b =
      ([], refl, record { size = refl; bytes = λ i k. absurd (omega arith) })
  open_read_loop-IsPart (suc fuel) (suc n) l h b =
      let (c, e, part) = open_read-IsPart dev s fs is f fits o (suc n) (omega arith) in
      let whole : piece dev s fs f o (suc n) ≡ suc n = ground arith in
      (
        c,
        ap (after_open_read dev s (open_read_loop dev s fuel fs f o) (suc n)) e
            ∙ one_turn (open_read_loop dev s fuel fs f o) (suc n) c (omega arith)
                (part.size ∙ whole)
                (nothing_left fuel (suc n - length c) (omega arith)
                  (omega (arith, part.size, whole))),
        subst (λ m. IsPart (content dev s fs f) o m c) whole part,
      )

  -- On a device that follows the interface's laws, of a readable file: n bytes from o on that lie in
  -- the file and in one of its blocks are delivered, as the entries of a directory do.
  pub open_read_fully-IsPart :
      (n : ℕ)
      → o + n ≤ f.length
      → (o + header_sz) % block_sz + n ≤ block_sz
      → (bs : List ℕ) × (open_read_fully dev s fs f o n ≡ some (got bs))
        × IsPart (content dev s fs f) o n bs
  unfolding open_read_fully
  open_read_fully-IsPart n h b = open_read_loop-IsPart (n + 1) n (omega arith) h b

  repeats :
      (again : ℕ → Option Result) (n : ℕ) (c : List ℕ)
      → 0 < length c
      → length c < n
      → BytesOf (n - length c) (again (n - length c))
      → (bs : List ℕ) × (after_open_read dev s again n (got c) ≡ some (got bs))
        × (length bs ≡ n)
        × (get_or bs (length c) 0 ≡ content dev s fs f o)
  unfolding after_open_read
  repeats again n [] z l m = absurd (omega arith)
  repeats again n (b ∷ bs) z l (more, e, size, first) =
      let c = b ∷ bs in
      (
        c ++ more,
        rw e refl,
        omega (arith, length-append c more, size),
        get_or-append c more (length c) ∙ ground (arith, first (omega arith)),
      )

  open_read_loop-repeats :
      (fuel n : ℕ)
      → n < fuel
      → o < f.length
      → piece dev s fs f o n < n
      → (bs : List ℕ) × (open_read_loop dev s fuel fs f o n ≡ some (got bs))
        × (length bs ≡ n)
        × (get_or bs (piece dev s fs f o n) 0 ≡ content dev s fs f o)
  unfolding open_read_loop
  open_read_loop-repeats zero n k h l = absurd (omega arith)
  open_read_loop-repeats (suc fuel) zero k h l = absurd (omega arith)
  open_read_loop-repeats (suc fuel) (suc n) k h l =
      let (c, e, part) = open_read-IsPart dev s fs is f fits o (suc n) (omega arith) in
      let (pos, small) = piece-pos (suc n) h (omega arith) in
      let (bs, runs, size, byte) =
        repeats (open_read_loop dev s fuel fs f o) (suc n) c (omega (arith, part.size, pos))
          (omega (arith, part.size, l))
          (open_read_loop_ends fuel (suc n - length c) (omega (arith, part.size, pos)) h) in
      (
        bs,
        ap (after_open_read dev s (open_read_loop dev s fuel fs f o) (suc n)) e ∙ runs,
        size,
        ap (λ t. get_or bs t 0) (sym part.size) ∙ byte,
      )

  -- On a device that follows the interface's laws, of a readable file: if a read of n bytes from o on
  -- needs a second turn, then `readFully` reports all n bytes, but the first byte of the second turn is
  -- the byte o of the file again.
  pub open_read_fully-repeats :
      (n : ℕ)
      → o < f.length
      → piece dev s fs f o n < n
      → (bs : List ℕ) × (open_read_fully dev s fs f o n ≡ some (got bs))
        × (length bs ≡ n)
        × (get_or bs (piece dev s fs f o n) 0 ≡ content dev s fs f o)
  unfolding open_read_fully
  open_read_fully-repeats n h l = open_read_loop-repeats (n + 1) n (omega arith) h l
