-- ===== src/Block/Read.antt =====
-- `read` and `readFully` of kernel/block.cc deliver the device's bytes.
use p12_group.Base.{
  ℕ, zero, suc, ◌+◌, ◌-◌, ◌/◌, ◌%◌, ◌^◌, ◌≤◌, ◌<◌, ◌≡◌, refl, List, [], ◌++◌, arith, ltb, length,
  get_or, length-take, length-append, some, ap, ◌∙◌, Bool-cases, inl, inr, ltb→lt,
}
use p12_group.Base.Division.{sub-div-mul, within_mod, within_div}
use p12_group.Block.{min, read, read_loop, read_fully}
use p12_group.Block.Interface.{BlockDevice, IsBlockDevice, byte_at}
use p12_group.Block.Memcpy.{get_or-take, get_or-drop, get_or-append, length-drop}
use native.Mathlib.Nat.{mod-lt}

-- `bs` are the bytes of the device from address o on.
pub record Delivers {S : Type 0} (dev : BlockDevice S) (s : S) (o n : ℕ) (bs : List ℕ)
    : Type 0 where
  pub size : length bs ≡ n
  pub bytes : (i : ℕ) → i < n → get_or bs i 0 ≡ byte_at dev s (o + i)

module _ {S : Type 0} (dev : BlockDevice S) (is : IsBlockDevice dev) where
  -- One call stops at the end of its block.
  abbrev pub chunk : ℕ → ℕ → ℕ
  chunk o n = min n (dev.block_size - o % dev.block_size)

  inside : (o n i : ℕ) → i < chunk o n → o % dev.block_size + i < dev.block_size
  inside o n i h = ground (arith, mod-lt o is.positive)

  pub chunk-pos : (o n : ℕ) → 0 < n → (0 < chunk o n) × (chunk o n ≤ n)
  chunk-pos o n h = ground (arith, mod-lt o is.positive)

  chunk_fits : (o n m : ℕ) → m ≡ dev.block_size → chunk o n ≤ m - o % dev.block_size
  chunk_fits o n m e = ground arith

  pub read-Delivers : (s : S) (o n : ℕ) → Delivers dev s o (chunk o n) (read dev s o n)
  unfolding read byte_at
  read-Delivers s o n =
      let b = dev.block_size in
      rw (sub-div-mul o b) (record {
        size = length-take (chunk o n) _ (
            rw (length-drop (o % b) (dev.read_block s (o / b)))
              (chunk_fits o n _ (is.length_read s (o / b))));
        bytes = λ i h.
            get_or-take (chunk o n) _ i h
            ∙ get_or-drop (o % b) _ i
            ∙ rw (within_div o i b (inside o n i h), within_mod o i b (inside o n i h)) refl;
      })

  -- A first piece and the rest after it.
  glue :
      (s : S) (o n : ℕ) (c rest : List ℕ)
      → o + n ≤ 2 ^ 32
      → length c ≤ n
      → Delivers dev s o (length c) c
      → Delivers dev s ((o + length c) % 2 ^ 32) (n - length c) rest
      → Delivers dev s o n (c ++ rest)
  glue s o n c rest h l first more = record {
    size = omega (arith, length-append c rest, more.size);
    bytes = λ i k. get_or-append c rest i ∙ elim (Bool-cases (ltb i (length c))) [
      | inl here ↦ rw here (first.bytes i (ltb→lt i (length c) here))
      | inr later ↦
          let at : (o + length c) % 2 ^ 32 + (i - length c) ≡ o + i = ground arith in
          rw later (more.bytes (i - length c) (ground arith) ∙ ap (byte_at dev s) at)
    ];
  }

  read_step :
      (fuel : ℕ) (s : S) (o n : ℕ) (rest : List ℕ)
      → read_loop dev fuel s
          ((o + length (read dev s o (suc n))) % 2 ^ 32)
          (suc n - length (read dev s o (suc n)))
        ≡ some rest
      → read_loop dev (suc fuel) s o (suc n) ≡ some (read dev s o (suc n) ++ rest)
  unfolding read_loop
  read_step fuel s o n rest e = rw e (ground arith)

  read_loop-Delivers :
      (fuel : ℕ) (s : S) (o n : ℕ)
      → n < fuel
      → o + n ≤ 2 ^ 32
      → (bs : List ℕ) × (read_loop dev fuel s o n ≡ some bs) × Delivers dev s o n bs
  unfolding read_loop
  read_loop-Delivers zero s o n f h = absurd (omega arith)
  read_loop-Delivers (suc fuel) s o zero f h =
      ([], refl, record { size = refl; bytes = λ i l. absurd (omega arith) })
  read_loop-Delivers (suc fuel) s o (suc n) f h =
      let first = read-Delivers s o (suc n) in
      go (
        read_loop-Delivers fuel s ((o + length (read dev s o (suc n))) % 2 ^ 32)
          (suc n - length (read dev s o (suc n))) (omega (arith, first.size, chunk-pos o (suc n)))
          (omega (arith, first.size, chunk-pos o (suc n))))
    where
      go :
          (bs : List ℕ) × (read_loop dev fuel s
                ((o + length (read dev s o (suc n))) % 2 ^ 32)
                (suc n - length (read dev s o (suc n)))
              ≡ some bs)
            × Delivers dev s
                ((o + length (read dev s o (suc n))) % 2 ^ 32)
                (suc n - length (read dev s o (suc n)))
                bs
          → (bs : List ℕ) × (read_loop dev (suc fuel) s o (suc n) ≡ some bs)
            × Delivers dev s o (suc n) bs
      go (rest, runs, more) = (
        read dev s o (suc n) ++ rest,
        read_step fuel s o n rest runs,
        glue s o (suc n) (read dev s o (suc n)) rest h
            (rw (read-Delivers s o (suc n)).size ((chunk-pos o (suc n) (omega arith)).1))
            (rw (read-Delivers s o (suc n)).size (read-Delivers s o (suc n))) more,
      )

  -- On a device that follows the interface's laws, with o + n at most 2^32: `readFully` ends, and
  -- its buffer holds the device's bytes from o to o + n.
  pub read_fully-Delivers :
      (s : S) (o n : ℕ)
      → o + n ≤ 2 ^ 32
      → (bs : List ℕ) × (read_fully dev s o n ≡ some bs) × Delivers dev s o n bs
  unfolding read_fully
  read_fully-Delivers s o n h = read_loop-Delivers (n + 1) s o n (omega arith) h
