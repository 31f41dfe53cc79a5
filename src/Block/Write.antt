-- ===== src/Block/Write.antt =====
-- `write` and `writeFully` of kernel/block.cc change the addressed bytes and no others.
use native.Mathlib.Nat.{mod-lt, div-add-mod', le_refl}
use native.Mathlib.Decide.{ℕ_discrete}
use p12_group.Base.{
  ℕ, zero, suc, ◌+◌, ◌-◌, ◌*◌, ◌/◌, ◌%◌, ◌^◌, ◌≤◌, ◌<◌, ◌≡◌, ◌≢◌, refl, List, arith, ltb, leb, ◌&&◌,
  if◌then◌else◌, length, get_or, get_or_ext, take, drop, length-take, some, ap, ◌∙◌, Bool-cases,
  inl, inr, Bool, false,
}
use p12_group.Base.Division.{sub-div-mul, within_div}
use p12_group.Block.{write, write_loop, write_fully, read_fully}
use p12_group.Block.Interface.{BlockDevice, IsBlockDevice, byte_at}
use p12_group.Block.Memcpy.{
  copy_at, length-copy_at, get_or-copy_at, get_or-take, get_or-drop, length-drop,
}
use p12_group.Block.Read.{chunk, chunk-pos, read_fully-Delivers, Delivers}

-- Whether address a lies in the n addresses from o on.
abbrev pub inside : ℕ → ℕ → ℕ → Bool
inside o n a = leb o a && ltb a (o + n)

-- The device with n bytes of `buf` from address o on.
abbrev pub Stores : {S : Type 0} → BlockDevice S → S → ℕ → List ℕ → ℕ → S → Type 0
Stores dev s o buf n s' =
    (a : ℕ) → byte_at dev s' a ≡ (if inside o n a then get_or buf (a - o) 0 else byte_at dev s a)

-- Addresses of one block compare as their places in it do.
same_block :
    (o a m b : ℕ)
    → a / b ≡ o / b
    → (inside (o % b) m (a % b) ≡ inside o m a) × (a % b - o % b ≡ a - o)
same_block o a m b e = ground (arith, div-add-mod' o b, div-add-mod' a b, ap (λ (t : ℕ). t * b) e)

other_block : (o a m b : ℕ) → o % b + m ≤ b → a / b ≢ o / b → inside o m a ≡ false
other_block o a m b h e = elim (Bool-cases (inside o m a)) [
  | inl t ↦ absurd (e (at (ground arith) (ground arith)))
  | inr f ↦ f
]
  where
    at : o ≤ a → a < o + m → a / b ≡ o / b
    at p q =
        ap (λ (t : ℕ). t / b) (let i : a ≡ o + (a - o) = omega arith in i)
        ∙ within_div o (a - o) b (omega arith)

module _ {S : Type 0} (dev : BlockDevice S) (is : IsBlockDevice dev) where
  chunk_end : (o n : ℕ) → o % dev.block_size + chunk dev is o n ≤ dev.block_size
  chunk_end o n = ground (arith, mod-lt o is.positive)

  pub write_count :
      (s : S) (o : ℕ) (buf : List ℕ) (n : ℕ) → (write dev s o buf n).0 ≡ chunk dev is o n
  unfolding write
  write_count s o buf n = rw (sub-div-mul o dev.block_size) refl

  -- One block with m bytes of `buf` copied into it.
  block_after : S → ℕ → List ℕ → ℕ → List ℕ
  block_after s o buf m =
      copy_at (dev.read_block s (o / dev.block_size)) (o % dev.block_size) (take m buf)

  length-block_after :
      (s : S) (o : ℕ) (buf : List ℕ) (m : ℕ) → length (block_after s o buf m) ≡ dev.block_size
  unfolding block_after
  length-block_after s o buf m =
      length-copy_at (dev.read_block s (o / dev.block_size)) (o % dev.block_size) (take m buf)
      ∙ is.length_read s (o / dev.block_size)

  get_or-block_after :
      (s : S) (o : ℕ) (buf : List ℕ) (m a : ℕ)
      → m ≤ length buf
      → o % dev.block_size + m ≤ dev.block_size
      → a / dev.block_size ≡ o / dev.block_size
      → get_or (block_after s o buf m) (a % dev.block_size) 0 ≡ (
          if inside o m a
          then get_or buf (a - o) 0
          else get_or (dev.read_block s (o / dev.block_size)) (a % dev.block_size) 0)
  unfolding block_after
  get_or-block_after s o buf m a h k e =
      let same = same_block o a m dev.block_size e in
      get_or-copy_at _ (o % dev.block_size) (take m buf) (a % dev.block_size)
        (rw (length-take m buf h, is.length_read s (o / dev.block_size)) k)
      ∙ rw (length-take m buf h, same.0, same.1)
          (elim (Bool-cases (inside o m a)) [
            | inl t ↦ rw t (get_or-take m buf (a - o) (ground arith))
            | inr f ↦ rw f refl
          ])

  splice :
      (s : S) (o : ℕ) (buf : List ℕ) (m : ℕ)
      → m ≤ length buf
      → o % dev.block_size + m ≤ dev.block_size
      → Stores dev s o buf m (dev.write_block s (o / dev.block_size) (block_after s o buf m))
  unfolding byte_at
  splice s o buf m h k a = elim (ℕ_discrete (a / dev.block_size) (o / dev.block_size)) [
    | yes e ↦
        rw (e, is.read_written s (o / dev.block_size) _ (length-block_after s o buf m))
          (get_or-block_after s o buf m a h k e)
    | no e ↦
        rw
          (
            is.read_other s (o / dev.block_size) (a / dev.block_size) _ e,
            other_block o a m dev.block_size k e,
          )
          refl
  ]

  chunk-le : (o n : ℕ) → chunk dev is o n ≤ n
  chunk-le o n = ground arith

  pub write-Stores :
      (s : S) (o : ℕ) (buf : List ℕ) (n : ℕ)
      → n ≤ length buf
      → Stores dev s o buf (chunk dev is o n) (write dev s o buf n).1
  unfolding write block_after
  write-Stores s o buf n h =
      rw (sub-div-mul o dev.block_size)
        (splice s o buf (chunk dev is o n) (omega (arith, chunk-le o n)) (chunk_end o n))

  -- A first piece of m bytes and the rest after it.
  chain :
      (s t u : S) (o : ℕ) (buf : List ℕ) (m n : ℕ)
      → o + n ≤ 2 ^ 32
      → m ≤ n
      → Stores dev s o buf m t
      → Stores dev t ((o + m) % 2 ^ 32) (drop m buf) (n - m) u
      → Stores dev s o buf n u
  chain s t u o buf m n h l first more a = elim (ℕ_discrete m n) [
    | yes e ↦ ground (arith, first a, more a)
    | no e ↦
        let next : (o + m) % 2 ^ 32 ≡ o + m = omega arith in
        let later = rw next at more in
        ground (arith, first a, later a, get_or-drop m buf (a - (o + m)))
  ]

  write_step :
      (fuel : ℕ) (s : S) (o : ℕ) (buf : List ℕ) (n : ℕ)
      → write_loop dev (suc fuel) s o buf (suc n)
        ≡ write_loop dev fuel
            (write dev s o buf (suc n)).1
            ((o + chunk dev is o (suc n)) % 2 ^ 32)
            (drop (chunk dev is o (suc n)) buf)
            (suc n - chunk dev is o (suc n))
  unfolding write_loop
  write_step fuel s o buf n = ground (arith, write_count s o buf (suc n))

  write_loop-Stores :
      (fuel : ℕ) (s : S) (o : ℕ) (buf : List ℕ) (n : ℕ)
      → n < fuel
      → n ≤ length buf
      → o + n ≤ 2 ^ 32
      → (s' : S) × (write_loop dev fuel s o buf n ≡ some s') × Stores dev s o buf n s'
  unfolding write_loop
  write_loop-Stores zero s o buf n f k h = absurd (omega arith)
  write_loop-Stores (suc fuel) s o buf zero f k h = (s, refl, λ a. ground arith)
  write_loop-Stores (suc fuel) s o buf (suc n) f k h =
      let m = chunk dev is o (suc n) in
      let pos = chunk-pos dev is o (suc n) (omega arith) in
      go (
        write_loop-Stores fuel (write dev s o buf (suc n)).1 ((o + m) % 2 ^ 32) (drop m buf)
          (suc n - m) (omega (arith, pos)) (omega (arith, pos, length-drop m buf))
          (omega (arith, pos)))
    where
      m : ℕ
      m = chunk dev is o (suc n)

      go :
          (s' : S) × (write_loop dev fuel
                (write dev s o buf (suc n)).1
                ((o + m) % 2 ^ 32)
                (drop m buf)
                (suc n - m)
              ≡ some s')
            × Stores dev
                (write dev s o buf (suc n)).1
                ((o + m) % 2 ^ 32)
                (drop m buf)
                (suc n - m)
                s'
          → (s' : S) × (write_loop dev (suc fuel) s o buf (suc n) ≡ some s')
            × Stores dev s o buf (suc n) s'
      go (u, runs, more) = (
        u,
        write_step fuel s o buf n ∙ runs,
        chain s (write dev s o buf (suc n)).1 u o buf m (suc n) h
            ((chunk-pos dev is o (suc n) (omega arith)).1) (write-Stores s o buf (suc n) k) more,
      )

  -- On a device that follows the interface's laws, with n bytes in the buffer and o + n at most
  -- 2^32: `writeFully` ends, and afterwards the device holds the n bytes from o on, and its other
  -- bytes as before.
  pub write_fully-Stores :
      (s : S) (o : ℕ) (buf : List ℕ) (n : ℕ)
      → n ≤ length buf
      → o + n ≤ 2 ^ 32
      → (s' : S) × (write_fully dev s o buf n ≡ some s') × Stores dev s o buf n s'
  unfolding write_fully
  write_fully-Stores s o buf n k h = write_loop-Stores (n + 1) s o buf n (omega arith) k h

  -- On a device that follows the interface's laws, with o plus the length of the buffer at most
  -- 2^32: `writeFully` of the buffer at o ends, and `readFully` of that length at o then delivers
  -- the buffer.
  pub read_fully-write_fully :
      (s : S) (o : ℕ) (buf : List ℕ)
      → o + length buf ≤ 2 ^ 32
      → (s' : S) × (write_fully dev s o buf (length buf) ≡ some s')
        × (read_fully dev s' o (length buf) ≡ some buf)
  read_fully-write_fully s o buf h =
      let (s', runs, stores) = write_fully-Stores s o buf (length buf) (le_refl _) h in
      (s', runs, back s' stores (read_fully-Delivers dev is s' o (length buf) h))
    where
      back :
          (s' : S)
          → Stores dev s o buf (length buf) s'
          → (bs : List ℕ) × (read_fully dev s' o (length buf) ≡ some bs)
            × Delivers dev s' o (length buf) bs
          → read_fully dev s' o (length buf) ≡ some buf
      back s' stores (bs, runs, d) =
          runs
          ∙ ap some (
              get_or_ext 0 bs buf d.size
                (λ i l. d.bytes i (omega (arith, d.size)) ∙ ground (arith, stores (o + i), d.size)))
