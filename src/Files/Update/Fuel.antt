-- ===== src/Files/Update/Fuel.antt =====
-- `write` of kernel/fs.cc ends.
use p12_group.Base.{
  ℕ, zero, suc, ◌+◌, ◌-◌, ◌*◌, ◌%◌, ◌^◌, ◌<◌, ◌≡◌, inl, inr, ◌==◌, true, false, List, drop, arith,
  refl, ap, ◌∙◌, sym, subst, ◌⊎◌, Bool-cases, some,
}
use p12_group.Base.Int.{ℤ, pos, negsuc}
use p12_group.Block.{min, write}
use p12_group.Block.Interface.{BlockDevice, IsBlockDevice}
use p12_group.Block.Read.{chunk-pos}
use p12_group.Block.Write.{write_count}
use p12_group.Files.Update.{
  Disk, settle, next_block, write_rest, open_write, first_place, first_len, first_block,
  err_no_space,
}
use mathlib.Core.Option

abbrev pub Returned : ℤ → Type 0
Returned c = (c ≡ pos 0) ⊎ (c ≡ err_no_space)

settle_code :
    {S : Type 0} (dev : BlockDevice S) (c : ℤ) (total : ℕ) (d : Disk S)
    → (settle dev (c, total, d)).0 ≡ c
settle_code dev (pos c) total d = refl
settle_code dev (negsuc c) total d = refl

module _ {S : Type 0} (dev : BlockDevice S) (is : IsBlockDevice dev) where
  module _ (fuel : ℕ) (d : Disk S) (blk : ℕ) (buf : List ℕ) (n total : ℕ) where
    abbrev next : ℕ
    next = (next_block dev blk d).0

    abbrev linked : Disk S
    linked = (next_block dev blk d).1

    abbrev turn : ℕ × S
    turn = write dev linked.state (next * dev.block_size % 2 ^ 32) buf (min n dev.block_size)

    rest_done : n ≡ 0 → write_rest dev (suc fuel) d blk buf n total ≡ some (pos 0, total, d)
    unfolding write_rest
    rest_done e = rw e refl

    rest_full :
        (n == 0) ≡ false
        → (next == 0) ≡ true
        → write_rest dev (suc fuel) d blk buf n total ≡ some (err_no_space, total, linked)
    unfolding write_rest
    rest_full e f = rw (e, f) refl

    rest_turn :
        (n == 0) ≡ false
        → (next == 0) ≡ false
        → write_rest dev (suc fuel) d blk buf n total
          ≡ write_rest dev fuel
              (record linked { state = turn.1 })
              next
              (drop turn.0 buf)
              (n - turn.0)
              (total + turn.0)
    unfolding write_rest
    rest_turn e f = rw (e, f) refl

  -- A turn writes at least one byte.
  write_rest-ends :
      (fuel : ℕ) (d : Disk S) (blk : ℕ) (buf : List ℕ) (n total : ℕ)
      → n < fuel
      → (r : ℤ × ℕ × Disk S) × (write_rest dev fuel d blk buf n total ≡ some r) × Returned r.0
  write_rest-ends zero d blk buf n total l = absurd (omega arith)
  write_rest-ends (suc fuel) d blk buf n total l = elim (Bool-cases (n == 0)) [
    | inl e ↦ (_, rest_done fuel d blk buf n total (ground arith), inl refl)
    | inr e ↦ elim (Bool-cases (next fuel d blk buf n total == 0)) [
      | inl f ↦ (_, rest_full fuel d blk buf n total e f, inr refl)
      | inr f ↦
          let t = turn fuel d blk buf n total in
          let c =
            write_count dev is (linked fuel d blk buf n total).state
              (next fuel d blk buf n total * dev.block_size % 2 ^ 32) buf (min n dev.block_size) in
          let some_byte : 0 < min n dev.block_size = ground (arith, is.positive) in
          let p =
            chunk-pos dev is (next fuel d blk buf n total * dev.block_size % 2 ^ 32)
              (min n dev.block_size) some_byte in
          let z : 0 < n = ground arith in
          let (r, k, q) =
            write_rest-ends fuel (record (linked fuel d blk buf n total) { state = t.1 })
              (next fuel d blk buf n total) (drop t.0 buf) (n - t.0) (total + t.0)
              (omega (arith, c, p.0)) in
          (r, rest_turn fuel d blk buf n total e f ∙ k, q)
    ]
  ]

-- On a device that follows the interface's laws, whatever the file, its chain of blocks and the free
-- blocks are, for any offset, bytes and count: `write` of `OpenFile` ends, with 0 or ERR_NO_SPACE.
pub open_write-ends :
    {S : Type 0} (dev : BlockDevice S) (offset : ℕ) (buf : List ℕ) (n : ℕ) (d : Disk S)
    → IsBlockDevice dev
    → (r : ℤ × Disk S) × (open_write dev offset buf n d ≡ some r) × Returned r.0
unfolding open_write
open_write-ends dev offset buf n d is =
    let w = write dev d.state (first_place dev d offset) buf (first_len dev offset n) in
    let (r, k, q) =
      write_rest-ends dev is (n + 1) (record d { state = w.1 }) (first_block dev d offset)
        (drop w.0 buf) (n - w.0) w.0 (omega arith) in
    (
      settle dev r,
      ap (Option.map (settle dev)) k,
      subst Returned (sym (settle_code dev r.0 r.1 r.2)) q,
    )
