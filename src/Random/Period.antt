-- ===== src/Random/Period.antt =====
-- Which states the generator of kernel/random.h never leaves, and which seeds lead there.
use p12_group.Base.{ℕ, zero, suc, ◌+◌, ◌*◌, ◌/◌, ◌%◌, ◌^◌, ◌<◌, ◌≡◌, ◌≢◌, ◌⊎◌, arith, bit_and}
use p12_group.Base.Words.{bit_and_low}
use p12_group.Random.{Random32, random32, next, after}

low_half : (a : ℕ) → bit_and a 65535 ≡ a % 65536
low_half a = ground (arith, bit_and_low 16 (a % 65536) (a / 65536))

-- One step, as arithmetic: no bit is lost in the sums.
next_lem :
    (r : Random32)
    → r.w < 2 ^ 32
    → r.z < 2 ^ 32
    → ((next r).1.w ≡ 18000 * (r.w % 65536) + r.w / 65536)
      × ((next r).1.z ≡ 36969 * (r.z % 65536) + r.z / 65536)
unfolding next
next_lem r hw hz = omega (arith, low_half r.w, low_half r.z)

-- Both halves are words, and neither is a multiple of its modulus: those are the states from which
-- a half goes to a fixed point.
pub record IsAlive (r : Random32) : Type 0 where
  pub word_w : r.w < 2 ^ 32
  pub word_z : r.z < 2 ^ 32
  pub alive_w : r.w % 0x464fffff ≢ 0
  pub alive_z : r.z % 0x9068ffff ≢ 0

next-IsAlive : (r : Random32) → IsAlive r → IsAlive (next r).1
next-IsAlive r a =
    let e = next_lem r a.word_w a.word_z in
    record {
      word_w = omega (arith, e);
      word_z = omega (arith, e);
      alive_w = λ z. a.alive_w (omega (arith, e));
      alive_z = λ z. a.alive_z (omega (arith, e));
    }

after-IsAlive : (n : ℕ) (r : Random32) → IsAlive r → IsAlive (after n r)
unfolding after
after-IsAlive zero r a = a
after-IsAlive (suc n) r a = after-IsAlive n (next r).1 (next-IsAlive r a)

-- From every 32-bit seed but two, after any number of calls both halves are words and neither is
-- a multiple of its modulus, so that no half is at a fixed point.
pub random32-IsAlive :
    (seed n : ℕ)
    → seed < 2 ^ 32
    → seed ≢ 0x8c9ffffe
    → seed ≢ 0xd2effffd
    → IsAlive (after n (random32 seed))
unfolding random32
random32-IsAlive seed n h p q = after-IsAlive n (random32 seed) (record {
  word_w = ground arith;
  word_z = ground arith;
  alive_w = ground arith;
  alive_z = ground arith;
})

fixed_point : (n : ℕ) (r : Random32) → r.w ≡ 0x464fffff → r.z < 2 ^ 32 → (after n r).w ≡ 0x464fffff
unfolding after
fixed_point zero r e h = e
fixed_point (suc n) r e h =
    let f = next_lem r (omega arith) h in
    fixed_point n (next r).1 (omega (arith, f)) (omega (arith, f))

starts :
    (seed : ℕ)
    → (seed ≡ 0x8c9ffffe) ⊎ (seed ≡ 0xd2effffd)
    → (((random32 seed).w ≡ 0x8c9ffffe) ⊎ ((random32 seed).w ≡ 0xd2effffd))
      × ((random32 seed).z < 2 ^ 32)
unfolding random32
starts seed h = ground arith

-- From those two seeds, which the constructor lets through, the half w is 0x464fffff from the first
-- call on.
pub stuck_seeds :
    (seed n : ℕ)
    → (seed ≡ 0x8c9ffffe) ⊎ (seed ≡ 0xd2effffd)
    → (after (suc n) (random32 seed)).w ≡ 0x464fffff
unfolding after
stuck_seeds seed n h =
    let start : (((random32 seed).w ≡ 0x8c9ffffe) ⊎ ((random32 seed).w ≡ 0xd2effffd))
        × ((random32 seed).z < 2 ^ 32) =
      starts seed h in
    let f = next_lem (random32 seed) (omega (arith, start)) start.1 in
    fixed_point n (next (random32 seed)).1 (omega (arith, f, start)) (omega (arith, f, start))
