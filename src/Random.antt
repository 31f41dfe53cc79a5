-- ===== src/Random.antt =====
-- kernel/random.h: the multiply-with-carry generator, two halves of 32 bits.
pub mod Period
mod Tests
use p12_group.Base.{ℕ, zero, suc, ◌+◌, ◌*◌, bit_and, ◌==◌, ◌||◌, if◌then◌else◌}
use p12_group.Base.Words.{u32, not32, ◌<<<◌, ◌>>>◌}

pub record Random32 : Type 0 where
  pub w : ℕ
  pub z : ℕ

-- The constructor.
unfoldable pub random32 : ℕ → Random32
random32 seed =
    let w = seed in
    let z = not32 seed in
    record {
      w = if w == 0 || w == 0x464fffff then u32 (w + 1) else w;
      z = if z == 0 || z == 0x9068ffff then u32 (z + 1) else z;
    }

unfoldable pub next : Random32 → ℕ × Random32
next r =
    let z = u32 (36969 * bit_and r.z 65535 + r.z >>> 16) in
    let w = u32 (18000 * bit_and r.w 65535 + r.w >>> 16) in
    (u32 (u32 (z <<< 16) + w), record { w = w; z = z })

-- The state after n calls.
pub after : ℕ → Random32 → Random32
after zero r = r
after (suc n) r = after n (next r).1
