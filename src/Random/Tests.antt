-- ===== src/Random/Tests.antt =====
-- The generator at concrete seeds.
use p12_group.Base.{◌≡◌, inl, refl}
use p12_group.Random.{random32, next, after}
use p12_group.Random.Period.{stuck_seeds}

first_value : (next (random32 1)).0 ≡ 3744286288
unfolding next random32
first_value = refl

stuck_seeds_example : (after 5 (random32 0x8c9ffffe)).w ≡ 0x464fffff
stuck_seeds_example = stuck_seeds 0x8c9ffffe 4 (inl refl)
