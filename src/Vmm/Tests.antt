-- ===== src/Vmm/Tests.antt =====
-- The page tables of kernel/vmm.cc in a small memory.
use p12_group.Base.{ℕ, ◌≡◌, true, [], ◌∷◌, Option, none, some, refl, arith}
use p12_group.Vmm.{Memory, pmap, punmap, entry}
use p12_group.Vmm.Space.{Space, walk}
use p12_group.Vmm.Walk.{Maps, pmap-Maps, punmap-Maps}

-- An empty directory in the frame 0x2000, of which the frame 0x1000 is free.
abbrev small : Memory
small = record { word = λ a. 0; first_free = 0x1000; avail = 0x3000; limit = 0x100000 }

small-Space : Space small 0x2000 (0x1000 ∷ [])
small-Space = record {
  first = refl;
  chain = (omega arith, omega arith, refl, refl, tt);
  below = λ f m. ground arith;
  aligned = (omega arith, omega arith);
  bounded = (omega arith, omega arith);
  directory = (omega arith, omega arith, refl);
  tables = λ i l k. absurd (cc);
  distinct = λ i j l k x y e. absurd (cc);
}

pmap-Maps_example :
    Maps small 0x2000
      (0x1000 ∷ [])
      0x80000000
      (entry 0x5000 true true)
      (pmap 0x2000 0x80000000 0x5000 true true small)
pmap-Maps_example =
    pmap-Maps small 0x2000 (0x1000 ∷ []) 0x80000000 0x5000 true true small-Space (omega arith)

punmap-Maps_example : Maps small 0x2000 (0x1000 ∷ []) 0x80000000 0 (punmap 0x2000 0x80000000 small)
punmap-Maps_example = punmap-Maps small 0x2000 (0x1000 ∷ []) 0x80000000 small-Space (omega arith)

-- What the tables have for the address.
abbrev found : Option Memory → ℕ
found none = 0
found (some m) = walk m 0x2000 0x80000abc

finds : found (pmap 0x2000 0x80000000 0x5000 true true small) ≡ 0x5007
unfolding pmap
finds = refl
