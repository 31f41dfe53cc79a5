-- ===== src/Mkfs/Format.antt =====
-- The table of a new image: all its blocks behind the table are available.
use p12_group.Base.{
  ℕ, zero, suc, ◌+◌, ◌-◌, ◌*◌, ◌/◌, ◌%◌, ◌^◌, ◌<◌, ◌≤◌, ◌≡◌, ◌≢◌, ltb, leb, ◌&&◌, if◌then◌else◌,
  List, [], ◌∷◌, arith, refl, ◌∙◌, has, Distinct, update,
}
use p12_group.Fat.{Fat439}
use p12_group.Fat.Chains.{Chain}
use p12_group.Fat.Alloc.{FreeList}
use p12_group.Mkfs.{link, format}

-- The first block behind the table.
abbrev pub first_block : ℕ → ℕ
first_block n = 1 + (n * 4 + 511) / 512

-- The blocks from last + k down to last.
abbrev pub down : ℕ → ℕ → List ℕ
down last zero = last ∷ []
down last (suc k) = (last + suc k) ∷ down last k

has-down : (b last k : ℕ) → has b (down last k) ≡ (leb last b && leb b (last + k))
has-down b last zero = ground arith
has-down b last (suc k) = ground (arith, has-down b last k)

Distinct-down : (last k : ℕ) → Distinct (down last k)
Distinct-down last zero = (refl, tt)
Distinct-down last (suc k) = (ground (arith, has-down (last + suc k) last k), Distinct-down last k)

link_lem :
    (i last : ℕ) (fat : ℕ → ℕ) (b : ℕ)
    → link i last fat b ≡ (if ltb last b && leb b i then b - 1 else fat b)
unfolding link
link_lem zero last fat b = ground arith
link_lem (suc i) last fat b = ground (arith, link_lem i last (update fat (suc i) i) b)

Chain-down :
    (fat : ℕ → ℕ) (last k : ℕ)
    → last ≢ 0
    → fat last ≡ 0
    → ((b : ℕ) → last < b → b ≤ last + k → fat b ≡ b - 1)
    → Chain fat (last + k) (down last k)
Chain-down fat last zero z e s = (omega arith, z, e)
Chain-down fat last (suc k) z e s = (
  refl,
  omega arith,
  rw (s (last + suc k) (omega arith) (omega arith)) (
      let q : last + suc k - 1 ≡ last + k = omega arith in
      rw q (Chain-down fat last k z e (λ b l u. s b l (omega arith)))),
)

-- For fewer than 2^31 blocks, more than those of the superblock and the table, where the entry of the
-- first block behind the table is 0: the kernel finds the blocks behind the table on the list of free
-- blocks, each of them once, from the last one down, and no other.
pub format-FreeList :
    (n : ℕ) (fs : Fat439)
    → first_block n < n
    → n < 2 ^ 31
    → fs.fat (first_block n) ≡ 0
    → FreeList (format n fs) (down (first_block n) (n - 1 - first_block n))
      × ((b : ℕ)
          → has b (down (first_block n) (n - 1 - first_block n))
            ≡ (leb (first_block n) b && ltb b n))
unfolding format
format-FreeList n fs l u z =
    let last = first_block n in
    let k = n - 1 - last in
    let a : (n + 2 ^ 32 - 1) % 2 ^ 32 ≡ last + k = omega arith in
    (
      (
        rw a (
            Chain-down (link (last + k) last fs.fat) last k (omega arith)
              (link_lem (last + k) last fs.fat last ∙ ground (arith, z))
              (λ b d e. link_lem (last + k) last fs.fat b ∙ ground arith)),
        Distinct-down last k,
      ),
      λ b. has-down b last k ∙ ground arith,
    )
