-- ===== src/Fat/Chains.antt =====
-- Chains of blocks in a FAT, as lists.
use p12_group.Base.{
  has, Distinct, Disjoint, ℕ, zero, suc, ◌<◌, ◌≡◌, ◌≢◌, refl, true, false, List, [], ◌∷◌, ◌++◌,
  arith, length, update, update_self, update_ne, some,
}
use p12_group.Fat.{chain_end}

-- From `b` the table leads through the blocks `xs`, none of them 0, to the end mark 0.
abbrev pub Chain : (ℕ → ℕ) → ℕ → List ℕ → Type 0
Chain fat b [] = b ≡ 0
Chain fat b (x ∷ xs) = (b ≡ x) × (x ≢ 0) × Chain fat (fat x) xs

-- A change at a block off the chain leaves the chain.
pub Chain-update :
    (fat : ℕ → ℕ) (a v : ℕ) (b : ℕ) (xs : List ℕ)
    → has a xs ≡ false
    → Chain fat b xs
    → Chain (update fat a v) b xs
Chain-update fat a v b [] h c = c
Chain-update fat a v b (x ∷ xs) h c = (
  c.0,
  c.1,
  rw (update_ne fat a x v (ground arith)) (Chain-update fat a v (fat x) xs (ground arith) c.2),
)

-- The last block of a chain.
abbrev pub last_of : ℕ → List ℕ → ℕ
last_of x [] = x
last_of x (y ∷ ys) = last_of y ys

pub chain_end_lem :
    (fuel : ℕ) (fat : ℕ → ℕ) (x : ℕ) (xs : List ℕ)
    → length xs < fuel
    → Chain fat (fat x) xs
    → chain_end fuel fat x ≡ some (last_of x xs)
unfolding chain_end
chain_end_lem zero fat x xs h c = absurd (omega arith)
chain_end_lem (suc fuel) fat x [] h c = ground arith
chain_end_lem (suc fuel) fat x (y ∷ ys) h c =
    ground (arith, chain_end_lem fuel fat y ys (omega arith) c.2)

has_last : (x : ℕ) (xs : List ℕ) → has (last_of x xs) (x ∷ xs) ≡ true
has_last x [] = ground arith
has_last x (y ∷ ys) = ground (arith, has_last y ys)

-- Writing the head of a second chain at the last block of the first joins them.
pub Chain-append :
    (fat : ℕ → ℕ) (x : ℕ) (xs : List ℕ) (b : ℕ) (ys : List ℕ)
    → Chain fat x (x ∷ xs)
    → Distinct (x ∷ xs)
    → Disjoint (x ∷ xs) ys
    → Chain fat b ys
    → Chain (update fat (last_of x xs) b) x (x ∷ xs ++ ys)
Chain-append fat x [] b ys c d j k =
    (refl, c.1, rw (update_self fat x b) (Chain-update fat x b b ys (j x (ground arith)) k))
Chain-append fat x (y ∷ xs) b ys c d j k = (
  refl,
  c.1,
  rw (update_ne fat (last_of y xs) x b (ground (arith, has_last y xs)), c.2.0)
      (Chain-append fat y xs b ys (refl, c.2.1, c.2.2) d.1 (λ a h. j a (ground arith)) k),
)
