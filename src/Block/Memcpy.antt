-- ===== src/Block/Memcpy.antt =====
-- `memcpy` into a buffer, and the bytes of parts of buffers.
use p12_group.Base.{
  ℕ, zero, suc, ◌+◌, ◌-◌, ◌≤◌, ◌<◌, ◌≡◌, ◌≢◌, refl, List, [], ◌∷◌, ◌++◌, arith, ltb, leb, ◌&&◌,
  if◌then◌else◌, length, get_or, set, take, drop, length-set, get_or-set_self, get_or-set_ne,
}

-- The buffer with `src` copied over it from index o on.
pub copy_at : List ℕ → ℕ → List ℕ → List ℕ
copy_at dst o [] = dst
copy_at dst o (x ∷ xs) = set (copy_at dst (suc o) xs) o x

pub length-copy_at : (dst : List ℕ) (o : ℕ) (src : List ℕ) → length (copy_at dst o src) ≡ length dst
unfolding copy_at
length-copy_at dst o [] = refl
length-copy_at dst o (x ∷ xs) =
    omega (arith, length-set (copy_at dst (suc o) xs) o x, length-copy_at dst (suc o) xs)

get_or-cons : (x : ℕ) (xs : List ℕ) (n : ℕ) → n ≢ 0 → get_or (x ∷ xs) n 0 ≡ get_or xs (n - 1) 0
get_or-cons x xs zero h = absurd (h refl)
get_or-cons x xs (suc n) h = ground arith

pub get_or-copy_at :
    (dst : List ℕ) (o : ℕ) (src : List ℕ) (i : ℕ)
    → o + length src ≤ length dst
    → get_or (copy_at dst o src) i 0
      ≡ (if leb o i && ltb i (o + length src) then get_or src (i - o) 0 else get_or dst i 0)
unfolding copy_at
get_or-copy_at dst o [] i h = ground arith
get_or-copy_at dst o (x ∷ xs) i h = ground (
  arith,
  length-copy_at dst (suc o) xs,
  get_or-set_self (copy_at dst (suc o) xs) i x 0,
  get_or-set_ne (copy_at dst (suc o) xs) o i x 0,
  get_or-copy_at dst (suc o) xs i (omega arith),
  get_or-cons x xs (i - o),
)

pub get_or-drop : (n : ℕ) (xs : List ℕ) (i : ℕ) → get_or (drop n xs) i 0 ≡ get_or xs (n + i) 0
get_or-drop zero xs i = ground arith
get_or-drop (suc n) [] i = ground arith
get_or-drop (suc n) (x ∷ xs) i = ground (arith, get_or-drop n xs i)

pub get_or-take : (n : ℕ) (xs : List ℕ) (i : ℕ) → i < n → get_or (take n xs) i 0 ≡ get_or xs i 0
get_or-take zero xs i h = absurd (omega arith)
get_or-take (suc n) [] i h = refl
get_or-take (suc n) (x ∷ xs) zero h = refl
get_or-take (suc n) (x ∷ xs) (suc i) h = get_or-take n xs i (omega arith)

pub get_or-append :
    (xs ys : List ℕ) (i : ℕ)
    → get_or (xs ++ ys) i 0
      ≡ (if ltb i (length xs) then get_or xs i 0 else get_or ys (i - length xs) 0)
get_or-append [] ys i = ground arith
get_or-append (x ∷ xs) ys zero = ground arith
get_or-append (x ∷ xs) ys (suc i) = ground (arith, get_or-append xs ys i)

pub length-drop : (n : ℕ) (xs : List ℕ) → length (drop n xs) ≡ length xs - n
length-drop zero xs = omega arith
length-drop (suc n) [] = omega arith
length-drop (suc n) (x ∷ xs) = omega (arith, length-drop n xs)
