-- ===== src/Directory/Names.antt =====
-- The comparison of names in kernel/fs.cc against the equality of lists of characters.
use p12_group.Base.{
  ℕ, zero, suc, ◌+◌, ◌<◌, ◌≤◌, ◌≡◌, ◌≢◌, ◌==◌, if◌then◌else◌, arith, Bool, true, false, List, [],
  ◌∷◌, length, get_or, none, some, ap, sym, ◌∙◌,
}
use p12_group.Directory.{match_name}

abbrev pub same_name : List ℕ → List ℕ → Bool
same_name [] [] = true
same_name [] (y ∷ ys) = false
same_name (x ∷ xs) [] = false
same_name (x ∷ xs) (y ∷ ys) = let rest = same_name xs ys in if x == y then rest else false

-- No character is NUL.
abbrev pub IsName : List ℕ → Type 0
IsName [] = Unit {0}
IsName (x ∷ xs) = (x ≢ 0) × IsName xs

-- From the place i on, `bytes` holds xs and a NUL.
abbrev pub Spells : List ℕ → ℕ → List ℕ → Type 0
Spells bytes i xs = (j : ℕ) → j ≤ length xs → get_or bytes (i + j) 0 ≡ get_or xs j 0

tail_of :
    (bytes : List ℕ) (i x : ℕ) (xs : List ℕ) → Spells bytes i (x ∷ xs) → Spells bytes (i + 1) xs
tail_of bytes i x xs h = λ j l.
    let e : i + 1 + j ≡ i + suc j = omega arith in
    ap (λ k. get_or bytes k 0) e ∙ h (suc j) (omega arith)

head_of :
    (bytes : List ℕ) (i : ℕ) (xs : List ℕ) → Spells bytes i xs → get_or bytes i 0 ≡ get_or xs 0 0
head_of bytes i xs h =
    let e : i + 0 ≡ i = omega arith in ap (λ k. get_or bytes k 0) (sym e) ∙ h 0 (omega arith)

-- The comparison succeeds on equal names only, with the index at the NUL.
pub match_name_lem :
    (togo i : ℕ) (entry name xs ys : List ℕ)
    → length xs < togo
    → IsName xs
    → IsName ys
    → Spells entry i xs
    → Spells name i ys
    → match_name togo entry name i ≡ (if same_name xs ys then some (i + length xs) else none)
match_name_lem zero i entry name xs ys l n m s t = absurd (omega arith)
match_name_lem (suc togo) i entry name [] [] l n m s t =
    ground (arith, head_of entry i [] s, head_of name i [] t)
match_name_lem (suc togo) i entry name [] (y ∷ ys) l n m s t =
    ground (arith, head_of entry i [] s, head_of name i (y ∷ ys) t)
match_name_lem (suc togo) i entry name (x ∷ xs) [] l n m s t =
    ground (arith, head_of entry i (x ∷ xs) s, head_of name i [] t)
match_name_lem (suc togo) i entry name (x ∷ xs) (y ∷ ys) l n m s t = ground (
  arith,
  head_of entry i (x ∷ xs) s,
  head_of name i (y ∷ ys) t,
  match_name_lem togo (i + 1) entry name xs ys (omega arith) n.1 m.1 (tail_of entry i x xs s)
      (tail_of name i y ys t),
)
