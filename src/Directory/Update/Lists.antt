-- ===== src/Directory/Update/Lists.antt =====
-- The entries of a directory after one is added behind them.
use p12_group.Base.{
  ℕ, suc, ◌+◌, ◌-◌, ◌*◌, ◌%◌, ◌^◌, ◌<◌, ◌≤◌, ◌≡◌, ltb, Bool-cases, inl, inr, List, [], ◌∷◌, ◌++◌,
  length, length-append, drop, get_or, arith, refl, ap, ◌∙◌, sym, subst, true, false, if◌then◌else◌,
}
use p12_group.Block.Memcpy.{get_or-append, length-drop}
use p12_group.Directory.Names.{IsName}
use p12_group.Directory.Search.{Entry, Lists, word_at}
use p12_group.Directory.Update.{entry_of}
use p12_group.Files.Update.{bytes_of}

same_word : (m n : ℕ → ℕ) (a : ℕ) → ((i : ℕ) → i < a + 4 → m i ≡ n i) → word_at m a ≡ word_at n a
same_word m n a e =
    rw
      (e a (omega arith), e (a + 1) (omega arith), e (a + 2) (omega arith), e (a + 3) (omega arith))
      refl

-- Only the bytes of the entries count.
pub same-Lists :
    (m n : ℕ → ℕ) (o : ℕ) (es : List Entry)
    → ((i : ℕ) → i < o + 16 * length es → n i ≡ m i)
    → Lists m o es
    → Lists n o es
same-Lists m n o [] e l = tt
same-Lists m n o (x ∷ es) e (name, short, chars, word, more) = (
  name,
  short,
  λ j u. e (o + j) (omega arith) ∙ chars j u,
  same_word n m (o + 12) (λ i u. e i (omega arith)) ∙ word,
  same-Lists m n (o + 16) es (λ i u. e i (omega arith)) more,
)

pub Lists-snoc :
    (m : ℕ → ℕ) (o : ℕ) (es : List Entry) (x : Entry)
    → Lists m o es
    → Lists m (o + 16 * length es) (x ∷ [])
    → Lists m o (es ++ x ∷ [])
Lists-snoc m o [] x l k =
    let e : o + 16 * 0 ≡ o = omega arith in subst (λ t. Lists m t (x ∷ [])) e k
Lists-snoc m o (e ∷ es) x (name, short, chars, word, more) k =
    let q : o + 16 * suc (length es) ≡ o + 16 + 16 * length es = omega arith in
    (
      name,
      short,
      chars,
      word,
      Lists-snoc m (o + 16) es x more (subst (λ t. Lists m t (x ∷ [])) q k),
    )

get_or_end : (xs : List ℕ) → get_or xs (length xs) 0 ≡ 0
get_or_end [] = refl
get_or_end (x ∷ xs) = get_or_end xs

-- The bytes of `entry` for a name are an entry.
module _ (name stale : List ℕ) (x : ℕ) (short : length name < 12) (size : length stale ≡ 12)
    (low : x < 2 ^ 32) where
  length-front : length (name ++ 0 ∷ drop (length name + 1) stale) ≡ 12
  length-front = omega (
    arith,
    length-append name (0 ∷ drop (length name + 1) stale),
    length-drop (length name + 1) stale,
  )

  pub length-entry_of : length (entry_of name stale x) ≡ 16
  length-entry_of =
      omega
        (arith, length-append (name ++ 0 ∷ drop (length name + 1) stale) (bytes_of x), length-front)

  entry_char : (j : ℕ) → j ≤ length name → get_or (entry_of name stale x) j 0 ≡ get_or name j 0
  entry_char j l =
      get_or-append (name ++ 0 ∷ drop (length name + 1) stale) (bytes_of x) j ∙ first_part j l
    where
      first_part :
          (j : ℕ)
          → j ≤ length name
          → (if ltb j (length (name ++ 0 ∷ drop (length name + 1) stale))
              then get_or (name ++ 0 ∷ drop (length name + 1) stale) j 0
              else get_or (bytes_of x) (j - length (name ++ 0 ∷ drop (length name + 1) stale)) 0)
            ≡ get_or name j 0
      first_part j l =
          let u : ltb j (length (name ++ 0 ∷ drop (length name + 1) stale)) ≡ true =
            ground (arith, length-front) in
          rw u (
            get_or-append name (0 ∷ drop (length name + 1) stale) j
            ∙ elim (Bool-cases (ltb j (length name))) [
              | inl v ↦ rw v refl
              | inr v ↦
                  let z : j - length name ≡ 0 = ground arith in
                  let q : length name ≡ j = ground arith in
                  rw (v, z) (sym (ap (λ k. get_or name k 0) (sym q) ∙ get_or_end name))
            ])

  entry_byte : (i : ℕ) → get_or (entry_of name stale x) (12 + i) 0 ≡ get_or (bytes_of x) i 0
  entry_byte i =
      let u : ltb (12 + i) 12 ≡ false = ground arith in
      let z : 12 + i - 12 ≡ i = omega arith in
      get_or-append (name ++ 0 ∷ drop (length name + 1) stale) (bytes_of x) (12 + i)
      ∙ rw (length-front, u, z) refl

  pub entry_of-Lists :
      (m : ℕ → ℕ) (o : ℕ)
      → IsName name
      → ((j : ℕ) → j < 16 → m (o + j) ≡ get_or (entry_of name stale x) j 0)
      → Lists m o (record { name = name; start = x } ∷ [])
  entry_of-Lists m o n e = (n, short, λ j l. e j (omega arith) ∙ entry_char j l, word, tt)
    where
      last : (i : ℕ) → i < 4 → m (o + 12 + i) ≡ get_or (bytes_of x) i 0
      last i l =
          let q : o + 12 + i ≡ o + (12 + i) = omega arith in
          ap m q ∙ e (12 + i) (omega arith) ∙ entry_byte i

      word : word_at m (o + 12) ≡ x
      word =
          let z : o + 12 ≡ o + 12 + 0 = omega arith in
          let first : m (o + 12) ≡ x % 2 ^ 8 = ap m z ∙ last 0 (omega arith) in
          rw (first, last 1 (omega arith), last 2 (omega arith), last 3 (omega arith)) (omega arith)
