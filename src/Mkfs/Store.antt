-- ===== src/Mkfs/Store.antt =====
-- The bytes of an image after a store, and the words in it.
use p12_group.Base.{
  ℕ, ◌+◌, ◌*◌, ◌%◌, ◌^◌, ◌<◌, ◌≤◌, ◌≡◌, ltb, leb, true, false, List, length, get_or, arith, refl,
  ap, ◌∙◌, sym, ◌⊎◌, inl, inr,
}
use p12_group.Mkfs.{store, bytes_of}

pub store-inside :
    (a : ℕ) (bs : List ℕ) (old : ℕ → ℕ) (i : ℕ)
    → i < length bs
    → store a bs old (a + i) ≡ get_or bs i 0
unfolding store
store-inside a bs old i l =
    let u : leb a (a + i) ≡ true = ground arith in
    let v : ltb (a + i) (a + length bs) ≡ true = ground arith in
    rw (u, v) (ap (λ k. get_or bs k 0) (omega arith))

pub store-before : (a : ℕ) (bs : List ℕ) (old : ℕ → ℕ) (i : ℕ) → i < a → store a bs old i ≡ old i
unfolding store
store-before a bs old i l = let u : leb a i ≡ false = ground arith in rw u refl

pub store-behind :
    (a : ℕ) (bs : List ℕ) (old : ℕ → ℕ) (i : ℕ) → a + length bs ≤ i → store a bs old i ≡ old i
unfolding store
store-behind a bs old i l =
    let u : ltb i (a + length bs) ≡ false = ground arith in
    let v : leb a i ≡ true = ground arith in rw (v, u) refl

-- The word at a place, the lowest byte first.
abbrev pub word_at : (ℕ → ℕ) → ℕ → ℕ
word_at m a = m a + m (a + 1) * 2 ^ 8 + m (a + 2) * 2 ^ 16 + m (a + 3) * 2 ^ 24

pub same_word :
    (m n : ℕ → ℕ) (a : ℕ) → ((i : ℕ) → i < 4 → m (a + i) ≡ n (a + i)) → word_at m a ≡ word_at n a
same_word m n a e =
    let z : a ≡ a + 0 = omega arith in
    let e0 : m a ≡ n a = ap m z ∙ e 0 (omega arith) ∙ ap n (sym z) in
    rw (e0, e 1 (omega arith), e 2 (omega arith), e 3 (omega arith)) refl

pub word_at-store : (a w : ℕ) (old : ℕ → ℕ) → w < 2 ^ 32 → word_at (store a (bytes_of w) old) a ≡ w
word_at-store a w old l =
    let z : a ≡ a + 0 = omega arith in
    let at = store-inside a (bytes_of w) old in
    let e0 : store a (bytes_of w) old a ≡ w % 2 ^ 8 =
      ap (store a (bytes_of w) old) z ∙ at 0 (omega arith) in
    rw (e0, at 1 (omega arith), at 2 (omega arith), at 3 (omega arith)) (omega arith)

pub word_at-other :
    (a b w : ℕ) (old : ℕ → ℕ)
    → (b + 4 ≤ a) ⊎ (a + 4 ≤ b)
    → word_at (store a (bytes_of w) old) b ≡ word_at old b
word_at-other a b w old (inl l) =
    same_word (store a (bytes_of w) old) old b
      λ i u. store-before a (bytes_of w) old (b + i) (omega arith)
word_at-other a b w old (inr l) =
    same_word (store a (bytes_of w) old) old b
      λ i u. store-behind a (bytes_of w) old (b + i) (omega arith)
