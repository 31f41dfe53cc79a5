-- ===== src/Libk/Strings.antt =====
-- What `strlen` and `strdup` of kernel/libk.cc say of a string.
use p12_group.Base.{
  ℕ, zero, suc, ◌+◌, ◌<◌, ◌≤◌, ◌≡◌, ◌≢◌, inl, inr, ltb, ◌==◌, if◌then◌else◌, some, ap, sym, ◌∙◌,
  arith, Bool-cases, ne→==,
}
use p12_group.Libk.{strlen_from, strlen, copied, strdup}

-- A string of n bytes.
pub record IsString (str : ℕ → ℕ) (n : ℕ) : Type 0 where
  pub ends : str n ≡ 0
  pub inner : (i : ℕ) → i < n → str i ≢ 0

strlen_from-IsString :
    (fuel : ℕ) (str : ℕ → ℕ) (n i : ℕ)
    → IsString str n
    → i ≤ n
    → n < i + fuel
    → strlen_from fuel str i ≡ some n
unfolding strlen_from
strlen_from-IsString zero str n i s l u = absurd (omega arith)
strlen_from-IsString (suc fuel) str n i s l u = elim (Bool-cases (i == n)) [
  | inl e ↦ (let q : i ≡ n = ground arith in rw (ap str q ∙ s.ends) (ap some q))
  | inr e ↦
      let q : i < n = ground arith in
      rw (ne→== (str i) 0 (s.inner i q))
        (strlen_from-IsString fuel str n (i + 1) s (omega arith) (omega arith))
]

-- With fuel for it, `strlen` of a string is its length.
pub strlen-IsString :
    (fuel : ℕ) (str : ℕ → ℕ) (n : ℕ) → IsString str n → n < fuel → strlen fuel str ≡ some n
unfolding strlen
strlen-IsString fuel str n s u = strlen_from-IsString fuel str n 0 s (omega arith) (omega arith)

-- With fuel for it, `strdup` of a string is a string with the same bytes.
pub strdup-IsString :
    (fuel : ℕ) (before str : ℕ → ℕ) (n : ℕ)
    → IsString str n
    → n < fuel
    → (out : ℕ → ℕ) × (strdup fuel before (some str) ≡ some (some out))
      × IsString out n
      × ((i : ℕ) → i < n → out i ≡ str i)
unfolding strdup
strdup-IsString fuel before str n s u =
    let same : (i : ℕ)
        → i < n
        → (if i == n then 0 else if ltb i n then str i else before i) ≡ str i =
      λ i l. ground arith in
    (
      (λ i. if i == n then 0 else if ltb i n then str i else before i),
      ap (copied before str) (strlen-IsString fuel str n s u),
      record { ends = ground arith; inner = λ i l e. s.inner i l (sym (same i l) ∙ e) },
      same,
    )
