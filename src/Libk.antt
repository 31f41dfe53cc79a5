-- ===== src/Libk.antt =====
-- kernel/libk.cc: strings that end with a zero. A pointer is the function from offsets to bytes; the
-- loops run on fuel, and `none` is a string that is longer.
pub mod Strings
use p12_group.Base.{
  ℕ, zero, suc, ◌+◌, leb, ltb, ◌==◌, if◌then◌else◌, Bool, true, false, ◌&&◌, ◌||◌, Option, none,
  some,
}

unfoldable pub strlen_from : ℕ → (ℕ → ℕ) → ℕ → Option ℕ
strlen_from zero str n = none
strlen_from (suc fuel) str n =
    let rest = strlen_from fuel str (n + 1) in if str n == 0 then some n else rest

unfoldable pub strlen : ℕ → (ℕ → ℕ) → Option ℕ
unfolding strlen_from
strlen fuel str = strlen_from fuel str 0

unfoldable pub contains_from : ℕ → (ℕ → ℕ) → ℕ → ℕ → Option ℕ
contains_from zero str item n = none
contains_from (suc fuel) str item n =
    let rest = contains_from fuel str item (n + 1) in
    if (str n == 0) || (str n == item) then some (if str n == item then 1 else 0) else rest

unfoldable pub contains : ℕ → (ℕ → ℕ) → ℕ → Option ℕ
unfolding contains_from
contains fuel str item = contains_from fuel str item 0

-- The new array, which holds `before` when it is made, once the length is known.
abbrev pub copied : (ℕ → ℕ) → (ℕ → ℕ) → Option ℕ → Option (Option (ℕ → ℕ))
copied before str none = none
copied before str (some len) =
    some (some (λ i. if i == len then 0 else if ltb i len then str i else before i))

-- nullptr is `none` for the argument and for the result.
unfoldable pub strdup : ℕ → (ℕ → ℕ) → Option (ℕ → ℕ) → Option (Option (ℕ → ℕ))
unfolding strlen
strdup fuel before none = some none
strdup fuel before (some str) = copied before str (strlen fuel str)

unfoldable pub isdigit : ℕ → Bool
isdigit c = leb 48 c && leb c 57
