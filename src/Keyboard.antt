-- ===== src/Keyboard.antt =====
-- kernel/kbd.cc: scan codes to characters, with the state of the shift keys, in front of a bounded
-- buffer. The byte that the device delivers is an argument.
pub mod Keys
mod Tests
use p12_group.Base.{ℕ, ◌+◌, ◌-◌, ◌==◌, leb, if◌then◌else◌, Bool, true, false, List, [], ◌∷◌}
use p12_group.Process.{M, ◌>>=◌, pure}
use p12_group.BoundedBuffer.{BoundedBuffer, put}

abbrev pub ul : Bool → ℕ → ℕ
ul shift x = if shift then x - (97 - 65) else x

-- The case labels of the letter keys, each with the letter that goes through `ul`.
abbrev pub letters : List (ℕ × ℕ)
letters =
    (0x10, 113)
    ∷ (0x11, 119)
    ∷ (0x12, 101)
    ∷ (0x13, 114)
    ∷ (0x14, 116)
    ∷ (0x15, 121)
    ∷ (0x16, 117)
    ∷ (0x17, 105)
    ∷ (0x18, 111)
    ∷ (0x19, 112)
    ∷ (0x1e, 97)
    ∷ (0x1f, 115)
    ∷ (0x20, 100)
    ∷ (0x21, 102)
    ∷ (0x22, 103)
    ∷ (0x23, 104)
    ∷ (0x24, 106)
    ∷ (0x25, 107)
    ∷ (0x26, 108)
    ∷ (0x2c, 122)
    ∷ (0x2d, 120)
    ∷ (0x2e, 99)
    ∷ (0x2f, 118)
    ∷ (0x30, 98)
    ∷ (0x31, 110)
    ∷ (0x32, 109)
    ∷ []

abbrev pub case_of : ℕ → Bool → List (ℕ × ℕ) → ℕ × Bool → ℕ × Bool
case_of b shift [] other = other
case_of b shift ((code, x) ∷ keys) other =
    if b == code then (ul shift x, shift) else case_of b shift keys other

-- The character of the scan code b, and the state of the shift keys behind it.
unfoldable pub kbd_get : ℕ → Bool → ℕ × Bool
kbd_get b shift =
    if leb 0x02 b
    then (if leb b 0x0a
        then (48 + b - 1, shift)
        else if b == 0x0b
        then (48, shift)
        else if b == 0x0e
        then (8, shift)
        else if b == 0x1c
        then (10, shift)
        else case_of b shift letters (
            if b == 0x2a
            then (0, true)
            else if b == 0x36
            then (0, true)
            else if b == 0xaa
            then (0, false)
            else if b == 0xb6
            then (0, false)
            else (0, shift)))
    else (0, shift)

-- The interrupt handler, which may have to wait for room in the buffer.
unfoldable pub handler : ℕ → Bool → BoundedBuffer ℕ → M (Bool × BoundedBuffer ℕ × Bool)
unfolding kbd_get
handler b shift bb = do
  let (ch, shift') = kbd_get b shift
  (runs, bb') ← put ch bb
  pure (runs, bb', shift')
