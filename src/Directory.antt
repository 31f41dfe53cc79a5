-- ===== src/Directory.antt =====
-- The directories of kernel/fs.cc: `Fat439Directory` looks a name up among the entries of a file, each
-- of them twelve bytes of name and a word with the first block. A name is the list of its characters,
-- the NUL at its end left out. The mutex of the directory surrounds each search.
pub mod Names
pub mod Search
pub mod Update
mod Tests
use p12_group.Base.{
  ℕ, zero, suc, ◌+◌, ◌/◌, ◌^◌, ◌%◌, ◌==◌, if◌then◌else◌, Bool, true, false, List, [], ◌∷◌, ◌++◌,
  length, get_or, drop, Option, none, some,
}
use p12_group.Base.Int.{ℤ, pos, negsuc}
use p12_group.Fat.{Fat439}
use p12_group.Block.Interface.{BlockDevice}
use p12_group.Files.{OpenFile, Result, got, err, word_of, open_read_fully}
use mathlib.Core.Option

abbrev pub dir_entry_sz : ℕ
dir_entry_sz = 16

pub record Directory : Type 0 where
  pub start : ℕ
  pub content : OpenFile
  pub entries : ℕ

-- The constructor, and `refresh`.
unfoldable pub directory : ℕ → OpenFile → Directory
directory start content = record {
  start = start;
  content = content;
  entries = content.length / dir_entry_sz;
}

unfoldable pub refresh : Directory → Directory
refresh d = record d { entries = d.content.length / dir_entry_sz }

-- The comparison of `entry.name` with `name` from the character i on, with `togo` left: `some` with
-- the place of the NUL if they agree up to there, `none` where the source breaks off.
abbrev pub match_name : ℕ → List ℕ → List ℕ → ℕ → Option ℕ
match_name zero entry name i = none
match_name (suc togo) entry name i =
    let rest = match_name togo entry name (i + 1) in
    if get_or entry i 0 == get_or name i 0
    then if get_or entry i 0 == 0 then some i else rest
    else none

-- What `entry` holds after `readFully`: the bytes that were read, before those that it held.
abbrev pub filled : List ℕ → Result → List ℕ
filled old (err e) = old
filled old (got bs) = bs ++ drop (length bs) old

abbrev pub is_dot : List ℕ → Bool
is_dot name = if get_or name 0 0 == 46 then get_or name 1 0 == 0 else false

abbrev pub is_dot_dot : List ℕ → Bool
is_dot_dot name =
    if get_or name 0 0 == 46
    then if get_or name 1 0 == 46 then get_or name 2 0 == 0 else false
    else false

-- The end of a turn of either search, and the turns after it.
abbrev pub search_turn :
    Option ℕ → List ℕ → Option (Option (ℕ × List ℕ)) → Option (Option (ℕ × List ℕ))
search_turn none entry rest = rest
search_turn (some i) entry rest = some (some (i, entry))

abbrev pub start_of : Option (ℕ × List ℕ) → ℕ
start_of none = 0
start_of (some (i, entry)) = word_of entry 3

-- As written, the inner loop's `i`, which hides the outer one.
abbrev pub index_of : Option (ℕ × List ℕ) → ℤ
index_of none = negsuc 0
index_of (some (i, entry)) = pos i

module _ {S : Type 0} (dev : BlockDevice S) (s : S) (fs : Fat439) where
  -- The inner index and the entry where the search for a name stopped, or `some none`. The buffer
  -- `entry` keeps its bytes between the turns; `none` if a read runs out of fuel.
  unfoldable pub search_from : ℕ → OpenFile → List ℕ → ℕ → List ℕ → Option (Option (ℕ × List ℕ))
  search_from zero content name offset entry = some none
  search_from (suc togo) content name offset entry =
      elim (open_read_fully dev s fs content offset dir_entry_sz) [
        | none ↦ none
        | some r ↦
            search_turn (match_name 12 (filled entry r) name 0) (filled entry r)
              (search_from togo content name ((offset + dir_entry_sz) % 2 ^ 32) (filled entry r))
      ]

  -- `stale` is what the buffer holds at the start.
  unfoldable pub lookup : Directory → List ℕ → List ℕ → Option ℕ
  unfolding search_from
  lookup d name stale =
      if is_dot name
      then some d.start
      else if is_dot_dot name
      then some d.content.parent_dir
      else Option.map start_of (search_from d.entries d.content name 0 stale)

  unfoldable pub lookup_entry : Directory → List ℕ → List ℕ → Option ℤ
  unfolding search_from
  lookup_entry d name stale =
      if is_dot name
      then some (pos 12)
      else if is_dot_dot name
      then some (pos 8)
      else Option.map index_of (search_from d.entries d.content name 0 stale)
