-- ===== src/Directory/Search.antt =====
-- `lookup` and `lookupEntry` of kernel/fs.cc against a list of names and first blocks.
use p12_group.Base.{
  ℕ, ◌+◌, ◌*◌, ◌^◌, ◌%◌, ◌<◌, ◌≤◌, ◌≡◌, if◌then◌else◌, refl, arith, Bool, true, false, List, [],
  ◌∷◌, length, get_or, drop, Option, none, some, ap, ◌∙◌, Bool-cases, inl, inr,
}
use p12_group.Base.Int.{pos, negsuc}
use p12_group.Fat.{Fat439}
use p12_group.Block.Interface.{BlockDevice, IsBlockDevice}
use p12_group.Block.Memcpy.{get_or-append}
use p12_group.Files.{OpenFile, got, word_of}
use p12_group.Files.Contents.{IsPart, IsReadable, content}
use p12_group.Files.Entries.{open_read_fully-IsPart}
use p12_group.Directory.{
  Directory, match_name, filled, is_dot, is_dot_dot, search_from, search_turn, start_of, index_of,
  lookup, lookup_entry, dir_entry_sz,
}
use p12_group.Directory.Names.{same_name, IsName, Spells, match_name_lem}

-- A name and the first block of what it names.
pub record Entry : Type 0 where
  pub name : List ℕ
  pub start : ℕ

abbrev pub word_at : (ℕ → ℕ) → ℕ → ℕ
word_at array o = array o + array (o + 1) * 2 ^ 8 + array (o + 2) * 2 ^ 16 + array (o + 3) * 2 ^ 24

-- From o on, the array holds the entries: names of at most 11 characters with their NUL, and words.
abbrev pub Lists : (ℕ → ℕ) → ℕ → List Entry → Type 0
Lists array o [] = Unit {0}
Lists array o (e ∷ es) =
    IsName e.name
    × (length e.name < 12)
    × ((j : ℕ) → j ≤ length e.name → array (o + j) ≡ get_or e.name j 0)
    × (word_at array (o + 12) ≡ e.start)
    × Lists array (o + dir_entry_sz) es

-- The first block of the first entry with the name, 0 if there is none.
abbrev pub find_start : List Entry → List ℕ → ℕ
find_start [] name = 0
find_start (e ∷ es) name =
    let rest = find_start es name in if same_name e.name name then e.start else rest

-- Whether there is such an entry.
abbrev pub listed : List Entry → List ℕ → Bool
listed [] name = false
listed (e ∷ es) name = let rest = listed es name in if same_name e.name name then true else rest

abbrev Finds : List Entry → List ℕ → Option (Option (ℕ × List ℕ)) → Type 0
Finds es name r =
    (x : Option (ℕ × List ℕ)) × (r ≡ some x)
    × (start_of x ≡ find_start es name)
    × (index_of x ≡ (if listed es name then pos (length name) else negsuc 0))

same_length : (xs ys : List ℕ) → same_name xs ys ≡ true → length xs ≡ length ys
same_length [] [] h = refl
same_length [] (y ∷ ys) h = cc
same_length (x ∷ xs) [] h = cc
same_length (x ∷ xs) (y ∷ ys) h = ground (arith, same_length xs ys)

Spells-self : (xs : List ℕ) → Spells xs 0 xs
Spells-self xs j l = ap (λ k. get_or xs k 0) (omega arith)

turn_Finds :
    (e : Entry) (es : List Entry) (name entry : List ℕ) (rest : Option (Option (ℕ × List ℕ)))
    → match_name 12 entry name 0
      ≡ (if same_name e.name name then some (0 + length e.name) else none)
    → word_of entry 3 ≡ e.start
    → Finds es name rest
    → Finds (e ∷ es) name (search_turn (match_name 12 entry name 0) entry rest)
turn_Finds e es name entry rest m w f = elim (Bool-cases (same_name e.name name)) [
  | inl y ↦
      let here : match_name 12 entry name 0 ≡ some (0 + length e.name) = m ∙ rw y refl in
      rw (here, y)
        (
          some (0 + length e.name, entry),
          refl,
          w,
          ap pos (omega (arith, same_length e.name name y)),
        )
  | inr y ↦ let here : match_name 12 entry name 0 ≡ none = m ∙ rw y refl in rw (here, y) f
]

module _ {S : Type 0} (dev : BlockDevice S) (s : S) (fs : Fat439) (is : IsBlockDevice dev)
    (f : OpenFile) (fits : IsReadable dev s fs f) (name : List ℕ) (spelled : IsName name) where
  abbrev array : ℕ → ℕ
  array = content dev s fs f

  entry_bytes :
      (o : ℕ) (bs old : List ℕ)
      → IsPart array o dir_entry_sz bs
      → (i : ℕ) → i < dir_entry_sz
      → get_or (filled old (got bs)) i 0 ≡ array (o + i)
  entry_bytes o bs old p i l =
      get_or-append bs (drop (length bs) old) i ∙ ground (arith, p.size, p.bytes i l)

  same_place : (o j : ℕ) → array (o + (0 + j)) ≡ array (o + j)
  same_place o j = let e : o + (0 + j) ≡ o + j = omega arith in ap array e

  same_word :
      (o : ℕ) (entry : List ℕ)
      → ((i : ℕ) → i < dir_entry_sz → get_or entry i 0 ≡ array (o + i))
      → word_of entry 3 ≡ word_at array (o + 12)
  same_word o entry b =
      let p : o + 12 + 1 ≡ o + 13 = omega arith in
      let q : o + 12 + 2 ≡ o + 14 = omega arith in
      let r : o + 12 + 3 ≡ o + 15 = omega arith in
      rw (p, q, r)
        (rw (b 12 (omega arith), b 13 (omega arith), b 14 (omega arith), b 15 (omega arith)) refl)

  read_turn :
      (e : Entry) (es : List Entry) (o : ℕ) (bs old : List ℕ) (rest : Option (Option (ℕ × List ℕ)))
      → IsPart array o dir_entry_sz bs
      → Lists array o (e ∷ es)
      → Finds es name rest
      → Finds
          (e ∷ es)
          name
          (search_turn (match_name 12 (filled old (got bs)) name 0) (filled old (got bs)) rest)
  read_turn e es o bs old rest p (n, l, c, w, more) r =
      let b = entry_bytes o bs old p in
      turn_Finds e es name (filled old (got bs)) rest
        (match_name_lem 12 0 (filled old (got bs)) name e.name name l n spelled
          (λ j k. b (0 + j) (omega arith) ∙ same_place o j ∙ c j k) (Spells-self name))
        (same_word o (filled old (got bs)) b ∙ w) r

  search_from-Finds :
      (es : List Entry) (o : ℕ) (old : List ℕ)
      → o % dir_entry_sz ≡ 0
      → o + length es * dir_entry_sz ≤ f.length
      → Lists array o es
      → Finds es name (search_from dev s fs (length es) f name o old)
  unfolding search_from
  search_from-Finds [] o old a h l = (none, refl, refl, refl)
  search_from-Finds (e ∷ es) o old a h l =
      let (_, _, _, _, more) = l in
      let (bs, runs, part) =
        open_read_fully-IsPart dev s fs is f fits o dir_entry_sz (omega arith) (omega arith) in
      let on : (o + dir_entry_sz) % 2 ^ 32 ≡ o + dir_entry_sz = omega (arith, fits.short) in
      rw (search_from, runs, on)
        (read_turn e es o bs old _ part l (
          search_from-Finds es (o + dir_entry_sz) (filled old (got bs)) (omega arith) (omega arith)
            more))

  -- On a device that follows the interface's laws, in a readable directory that holds the entries es,
  -- whatever the buffer held: `lookup` of a name other than . and .. ends, with the first block of the
  -- first entry that has the name, and with 0 if none has.
  pub lookup-Lists :
      (d : Directory) (es : List Entry) (stale : List ℕ)
      → d.content ≡ f
      → d.entries ≡ length es
      → length es * dir_entry_sz ≤ f.length
      → Lists array 0 es
      → is_dot name ≡ false
      → is_dot_dot name ≡ false
      → lookup dev s fs d name stale ≡ some (find_start es name)
  unfolding lookup
  lookup-Lists d es stale ec ee h l p q =
      let (x, runs, start, index) = search_from-Finds es 0 stale refl (omega arith) l in
      rw (p, q, ec, ee, runs) (ap some start)

  -- On a device that follows the interface's laws, in a readable directory that holds the entries
  -- es, whatever the buffer held: for a name other than . and .. that an entry has, `lookupEntry`
  -- returns the length of the name, whichever entry it is; for any other name it returns -1.
  pub lookup_entry-Lists :
      (d : Directory) (es : List Entry) (stale : List ℕ)
      → d.content ≡ f
      → d.entries ≡ length es
      → length es * dir_entry_sz ≤ f.length
      → Lists array 0 es
      → is_dot name ≡ false
      → is_dot_dot name ≡ false
      → lookup_entry dev s fs d name stale
        ≡ some (if listed es name then pos (length name) else negsuc 0)
  unfolding lookup_entry
  lookup_entry-Lists d es stale ec ee h l p q =
      let (x, runs, start, index) = search_from-Finds es 0 stale refl (omega arith) l in
      rw (p, q, ec, ee, runs) (ap some index)
