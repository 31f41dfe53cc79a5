-- ===== src/Files/Shared/Counts.antt =====
-- A file that is opened twice and closed twice.
use p12_group.Base.{
  ℕ, ◌+◌, ◌^◌, ◌%◌, ◌<◌, ◌≡◌, ◌≢◌, refl, arith, ap, ◌∙◌, sym, Option, List, ◌*◌, none, some, update,
  update_self, ne→==,
}
use p12_group.Block.Interface.{BlockDevice}
use p12_group.Block.{read_fully}
use p12_group.Files.{OpenFile, open_file, word_of}
use mathlib.Core.Option
use p12_group.Files.Shared.{OpenFiles, refer, new_object, open_shared, close_start, close_shared}
use p12_group.Resource
use p12_group.Resource.{ResourceType, Resource, unref, deref}
use p12_group.Table.Slots.{ref_lem, unref_lem}

abbrev pub counted : ℕ → Resource
counted c = record { type = ResourceType.other; count = c }

-- The state with another count of one object.
abbrev recount : ℕ → ℕ → OpenFiles → OpenFiles
recount p c o = record o { objects = update o.objects p (some (counted c)) }

refer_lem :
    (p c : ℕ) (o : OpenFiles)
    → p ≢ 0
    → o.objects p ≡ some (counted c)
    → c + 1 < 2 ^ 32
    → refer p o ≡ some (p, recount p (c + 1) o)
unfolding refer
refer_lem p c o n e l =
    let q : (c + 1) % 2 ^ 32 ≡ c + 1 = omega arith in
    rw (refer, ref_lem p (counted c) o.objects n e) (ap (λ t. some (p, recount p t o)) q)

-- The last reference.
unref_last :
    (p : ℕ) (h : Resource.Store)
    → p ≢ 0
    → h p ≡ some (counted 1)
    → unref p h ≡ Resource.ok 0 (update h p none)
unfolding unref deref
unref_last p h n e = rw (ne→== p 0 n, ne→== p 0 n, e) refl

close_last :
    (start p : ℕ) (o : OpenFiles)
    → p ≢ 0
    → o.open_files start ≡ p
    → o.objects p ≡ some (counted 1)
    → close_start start o
      ≡ some
          (record o { objects = update o.objects p none; open_files = update o.open_files start 0 })
unfolding close_start
close_last start p o n a e = rw (close_start, a, unref_last p o.objects n e) refl

close_other :
    (start p : ℕ) (o : OpenFiles)
    → p ≢ 0
    → o.open_files start ≡ p
    → o.objects p ≡ some (counted 2)
    → close_start start o
      ≡ some (record (recount p 1 o) { open_files = update o.open_files start p })
unfolding close_start
close_other start p o n a e =
    rw (close_start, a, unref_lem p (counted 2) o.objects n e (omega arith)) refl

close_at :
    (start p : ℕ) (f : OpenFile) (o : OpenFiles)
    → o.file p ≡ f
    → f.start ≡ start
    → close_shared p o ≡ close_start start o
unfolding close_shared
close_at start p f o e q = ap (λ t. close_start t o) (ap (λ t. t.start) e ∙ q)

module _ {S : Type 0} (dev : BlockDevice S) (s : S) where
  open_first :
      (start : ℕ) (f : OpenFile) (o : OpenFiles)
      → o.open_files start ≡ 0
      → o.fresh ≢ 0
      → open_file dev s start ≡ some f
      → open_shared dev s start o ≡ some (o.fresh, recount o.fresh 1 (new_object start f o))
  unfolding open_shared
  open_first start f o z n e =
      rw (z, e)
        (refer_lem o.fresh 0 (new_object start f o) n
          (update_self o.objects o.fresh (some (counted 0))) (omega arith))

  open_again :
      (start p c : ℕ) (o : OpenFiles)
      → o.open_files start ≡ p
      → p ≢ 0
      → o.objects p ≡ some (counted c)
      → c + 1 < 2 ^ 32
      → open_shared dev s start o ≡ some (p, recount p (c + 1) o)
  unfolding open_shared
  open_again start p c o a n e l = rw (a, ne→== p 0 n) (refer_lem p c o n e l)

-- The object of a header.
abbrev header : ℕ → List ℕ → OpenFile
header start bs = record {
  start = start;
  type = word_of bs 0;
  length = word_of bs 1;
  parent_dir = word_of bs 2;
  current_blk = word_of bs 3;
}

abbrev start_or : Option OpenFile → ℕ → ℕ
start_or none n = n
start_or (some f) n = f.start

header_start :
    (start : ℕ) (x : Option (List ℕ)) → start_or (Option.map (header start) x) start ≡ start
header_start start none = refl
header_start start (some bs) = refl

open_file-start :
    {S : Type 0} (dev : BlockDevice S) (s : S) (start : ℕ) (f : OpenFile)
    → open_file dev s start ≡ some f
    → f.start ≡ start
unfolding open_file
open_file-start dev s start f e =
    sym (ap (λ t. start_or t start) e)
    ∙ header_start start (read_fully dev s (start * 512 % 2 ^ 32) 16)

-- Of a file that nobody uses, whose header can be read: `openFile` makes an object, and a second one
-- returns the same object, with a count of 2; after one `closeFile` the object is still there, with a count
-- of 1, and after another it is deleted and the file is not in use.
pub close_shared-open_shared :
    {S : Type 0} (dev : BlockDevice S) (s : S) (start : ℕ) (f : OpenFile) (o : OpenFiles)
    → o.open_files start ≡ 0
    → o.fresh ≢ 0
    → open_file dev s start ≡ some f
    → (o1 : OpenFiles) × (o2 : OpenFiles) × (o3 : OpenFiles) × (o4 : OpenFiles) × (open_shared dev s
          start o
        ≡ some (o.fresh, o1))
      × (open_shared dev s start o1 ≡ some (o.fresh, o2))
      × (o2.objects o.fresh ≡ some (counted 2))
      × (o2.file o.fresh ≡ f)
      × (close_shared o.fresh o2 ≡ some o3)
      × (o3.objects o.fresh ≡ some (counted 1))
      × (o3.open_files start ≡ o.fresh)
      × (close_shared o.fresh o3 ≡ some o4)
      × (o4.objects o.fresh ≡ none)
      × (o4.open_files start ≡ 0)
close_shared-open_shared dev s start f o z n e =
    let p = o.fresh in
    let o1 = recount p 1 (new_object start f o) in
    let o2 = recount p 2 o1 in
    let o3 = record (recount p 1 o2) { open_files = update o2.open_files start p } in
    let at = update_self o.open_files start p in
    let at3 = update_self o2.open_files start p in
    let held = update_self o.file p f in
    let starts = open_file-start dev s start f e in
    let once = update_self (new_object start f o).objects p (some (counted 1)) in
    let twice = update_self o1.objects p (some (counted 2)) in
    let again = update_self o2.objects p (some (counted 1)) in
    (
      o1,
      o2,
      o3,
      record o3 { objects = update o3.objects p none; open_files = update o3.open_files start 0 },
      open_first dev s start f o z n e,
      open_again dev s start p 1 o1 at n once (omega arith),
      twice,
      held,
      close_at start p f o2 held starts ∙ close_other start p o2 n at twice,
      again,
      at3,
      close_at start p f o3 held starts ∙ close_last start p o3 n at3 again,
      update_self o3.objects p none,
      update_self o3.open_files start 0,
    )
