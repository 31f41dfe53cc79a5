-- ===== src/Files/Shared.antt =====
-- The open files of `Fat439` in kernel/fs.cc: one object for each file in use, with a count of those who
-- use it. The mutex of the table surrounds `openFile` and `closeFile`; `none` is an access to a deleted
-- object.
pub mod Counts
mod Tests
use p12_group.Base.{ℕ, ◌+◌, ◌==◌, if◌then◌else◌, Option, none, some, update}
use p12_group.Block.Interface.{BlockDevice}
use p12_group.Files.{OpenFile, open_file}
use p12_group.Heap.{◌>>=◌}
use p12_group.Resource
use p12_group.Resource.{ResourceType, Resource, Store, ref, unref}

-- `open_files` are the addresses of the objects by first block, 0 for nullptr, `file` what an object holds,
-- and `fresh` the address that `new` would return.
pub record OpenFiles : Type 0 where
  pub objects : Store
  pub open_files : ℕ → ℕ
  pub file : ℕ → OpenFile
  pub fresh : ℕ

unfoldable pub refer : ℕ → OpenFiles → Option (ℕ × OpenFiles)
refer p o = elim (ref p o.objects) [
  | Resource.fault ↦ none
  | Resource.ok q objects ↦ some (q, record o { objects = objects })
]

abbrev pub new_object : ℕ → OpenFile → OpenFiles → OpenFiles
new_object start f o = record {
  objects = update o.objects o.fresh (some (record { type = ResourceType.other; count = 0 }));
  open_files = update o.open_files start o.fresh;
  file = update o.file o.fresh f;
  fresh = o.fresh + 1;
}

module _ {S : Type 0} (dev : BlockDevice S) (s : S) where
  -- `Fat439::openFile`.
  unfoldable pub open_shared : ℕ → OpenFiles → Option (ℕ × OpenFiles)
  unfolding refer
  open_shared start o =
      if o.open_files start == 0
      then open_file dev s start >>= (λ f. refer o.fresh (new_object start f o))
      else refer (o.open_files start) o

-- The end of `Fat439::closeFile`, for the first block of the file.
unfoldable pub close_start : ℕ → OpenFiles → Option OpenFiles
close_start start o = elim (unref (o.open_files start) o.objects) [
  | Resource.fault ↦ none
  | Resource.ok q objects ↦
      some (record o { objects = objects; open_files = update o.open_files start q })
]

-- `Fat439::closeFile`.
unfoldable pub close_shared : ℕ → OpenFiles → Option OpenFiles
close_shared p o = close_start (o.file p).start o
