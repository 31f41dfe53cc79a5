-- ===== src/Fat/Tests.antt =====
-- A small file system at concrete values: the theorems of this folder applied.
use p12_group.Base.{has, ℕ, ◌≡◌, refl, true, false, [], ◌∷◌, arith, ◌==◌, if◌then◌else◌, some}
use p12_group.Fat.{Fat439, add_avail_blk, rem_next_avail, set_next_blk, next_blk}
use p12_group.Fat.Alloc.{FreeList, add_avail_blk-FreeList, set_next_blk-lost}

-- Blocks 9, 8 and 7 are free; a file lies in 4 and 5.
abbrev disk : Fat439
disk = record {
  super = record { n_blocks = 10; avail = 9; root = 3 };
  fat = λ b. if b == 9 then 8 else if b == 8 then 7 else if b == 4 then 5 else 0;
}

free_list : FreeList disk (9 ∷ 8 ∷ 7 ∷ [])
free_list = (omega arith, (refl, (refl, (refl, tt))))

apart : (a : ℕ) → has a (4 ∷ 5 ∷ []) ≡ true → has a (9 ∷ 8 ∷ 7 ∷ []) ≡ false
apart a h = ground arith

add_avail_blk-FreeList_example :
    (fs : Fat439) × (add_avail_blk disk 4 ≡ some fs) × FreeList fs (4 ∷ 5 ∷ 9 ∷ 8 ∷ 7 ∷ [])
add_avail_blk-FreeList_example =
    add_avail_blk-FreeList disk 4 (5 ∷ []) (9 ∷ 8 ∷ 7 ∷ []) free_list (omega arith)
      (refl, (refl, tt)) apart (omega arith)

set_next_blk-lost_example :
    (next_blk (set_next_blk (rem_next_avail disk).1 5 9) 5 ≡ 0)
    × FreeList (set_next_blk (rem_next_avail disk).1 5 9) (8 ∷ 7 ∷ [])
set_next_blk-lost_example = set_next_blk-lost disk 9 (8 ∷ 7 ∷ []) 5 free_list refl
