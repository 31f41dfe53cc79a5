-- ===== src/Block/Ram.antt =====
-- A device in memory with blocks of n bytes, which meets the interface of kernel/block.h.
use p12_group.Base.{
  ℕ, zero, suc, ◌<◌, ◌≡◌, refl, List, [], ◌∷◌, arith, length, get_or, get_or_ext, update,
  update_self, update_ne, ap, ◌∙◌,
}
use p12_group.Block.Interface.{BlockDevice, IsBlockDevice}

abbrev pub tabulate : ℕ → (ℕ → ℕ) → List ℕ
tabulate zero f = []
tabulate (suc n) f = f 0 ∷ tabulate n (λ i. f (suc i))

length-tabulate : (n : ℕ) (f : ℕ → ℕ) → length (tabulate n f) ≡ n
length-tabulate zero f = refl
length-tabulate (suc n) f = ap suc (length-tabulate n (λ i. f (suc i)))

pub get_or-tabulate : (n : ℕ) (f : ℕ → ℕ) (i : ℕ) → i < n → get_or (tabulate n f) i 0 ≡ f i
get_or-tabulate zero f i h = absurd (omega arith)
get_or-tabulate (suc n) f zero h = refl
get_or-tabulate (suc n) f (suc i) h = get_or-tabulate n (λ i. f (suc i)) i (omega arith)

abbrev pub Memory : Type 0
Memory = ℕ → ℕ → ℕ

abbrev pub disk_of : (n : ℕ) → BlockDevice Memory
disk_of n = record {
  block_size = n;
  read_block = λ s b. tabulate n (s b);
  write_block = λ s b buf. update s b (λ i. get_or buf i 0);
}

pub disk_of-IsBlockDevice : (n : ℕ) → 0 < n → IsBlockDevice (disk_of n)
disk_of-IsBlockDevice n z = record {
  positive = z;
  length_read = λ s b. length-tabulate n (s b);
  read_written = λ s b buf h.
      ap (tabulate n) (update_self s b (λ i. get_or buf i 0))
      ∙ get_or_ext 0 (tabulate n (λ i. get_or buf i 0)) buf (length-tabulate n _ ∙ omega (arith, h))
          (λ i l.
            get_or-tabulate n (λ i. get_or buf i 0) i
              (omega (arith, l, length-tabulate n (λ i. get_or buf i 0))));
  read_other = λ s b c buf h. ap (tabulate n) (update_ne s b c (λ i. get_or buf i 0) h);
}
