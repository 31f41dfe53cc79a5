-- ===== src/Vmm.antt =====
-- kernel/vmm.cc: physical frames and page tables. The memory is a word for each address; frames and
-- tables are aligned, and the kernel's addresses are physical ones. `none` is `Debug::panic`. The
-- operations disable interrupts around the bodies below, and the flush of a translation from the
-- processor (`invlpg`) has no counterpart: translations are read from the tables.
pub mod Space
pub mod Frames
pub mod Install
pub mod Walk
mod Tests
use p12_group.Base.{
  ℕ, zero, suc, ◌+◌, ◌-◌, ◌*◌, ◌/◌, ◌%◌, ◌^◌, ◌==◌, ltb, leb, if◌then◌else◌, Bool, true, false,
  ◌&&◌, Option, none, some, update,
}

pub record Memory : Type 0 where
  pub word : ℕ → ℕ
  pub first_free : ℕ
  pub avail : ℕ
  pub limit : ℕ

infixl 5 ◌>>=◌
abbrev pub ◌>>=◌ : {A B : Type 0} → Option A → (A → Option B) → Option B
none >>= f = none
some a >>= f = f a

abbrev pub frame_size : ℕ
frame_size = 4096

-- `x & 0xfffff000`
abbrev pub frame : ℕ → ℕ
frame x = x / 4096 * 4096

-- `x & P`
abbrev pub is_present : ℕ → Bool
is_present x = x % 2 == 1

abbrev pub write : ℕ → ℕ → Memory → Memory
write a v m = record m { word = update m.word a v }

abbrev pub bzero : ℕ → Memory → Memory
bzero p m = record m { word = λ a. if leb p a && ltb a (p + frame_size) then 0 else m.word a }

abbrev pub memcpy : ℕ → ℕ → Memory → Memory
memcpy dest src m = record m {
  word =
      λ a. if leb dest a && ltb a (dest + frame_size) then m.word (src + (a - dest)) else m.word a;
}

-- The entry of the page fault in the table of interrupts, which `PhysMem::init` also sets, is not part
-- of the state.
unfoldable pub init : ℕ → ℕ → Memory → Memory
init start end m = record m { first_free = 0; avail = start; limit = end }

unfoldable pub alloc : Memory → Option (ℕ × Memory)
alloc m =
    if m.first_free == 0
    then (if m.avail == m.limit
        then none
        else some (m.avail, bzero m.avail (record m { avail = (m.avail + frame_size) % 2 ^ 32 })))
    else some (m.first_free, bzero m.first_free (record m { first_free = m.word m.first_free }))

unfoldable pub free : ℕ → Memory → Memory
free p m = record m { word = update m.word p m.first_free; first_free = p }

-- The index of an address in the directory, and in its table.
abbrev pub dir_index : ℕ → ℕ
dir_index va = va / 2 ^ 22 % 1024

abbrev pub table_index : ℕ → ℕ
table_index va = va / 2 ^ 12 % 1024

-- The table of the directory entry, which is made if there is none; `| 7` sets the low three bits.
unfoldable pub with_table : ℕ → Memory → Option Memory
unfolding alloc
with_table e m =
    if is_present (m.word e)
    then some m
    else alloc m >>= (λ r. some (write e (r.0 / 8 * 8 + 7) r.1))

-- The address of the entry that `getPTE` refers to.
unfoldable pub get_pte : ℕ → ℕ → Memory → Option (ℕ × Memory)
unfolding with_table
get_pte pd va m = do
  m' ← with_table (pd + 4 * dir_index va) m
  some (frame (m'.word (pd + 4 * dir_index va)) + 4 * table_index va, m')

unfoldable pub punmap : ℕ → ℕ → Memory → Option Memory
unfolding get_pte
punmap pd va m = do (a, m') ← get_pte pd va m; some (write a 0 m')

abbrev pub entry : ℕ → Bool → Bool → ℕ
entry pa for_user for_write =
    frame pa + (if for_user then 4 else 0) + (if for_write then 2 else 0) + 1

unfoldable pub pmap : ℕ → ℕ → ℕ → Bool → Bool → Memory → Option Memory
unfolding get_pte
pmap pd va pa for_user for_write m = do
  (a, m') ← get_pte pd va m
  some (write a (entry pa for_user for_write) m')

-- The body of a loop from i on, n times.
abbrev pub for_each : ℕ → ℕ → (ℕ → Memory → Option Memory) → Memory → Option Memory
for_each zero i body m = some m
for_each (suc n) i body m = body i m >>= for_each n (i + 1) body

-- The loop of the constructor on fuel: an entry for each frame of the kernel.
unfoldable pub map_kernel : ℕ → ℕ → ℕ → Memory → Option Memory
unfolding pmap
map_kernel zero pd va m = none
map_kernel (suc fuel) pd va m =
    let rest = pmap pd va va false true m >>= map_kernel fuel pd ((va + frame_size) % 2 ^ 32) in
    if ltb va m.limit then rest else some m

-- The constructor: the directory and its memory.
unfoldable pub new_space : Memory → Option (ℕ × Memory)
unfolding map_kernel alloc
new_space m = do (pd, m1) ← alloc m; m2 ← map_kernel (2 ^ 20) pd frame_size m1; some (pd, m2)

-- The pages of a table go back, those of the kernel's table excepted.
unfoldable pub free_pages : ℕ → ℕ → Memory → Option Memory
unfolding free
free_pages i0 pt m =
    if i0 == 0
    then some m
    else for_each 1024 0
        (λ i1 k.
          let pte = k.word (pt + 4 * i1) in some (if is_present pte then free (frame pte) k else k))
        m

-- The destructor.
unfoldable pub delete_space : ℕ → Memory → Option Memory
unfolding free_pages free
delete_space pd m = do
  m' ←
      for_each 1024 0
        (λ i0 k.
          let pde = k.word (pd + 4 * i0) in
          if is_present pde
          then free_pages i0 (frame pde) k >>= (λ k'. some (free (frame pde) k'))
          else some k)
        m
  some (free pd m')

abbrev pub address : ℕ → ℕ → ℕ
address i0 i1 = i0 * 2 ^ 22 + i1 * 2 ^ 12

-- A page of `fork` for the child.
unfoldable pub copy_page : ℕ → ℕ → ℕ → Memory → Option Memory
unfolding alloc pmap
copy_page child va src m = do
  (dest, m1) ← alloc m
  pmap child va dest true true (memcpy dest src m1)

unfoldable pub fork : ℕ → ℕ → Memory → Option Memory
unfolding copy_page
fork pd child m =
    for_each 512 512
      (λ i0 k.
        let pde = k.word (pd + 4 * i0) in
        if is_present pde
        then for_each 1024 0
            (λ i1 l.
              let pte = l.word (frame pde + 4 * i1) in
              if is_present pte then copy_page child (address i0 i1) (frame pte) l else some l)
            k
        else some k)
      m

unfoldable pub exec : ℕ → Memory → Option Memory
unfolding free
exec pd m =
    for_each 512 512
      (λ i0 k.
        let pde = k.word (pd + 4 * i0) in
        if is_present pde
        then for_each 1024 0
            (λ i1 l.
              let a = frame pde + 4 * i1 in
              let pte = l.word a in
              some (if is_present pte then free (frame pte) (write a 0 l) else l))
            k
        else some k)
      m

-- A page fault kills the process below the first page, and gives it a page in its half.
pub data Fault : Type 0 where
  kill : Fault
  mapped : Memory → Fault
  panic : Fault

unfoldable pub handle_page_fault : ℕ → ℕ → Memory → Fault
unfolding alloc pmap
handle_page_fault pd va m =
    let page = alloc m >>= (λ r. pmap pd va r.0 true true r.1) in
    if ltb va 4096
    then kill
    else if leb 0x80000000 va
    then elim page [ some m' ↦ mapped m' | none ↦ panic ]
    else panic
