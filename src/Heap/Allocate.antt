-- ===== src/Heap/Allocate.antt =====
-- `malloc` of kernel/heap.cc, with the fuel that the list of available blocks needs.
use p12_group.Base.{ℕ, ◌+◌, ◌≤◌, ◌≡◌, ◌≢◌, List, [], ◌∷◌, refl, ap, ◌∙◌, arith, length, some, ne→==}
use p12_group.Base.Int.{ℤ, pos}
use p12_group.Heap.{Heap, sanity, malloc, ints_of}
use p12_group.Heap.Blocks.{Block, taken, avail, total, Tiles, starts}
use p12_group.Heap.Links.{front}
use p12_group.Heap.Shape.{Linked, IsHeap, sanity-Linked, sanity_zero}
use p12_group.Heap.Malloc.{Mallocs, first_fit-Mallocs}

pub length-starts-total :
    (a : ℕ → ℤ) (i : ℕ) (bs : List Block) → Tiles a i bs → length (starts i bs) ≤ total bs
length-starts-total a i [] t = omega arith
length-starts-total a i (taken n ∷ bs) (l, h, f, t) =
    omega (arith, length-starts-total a (i + n) bs t)
length-starts-total a i (avail n ∷ bs) (l, h, f, t) =
    omega (arith, length-starts-total a (i + n) bs t)

pub sanity-first :
    (h : Heap) (bs : List Block) (idxs : List ℕ)
    → Linked h bs idxs
    → sanity h (pos h.avail) ≡ some (front idxs 0)
sanity-first h bs [] l = ap (λ k. sanity h (pos k)) l.first ∙ sanity_zero h
sanity-first h bs (x ∷ xs) l =
    ap (λ k. sanity h (pos k)) l.first ∙ sanity-Linked h bs (x ∷ xs) x l (ground arith)

pub four-ints_of : (bytes : ℕ) → 4 ≤ ints_of bytes
four-ints_of bytes = ground arith

-- In a heap of blocks, `malloc` of some bytes takes the first block of the list of available ones that
-- is large enough, carves the ints of the request out of it, and leaves a heap of these and the other
-- blocks; or it panics, and every available block is too small.
pub malloc-Mallocs :
    (h : Heap) (bs : List Block) (idxs : List ℕ) (bytes : ℕ)
    → IsHeap h bs idxs
    → bytes ≢ 0
    → Mallocs h bs idxs (ints_of bytes) (malloc bytes h)
unfolding malloc
malloc-Mallocs h bs idxs bytes i n =
    rw (ne→== bytes 0 n, sanity-first h bs idxs i.linked)
      (first_fit-Mallocs h bs idxs (ints_of bytes) i (four-ints_of bytes) (h.len + 1) [] idxs refl
        (omega (arith, i.number, i.linked.covers, length-starts-total h.array 0 bs i.linked.tiles))
        (λ y m. absurd (cc)))
