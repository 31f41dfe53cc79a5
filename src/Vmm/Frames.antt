-- ===== src/Vmm/Frames.antt =====
-- `alloc` and `free` of kernel/vmm.cc: a frame that no table uses is handed out, full of zeros, and given back.
use p12_group.Base.{
  update, update_self, update_ne, ℕ, ◌+◌, ◌*◌, ◌%◌, ◌^◌, ◌<◌, ◌≤◌, ◌≡◌, ◌≢◌, ◌⊎◌, inl, inr, ◌==◌,
  true, false, List, [], ◌∷◌, has, Option, none, some, refl, ap, sym, ◌∙◌, subst, arith, Bool-cases,
}
use p12_group.Vmm.{free, Memory, frame, is_present, bzero, frame_size, alloc}
use p12_group.Vmm.Space.{Chain-same, Chain-aligned, entry_of, table_of, Used, Space, outside, apart}

-- What `alloc` does to the memory of a space.
pub data Allocs (m : Memory) (pd : ℕ) (fs : List ℕ) : Option (ℕ × Memory) → Type 0 where
  allocated :
      (p : ℕ) (m' : Memory) (fs' : List ℕ)
      → Space m' pd fs'
      → Used m' fs' p
      → p ≢ pd
      → ((i : ℕ) → i < 1024 → is_present (entry_of m pd i) ≡ true → table_of m pd i ≢ p)
      → ((a : ℕ) → (a < p) ⊎ (p + 4096 ≤ a) → m'.word a ≡ m.word a)
      → ((a : ℕ) → p ≤ a → a < p + 4096 → m'.word a ≡ 0)
      → Allocs m pd fs (some (p, m'))
  exhausted : fs ≡ [] → m.avail ≡ m.limit → Allocs m pd fs none

-- A change of words that are neither links of free frames nor entries of the directory.
pub same-Space :
    (m : Memory) (pd : ℕ) (fs : List ℕ) (word : ℕ → ℕ)
    → Space m pd fs
    → ((f : ℕ) → has f fs ≡ true → word f ≡ m.word f)
    → ((i : ℕ) → i < 1024 → word (pd + 4 * i) ≡ m.word (pd + 4 * i))
    → Space (record m { word = word }) pd fs
same-Space m pd fs word s f e = record {
  first = s.first;
  chain = Chain-same m.word word fs f s.chain;
  below = s.below;
  aligned = s.aligned;
  bounded = s.bounded;
  directory = s.directory;
  tables = λ i l.
      subst (λ w. is_present w ≡ true → Used m fs (frame w) × (frame w ≢ pd)) (sym (e i l))
        (s.tables i l);
  distinct = λ i j l k.
      subst
        (λ w.
          is_present w ≡ true
          → is_present (word (pd + 4 * j)) ≡ true
          → frame w ≡ frame (word (pd + 4 * j))
          → i ≡ j)
        (sym (e i l))
        (subst
          (λ v.
            is_present (m.word (pd + 4 * i)) ≡ true
            → is_present v ≡ true
            → frame (m.word (pd + 4 * i)) ≡ frame v
            → i ≡ j)
          (sym (e j k)) (s.distinct i j l k));
}

zero_inside : (p a : ℕ) (m : Memory) → p ≤ a → a < p + 4096 → (bzero p m).word a ≡ 0
zero_inside p a m l u = ground arith

zero_outside : (p a : ℕ) (m : Memory) → (a < p) ⊎ (p + 4096 ≤ a) → (bzero p m).word a ≡ m.word a
zero_outside p a m o = ground arith

bzero-Space :
    (m : Memory) (pd : ℕ) (fs : List ℕ) (p : ℕ)
    → Space m pd fs
    → p % 4096 ≡ 0
    → p ≢ pd
    → has p fs ≡ false
    → Space (bzero p m) pd fs
bzero-Space m pd fs p s a n o =
    same-Space m pd fs (bzero p m).word s
      (λ f k. zero_outside p f m (
        let c = Chain-aligned m.word fs f s.chain k in
        let d : f ≢ p = ground arith in at_frame f c d))
      (λ i l.
        zero_outside p (pd + 4 * i) m
          (outside pd p (4 * i) s.directory.0 a (λ q. n (sym q)) (omega arith)))
  where
    at_frame : (f : ℕ) → f % 4096 ≡ 0 → f ≢ p → (f < p) ⊎ (p + 4096 ≤ f)
    at_frame f c d = omega arith

pop-Space :
    (m : Memory) (pd f : ℕ) (fs : List ℕ)
    → Space m pd (f ∷ fs)
    → Space (record m { first_free = m.word f }) pd fs
pop-Space m pd f fs s = record {
  first = s.chain.2;
  chain = s.chain.4;
  below = λ g k. s.below g (ground arith);
  aligned = s.aligned;
  bounded = s.bounded;
  directory = less pd s.directory;
  tables = λ i l k. let (u, n) = s.tables i l k in (less (table_of m pd i) u, n);
  distinct = s.distinct;
}
  where
    less : (t : ℕ) → Used m (f ∷ fs) t → Used m fs t
    less t (a, b, c) = (a, b, ground arith)

bump-Space :
    (m : Memory) (pd : ℕ)
    → Space m pd []
    → m.avail ≢ m.limit
    → Space (record m { avail = (m.avail + frame_size) % 2 ^ 32 }) pd []
bump-Space m pd s n =
    let small : m.avail + 4096 ≤ m.limit = omega (arith, s.aligned, s.bounded) in
    let e : (m.avail + 4096) % 2 ^ 32 ≡ m.avail + 4096 = omega (arith, s.bounded) in
    record {
      first = s.first;
      chain = s.chain;
      below = λ g k. absurd (cc);
      aligned = (omega (arith, s.aligned), s.aligned.1);
      bounded = (omega arith, s.bounded.1);
      directory = more pd e s.directory;
      tables = λ i l k. let (u, o) = s.tables i l k in (more (table_of m pd i) e u, o);
      distinct = s.distinct;
    }
  where
    more :
        (t : ℕ)
        → (m.avail + 4096) % 2 ^ 32 ≡ m.avail + 4096
        → Used m [] t
        → Used (record m { avail = (m.avail + frame_size) % 2 ^ 32 }) [] t
    more t e (a, b, c) = (a, omega arith, c)

alloc-none : (m : Memory) → m.first_free ≡ 0 → (m.avail == m.limit) ≡ true → alloc m ≡ none
unfolding alloc
alloc-none m e f = rw ((let z : (m.first_free == 0) ≡ true = ground arith in z), f) refl

alloc_new :
    (m : Memory)
    → m.first_free ≡ 0
    → (m.avail == m.limit) ≡ false
    → alloc m ≡ some (m.avail, bzero m.avail (record m { avail = (m.avail + frame_size) % 2 ^ 32 }))
unfolding alloc
alloc_new m e f = rw ((let z : (m.first_free == 0) ≡ true = ground arith in z), f) refl

alloc_again :
    (m : Memory) (f : ℕ)
    → m.first_free ≡ f
    → f ≢ 0
    → alloc m ≡ some (f, bzero f (record m { first_free = m.word f }))
unfolding alloc
alloc_again m f e n =
    rw (let z : (m.first_free == 0) ≡ false = ground arith in z)
      (ap (λ k. some (k, bzero k (record m { first_free = m.word k }))) e)

-- `alloc` of the memory of a space hands out a frame that was free, or the first one that was never
-- handed out; the frame is zero and no other word has changed. It panics only when no frame is left.
pub alloc-Allocs : (m : Memory) (pd : ℕ) (fs : List ℕ) → Space m pd fs → Allocs m pd fs (alloc m)
alloc-Allocs m pd [] s = elim (Bool-cases (m.avail == m.limit)) [
  | inl e ↦ subst (Allocs m pd []) (sym (alloc-none m s.first e)) (exhausted refl (ground arith))
  | inr e ↦
      let n : m.avail ≢ m.limit = ground arith in
      let m1 : Memory = record m { avail = (m.avail + frame_size) % 2 ^ 32 } in
      let r : m.avail < (m.avail + 4096) % 2 ^ 32 = omega (arith, s.aligned, s.bounded) in
      let d : m.avail ≢ pd = omega (arith, s.directory) in
      subst (Allocs m pd []) (sym (alloc_new m s.first e)) (
        allocated m.avail (bzero m.avail m1) []
          (bzero-Space m1 pd [] m.avail (bump-Space m pd s n) s.aligned.0 d refl)
          (s.aligned.0, r, refl) d (λ i l k q. absurd (omega (arith, (s.tables i l k).0.1)))
          (λ a o. zero_outside m.avail a m1 o) (λ a l u. zero_inside m.avail a m1 l u))
]
alloc-Allocs m pd (f ∷ fs) s =
    let m1 : Memory = record m { first_free = m.word f } in
    let mine : has f (f ∷ fs) ≡ true = ground arith in
    let d : f ≢ pd = differs pd s.directory in
    subst (Allocs m pd (f ∷ fs)) (sym (alloc_again m f s.first s.chain.0)) (
      allocated f (bzero f m1) fs
        (bzero-Space m1 pd fs f (pop-Space m pd f fs s) s.chain.1 d s.chain.3)
        (s.chain.1, s.below f mine, s.chain.3) d
        (λ i l k q. differs (table_of m pd i) (s.tables i l k).0 (sym q))
        (λ a o. zero_outside f a m1 o) (λ a l u. zero_inside f a m1 l u))
  where
    differs : (t : ℕ) → Used m (f ∷ fs) t → f ≢ t
    differs t (a, b, c) = ground arith

-- `free` of a frame that is in use, but by no table, puts it in front of the free ones.
pub free-Space :
    (m : Memory) (pd : ℕ) (fs : List ℕ) (p : ℕ)
    → Space m pd fs
    → Used m fs p
    → p ≢ 0
    → p ≢ pd
    → ((i : ℕ) → i < 1024 → is_present (entry_of m pd i) ≡ true → table_of m pd i ≢ p)
    → Space (free p m) pd (p ∷ fs)
unfolding free
free-Space m pd fs p s u z d t =
    let w : Memory = record m { word = update m.word p m.first_free } in
    let s' =
      same-Space m pd fs w.word s (λ f k. update_ne m.word p f m.first_free (differs f k u))
        (λ i l. update_ne m.word p (pd + 4 * i) m.first_free (entries i l u s.directory)) in
    record {
      first = refl;
      chain = (z, u.0, update_self m.word p m.first_free ∙ s.first, u.2, s'.chain);
      below = λ f k. under f k u;
      aligned = s.aligned;
      bounded = s.bounded;
      directory = more pd (λ e. d (sym e)) s.directory;
      tables = λ i l k.
          let e : entry_of w pd i ≡ entry_of m pd i =
            update_ne m.word p (pd + 4 * i) m.first_free (entries i l u s.directory) in
          let (a, b) = s'.tables i l k in
          (
            more (table_of w pd i) (λ q. t i l (sym (ap is_present e) ∙ k) (sym (ap frame e) ∙ q))
                a,
            b,
          );
      distinct = s'.distinct;
    }
  where
    differs : (f : ℕ) → has f fs ≡ true → Used m fs p → f ≢ p
    differs f k (a, b, c) = ground arith

    entries : (i : ℕ) → i < 1024 → Used m fs p → Used m fs pd → pd + 4 * i ≢ p
    entries i l (a, b, c) (x, y, w) e =
        apart pd p (4 * i) 0 x a (λ q. d (sym q)) (omega arith) (omega arith) (omega (arith, e))

    under : (f : ℕ) → has f (p ∷ fs) ≡ true → Used m fs p → f < m.avail
    under f k (a, b, c) = elim (Bool-cases (f == p)) [
      | inl e ↦ ground arith
      | inr e ↦ s.below f (ground arith)
    ]

    more : (x : ℕ) → x ≢ p → Used m fs x → Used m (p ∷ fs) x
    more x n (a, b, c) = (a, b, ground arith)
