-- ===== src/UserHeap/Agree.antt =====
-- Where an operation of kernel/heap.cc does not panic, that of user/heap.c does the same.
use p12_group.Base.{
  ℕ, zero, suc, ◌+◌, ◌≡◌, ◌==◌, leb, if◌then◌else◌, Bool, true, false, Option, none, some, refl, ap,
  sym, subst, arith,
}
use p12_group.Base.Int.{ℤ, pos, negsuc, same}
use p12_group.Heap
use p12_group.Heap.{Heap, ◌>>=◌, is_avail, is_taken, size, header_from_footer, footer_from_header}
use p12_group.UserHeap.{
  sanity, left, right, next, prev, remove, carve, join_left, join_right, coalesce, free,
}

-- The first run ends in nothing, or both end in the same.
abbrev pub Below : {A : Type 0} → Option A → Option A → Type 0
Below none u = Unit {0}
Below (some x) u = u ≡ some x

pub bind-Below :
    {A B : Type 0} (o u : Option A) (f g : A → Option B)
    → Below o u
    → ((x : A) → Below (f x) (g x))
    → Below (o >>= f) (u >>= g)
bind-Below none u f g b n = tt
bind-Below (some x) u f g b n = subst (λ v. Below (f x) (v >>= g)) (sym b) (n x)

pub refl-Below : {A : Type 0} (o : Option A) → Below o o
refl-Below none = tt
refl-Below (some x) = refl

pub if-Below :
    {A : Type 0} (t : Bool) (a b c d : Option A)
    → Below a c
    → Below b d
    → Below (if t then a else b) (if t then c else d)
if-Below true a b c d x y = x
if-Below false a b c d x y = y

checked :
    (z a b c : Bool) (i : ℕ)
    → (z ≡ true → 0 ≡ i)
    → Below
        (if z then some 0 else if a then none else if b then none else if c then some i else none)
        (some i)
checked true a b c i e = ap some (sym (e refl))
checked false true b c i e = tt
checked false false true c i e = tt
checked false false false true i e = refl
checked false false false false i e = tt

pub sanity-Below : (h : Heap) (i : ℤ) → Below (Heap.sanity h i) (sanity i)
unfolding Heap.sanity sanity
sanity-Below h (negsuc i) = tt
sanity-Below h (pos i) =
    checked (i == 0) (leb h.len i) (leb h.len (footer_from_header h i))
      (same (h.array i) (h.array (footer_from_header h i))) i (λ e. ground arith)

left-Below : (h : Heap) (i : ℕ) → Below (Heap.left h i) (left h i)
unfolding Heap.left left
left-Below h zero = tt
left-Below h (suc i) = sanity-Below h (header_from_footer h i)

right-Below : (h : Heap) (i : ℕ) → Below (Heap.right h i) (right h i)
unfolding Heap.right right
right-Below h i = sanity-Below h (pos (i + size h i))

pub next-Below : (h : Heap) (i : ℕ) → Below (Heap.next h i) (next h i)
unfolding Heap.next next
next-Below h i = sanity-Below h (h.array (i + 1))

prev-Below : (h : Heap) (i : ℕ) → Below (Heap.prev h i) (prev h i)
unfolding Heap.prev prev
prev-Below h i = sanity-Below h (h.array (i + 2))

pub remove-Below : (h : Heap) (i : ℕ) → Below (Heap.remove i h) (remove i h)
unfolding Heap.remove remove
remove-Below h i =
    bind-Below (Heap.prev h i) (prev h i) _ _ (prev-Below h i)
      λ p. bind-Below (Heap.next h i) (next h i) _ _ (next-Below h i) λ n. refl

pub carve_lem : (p sz n : ℕ) (h : Heap) → carve p sz n h ≡ Heap.carve p sz n h
unfolding Heap.carve carve
carve_lem p sz n h = refl

join_left-Below :
    (l idx sz : ℕ) (h : Heap) → Below (Heap.join_left l idx sz h) (join_left l idx sz h)
unfolding Heap.join_left join_left
join_left-Below l idx sz h =
    if-Below (is_avail h l) _ _ _ _
      (bind-Below (Heap.remove l h) (remove l h) _ _ (remove-Below h l) λ h'. refl) refl

join_right-Below : (r sz : ℕ) (h : Heap) → Below (Heap.join_right r sz h) (join_right r sz h)
unfolding Heap.join_right join_right
join_right-Below r sz h =
    if-Below (is_avail h r) _ _ _ _
      (bind-Below (Heap.remove r h) (remove r h) _ _ (remove-Below h r) λ h'. refl) refl

coalesce-Below : (idx : ℕ) (h : Heap) → Below (Heap.coalesce idx h) (coalesce idx h)
unfolding Heap.coalesce coalesce
coalesce-Below idx h = bind-Below (Heap.left h idx) (left h idx) _ _ (left-Below h idx) λ l.
    bind-Below (Heap.right h idx) (right h idx) _ _ (right-Below h idx) λ r.
      bind-Below (Heap.join_left l idx (size h idx) h) (join_left l idx (size h idx) h) _ _
        (join_left-Below l idx (size h idx) h)
        λ x.
          bind-Below (Heap.join_right r x.1 x.2) (join_right r x.1 x.2) _ _
            (join_right-Below r x.1 x.2) λ y. refl

-- Where the kernel's `free` does not panic, the `free` of the user programs does the same.
pub free-Below : (p : Option ℕ) (h : Heap) → Below (Heap.free p h) (free p h)
unfolding Heap.free free
free-Below none h = refl
free-Below (some zero) h = refl
free-Below (some (suc idx)) h = go (Heap.sanity h (pos idx)) (sanity-Below h (pos idx))
  where
    go :
        (o : Option ℕ)
        → Below o (some idx)
        → Below
            (o >>= (λ i. if is_taken h i then Heap.coalesce i h else none))
            (if is_taken h idx then coalesce idx h else some h)
    go none b = tt
    go (some i) b =
        let e : i ≡ idx = ground (arith, b) in
        subst
          (λ j.
            Below (if is_taken h i then Heap.coalesce i h else none)
              (if is_taken h j then coalesce j h else some h))
          e (if-Below (is_taken h i) _ _ _ _ (coalesce-Below i h) tt)
