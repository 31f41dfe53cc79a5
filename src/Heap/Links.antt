-- ===== src/Heap/Links.antt =====
-- The list of available blocks of kernel/heap.cc, linked in both directions through the array.
use p12_group.Base.{
  ℕ, ◌+◌, ◌≡◌, ◌≢◌, inl, inr, ◌==◌, if◌then◌else◌, true, List, [], ◌∷◌, ◌++◌, refl, ap, sym, ◌∙◌,
  subst, has, update, update_self, update_ne, arith, ne→==,
}
use p12_group.Base.Int.{ℤ, pos}
use p12_group.Heap.Spaced.{
  Far, Away, Spaced, Off, Away-all, Away-mem, Off-Away, Spaced-Far, Spaced-left, Spaced-right,
  Spaced-without,
}

-- The index of the first block of the list, or e; the index of the last one, or p.
abbrev pub front : List ℕ → ℕ → ℕ
front [] e = e
front (x ∷ xs) e = x

abbrev pub last_of : ℕ → List ℕ → ℕ
last_of p [] = p
last_of p (x ∷ xs) = last_of x xs

-- Each block leads to the next one and back; p stands before the first one, and e after the last one.
abbrev pub Links : (ℕ → ℤ) → ℕ → List ℕ → ℕ → Type 0
Links a p [] e = Unit {0}
Links a p (x ∷ xs) e = (a (x + 1) ≡ pos (front xs e)) × (a (x + 2) ≡ pos p) × Links a x xs e

front-append : (us ws : List ℕ) (e : ℕ) → front (us ++ ws) e ≡ front us (front ws e)
front-append [] ws e = refl
front-append (u ∷ us) ws e = refl

pub Links-split :
    (a : ℕ → ℤ) (p : ℕ) (us ws : List ℕ) (e : ℕ)
    → Links a p (us ++ ws) e
    → Links a p us (front ws e) × Links a (last_of p us) ws e
Links-split a p [] ws e l = (tt, l)
Links-split a p (u ∷ us) ws e (f, b, l) =
    let (x, y) = Links-split a u us ws e l in ((f ∙ ap pos (front-append us ws e), b, x), y)

pub Links-append :
    (a : ℕ → ℤ) (p : ℕ) (us ws : List ℕ) (e : ℕ)
    → Links a p us (front ws e)
    → Links a (last_of p us) ws e
    → Links a p (us ++ ws) e
Links-append a p [] ws e x y = y
Links-append a p (u ∷ us) ws e (f, b, x) y =
    (f ∙ ap pos (sym (front-append us ws e)), b, Links-append a u us ws e x y)

pub Links-update :
    (a : ℕ → ℤ) (k : ℕ) (v : ℤ) (p : ℕ) (xs : List ℕ) (e : ℕ)
    → Off k xs
    → Links a p xs e
    → Links (update a k v) p xs e
Links-update a k v p [] e o l = tt
Links-update a k v p (x ∷ xs) e (n, m, o) (f, b, l) = (
  update_ne a k (x + 1) v (λ q. n (sym q)) ∙ f,
  update_ne a k (x + 2) v (λ q. m (sym q)) ∙ b,
  Links-update a k v x xs e o l,
)

pub has-last_of : (u : ℕ) (us : List ℕ) → has (last_of u us) (u ∷ us) ≡ true
has-last_of u [] = ground arith
has-last_of u (v ∷ us) = ground (arith, has-last_of v us)

-- The last block leads elsewhere.
Links-end :
    (a : ℕ → ℤ) (p u : ℕ) (us : List ℕ) (e n : ℕ)
    → Spaced (u ∷ us)
    → Links a p (u ∷ us) e
    → Links (update a (last_of u us + 1) (pos n)) p (u ∷ us) n
Links-end a p u [] e n s (f, b, l) =
    (update_self a (u + 1) (pos n), update_ne a (u + 1) (u + 2) (pos n) (omega arith) ∙ b, tt)
Links-end a p u (v ∷ us) e n (z, w, s) (f, b, l) =
    let far = Away-mem u (last_of v us) (v ∷ us) w (has-last_of v us) in
    (
      update_ne a (last_of v us + 1) (u + 1) (pos n) (ground arith) ∙ f,
      update_ne a (last_of v us + 1) (u + 2) (pos n) (ground arith) ∙ b,
      Links-end a u v us e n s l,
    )

-- The first block leads back elsewhere.
pub Links-start :
    (a : ℕ → ℤ) (p q v : ℕ) (vs : List ℕ) (e : ℕ)
    → Away v vs
    → Links a p (v ∷ vs) e
    → Links (update a (v + 2) (pos q)) q (v ∷ vs) e
Links-start a p q v vs e w (f, b, l) = (
  update_ne a (v + 2) (v + 1) (pos q) (omega arith) ∙ f,
  update_self a (v + 2) (pos q),
  Links-update a (v + 2) (pos q) v vs e (Off-Away v (v + 2) vs w (omega arith) (omega arith)) l,
)

-- The writes of `remove`: the next block of p becomes n, the previous block of n becomes p.
abbrev pub forward : (ℕ → ℤ) → ℕ → ℕ → ℕ → ℤ
forward a p n = if p == 0 then a else update a (p + 1) (pos n)

abbrev pub backward : (ℕ → ℤ) → ℕ → ℕ → ℕ → ℤ
backward a p n = if n == 0 then a else update a (n + 2) (pos p)

Away-last : (u : ℕ) (us vs : List ℕ) → Spaced (u ∷ us ++ vs) → Away (last_of u us) vs
Away-last u us vs s =
    Away-all (last_of u us) vs
      (λ y m. Spaced-Far (last_of u us) y (u ∷ us) vs s (has-last_of u us) m)

pub last_of-pos : (u : ℕ) (us : List ℕ) → Spaced (u ∷ us) → last_of u us ≢ 0
last_of-pos u [] s = s.0
last_of-pos u (v ∷ us) s = last_of-pos v us s.2

forward-Links :
    (a : ℕ → ℤ) (us vs : List ℕ) (x : ℕ)
    → Spaced (us ++ vs)
    → Links a 0 us x
    → Links a x vs 0
    → Links (forward a (last_of 0 us) (front vs 0)) 0 us (front vs 0)
      × Links (forward a (last_of 0 us) (front vs 0)) x vs 0
forward-Links a [] vs x s l m = (tt, m)
forward-Links a (u ∷ us) vs x s l m =
    let z = last_of-pos u us (Spaced-left (u ∷ us) vs s) in
    let w = Away-last u us vs s in
    let open_forward : forward a (last_of u us) (front vs 0)
        ≡ update a (last_of u us + 1) (pos (front vs 0)) =
      rw (ne→== (last_of u us) 0 z) refl in
    subst (λ b. Links b 0 (u ∷ us) (front vs 0) × Links b x vs 0) (sym open_forward)
      (
        Links-end a 0 u us x (front vs 0) (Spaced-left (u ∷ us) vs s) l,
        Links-update a (last_of u us + 1) (pos (front vs 0)) x vs 0
            (Off-Away (last_of u us) (last_of u us + 1) vs w (omega arith) (omega arith)) m,
      )

backward-Links :
    (a : ℕ → ℤ) (us vs : List ℕ) (x : ℕ)
    → Spaced (us ++ vs)
    → Links a 0 us (front vs 0)
    → Links a x vs 0
    → Links (backward a (last_of 0 us) (front vs 0)) 0 (us ++ vs) 0
backward-Links a us [] x s l m = Links-append a 0 us [] 0 l tt
backward-Links a us (v ∷ vs) x s l m =
    let r = Spaced-right us (v ∷ vs) s in
    let w = Away-all v us (λ y k. swap y (Spaced-Far y v us (v ∷ vs) s k (ground arith))) in
    rw (ne→== v 0 r.0) (
      Links-append (update a (v + 2) (pos (last_of 0 us))) 0 us (v ∷ vs) 0
        (Links-update a (v + 2) (pos (last_of 0 us)) 0 us v
          (Off-Away v (v + 2) us w (omega arith) (omega arith)) l)
        (Links-start a x (last_of 0 us) v vs 0 r.1 m))
  where
    swap : (y : ℕ) → Far y v → Far v y
    swap y (inl h) = inr h
    swap y (inr h) = inl h

-- The list without the block x.
pub unlinked-Links :
    (a : ℕ → ℤ) (us vs : List ℕ) (x : ℕ)
    → Spaced (us ++ x ∷ vs)
    → Links a 0 (us ++ x ∷ vs) 0
    → Links
        (backward (forward a (last_of 0 us) (front vs 0)) (last_of 0 us) (front vs 0))
        0
        (us ++ vs)
        0
unlinked-Links a us vs x s l =
    let (m, n) = Links-split a 0 us (x ∷ vs) 0 l in
    let t = Spaced-without x us vs s in
    let (p, q) = forward-Links a us vs x t m n.2 in
    backward-Links (forward a (last_of 0 us) (front vs 0)) us vs x t p q
