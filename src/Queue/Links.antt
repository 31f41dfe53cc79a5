-- ===== src/Queue/Links.antt =====
-- The queue of kernel/queue.h against the list of its values.
use p12_group.Base.{
  ℕ, ◌≡◌, ◌≢◌, refl, arith, sym, ap, ◌∙◌, true, false, List, [], ◌∷◌, ◌++◌, has, Distinct, Option,
  none, some, update, update_self, update_ne, ne→==, subst, Distinct-snoc,
}
use p12_group.Queue.{Node, SimpleQueue, Nodes, simple_queue, add_tail, remove_head}

module _ {T : Type 0} where
  -- The address of the first node.
  abbrev pub front : List (ℕ × T) → ℕ
  front [] = 0
  front ((a, v) ∷ ns) = a

  abbrev pub addresses : List (ℕ × T) → List ℕ
  addresses [] = []
  addresses ((a, v) ∷ ns) = a ∷ addresses ns

  -- The nodes behind `prev`, each linked to both neighbours, up to `last`.
  abbrev pub Links : Nodes T → ℕ → ℕ → List (ℕ × T) → Type 0
  Links h prev last [] = last ≡ prev
  Links h prev last ((a, v) ∷ ns) =
      (a ≢ 0)
      × (h a ≡ some (record { next = front ns; prev = prev; value = v }))
      × Links h a last ns

  -- The queue holds the values of ns, in this order, in nodes of its own.
  pub record IsQueue (q : SimpleQueue) (h : Nodes T) (ns : List (ℕ × T)) : Type 0 where
    pub first : q.first ≡ front ns
    pub links : Links h 0 q.last ns
    pub distinct : Distinct (addresses ns)

  Links-update :
      (h : Nodes T) (p : ℕ) (c : Option (Node T)) (prev last : ℕ) (ns : List (ℕ × T))
      → has p (addresses ns) ≡ false
      → Links h prev last ns
      → Links (update h p c) prev last ns
  Links-update h p c prev last [] o l = l
  Links-update h p c prev last ((a, v) ∷ ns) o l =
      (l.0, update_ne h p a c (ground arith) ∙ l.1, Links-update h p c a last ns (ground arith) l.2)

  -- `removeHead` of a queue that is not empty returns its first value; the queue then holds the
  -- others, in the nodes that they had, and the node of that value is deleted.
  pub remove_head-IsQueue :
      (q : SimpleQueue) (h : Nodes T) (a : ℕ) (v : T) (ns : List (ℕ × T))
      → IsQueue q h ((a, v) ∷ ns)
      → (q' : SimpleQueue) × (h' : Nodes T) × (remove_head q h ≡ some (v, q', h'))
        × IsQueue q' h' ns
        × (h' a ≡ none)
  unfolding remove_head
  remove_head-IsQueue q h a v [] i = (
    simple_queue,
    update h a none,
    rw (i.first, remove_head, i.links.1, i.first) refl,
    record { first = refl; links = refl; distinct = tt },
    update_self h a none,
  )
  remove_head-IsQueue q h a v ((b, w) ∷ ns) i =
      let off : b ≢ a = ground (arith, i.distinct) in
      let node = i.links.2.1 in
      let c : Node T = record { next = front ns; prev = 0; value = w } in
      let h1 : Nodes T = update h b (some c) in
      (
        record { first = b; last = q.last },
        update h1 a none,
        rw (i.first, remove_head, i.links.1, ne→== b 0 i.links.2.0, node, i.first) refl,
        record {
          first = refl;
          links = (
            i.links.2.0,
            update_ne h1 a b none off ∙ update_self h b (some c),
            Links-update h1 a none b q.last ns (ground (arith, i.distinct))
                (Links-update h b (some c) b q.last ns (ground (arith, i.distinct)) i.links.2.2),
          );
          distinct = i.distinct.1;
        },
        update_self h1 a none,
      )

  -- `last->next = n` in a node that is there.
  abbrev relink : ℕ → Option (Node T) → Option (Node T)
  relink n none = none
  relink n (some c) = some (record c { next = n })

  last_node :
      (h : Nodes T) (prev last a : ℕ) (v : T) (ns : List (ℕ × T))
      → Links h prev last ((a, v) ∷ ns)
      → (last ≢ 0)
        × (has last (addresses ((a, v) ∷ ns)) ≡ true)
        × ((c : Node T) × (h last ≡ some c))
  last_node h prev last a v [] l = (rw l.2 l.0, ground (arith, l.2), (_, ap h l.2 ∙ l.1))
  last_node h prev last a v ((b, w) ∷ ns) l =
      let (z, m, (c, e)) = last_node h a last b w ns l.2 in (z, ground (arith, m), (c, e))

  Links-snoc :
      (h : Nodes T) (prev last a n : ℕ) (v w : T) (ns : List (ℕ × T))
      → n ≢ 0
      → h n ≡ some (record { next = 0; prev = last; value = w })
      → has n (addresses ((a, v) ∷ ns)) ≡ false
      → Distinct (addresses ((a, v) ∷ ns))
      → Links h prev last ((a, v) ∷ ns)
      → Links (update h last (relink n (h last))) prev n ((a, v) ∷ ns ++ (n, w) ∷ [])
  Links-snoc h prev last a n v w [] z new o d l =
      let e : last ≡ a = l.2 in
      (
        l.0,
        subst
            (λ t.
              update h t (relink n (h t)) a ≡ some (record { next = n; prev = prev; value = v }))
            (sym e) (update_self h a (relink n (h a)) ∙ ap (relink n) l.1),
        (
          z,
          update_ne h last n (relink n (h last)) (ground (arith, e))
              ∙ new
              ∙ ap (λ t. some (record { next = 0; prev = t; value = w })) e,
          refl,
        ),
      )
  Links-snoc h prev last a n v w ((b, u) ∷ ns) z new o d l =
      let (_, m, _) = last_node h a last b u ns l.2 in
      (
        l.0,
        update_ne h last a (relink n (h last)) (ground (arith, d, m)) ∙ l.1,
        Links-snoc h a last b n u w ns z new (ground (arith, o)) d.1 l.2,
      )

  addresses-snoc :
      (ns : List (ℕ × T)) (n : ℕ) (w : T) → addresses (ns ++ (n, w) ∷ []) ≡ addresses ns ++ n ∷ []
  addresses-snoc [] n w = refl
  addresses-snoc ((a, v) ∷ ns) n w = ap (◌∷◌ a) (addresses-snoc ns n w)

  -- `addTail` puts the value at the end of the queue, in the node that `new` returns, which is none of
  -- the queue's; the other nodes of the queue keep their places and values.
  pub add_tail-IsQueue :
      (q : SimpleQueue) (h : Nodes T) (n : ℕ) (w : T) (ns : List (ℕ × T))
      → IsQueue q h ns
      → n ≢ 0
      → has n (addresses ns) ≡ false
      → (q' : SimpleQueue) × (h' : Nodes T) × (add_tail n w q h ≡ some (q', h'))
        × IsQueue q' h' (ns ++ (n, w) ∷ [])
  unfolding add_tail
  add_tail-IsQueue q h n w [] i z o = (
    record { first = n; last = n },
    update h n (some (record { next = 0; prev = q.last; value = w })),
    rw (i.first, i.links, add_tail) refl,
    record {
      first = refl;
      links = (
        z,
        update_self h n _ ∙ ap (λ t. some (record { next = 0; prev = t; value = w })) i.links,
        refl,
      );
      distinct = (refl, tt);
    },
  )
  add_tail-IsQueue q h n w ((a, v) ∷ ns) i z o =
      let h1 : Nodes T = update h n (some (record { next = 0; prev = q.last; value = w })) in
      let l1 =
        Links-update h n (some (record { next = 0; prev = q.last; value = w })) 0 q.last
          ((a, v) ∷ ns) o i.links in
      let (nz, m, (c, e)) = last_node h1 0 q.last a v ns l1 in
      (
        record { first = a; last = n },
        update h1 q.last (relink n (h1 q.last)),
        rw
            (
              i.first,
              add_tail,
              ne→== a 0 i.links.0,
              ne→== q.last 0 nz,
              e,
              i.first,
              ne→== a 0 i.links.0,
            )
            refl,
        record {
          first = refl;
          links = Links-snoc h1 0 q.last a n v w ns z (update_self h n _) o i.distinct l1;
          distinct =
              subst Distinct (sym (addresses-snoc ((a, v) ∷ ns) n w))
                (Distinct-snoc (addresses ((a, v) ∷ ns)) n i.distinct o);
        },
      )
