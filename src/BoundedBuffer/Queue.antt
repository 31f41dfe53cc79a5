-- ===== src/BoundedBuffer/Queue.antt =====
-- `put` and `get` of kernel/bb.h as the operations of a bounded queue.
use p12_group.Base.{
  ◌-◌, ◌<◌, ◌≡◌, refl, arith, true, List, [], ◌∷◌, ◌++◌, length, length-append, ap, ◌∙◌,
}
use p12_group.Process.{Kernel}
use p12_group.Process.Interrupts.{Ensures, bind, mono, Same}
use p12_group.Semaphore.{Semaphore, semaphore, down, up}
use p12_group.Semaphore.Uncontended.{IsLive, Same-IsLive, Same-trans, down-takes, up-adds}
use p12_group.BoundedBuffer.{
  BoundedBuffer, store, load, put, put_counted, put_locked, get, get_counted, get_locked,
}
use p12_group.BoundedBuffer.Ring.{Holds, store-Holds, load-Holds}

-- At rest the buffer is the queue xs: the ring holds it, the counting semaphores count its values and
-- its free places, the mutex is free, and nobody waits.
pub record IsQueue {A : Type 0} (d : A) (b : BoundedBuffer A) (xs : List A) : Type 0 where
  pub ring : Holds d b xs
  pub full : b.n_full ≡ semaphore (length xs)
  pub empty : b.n_empty ≡ semaphore (b.n - length xs)
  pub free : b.mutex ≡ semaphore 1

module _ {A : Type 0} (d : A) where
  -- The ring is the array, its size and the two indices.
  same_ring :
      (b b' : BoundedBuffer A) (xs : List A)
      → b'.arr ≡ b.arr
      → b'.n ≡ b.n
      → b'.head ≡ b.head
      → b'.tail ≡ b.tail
      → Holds d b xs
      → Holds d b' xs
  same_ring b b' xs ea en eh et h = record {
    size = rw (ea, en) h.size;
    fits = rw en h.fits;
    head = rw (en, eh) h.head;
    tail = rw (et, en, eh) h.tail;
    items = λ i l. rw (ea, en, eh) (h.items i l);
  }

  put_locked-IsQueue :
      (b : BoundedBuffer A) (v : A) (xs : List A) (k : Kernel)
      → IsLive k
      → Holds d b xs
      → length xs < b.n
      → b.n_full ≡ semaphore (length xs)
      → b.n_empty ≡ semaphore (b.n - length xs - 1)
      → b.mutex ≡ semaphore 0
      → Ensures
          (λ r k'. (r.0 ≡ true) × IsQueue d r.1 (xs ++ v ∷ []) × Same k k.process k')
          (put_locked v b k)
  unfolding put_locked store
  put_locked-IsQueue b v xs k l h room f e m =
      let h' = store-Holds d b v xs h room in
      bind _ _ (up (store b v).mutex k) _
        (up-adds (store b v).mutex k l (ap (λ (s : Semaphore). s.waiting) m))
        λ m' k1 (em, s1).
          bind _ _ (up (store b v).n_full k1) _
            (up-adds (store b v).n_full k1 (Same-IsLive k k1 l s1)
              (ap (λ (s : Semaphore). s.waiting) f))
            λ f' k2 (ef, s2). (
              refl,
              record {
                ring = record {
                  size = h'.size;
                  fits = h'.fits;
                  head = h'.head;
                  tail = h'.tail;
                  items = h'.items;
                };
                full = ef ∙ ground (arith, f, length-append xs (v ∷ []));
                empty = e ∙ ground (arith, length-append xs (v ∷ []));
                free = em ∙ ground (arith, m);
              },
              Same-trans k k1 k2 s1 s2,
            )

  -- For a buffer at rest that is the queue xs and has room, called by a running process: `put v`
  -- runs through without a switch, and the buffer is then at rest and the queue xs with v at its
  -- end.
  pub put-IsQueue :
      (b : BoundedBuffer A) (v : A) (xs : List A) (k : Kernel)
      → IsLive k
      → IsQueue d b xs
      → length xs < b.n
      → Ensures
          (λ r k'. (r.0 ≡ true) × IsQueue d r.1 (xs ++ v ∷ []) × Same k k.process k')
          (put v b k)
  unfolding put put_counted
  put-IsQueue b v xs k l q room =
      bind _ _ (down b.n_empty k) _ (down-takes b.n_empty k l (rw q.empty (omega arith)))
        λ r k1 (er, s1). rw er (
          bind _ _ (down b.mutex k1) _
            (down-takes b.mutex k1 (Same-IsLive k k1 l s1) (rw q.free (omega arith)))
            λ t k2 (et, s2). rw et (
              let b2 = record b {
                n_empty = record { count = b.n_empty.count - 1; waiting = b.n_empty.waiting };
                mutex = record { count = b.mutex.count - 1; waiting = b.mutex.waiting };
              } in
              mono _ _ (put_locked v b2 k2)
                (put_locked-IsQueue b2 v xs k2 (Same-IsLive k1 k2 (Same-IsLive k k1 l s1) s2)
                  (same_ring b b2 xs refl refl refl refl q.ring) room q.full
                  (ground (arith, q.empty)) (ground (arith, q.free)))
                λ p k3 (done, q', s3).
                  (done, q', Same-trans k k1 k3 s1 (Same-trans k1 k2 k3 s2 s3))))

  get_locked-IsQueue :
      (b : BoundedBuffer A) (x : A) (xs : List A) (k : Kernel)
      → IsLive k
      → Holds d b (x ∷ xs)
      → b.n_full ≡ semaphore (length xs)
      → b.n_empty ≡ semaphore (b.n - length xs - 1)
      → b.mutex ≡ semaphore 0
      → Ensures
          (λ r k'. (r.0 ≡ true) × (r.1 ≡ x) × IsQueue d r.2 xs × Same k k.process k')
          (get_locked d b k)
  unfolding get_locked load
  get_locked-IsQueue b x xs k l h f e m =
      let (value, h') = load-Holds d b x xs h in
      bind _ _ (up (load d b).1.mutex k) _
        (up-adds (load d b).1.mutex k l (ap (λ (s : Semaphore). s.waiting) m))
        λ m' k1 (em, s1).
          bind _ _ (up (load d b).1.n_empty k1) _
            (up-adds (load d b).1.n_empty k1 (Same-IsLive k k1 l s1)
              (ap (λ (s : Semaphore). s.waiting) e))
            λ e' k2 (ee, s2). (
              refl,
              value,
              record {
                ring = record {
                  size = h'.size;
                  fits = h'.fits;
                  head = h'.head;
                  tail = h'.tail;
                  items = h'.items;
                };
                full = f;
                empty = ee ∙ ground (arith, e, h.fits);
                free = em ∙ ground (arith, m);
              },
              Same-trans k k1 k2 s1 s2,
            )

  -- For a buffer at rest that is a queue with a value x at its head, called by a running process:
  -- `get` runs through without a switch and returns x, and the buffer is then at rest and the
  -- rest of the queue.
  pub get-IsQueue :
      (b : BoundedBuffer A) (x : A) (xs : List A) (k : Kernel)
      → IsLive k
      → IsQueue d b (x ∷ xs)
      → Ensures
          (λ r k'. (r.0 ≡ true) × (r.1 ≡ x) × IsQueue d r.2 xs × Same k k.process k')
          (get d b k)
  unfolding get get_counted
  get-IsQueue b x xs k l q =
      bind _ _ (down b.n_full k) _ (down-takes b.n_full k l (rw q.full (omega arith)))
        λ r k1 (er, s1). rw er (
          bind _ _ (down b.mutex k1) _
            (down-takes b.mutex k1 (Same-IsLive k k1 l s1) (rw q.free (omega arith)))
            λ t k2 (et, s2). rw et (
              let b2 = record b {
                n_full = record { count = b.n_full.count - 1; waiting = b.n_full.waiting };
                mutex = record { count = b.mutex.count - 1; waiting = b.mutex.waiting };
              } in
              mono _ _ (get_locked d b2 k2)
                (get_locked-IsQueue b2 x xs k2 (Same-IsLive k1 k2 (Same-IsLive k k1 l s1) s2)
                  (same_ring b b2 (x ∷ xs) refl refl refl refl q.ring) (ground (arith, q.full))
                  (q.empty ∙ ground arith) (ground (arith, q.free)))
                λ p k3 (done, v, q', s3).
                  (done, v, q', Same-trans k k1 k3 s1 (Same-trans k1 k2 k3 s2 s3))))
