-- ===== src/Syscall/Units.antt =====
-- A semaphore of a user program: made, taken and given back by the calls of kernel/syscall.cc.
use p12_group.Base.{
  ℕ, ◌+◌, ◌-◌, ◌%◌, ◌^◌, ◌<◌, ◌≤◌, ◌≡◌, ◌≢◌, true, get_or-set_self, Option, some, none, update,
  update_self, arith, refl, ap, ◌∙◌, Bool-cases, ltb, inl, inr, ne→==,
}
use p12_group.Base.Int.{ℤ, pos}
use p12_group.Block.Interface.{BlockDevice}
use p12_group.Process
use p12_group.Process.{Kernel, Run}
use p12_group.Process.Interrupts.{Ensures, Same}
use p12_group.Semaphore
use p12_group.Semaphore.{Semaphore}
use p12_group.Semaphore.Uncontended.{IsLive, down-takes, up-adds, Same-IsLive, Same-trans}
use p12_group.Resource
use p12_group.Resource.{ResourceType, Resource, Store}
use p12_group.Table
use p12_group.Table.{Table, slot, put_slot, first_free}
use p12_group.Table.Slots.{IsTable, Found, first_free-Found, ref_lem, get_lem, with_count}
use p12_group.Syscall.{
  System, Answer, returns, semaphore, down, up, with_object, syscall, semaphore_call, down_object,
  up_object,
}

ran :
    {A : Type 0} (P : A → Kernel → Type 0) (r : Run A)
    → Ensures P r
    → (a : A) × (k : Kernel) × (r ≡ Process.ok a k) × P a k
ran P (Process.ok a k) e = (a, k, refl, e)
ran P Process.panic e = absurd e

-- The lowest free slot of a table, from 2 on.
pub record IsLowest (t : Table) (i : ℕ) : Type 0 where
  pub from_two : 2 ≤ i
  pub inside : i < t.n
  pub free : slot t i ≡ 0
  pub below : (j : ℕ) → 2 ≤ j → j < i → slot t j ≢ 0

first_free-lowest :
    (t : Table) (i : ℕ) (o : Option ℕ) → IsLowest t i → Found t.array 2 (t.n - 2) o → o ≡ some i
first_free-lowest t i none l f =
    absurd (f i l.from_two (omega (arith, l.inside, l.from_two)) l.free)
first_free-lowest t i (some k) l (a, b, z, below) = elim (Bool-cases (ltb k i)) [
  | inl u ↦ absurd (l.below k a (ground arith) z)
  | inr u ↦ elim (Bool-cases (ltb i k)) [
    | inl v ↦ absurd (below i l.from_two (ground arith) l.free)
    | inr v ↦ ap some (ground arith)
  ]
]

opens :
    (p i : ℕ) (r : Resource) (t : Table) (h : Store)
    → p ≢ 0
    → h p ≡ some r
    → IsLowest t i
    → Table.open_resource p t h
      ≡ Resource.ok
          (pos i, put_slot t i p)
          (update h p (some (with_count r ((r.count + 1) % 2 ^ 32))))
unfolding Table.open_resource Table.open_at
opens p i r t h n e l =
    let f =
      first_free-lowest t i (first_free t.array 2 (t.n - 2)) l
        (first_free-Found t.array 2 (t.n - 2)) in
    rw (f, ref_lem p r h n e) refl

module _ {S : Type 0} where
  with_object_lem :
      (fd : ℤ) (type : ResourceType) (p : ℕ) (f : ℕ → System S → Answer S) (y : System S)
      → Table.get fd type y.table y.objects ≡ Resource.ok p y.objects
      → p ≢ 0
      → with_object type fd f y ≡ f p y
  unfolding with_object
  with_object_lem fd type p f y e n = rw (with_object, e, ne→== p 0 n) refl

  abbrev down_state : ℕ → System S → Semaphore → Kernel → System S
  down_state p y s k = record y { kernel = k; semaphore = update y.semaphore p s }

  down_lem :
      (p : ℕ) (y : System S) (s : Semaphore) (k : Kernel)
      → Semaphore.down (y.semaphore p) y.kernel ≡ Process.ok (true, s) k
      → down_object p y ≡ returns (pos 0) (down_state p y s k)
  unfolding down_object
  down_lem p y s k e = rw (down_object, e) refl

  up_lem :
      (p : ℕ) (y : System S) (s : Semaphore) (k : Kernel)
      → Semaphore.up (y.semaphore p) y.kernel ≡ Process.ok s k
      → up_object p y ≡ returns (pos 0) (down_state p y s k)
  unfolding up_object
  up_lem p y s k e = rw (up_object, e) refl

  module _ (dev : BlockDevice S) (y : System S) (c i : ℕ) (n : y.fresh ≢ 0) (l : IsLowest y.table i)
      (t : IsTable y.table) (live : IsLive y.kernel) where
    abbrev p : ℕ
    p = y.fresh

    abbrev object : Resource
    object = record { type = ResourceType.semaphore; count = 0 }

    abbrev made : System S
    made = record y {
      semaphore = update y.semaphore p (Semaphore.semaphore c);
      table = put_slot y.table i p;
      objects = update (update y.objects p (some object)) p (some (with_count object 1));
    }

    makes : semaphore_call c y ≡ returns (pos i) made
    unfolding semaphore_call
    makes =
        rw
          (opens p i object y.table (update y.objects p (some object)) n
            (update_self y.objects p (some object)) l)
          refl

    found :
        Table.get (pos i) ResourceType.semaphore made.table made.objects
        ≡ Resource.ok p made.objects
    found =
        get_lem i p (with_count object 1) made.table made.objects ResourceType.semaphore l.inside
          (get_or-set_self y.table.array i p 0 (omega (arith, t, l.inside))) n
          (update_self (update y.objects p (some object)) p (some (with_count object 1)))

    takes :
        0 < c
        → (k : Kernel) × (down_object p made
            ≡ returns (pos 0) (down_state p made (Semaphore.semaphore (c - 1)) k))
          × Same y.kernel y.kernel.process k
    takes z =
        let s = Semaphore.semaphore c in
        let (r, k, e, (q, same)) =
          ran _ (Semaphore.down s y.kernel) (down-takes s y.kernel live z) in
        let at : made.semaphore p ≡ s = update_self y.semaphore p s in
        (
          k,
          down_lem p made (Semaphore.semaphore (c - 1)) k
              (ap (λ t. Semaphore.down t y.kernel) at ∙ e ∙ ap (λ t. Process.ok t k) q),
          same,
        )

    gives :
        (k : Kernel)
        → Same y.kernel y.kernel.process k
        → (k' : Kernel) × (up_object p (down_state p made (Semaphore.semaphore (c - 1)) k)
            ≡ returns (pos 0) (
                down_state p
                  (down_state p made (Semaphore.semaphore (c - 1)) k)
                  (Semaphore.semaphore (c - 1 + 1))
                  k'))
          × Same y.kernel y.kernel.process k'
    gives k same =
        let s = Semaphore.semaphore (c - 1) in
        let (r, k', e, (q, same')) =
          ran _ (Semaphore.up s k) (up-adds s k (Same-IsLive y.kernel k live same) refl) in
        let at : update made.semaphore p s p ≡ s = update_self made.semaphore p s in
        (
          k',
          up_lem p (down_state p made s k) (Semaphore.semaphore (c - 1 + 1)) k'
              (ap (λ t. Semaphore.up t k) at ∙ e ∙ ap (λ t. Process.ok t k') q),
          Same-trans y.kernel k k' same same',
        )

-- In a running process with a free slot i, the lowest one, and for a count c of more than 0: `semaphore`
-- returns i, `down` of i and then `up` of i return 0, none of them switches away, the count is c - 1 in
-- between and c at the end, and the processes and queues of the kernel are as they were.
pub semaphore-down-up :
    {S : Type 0} (dev : BlockDevice S) (y : System S) (c i : ℕ) (a1 : ℤ)
    → y.fresh ≢ 0
    → IsLowest y.table i
    → IsTable y.table
    → IsLive y.kernel
    → 0 < c
    → (y1 : System S) × (y2 : System S) × (y3 : System S) × (syscall dev semaphore (pos c) a1 y
        ≡ returns (pos i) y1)
      × (syscall dev down (pos i) a1 y1 ≡ returns (pos 0) y2)
      × (syscall dev up (pos i) a1 y2 ≡ returns (pos 0) y3)
      × (y2.semaphore y.fresh ≡ Semaphore.semaphore (c - 1))
      × (y3.semaphore y.fresh ≡ Semaphore.semaphore c)
      × Same y.kernel y.kernel.process y3.kernel
unfolding syscall
semaphore-down-up dev y c i a1 n l t live z =
    let p = y.fresh in
    let y1 = made dev y c i n l t live in
    let (k, down_runs, same) = takes dev y c i n l t live z in
    let y2 = down_state p y1 (Semaphore.semaphore (c - 1)) k in
    let (k', up_runs, same') = gives dev y c i n l t live k same in
    let y3 = down_state p y2 (Semaphore.semaphore (c - 1 + 1)) k' in
    let whole : c - 1 + 1 ≡ c = omega arith in
    (
      y1,
      y2,
      y3,
      makes dev y c i n l t live,
      with_object_lem (pos i) ResourceType.semaphore p down_object y1 (found dev y c i n l t live) n
          ∙ down_runs,
      with_object_lem (pos i) ResourceType.semaphore p up_object y2 (found dev y c i n l t live) n
          ∙ up_runs,
      update_self y1.semaphore p (Semaphore.semaphore (c - 1)),
      update_self y2.semaphore p (Semaphore.semaphore (c - 1 + 1)) ∙ ap Semaphore.semaphore whole,
      same',
    )
