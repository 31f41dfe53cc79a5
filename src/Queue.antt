-- ===== src/Queue.antt =====
-- kernel/queue.h: `SimpleQueue`, nodes that are linked in both directions. The nodes are a partial map
-- from addresses, 0 is the null pointer; an access to an address without a node gives `none`.
pub mod Links
mod Tests
use p12_group.Base.{ℕ, ◌==◌, if◌then◌else◌, Bool, Option, none, some, update}

pub record Node (T : Type 0) : Type 0 where
  pub next : ℕ
  pub prev : ℕ
  pub value : T

pub record SimpleQueue : Type 0 where
  pub first : ℕ
  pub last : ℕ

abbrev pub Nodes : Type 0 → Type 0
Nodes T = ℕ → Option (Node T)

abbrev pub simple_queue : SimpleQueue
simple_queue = record { first = 0; last = 0 }

abbrev pub is_empty : SimpleQueue → Bool
is_empty q = q.first == 0

module _ {T : Type 0} where
  -- `p->next = n` and `p->prev = n`
  abbrev pub set_next : Nodes T → ℕ → ℕ → Option (Nodes T)
  set_next h p n = elim (h p) [
    | none ↦ none
    | some c ↦ some (update h p (some (record c { next = n })))
  ]

  abbrev pub set_prev : Nodes T → ℕ → ℕ → Option (Nodes T)
  set_prev h p n = elim (h p) [
    | none ↦ none
    | some c ↦ some (update h p (some (record c { prev = n })))
  ]

  -- n is the address that `new` returns.
  unfoldable pub add_tail : ℕ → T → SimpleQueue → Nodes T → Option (SimpleQueue × Nodes T)
  add_tail n v q h =
      let h1 = update h n (some (record { next = 0; prev = q.last; value = v })) in
      let q' : SimpleQueue = record { first = if q.first == 0 then n else q.first; last = n } in
      if q.last == 0
      then some (q', h1)
      else elim (set_next h1 q.last n) [ none ↦ none | some h2 ↦ some (q', h2) ]

  unfoldable pub remove_head : SimpleQueue → Nodes T → Option (T × SimpleQueue × Nodes T)
  remove_head q h = elim (h q.first) [
    | none ↦ none
    | some c ↦
        if c.next == 0
        then some (c.value, simple_queue, update h q.first none)
        else elim (set_prev h c.next 0) [
          | none ↦ none
          | some h1 ↦
              some (c.value, record { first = c.next; last = q.last }, update h1 q.first none)
        ]
  ]
