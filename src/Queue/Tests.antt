-- ===== src/Queue/Tests.antt =====
-- A queue of two values, in the nodes 16 and 32.
use p12_group.Base.{ℕ, ◌≡◌, ◌==◌, if◌then◌else◌, refl, arith, [], ◌∷◌, some, none}
use p12_group.Queue.{SimpleQueue, Nodes, add_tail, remove_head}
use p12_group.Queue.Links.{IsQueue, add_tail-IsQueue, remove_head-IsQueue}

abbrev queue : SimpleQueue
queue = record { first = 16; last = 32 }

abbrev nodes : Nodes ℕ
nodes p =
    if p == 16
    then some (record { next = 32; prev = 0; value = 7 })
    else if p == 32
    then some (record { next = 0; prev = 16; value = 8 })
    else none

queue-IsQueue : IsQueue queue nodes ((16, 7) ∷ (32, 8) ∷ [])
queue-IsQueue = record {
  first = refl;
  links = (omega arith, refl, (omega arith, refl, refl));
  distinct = (refl, (refl, tt));
}

add_tail-IsQueue_example :
    (q : SimpleQueue) × (h : Nodes ℕ) × (add_tail 48 9 queue nodes ≡ some (q, h))
    × IsQueue q h ((16, 7) ∷ (32, 8) ∷ (48, 9) ∷ [])
add_tail-IsQueue_example =
    add_tail-IsQueue queue nodes 48 9 ((16, 7) ∷ (32, 8) ∷ []) queue-IsQueue (omega arith) refl

remove_head-IsQueue_example :
    (q : SimpleQueue) × (h : Nodes ℕ) × (remove_head queue nodes ≡ some (7, q, h))
    × IsQueue q h ((32, 8) ∷ [])
    × (h 16 ≡ none)
remove_head-IsQueue_example = remove_head-IsQueue queue nodes 16 7 ((32, 8) ∷ []) queue-IsQueue
