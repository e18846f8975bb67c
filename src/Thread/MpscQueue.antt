-- ===== src/Thread/MpscQueue.antt =====
-- `MpscQueue` of src/thread/MpscQueue.h: many producers and one consumer on a linked list of nodes.
-- `push` is two atomic writes, the exchange of `_head` and the store to `next` of the node that was
-- there, and other threads may run between them. `pop` and `top` belong to the one consumer and meet
-- the producers only where they load `next`, so each is one step.
pub mod Chain
pub mod Order
use prpc.Base.{ℕ, suc, ◌≡◌, Option, none, some, List, [], ◌∷◌, ◌++◌, nat_eq}
use prpc.Base.Maps.{Map, find, assign, erase}
use prpc.Base.Outcome.{Outcome, ok, fault, ◌>>=◌}

abbrev pub Ptr : Type 0
Ptr = ℕ

-- The first node has no value.
pub record Node (T : Type 0) : Type 0 where
  pub v : Option T
  pub next : Option Ptr

-- `links` has the pushes that are between their two writes: the old head and the new node of each.
pub record MpscQueue (T : Type 0) : Type 0 where
  pub store : Map Ptr (Node T)
  pub unused : Ptr
  pub tail : Ptr
  pub head : Ptr
  pub links : Map Ptr Ptr

module _ {T : Type 0} where
  unfoldable pub new_queue : MpscQueue T
  new_queue = record {
    store = (0, record { v = none; next = none }) ∷ [];
    unused = 1;
    tail = 0;
    head = 0;
    links = [];
  }

  -- `push` up to `_head.exchange(n)`
  unfoldable pub exchange : T → MpscQueue T → MpscQueue T
  exchange v q = record q {
    store = assign q.unused (record { v = some v; next = none }) q.store;
    unused = suc q.unused;
    head = q.unused;
    links = assign q.head q.unused q.links;
  }

  -- `prev_head->next.store(n)` in the push that took `prev_head` for the old head
  unfoldable pub link : Ptr → MpscQueue T → Outcome (MpscQueue T)
  link prev_head q = elim (find prev_head q.links) [
    | none ↦ ok q
    | some n ↦ elim (find prev_head q.store) [
      | none ↦ fault
      | some node ↦ ok (record q {
        store = assign prev_head (record node { next = some n }) q.store;
        links = erase prev_head q.links;
      })
    ]
  ]

  -- `&next->v`, the value that `pop` would take
  unfoldable pub top : MpscQueue T → Outcome (Option T)
  top q = elim (find q.tail q.store) [
    | none ↦ fault
    | some t ↦ elim t.next [
      | none ↦ ok none
      | some next ↦ elim (find next q.store) [ none ↦ fault | some n ↦ ok n.v ]
    ]
  ]

  unfoldable pub pop : MpscQueue T → Outcome (Option T × MpscQueue T)
  pop q = elim (find q.tail q.store) [
    | none ↦ fault
    | some t ↦ elim t.next [
      | none ↦ ok (none, q)
      | some next ↦ elim (find next q.store) [
        | none ↦ fault
        | some n ↦ ok (n.v, record q { tail = next; store = erase q.tail q.store })
      ]
    ]
  ]

-- A step of some thread.
pub data Event (T : Type 0) : Type 0 where
  exchanges : T → Event T
  links_up : Ptr → Event T
  pops : Event T

-- A run of steps, and the values that were popped, in order.
module _ {T : Type 0} where
  abbrev pub popped : Option T → List T
  popped none = []
  popped (some v) = v ∷ []

  unfoldable pub run : List (Event T) → MpscQueue T → Outcome (List T × MpscQueue T)
  run [] q = ok ([], q)
  run (exchanges v ∷ es) q = run es (exchange v q)
  run (links_up p ∷ es) q = do q ← link p q; run es q
  run (pops ∷ es) q = do (v, q) ← pop q; (out, q) ← run es q; ok (popped v ++ out, q)

  -- The values in the order of their exchanges.
  abbrev pub pushed : List (Event T) → List T
  pushed [] = []
  pushed (exchanges v ∷ es) = v ∷ pushed es
  pushed (links_up p ∷ es) = pushed es
  pushed (pops ∷ es) = pushed es
