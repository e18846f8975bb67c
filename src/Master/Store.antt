-- ===== src/Master/Store.antt =====
-- What the containers of the C++ library keep by themselves: `_path` has no path twice, and each
-- `sub` is in the order of its keys.
use prpc.Base.{suc, ◌≤◌, ◌≡◌, some, [], ◌∷◌, arith, Bytes, bytes_eq, length}
use prpc.Base.Maps.{
  Map, Unique, find, assign, erase, emplace, assign-Unique, erase-Unique, emplace-Unique,
}
use prpc.Base.Sets.Order.{IsSorted}
use prpc.Master.{MasterNode}

abbrev pub SubsSorted : Map Bytes MasterNode → Type 0
SubsSorted [] = Unit {0}
SubsSorted ((p, v) ∷ m) = IsSorted v.sub × SubsSorted m

pub record IsStored (m : Map Bytes MasterNode) : Type 0 where
  pub keys : Unique m
  pub subs : SubsSorted m

pub find-IsSorted :
    (p : Bytes) (v : MasterNode) (m : Map Bytes MasterNode)
    → SubsSorted m
    → find p m ≡ some v
    → IsSorted v.sub
unfolding find
find-IsSorted p v [] s h = absurd (ground (arith, h))
find-IsSorted p v ((q, w) ∷ m) s h = ground (arith, s, h, find-IsSorted p v m)

assign-SubsSorted :
    (p : Bytes) (v : MasterNode) (m : Map Bytes MasterNode)
    → IsSorted v.sub
    → SubsSorted m
    → SubsSorted (assign p v m)
unfolding assign
assign-SubsSorted p v [] h s = (h, tt)
assign-SubsSorted p v ((q, w) ∷ m) h s = ground (arith, h, s, assign-SubsSorted p v m)

erase-SubsSorted : (p : Bytes) (m : Map Bytes MasterNode) → SubsSorted m → SubsSorted (erase p m)
unfolding erase
erase-SubsSorted p [] s = tt
erase-SubsSorted p ((q, w) ∷ m) s = ground (arith, s, erase-SubsSorted p m)

emplace-SubsSorted :
    (p : Bytes) (v : MasterNode) (m : Map Bytes MasterNode)
    → IsSorted v.sub
    → SubsSorted m
    → SubsSorted (emplace p v m)
unfolding emplace
emplace-SubsSorted p v m h s = ground (arith, h, s)

module _ (p : Bytes) (m : Map Bytes MasterNode) (s : IsStored m) where
  pub assign-IsStored : (v : MasterNode) → IsSorted v.sub → IsStored (assign p v m)
  assign-IsStored v h = record {
    keys = assign-Unique p v m s.keys;
    subs = assign-SubsSorted p v m h s.subs;
  }

  pub erase-IsStored : IsStored (erase p m)
  erase-IsStored = record { keys = erase-Unique p m s.keys; subs = erase-SubsSorted p m s.subs }

  pub emplace-IsStored : (v : MasterNode) → IsSorted v.sub → IsStored (emplace p v m)
  emplace-IsStored v h = record {
    keys = emplace-Unique p v m s.keys;
    subs = emplace-SubsSorted p v m h s.subs;
  }

-- How many nodes there are after each change.
module _ (p : Bytes) where
  pub length-assign :
      (v w : MasterNode) (m : Map Bytes MasterNode)
      → find p m ≡ some w
      → length (assign p v m) ≡ length m
  unfolding find assign
  length-assign v w [] h = absurd (ground (arith, h))
  length-assign v w ((q, u) ∷ m) h = ground (arith, h, length-assign v w m)

  pub length-emplace :
      (v : MasterNode) (m : Map Bytes MasterNode) → length (emplace p v m) ≤ suc (length m)
  unfolding emplace
  length-emplace v m = ground arith

  pub length-erase : (m : Map Bytes MasterNode) → length (erase p m) ≤ length m
  unfolding erase
  length-erase [] = ground arith
  length-erase ((q, u) ∷ m) = ground (arith, length-erase m)
