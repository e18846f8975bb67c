-- ===== src/Master/Answers.antt =====
-- What a handler's response and new state say, and the shapes that the handlers' proofs share.
use prpc.Base.{
  ℕ, ◌≡◌, refl, sym, ap, ◌∙◌, false, Option, none, some, List, [], ◌++◌, map, append-nil, arith,
  Bytes, bytes_eq,
}
use prpc.Base.Maps.{Map}
use prpc.Master.{
  Socket, Master, MasterNode, MasterStatus, ok_status, Message, notify, Reply, status,
  notify_watchers, is_closed,
}
use prpc.Master.Leaves.{tree_of, view, contents, Moves}
use prpc.Master.Spec.{Namespace, blocked}
use prpc.Master.Tree.{IsTree}

abbrev pub notices : MasterStatus → Bytes → List Socket → List (Socket × Message)
notices ok_status p ws = map (λ w. (w, notify p)) ws
notices _ p ws = []

abbrev pub when_ok {ℓ} : {A : Type ℓ} → MasterStatus → A → A → A
when_ok ok_status a b = a
when_ok _ a b = b

-- A handler's response and new state: the namespace is `f`, and the watchers hear of `p` exactly when
-- the status is OK.
pub record Answers (m : Master) (r : Reply) (st : MasterStatus) (f : Namespace) (p : Bytes)
    (counters : Map Bytes ℕ) (out : Reply × Master) : Type 0 where
  pub reply : out.0 ≡ r
  pub moves : Moves m out.1 f
  pub sent : out.1.sent ≡ m.sent ++ notices st p m.watchers
  pub ids : out.1.gen_id ≡ counters

pub stays : (m : Master) → IsTree (tree_of m) → Moves m m (view m)
stays m t = record {
  tree = t;
  store = λ s. s;
  reads = λ j. refl;
  watchers = refl;
  sockets = refl;
  exits = refl;
  room = refl;
  size = omega arith;
}

-- A refusal leaves the state as it was.
pub refuses :
    (m : Master) (st : MasterStatus) (p : Bytes)
    → IsTree (tree_of m)
    → notices st p m.watchers ≡ []
    → Answers m (status st) st (view m) p m.gen_id (status st, m)
refuses m st p t e = record {
  reply = refl;
  moves = stays m t;
  sent = sym (ap (◌++◌ m.sent) e ∙ append-nil m.sent);
  ids = refl;
}

pub succeeds :
    (m m' : Master) (r : Reply) (p : Bytes) (f : Namespace) (counters : Map Bytes ℕ)
    → Moves m m' f
    → m'.sent ≡ m.sent
    → m'.gen_id ≡ counters
    → Answers m r ok_status f p counters (r, notify_watchers p m')
unfolding notify_watchers
succeeds m m' r p f counters w e i = record {
  reply = refl;
  moves = record {
    tree = w.tree;
    store = w.store;
    reads = w.reads;
    watchers = w.watchers;
    sockets = w.sockets;
    exits = w.exits;
    room = w.room;
    size = w.size;
  };
  sent = rw (e, w.watchers);
  ids = i;
}

pub closed-blocked : (o : Option MasterNode) → is_closed o ≡ blocked (contents o)
unfolding is_closed
closed-blocked none = refl
closed-blocked (some v) = ground arith

pub open_found :
    (o : Option MasterNode)
    → is_closed o ≡ false
    → (u : MasterNode) × (o ≡ some u) × (u.owner ≡ none)
unfolding is_closed
open_found none e = cc
open_found (some v) e = (v, refl, ground (arith, e))
