-- ===== src/Master/Changes.antt =====
-- What a request may change, and the parts that `handle_op` is put together of.
use prpc.Base.{
  ℕ, suc, ◌+◌, ◌≤◌, ◌≡◌, refl, ◌∙◌, Bool, true, false, ◌||◌, length, none, some, [], arith, Bytes,
  bytes_eq, bytes_beq_iff, nat_eq, eqb_iff, ◌==◌, if◌then◌else◌, ◌⊎◌, inl, inr, Option-cases,
}
use prpc.Base.Maps.{Map, find, assign, erase, emplace, find-assign, find-erase}
use prpc.Base.Sets.{contains}
use prpc.Master.Answers.{Answers}
use prpc.Master.Disconnect.{belongs}
use prpc.Master.Leaves.{tree_of, view}
use prpc.Master.Path.{parent_of, join}
use prpc.Master.Spec.{Namespace, spec_add, spec_del, spec_set, spec_gen}
use prpc.Master.Store.{IsStored, emplace-IsStored, length-emplace}
use prpc.Master.Tree.{Lookup, IsTree, IsTree-ext}
use prpc.Master.{
  Socket, Master, MasterStatus, new_node, Request, exit_req, malformed_req, Reply, counter,
  owner_of, touch_root,
}

-- Whether every `req >>` of the handler reads what it is to read.
abbrev pub formed : Request → Bool
formed malformed_req = false
formed _ = true

abbrev pub asks_exit : Request → Bool
asks_exit exit_req = true
asks_exit _ = false

-- What a request from `s` may do to the state: `asked` says whether it asks the service to exit, and
-- `k` bounds the nodes that it makes.
pub record Effect (s : Socket) (asked : Bool) (k : ℕ) (m m' : Master) : Type 0 where
  pub tree : IsTree (tree_of m')
  pub store : IsStored m'.path
  -- a node hangs on a connection that it hung on before, or on the one that asked
  pub owners :
      (r : Socket) (j : Bytes)
      → belongs r (view m' j) ≡ true
      → (belongs r (view m j) ≡ true) ⊎ (r ≡ s)
  pub sockets : m'.fd_socket_map ≡ m.fd_socket_map
  pub counters : (p : Bytes) → counter p m'.gen_id ≤ suc (counter p m.gen_id)
  pub exits : m'.exit ≡ (m.exit || asked)
  pub room : m'.path_room ≡ m.path_room
  pub size : length m'.path ≤ k + length m.path

abbrev Owners : Socket → Namespace → Namespace → Type 0
Owners s g h =
    (r : Socket) (j : Bytes) → belongs r (h j) ≡ true → (belongs r (g j) ≡ true) ⊎ (r ≡ s)

abbrev pub Counts : Map Bytes ℕ → Map Bytes ℕ → Type 0
Counts ids ids' = (p : Bytes) → counter p ids' ≤ suc (counter p ids)

pub unasked : (b : Bool) → b ≡ (b || false)
unasked b = ground arith

pub counter_stays : (ids : Map Bytes ℕ) → Counts ids ids
counter_stays ids p = omega arith

pub counter_erased : (ids : Map Bytes ℕ) (q : Bytes) → Counts ids (erase q ids)
unfolding counter
counter_erased ids q p = ground (arith, find-erase q p ids)

pub counter_raised :
    (ids : Map Bytes ℕ) (q : Bytes) → Counts ids (assign q (suc (counter q ids)) ids)
unfolding counter
counter_raised ids q p =
    ground (arith, find-assign q p (suc (counter q ids)) ids, bytes_beq_iff q p)

pub answer-Effect :
    (s : Socket) (m : Master) (r : Reply) (st : MasterStatus) (f : Namespace) (p : Bytes)
    (ids : Map Bytes ℕ) (out : Reply × Master)
    → IsStored m.path
    → Owners s (view m) f
    → Counts m.gen_id ids
    → Answers m r st f p ids out
    → Effect s false 1 m out.1
answer-Effect s m r st f p ids out v o c a = record {
  tree = a.moves.tree;
  store = a.moves.store v;
  owners = λ r j h. o r j (rw (← a.moves.reads j) h);
  sockets = a.moves.sockets;
  counters = λ q. rw a.ids (c q);
  exits = a.moves.exits ∙ unasked m.exit;
  room = a.moves.room;
  size = let small = a.moves.size in omega (arith, small);
}

pub same-Effect :
    (s : Socket) (m : Master) → IsTree (tree_of m) → IsStored m.path → Effect s false 1 m m
same-Effect s m t v = record {
  tree = t;
  store = v;
  owners = λ r j h. inl h;
  sockets = refl;
  counters = counter_stays m.gen_id;
  exits = unasked m.exit;
  room = refl;
  size = omega arith;
}

module _ (s : Socket) (g : Namespace) where
  pub spec_add-Owners :
      (path value : Bytes) (e : Bool) → Owners s g (spec_add path value (owner_of e s) g).1
  spec_add-Owners path value e r j h = ground (arith, h, eqb_iff s r)

  pub spec_del-Owners : (b : Bool) (path : Bytes) → Owners s g (spec_del b path g).1
  spec_del-Owners b path r j h = ground (arith, h)

  pub spec_set-Owners : (path value : Bytes) → Owners s g (spec_set path value g).1
  spec_set-Owners path value r j h = ground (arith, h, bytes_beq_iff path j)

  pub spec_gen-Owners :
      (n : ℕ) (path value : Bytes) (e : Bool)
      → Owners s g (spec_gen n path value (owner_of e s) g).1
  spec_gen-Owners n path value e r j h = ground (arith, h, eqb_iff s r)

-- the lookup after `_path[""]`
abbrev rooted : Lookup → Lookup
rooted f j = if [] == j then (elim (f []) [ none ↦ some new_node | some v ↦ some v ]) else f j

touch_root-find : (m : Master) (j : Bytes) → tree_of (touch_root m) j ≡ rooted (tree_of m) j
unfolding touch_root emplace find
touch_root-find m j = elim (Option-cases (find [] m.path)) [
  | inl e ↦ rw (e, emplace, find) (ground (arith, e))
  | inr (v, e) ↦ rw (e, emplace) (ground (arith, e, bytes_beq_iff [] j))
]

rooted-IsTree : (f : Lookup) → IsTree f → IsTree (rooted f)
unfolding contains
rooted-IsTree f t = record {
  root = ground (arith, t.root);
  valid = λ p h g. t.valid p (ground (arith, h, g, bytes_beq_iff [] p)) g;
  parent =
      λ p h g. ground (arith, h, g, t.parent p, bytes_beq_iff [] p, bytes_beq_iff [] (parent_of p));
  child = λ q k h. ground (arith, h, t.child q k, bytes_beq_iff [] q, bytes_beq_iff [] (join q k));
}

module _ (s : Socket) (m : Master) (t : IsTree (tree_of m)) (v : IsStored m.path) where
  pub touch_root-Effect : Effect s false 1 m (touch_root m)
  unfolding touch_root
  touch_root-Effect = record {
    tree = IsTree-ext _ _ (rooted-IsTree (tree_of m) t) (unfold touch_root in touch_root-find m);
    store = emplace-IsStored [] m.path v new_node tt;
    owners = λ r j h. ground (arith, h, touch_root-find m j, bytes_beq_iff [] j);
    sockets = refl;
    counters = counter_stays m.gen_id;
    exits = unasked m.exit;
    room = refl;
    size = let small = length-emplace [] new_node m.path in omega (arith, small);
  }
