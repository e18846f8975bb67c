-- ===== src/Master/Disconnect.antt =====
-- `disconnect_clear_data`: the nodes of a connection that went away.
use prpc.Base.{
  ◌≤◌, length, ◌≡◌, refl, sym, ◌∙◌, ◌≢◌, Bool, true, false, Option, none, some, List, [], ◌∷◌, ◌++◌,
  map, append-nil, append_assoc, arith, Bytes, bytes_eq, bytes_beq_iff, nat_eq, ◌==◌, if◌then◌else◌,
  inl, inr, Option-cases, Bool-cases,
}
use prpc.Base.Maps.{Map, Unique, find}
use prpc.Base.Outcome.{Returns}
use prpc.Base.Sets.{contains}
use prpc.Master.Answers.{stays}
use prpc.Master.Leaves.{tree_of, view, contents, Moves, clear_path-Moves}
use prpc.Master.Path.Split.{key_of-join, parent_of-join}
use prpc.Master.Path.{join}
use prpc.Master.Spec.{Namespace, Entry}
use prpc.Master.Store.{IsStored}
use prpc.Master.Tree.{IsTree, has_sub, join_ne_nil}
use prpc.Master.{
  Socket, Master, MasterNode, Message, notify, owned_by, owned_paths, clear_path, clear_paths,
  disconnect_clear_data,
}

-- Whether an entry hangs on the connection `s`.
abbrev pub belongs : Socket → Option Entry → Bool
belongs s none = false
belongs s (some (v, o)) = elim o [ none ↦ false | some r ↦ r == s ]

-- The paths still to clear: each belongs to `s`, and none stands twice.
abbrev Pending : Socket → Namespace → List Bytes → Type 0
Pending s g [] = Unit {0}
Pending s g (p ∷ temp) = (belongs s (g p) ≡ true) × (contains p temp ≡ false) × Pending s g temp

abbrev pub all_notices : List Bytes → List Socket → List (Socket × Message)
all_notices [] ws = []
all_notices (p ∷ temp) ws = map (λ w. (w, notify p)) ws ++ all_notices temp ws

contains-owned_paths :
    (s : Socket) (j : Bytes) (m : Map Bytes MasterNode)
    → Unique m
    → contains j (owned_paths s m) ≡ belongs s (contents (find j m))
unfolding owned_paths contains find
contains-owned_paths s j [] u = refl
contains-owned_paths s j ((p, v) ∷ m) u =
    ground (arith, u, contains-owned_paths s j m, bytes_beq_iff p j)

Pending-ext :
    (s : Socket) (g h : Namespace) (temp : List Bytes)
    → ((j : Bytes) → contains j temp ≡ true → h j ≡ g j)
    → Pending s g temp
    → Pending s h temp
unfolding contains
Pending-ext s g h [] e a = tt
Pending-ext s g h (p ∷ temp) e a = (
  ground (arith, e p, bytes_beq_iff p p, a.0),
  a.1,
  Pending-ext s g h temp (λ j i. e j (ground (arith, i))) a.2,
)

owned_paths-Pending :
    (s : Socket) (m : Map Bytes MasterNode)
    → Unique m
    → Pending s (λ j. contents (find j m)) (owned_paths s m)
unfolding owned_paths find
owned_paths-Pending s [] u = tt
owned_paths-Pending s ((p, v) ∷ m) u =
    let rest : Pending s (λ j. contents (find j ((p, v) ∷ m))) (owned_paths s m) =
      Pending-ext s _ _ (owned_paths s m)
        (λ j h. ground (arith, h, u, bytes_beq_iff p j, contains-owned_paths s j m))
        (owned_paths-Pending s m u.1) in
    elim (Bool-cases (owned_by s v)) [
      | inr other ↦ rw other rest
      | inl mine ↦ rw mine (
        ground (arith, mine, bytes_beq_iff p p),
        ground (arith, contains-owned_paths s p m, u),
        rest,
      )
    ]

no_members : (ks : List Bytes) → ((k : Bytes) → contains k ks ≡ false) → ks ≡ []
unfolding contains
no_members [] h = refl
no_members (k ∷ ks) h = absurd (ground (arith, h k, bytes_beq_iff k k))

module _ (m : Master) (t : IsTree (tree_of m)) (s : Socket) (p : Bytes)
    (mine : belongs s (view m p) ≡ true) where
  -- A node that a connection keeps alive is a leaf, and is not the root.
  owned_leaf : (v : MasterNode) → find p m.path ≡ some v → v.sub ≡ []
  owned_leaf v e = no_members v.sub λ k. elim (Bool-cases (contains k v.sub)) [
    | inr absent ↦ absent
    | inl inside ↦
        let here : has_sub k (find p m.path) ≡ true = rw e inside in
        let (free, nonempty, there) = t.child p k here in
        absurd (
          ground (
            arith,
            there,
            e,
            mine,
            t.parent (join p k),
            key_of-join p k free,
            parent_of-join p k free,
            join_ne_nil p k,
          ))
  ]

  owned_deep : p ≢ []
  owned_deep z = absurd (ground (arith, z, mine, t.root))

  clear_owned : Returns (clear_path p m) λ m'.
      Moves m m' (λ j. if p == j then none else view m j)
      × (m'.sent ≡ m.sent ++ map (λ w. (w, notify p)) m.watchers)
      × (m'.gen_id ≡ m.gen_id)
      × (length m'.path ≤ length m.path)
  clear_owned = elim (Option-cases (find p m.path)) [
    | inl e ↦ absurd (ground (arith, e, mine))
    | inr (v, e) ↦ clear_path-Moves m p v t e (owned_leaf v e) owned_deep
  ]

-- What the loop over `temp` leaves behind.
pub record Cleared (m : Master) (temp : List Bytes) (m' : Master) : Type 0 where
  pub moves : Moves m m' (λ j. if contains j temp then none else view m j)
  pub sent : m'.sent ≡ m.sent ++ all_notices temp m.watchers
  pub ids : m'.gen_id ≡ m.gen_id
  pub shrinks : length m'.path ≤ length m.path

Cleared-cons :
    (m n m' : Master) (p : Bytes) (temp : List Bytes)
    → Moves m n (λ j. if p == j then none else view m j)
    → n.sent ≡ m.sent ++ map (λ w. (w, notify p)) m.watchers
    → n.gen_id ≡ m.gen_id
    → length n.path ≤ length m.path
    → Cleared n temp m'
    → Cleared m (p ∷ temp) m'
unfolding contains
Cleared-cons m n m' p temp w e i l c = record {
  moves = record {
    tree = c.moves.tree;
    store = λ s. c.moves.store (w.store s);
    reads = λ j. ground (arith, c.moves.reads j, w.reads j);
    watchers = c.moves.watchers ∙ w.watchers;
    sockets = c.moves.sockets ∙ w.sockets;
    exits = c.moves.exits ∙ w.exits;
    room = c.moves.room ∙ w.room;
    size = let rest = c.shrinks in omega (arith, rest, l);
  };
  sent = rw (c.sent, e, w.watchers) (append_assoc m.sent _ _);
  ids = c.ids ∙ i;
  shrinks = let rest = c.shrinks in omega (arith, rest, l);
}

clear_paths_lem :
    (s : Socket) (temp : List Bytes) (m : Master)
    → IsTree (tree_of m)
    → Pending s (view m) temp
    → Returns (clear_paths temp m) (Cleared m temp)
unfolding clear_paths contains
clear_paths_lem s [] m t a = (
  m,
  refl,
  record { moves = stays m t; sent = sym (append-nil m.sent); ids = refl; shrinks = omega arith },
)
clear_paths_lem s (p ∷ temp) m t a =
    let (n, run, (w, e, i, l)) = clear_owned m t s p a.0 in
    let later : Pending s (view n) temp =
      Pending-ext s (view m) (view n) temp
        (λ j h. ground (arith, h, w.reads j, bytes_beq_iff p j, a.1)) a.2 in
    let (m', run', c) = clear_paths_lem s temp n w.tree later in
    (m', rw (run, run'), Cleared-cons m n m' p temp w e i l c)

-- On a tree `disconnect_clear_data` does not fault. It takes away the nodes of the connection, all of
-- them and no other, makes no node, leaves a tree, tells each watcher of each, and keeps the counters.
pub disconnect_clear_data_lem :
    (s : Socket) (m : Master)
    → IsTree (tree_of m)
    → IsStored m.path
    → Returns (disconnect_clear_data s m) λ m'.
      Moves m m' (λ j. if belongs s (view m j) then none else view m j)
      × (m'.sent ≡ m.sent ++ all_notices (owned_paths s m.path) m.watchers)
      × (m'.gen_id ≡ m.gen_id)
      × (length m'.path ≤ length m.path)
unfolding disconnect_clear_data
disconnect_clear_data_lem s m t st =
    let (m', run, c) =
      clear_paths_lem s (owned_paths s m.path) m t (owned_paths-Pending s m.path st.keys) in
    (
      m',
      run,
      (
        record {
          tree = c.moves.tree;
          store = c.moves.store;
          reads = λ j. rw (← contains-owned_paths s j m.path st.keys) (c.moves.reads j);
          watchers = c.moves.watchers;
          sockets = c.moves.sockets;
          exits = c.moves.exits;
          room = c.moves.room;
          size = c.moves.size;
        },
        c.sent,
        c.ids,
        c.shrinks,
      ),
    )
