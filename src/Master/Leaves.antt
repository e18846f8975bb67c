-- ===== src/Master/Leaves.antt =====
-- The steps that the handlers share: a new leaf under an open node, and a leaf taken away. Neither
-- faults on a tree, and each leaves a tree.
use prpc.Base.{
  ℕ, suc, ◌≤◌, ◌<◌, length, lt→ltb, ◌≡◌, refl, sym, ap, ◌∙◌, inl, inr, ◌≢◌, true, false, Option,
  none, some, [], ◌++◌, map, arith, Bytes, if◌then◌else◌, ◌==◌, bytes_eq, bytes_beq_iff,
  Option-cases,
}
use prpc.Base.Maps.{Map, find, assign, erase, emplace, find-assign, find-erase, find-emplace}
use prpc.Base.Outcome.{ok, Returns}
use prpc.Base.Sets.Order.{insert-IsSorted, remove-IsSorted}
use prpc.Master.Store.{
  IsStored, length-assign, length-emplace, length-erase, find-IsSorted, assign-IsStored,
  erase-IsStored, emplace-IsStored,
}
use prpc.Base.Sets.{contains, insert, remove}
use prpc.Master.{
  Socket, Master, MasterNode, notify, node_at, insert_sub, erase_sub, attach, detach,
  notify_watchers, clear_path,
}
use prpc.Master.Path.{key_of, parent_of, join}
use prpc.Master.Path.Split.{IsSegment, join-parent-key, key_of-IsSegment}
use prpc.Master.Tree.{
  Lookup, IsTree, grown, pruned, grown-IsTree, pruned-IsTree, IsTree-ext, join_ne,
}

abbrev pub tree_of : Master → Lookup
tree_of m p = find p m.path

-- What a client can read of a node: its value, and the connection that it hangs on.
abbrev pub contents : Option MasterNode → Option (Bytes × Option Socket)
contents none = none
contents (some v) = some (v.value, v.owner)

abbrev pub view : Master → Bytes → Option (Bytes × Option Socket)
view m p = contents (find p m.path)

-- `m'` differs from `m` in the paths only, and those form a tree that reads as `f`.
pub record Moves (m m' : Master) (f : Bytes → Option (Bytes × Option Socket)) : Type 0 where
  pub tree : IsTree (tree_of m')
  pub store : IsStored m.path → IsStored m'.path
  pub reads : (j : Bytes) → view m' j ≡ f j
  pub watchers : m'.watchers ≡ m.watchers
  pub sockets : m'.fd_socket_map ≡ m.fd_socket_map
  pub exits : m'.exit ≡ m.exit
  pub room : m'.path_room ≡ m.path_room
  pub size : length m'.path ≤ suc (length m.path)

module _ (m : Master) (q k : Bytes) (u v : MasterNode) (t : IsTree (tree_of m))
    (open_at : find q m.path ≡ some u) (open_node : u.owner ≡ none)
    (fresh : find (join q k) m.path ≡ none) (segment : IsSegment k) (leaf : v.sub ≡ [])
    (roomy : length m.path < m.path_room) where
  attach_sub : contains k u.sub ≡ false
  attach_sub = ground (arith, t.child q k, open_at, fresh)

  attach_paths : Map Bytes MasterNode
  attach_paths = assign q (record u { sub = insert k u.sub }) (emplace (join q k) v m.path)

  attach_find : (j : Bytes) → find j attach_paths ≡ grown (tree_of m) q k u v j
  unfolding attach_paths
  attach_find j =
      rw (find-assign q j (record u { sub = insert k u.sub }) (emplace (join q k) v m.path))
        (rw (find-emplace (join q k) j v m.path fresh) refl)

  attach_there : find q (emplace (join q k) v m.path) ≡ some u
  attach_there = ground (
    arith,
    find-emplace (join q k) q v m.path fresh,
    bytes_beq_iff (join q k) q,
    join_ne q k,
    open_at,
  )

  attach_size : length attach_paths ≤ suc (length m.path)
  unfolding attach_paths
  attach_size =
      let same =
        length-assign q (record u { sub = insert k u.sub }) u (emplace (join q k) v m.path)
          attach_there in
      omega (arith, same, length-emplace (join q k) v m.path)

  attach_node : node_at q (emplace (join q k) v m.path) ≡ u
  unfolding node_at
  attach_node = rw (node_at, attach_there) refl

  attach_store : IsStored m.path → IsStored attach_paths
  unfolding attach_paths
  attach_store s =
      assign-IsStored q (emplace (join q k) v m.path)
        (emplace-IsStored (join q k) m.path s v (rw leaf tt)) _
        (insert-IsSorted k u.sub (find-IsSorted q u m.path s.subs open_at))

  attach_run : attach q k (join q k) v m ≡ ok (record m { path = attach_paths })
  unfolding attach insert_sub attach_paths
  attach_run = rw (lt→ltb (length m.path) m.path_room roomy, attach_node, attach_sub)

  pub attach-Moves : Returns (attach q k (join q k) v m) λ m'.
      Moves m m' (λ j. if join q k == j then some (v.value, v.owner) else view m j)
      × (m'.sent ≡ m.sent)
      × (m'.gen_id ≡ m.gen_id)
  attach-Moves = (
    record m { path = attach_paths },
    attach_run,
    (
      record {
        tree =
            IsTree-ext _ _ (grown-IsTree (tree_of m) q k u v t open_at open_node fresh segment leaf)
              attach_find;
        store = attach_store;
        reads = λ j. ground (
          arith,
          attach_find j,
          bytes_beq_iff q j,
          bytes_beq_iff (join q k) j,
          join_ne q k,
          open_at,
        );
        watchers = refl;
        sockets = refl;
        exits = refl;
        room = refl;
        size = attach_size;
      },
      refl,
      refl,
    ),
  )

module _ (m : Master) (p : Bytes) (v : MasterNode) (t : IsTree (tree_of m))
    (here : find p m.path ≡ some v) (leaf : v.sub ≡ []) (deep : p ≢ []) where
  -- the parent's node
  record Parent : Type 0 where
    node : MasterNode
    found : find (parent_of p) m.path ≡ some node
    keyed : contains (key_of p) node.sub ≡ true

  parent_there : Parent
  parent_there = elim (Option-cases (find (parent_of p) m.path)) [
    | inl e ↦ absurd (ground (arith, e, here, t.parent p))
    | inr (w, e) ↦ record { node = w; found = e; keyed = ground (arith, e, here, t.parent p) }
  ]

  spelled : join (parent_of p) (key_of p) ≡ p
  spelled = join-parent-key p (t.valid p (rw here) deep)

  apart : p ≢ parent_of p
  apart e = join_ne (parent_of p) (key_of p) (sym (spelled ∙ e))

  module _ (w : Parent) where
    detach_paths : Map Bytes MasterNode
    detach_paths =
        assign (parent_of p) (record (w.node) { sub = remove (key_of p) w.node.sub })
          (erase p m.path)

    detach_find :
        (j : Bytes) → find j detach_paths ≡ pruned (tree_of m) (parent_of p) (key_of p) w.node j
    unfolding detach_paths
    detach_find j = rw (
      spelled,
      find-assign (parent_of p) j (record (w.node) { sub = remove (key_of p) w.node.sub })
          (erase p m.path),
      find-erase p j m.path,
    )

    detach_node : find (parent_of p) (erase p m.path) ≡ some w.node
    detach_node =
        ground
          (arith, find-erase p (parent_of p) m.path, bytes_beq_iff p (parent_of p), apart, w.found)

    erase_sub_run : erase_sub (parent_of p) (key_of p) (erase p m.path) ≡ ok detach_paths
    unfolding erase_sub node_at detach_paths
    erase_sub_run = rw (detach_node, erase_sub, node_at) (rw w.keyed)

    detach-IsTree : IsTree (λ j. find j detach_paths)
    detach-IsTree =
        IsTree-ext _ _
          (pruned-IsTree (tree_of m) (parent_of p) (key_of p) w.node v t w.found (rw spelled here)
            leaf (key_of-IsSegment p (t.valid p (rw here) deep)).free)
          detach_find

    detach_store : IsStored m.path → IsStored detach_paths
    unfolding detach_paths
    detach_store s = assign-IsStored (parent_of p) (erase p m.path) (erase-IsStored p m.path s) _ (
        remove-IsSorted (key_of p) w.node.sub
          (find-IsSorted (parent_of p) w.node m.path s.subs w.found))

    detach_size : length detach_paths ≤ length m.path
    unfolding detach_paths
    detach_size =
        let same =
          length-assign (parent_of p) (record (w.node) { sub = remove (key_of p) w.node.sub })
            w.node (erase p m.path) detach_node in
        omega (arith, same, length-erase p m.path)

    detach_reads :
        (j : Bytes) → contents (find j detach_paths) ≡ (if p == j then none else view m j)
    detach_reads j = ground (
      arith,
      detach_find j,
      bytes_beq_iff (parent_of p) j,
      bytes_beq_iff (join (parent_of p) (key_of p)) j,
      bytes_beq_iff p j,
      spelled,
      apart,
      w.found,
    )

  detach_Moves :
      (w : Parent) (m' : Master)
      → m'.path ≡ detach_paths w
      → m'.watchers ≡ m.watchers
      → m'.fd_socket_map ≡ m.fd_socket_map
      → m'.exit ≡ m.exit
      → m'.path_room ≡ m.path_room
      → Moves m m' (λ j. if p == j then none else view m j)
  detach_Moves w m' e a b c d = record {
    tree = IsTree-ext _ _ (detach-IsTree w) (λ j. ap (find j) e);
    store = λ s. rw e (detach_store w s);
    reads = λ j. ap (λ x. contents (find j x)) e ∙ detach_reads w j;
    watchers = a;
    sockets = b;
    exits = c;
    room = d;
    size = let small = detach_size w in rw e (omega (arith, small));
  }

  -- One round of `disconnect_clear_data` does not fault, and takes one path away.
  pub clear_path-Moves : Returns (clear_path p m) λ m'.
      Moves m m' (λ j. if p == j then none else view m j)
      × (m'.sent ≡ m.sent ++ map (λ w. (w, notify p)) m.watchers)
      × (m'.gen_id ≡ m.gen_id)
      × (length m'.path ≤ length m.path)
  unfolding clear_path notify_watchers
  clear_path-Moves =
      let w = parent_there in
      (
        notify_watchers p (record m { path = detach_paths w }),
        rw (here, clear_path) (rw (erase_sub_run w) refl),
        (detach_Moves w _ refl refl refl refl refl, refl, refl, detach_size w),
      )

  -- What `master_del` does after its checks.
  pub detach-Moves :
      (ids : Map Bytes ℕ)
      → Returns
          (detach (parent_of p) (key_of p) (record m { path = erase p m.path; gen_id = ids }))
          λ m'.
            Moves m m' (λ j. if p == j then none else view m j)
            × (m'.sent ≡ m.sent)
            × (m'.gen_id ≡ ids)
  unfolding detach
  detach-Moves ids =
      let w = parent_there in
      (
        record m { path = detach_paths w; gen_id = ids },
        rw (detach_node w, detach) (rw (erase_sub_run w) refl),
        (detach_Moves w _ refl refl refl refl refl, refl, refl),
      )
