-- ===== src/Master/Handlers.antt =====
-- `master_add` and `master_set` against the specification.
use prpc.Base.{
  ◌≡◌, ◌<◌, length, refl, inl, inr, Bool, true, false, none, some, [], arith, Bytes, bytes_eq,
  Bool-cases, Option-cases,
}
use prpc.Base.Maps.{find, assign, find-assign}
use prpc.Base.Outcome.{Returns}
use prpc.Master.{
  Socket, Master, ok_status, node_failed, path_failed, error, status, master_add, master_set,
  attach, notify_watchers, owner_of, is_closed,
}
use prpc.Master.Leaves.{tree_of, view, Moves, attach-Moves}
use prpc.Master.Path.{check_valid_path, key_of, parent_of}
use prpc.Master.Path.Split.{join-parent-key, key_of-IsSegment}
use prpc.Master.Spec.{updated, spec_add, spec_set}
use prpc.Master.Store.{find-IsSorted, assign-IsStored, length-assign}
use prpc.Master.Tree.{IsTree, revalued-IsTree}
use prpc.Master.Answers.{Answers, refuses, succeeds, closed-blocked, open_found}

module _ (m : Master) (t : IsTree (tree_of m)) (s : Socket) where
  module _ (path value : Bytes) (ephemeral : Bool) (valid : check_valid_path path ≡ true)
      (open_parent : is_closed (find (parent_of path) m.path) ≡ false)
      (absent : find path m.path ≡ none) (roomy : length m.path < m.path_room) where
    -- a new leaf at `path`
    pub attach_path :
        Returns
          (attach
            (parent_of path)
            (key_of path)
            path
            (record { owner = owner_of ephemeral s; value = value; sub = [] })
            m)
          λ m'.
            Moves m m' (updated path (some (value, owner_of ephemeral s)) (view m))
            × (m'.sent ≡ m.sent)
            × (m'.gen_id ≡ m.gen_id)
    attach_path =
        let (u, e, o) = open_found (find (parent_of path) m.path) open_parent in
        let spelled = join-parent-key path valid in
        rw spelled at (
          attach-Moves m (parent_of path) (key_of path) u
            (record { owner = owner_of ephemeral s; value = value; sub = [] }) t e o
            (rw spelled absent) (key_of-IsSegment path valid) refl roomy)

  -- Where one more node does not make `_path` rehash, `master_add` does not fault on a tree, and its
  -- reply, its namespace and its notices are those that the specification says.
  pub master_add_lem :
      (path value : Bytes) (ephemeral : Bool)
      → length m.path < m.path_room
      → let spec = spec_add path value (owner_of ephemeral s) (view m) in
        Returns
          (master_add s path value ephemeral m)
          (Answers m (status spec.0) spec.0 spec.1 path m.gen_id)
  unfolding master_add notify_watchers
  master_add_lem path value ephemeral roomy = elim (Bool-cases (check_valid_path path)) [
    | inr bad ↦ rw bad (_, refl, refuses m error path t refl)
    | inl valid ↦ rw valid (elim (Bool-cases (is_closed (find (parent_of path) m.path))) [
      | inl shut ↦
          rw (shut, ← closed-blocked (find (parent_of path) m.path), shut)
            (_, refl, refuses m path_failed path t refl)
      | inr open_parent ↦
          rw (open_parent, ← closed-blocked (find (parent_of path) m.path), open_parent)
            (elim (Option-cases (find path m.path)) [
              | inr (v, e) ↦ rw e (_, refl, refuses m node_failed path t refl)
              | inl e ↦
                  let (m', run, (moves, sent, ids)) =
                    attach_path path value ephemeral valid open_parent e roomy in
                  rw (e, run)
                    (_, refl, succeeds m m' (status ok_status) path _ m.gen_id moves sent ids)
            ])
    ])
  ]

  -- On a tree `master_set` does what the specification says, which keeps the owner, and leaves a tree.
  pub master_set_lem :
      (path value : Bytes)
      → let spec = spec_set path value (view m) in
        Answers m (status spec.0) spec.0 spec.1 path m.gen_id (master_set path value m)
  unfolding master_set
  master_set_lem path value = elim (Bool-cases (check_valid_path path)) [
    | inr bad ↦ rw bad (refuses m error path t refl)
    | inl valid ↦ rw valid (elim (Option-cases (find path m.path)) [
      | inl e ↦ rw e (refuses m node_failed path t refl)
      | inr (v, e) ↦
          let v' = record v { value = value } in
          let m' = record m { path = assign path v' m.path } in
          rw e (
            succeeds m m' (status ok_status) path _ m.gen_id
              (record {
                tree =
                    revalued-IsTree (tree_of m) (tree_of m') path v v' t e refl refl
                      (λ j. find-assign path j v' m.path);
                store =
                    λ s. assign-IsStored path m.path s v' (find-IsSorted path v m.path s.subs e);
                reads = λ j. ground (arith, find-assign path j v' m.path);
                watchers = refl;
                sockets = refl;
                exits = refl;
                room = refl;
                size = let same = length-assign path v' v m.path e in omega (arith, same);
              })
              refl refl)
    ])
  ]
