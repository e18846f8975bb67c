-- ===== src/Master/Queries.antt =====
-- `master_sub`, which lists the children of a path.
use prpc.Base.{
  ◌≡◌, ◌↔◌, ◌⊎◌, inl, inr, true, false, none, some, List, arith, Bytes, bytes_eq, Bool-cases,
  Option-cases,
}
use prpc.Base.Maps.{find}
use prpc.Base.Sets.Order.{IsSorted}
use prpc.Base.Sets.{contains}
use prpc.Master.Leaves.{tree_of, view}
use prpc.Master.Path.Split.{IsSegment, key_of-join, parent_of-join}
use prpc.Master.Path.{check_valid_path, join}
use prpc.Master.Spec.{Namespace}
use prpc.Master.Store.{IsStored, find-IsSorted}
use prpc.Master.Tree.{IsTree, is_there, has_sub, join_ne_nil}
use prpc.Master.{Master, MasterNode, status, ok_list, error, node_failed, master_sub}

module _ (m : Master) (t : IsTree (tree_of m)) where
  pub sub_iff :
      (path : Bytes) (v : MasterNode)
      → find path m.path ≡ some v
      → (k : Bytes)
      → (contains k v.sub ≡ true) ↔ (IsSegment k × (is_there (view m (join path k)) ≡ true))
  sub_iff path v e k = (
    λ h.
        let here : has_sub k (find path m.path) ≡ true = rw e h in
        let (free, nonempty, there) = t.child path k here in
        (record { nonempty = nonempty; free = free }, ground (arith, there)),
    λ h. ground (
      arith,
      h.1,
      e,
      t.parent (join path k),
      key_of-join path k h.0.free,
      parent_of-join path k h.0.free,
      join_ne_nil path k,
    ),
  )

-- The list that `master_sub` answers with: the keys of the path's children, each once, in order.
pub record Lists (g : Namespace) (path : Bytes) (ks : List Bytes) : Type 0 where
  pub sorted : IsSorted ks
  pub members :
      (k : Bytes) → (contains k ks ≡ true) ↔ (IsSegment k × (is_there (g (join path k)) ≡ true))

-- On a tree `master_sub` answers with the keys of the path's children, each once and in order, with
-- `NODE_FAILED` where the path is missing and with `ERROR` where it is not valid.
pub master_sub_lem :
    (m : Master) (path : Bytes)
    → IsTree (tree_of m)
    → IsStored m.path
    → ((check_valid_path path ≡ false) × (master_sub path m ≡ status error))
      ⊎ ((check_valid_path path ≡ true)
          × (view m path ≡ none)
          × (master_sub path m ≡ status node_failed))
      ⊎ ((check_valid_path path ≡ true)
          × (is_there (view m path) ≡ true)
          × ((ks : List Bytes) × (master_sub path m ≡ ok_list ks) × Lists (view m) path ks))
unfolding master_sub
master_sub_lem m path t s = elim (Bool-cases (check_valid_path path)) [
  | inr bad ↦ inl (bad, rw bad)
  | inl valid ↦ inr (elim (Option-cases (find path m.path)) [
    | inl e ↦ inl (valid, rw e, rw (valid, e))
    | inr (v, e) ↦ inr (
      valid,
      rw e,
      (
        v.sub,
        rw (valid, e),
        record { sorted = find-IsSorted path v m.path s.subs e; members = sub_iff m t path v e },
      ),
    )
  ])
]
