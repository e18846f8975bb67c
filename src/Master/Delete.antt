-- ===== src/Master/Delete.antt =====
-- `master_del` against the specification.
use prpc.Base.{
  ◌≡◌, refl, inl, inr, ◌≢◌, ◌↔◌, Bool, true, false, none, some, List, [], ◌∷◌, arith, Bytes,
  bytes_eq, bytes_beq_iff, Bool-cases, Option-cases,
}
use prpc.Base.Maps.{find, erase}
use prpc.Base.Outcome.{Returns}
use prpc.Base.Sets.{contains}
use prpc.Master.{
  Master, MasterNode, ok_status, node_failed, path_failed, error, status, master_del,
  notify_watchers, has_children,
}
use prpc.Master.Leaves.{tree_of, view, detach-Moves}
use prpc.Master.Path.{check_valid_path, join}
use prpc.Master.Path.Split.{key_of-join, parent_of-join}
use prpc.Master.Spec.{spec_del, Child}
use prpc.Master.Tree.{IsTree, has_sub, join_ne_nil}
use prpc.Master.Answers.{when_ok, Answers, refuses, succeeds}

leaf_of : (v : MasterNode) → has_children v ≡ false → v.sub ≡ []
unfolding has_children
leaf_of v h = ground (arith, h)

nil_invalid : (p : Bytes) → check_valid_path p ≡ true → p ≢ []
unfolding check_valid_path
nil_invalid [] h = λ z. cc
nil_invalid (c ∷ p) h = λ z. cc

module _ (m : Master) (t : IsTree (tree_of m)) where
  -- What `master_del` tests is that some path hangs on this one.
  busy_at : Bytes → Bool
  busy_at path = elim (find path m.path) [ none ↦ false | some v ↦ has_children v ]

  busy_iff : (path : Bytes) → (busy_at path ≡ true) ↔ Child (view m) path
  unfolding busy_at has_children contains
  busy_iff path = elim (Option-cases (find path m.path)) [
    | inl e ↦ (λ h. absurd (ground (arith, e, h)), λ c. absurd (ground (arith, e, child_parent c)))
    | inr (v, e) ↦ (
      λ h.
          let (k, inside) = member_of v.sub (λ z. ground (arith, e, h, z)) in
          let there : has_sub k (find path m.path) ≡ true = rw e inside in
          let (free, nonempty, found) = t.child path k there in
          record {
            key = k;
            segment = record { nonempty = nonempty; free = free };
            there = ground (arith, found);
          },
      λ c. ground (arith, e, child_parent c),
    )
  ]
    where
      member_of : (ks : List Bytes) → ks ≢ [] → (k : Bytes) × (contains k ks ≡ true)
      member_of [] h = absurd (h refl)
      member_of (k ∷ ks) h = (k, ground (arith, bytes_beq_iff k k))

      child_parent : (c : Child (view m) path) → has_sub c.key (find path m.path) ≡ true
      child_parent c = ground (
        arith,
        c.there,
        t.parent (join path c.key),
        key_of-join path c.key c.segment.free,
        parent_of-join path c.key c.segment.free,
        join_ne_nil path c.key,
      )

  busy_found :
      (path : Bytes) (v : MasterNode) → find path m.path ≡ some v → busy_at path ≡ has_children v
  unfolding busy_at
  busy_found path v e = rw (e, busy_at)

  deleted :
      (path : Bytes)
      → let spec = spec_del (busy_at path) path (view m) in
        Returns (master_del path m) (
          Answers m
            (status spec.0)
            spec.0
            spec.1
            path
            (when_ok spec.0 (erase path m.gen_id) m.gen_id))
  unfolding master_del notify_watchers
  deleted path = elim (Bool-cases (check_valid_path path)) [
    | inr bad ↦ rw bad (_, refl, refuses m error path t refl)
    | inl valid ↦ rw valid (elim (Option-cases (find path m.path)) [
      | inl e ↦ rw e (_, refl, refuses m node_failed path t refl)
      | inr (v, e) ↦
          rw (busy_found path v e, e)
            (elim (Bool-cases (has_children v)) [
              | inl busy ↦ rw busy (_, refl, refuses m path_failed path t refl)
              | inr idle ↦
                  let (m', run, (moves, sent, ids)) =
                    detach-Moves m path v t e (leaf_of v idle) (nil_invalid path valid)
                      (erase path m.gen_id) in
                  rw (idle, run)
                    (
                      _,
                      refl,
                      succeeds m m' (status ok_status) path _ (erase path m.gen_id) moves sent ids,
                    )
            ])
    ])
  ]

  -- `master_del` is refused where the path has a child, and otherwise does what the specification
  -- says, without a fault. Where it succeeds it also forgets the path's counter.
  pub master_del_lem :
      (path : Bytes)
      → (busy : Bool) × ((busy ≡ true) ↔ Child (view m) path)
        × (let spec = spec_del busy path (view m) in
            Returns (master_del path m) (
              Answers m
                (status spec.0)
                spec.0
                spec.1
                path
                (when_ok spec.0 (erase path m.gen_id) m.gen_id)))
  master_del_lem path = (busy_at path, busy_iff path, deleted path)
