-- ===== src/Master/Generate.antt =====
-- `master_gen` against the specification.
use prpc.Base.{
  ℕ, suc, ◌<◌, ◌≡◌, refl, Bool, false, [], arith, Bytes, bytes_eq, Bool-cases, Option-cases, ltb,
  lt→ltb, length, sym, append-nil, inl, inr,
}
use prpc.Base.Maps.{find, assign}
use prpc.Base.Outcome.{Returns}
use prpc.Master.Answers.{Answers, refuses, stays, succeeds, closed-blocked, open_found}
use prpc.Master.Leaves.{tree_of, view, Moves, attach-Moves}
use prpc.Master.Path.Keys.{gen_key-length, gen_key-IsSegment}
use prpc.Master.Path.{check_valid_path, join, gen_key}
use prpc.Master.Spec.{spec_gen, Namespace}
use prpc.Master.Tree.{IsTree}
use prpc.Master.{
  Socket, Master, MasterStatus, ok_status, node_failed, path_failed, error, status, ok_text, Reply,
  master_gen, owner_of, is_closed, counter, int_limit,
}

-- the response: the key, where the status is OK
abbrev pub gen_reply : MasterStatus → ℕ → Reply
gen_reply ok_status n = ok_text (gen_key n)
gen_reply st n = status st

module _ (m : Master) (t : IsTree (tree_of m)) (s : Socket) where
  -- On a tree, where the parent's counter is not the largest `int` and one more node does not make
  -- `_path` rehash, `master_gen` does not fault and does what the specification says for the counter's value before the call. The counter moves on
  -- whenever the parent is accepted.
  pub master_gen_lem :
      (parent value : Bytes) (ephemeral : Bool)
      → suc (counter parent m.gen_id) < int_limit
      → length m.path < m.path_room
      → let n = counter parent m.gen_id in
        let spec = spec_gen n parent value (owner_of ephemeral s) (view m) in
        Returns (master_gen s parent value ephemeral m) (
          Answers m (gen_reply spec.0 n) spec.0 spec.1 (join parent (gen_key n)) (elim spec.0 [
            | error ↦ m.gen_id
            | node_failed ↦ m.gen_id
            | _ ↦ assign parent (suc n) m.gen_id
          ]))
  unfolding master_gen
  master_gen_lem parent value ephemeral room roomy = elim (Bool-cases (check_valid_path parent)) [
    | inr bad ↦ rw bad (_, refl, refuses m error (join parent (gen_key n)) t refl)
    | inl valid ↦ rw valid (elim (Bool-cases (is_closed (find parent m.path))) [
      | inl shut ↦
          rw (shut, ← closed-blocked (find parent m.path), shut)
            (_, refl, refuses m node_failed (join parent (gen_key n)) t refl)
      | inr open_parent ↦
          rw
            (
              open_parent,
              ← closed-blocked (find parent m.path),
              open_parent,
              lt→ltb (suc n) int_limit room,
              short,
            )
            (elim (Option-cases (find (join parent (gen_key n)) m.path)) [
              | inr (v, e) ↦ rw e (_, refl, fails)
              | inl e ↦
                  let (u, found, o) = open_found (find parent m.path) open_parent in
                  let (m'', run, (moves, sent, ids)) =
                    attach-Moves counted parent (gen_key n) u
                      (record { owner = owner_of ephemeral s; value = value; sub = [] }) t found o e
                      (gen_key-IsSegment n) refl roomy in
                  rw (e, run)
                    (
                      _,
                      refl,
                      succeeds m m'' (ok_text (gen_key n)) (join parent (gen_key n)) _ _
                          (rebase moves) sent ids,
                    )
            ])
    ])
  ]
    where
      n : ℕ
      n = counter parent m.gen_id

      counted : Master
      counted = record m { gen_id = assign parent (suc n) m.gen_id }

      short : ltb 11 (length (gen_key n)) ≡ false
      short = ground (arith, gen_key-length n (omega arith))

      rebase : {m'' : Master} {f : Namespace} → Moves counted m'' f → Moves m m'' f
      rebase w = record {
        tree = w.tree;
        store = w.store;
        reads = w.reads;
        watchers = w.watchers;
        sockets = w.sockets;
        exits = w.exits;
        room = w.room;
        size = w.size;
      }

      fails :
          Answers m
            (status path_failed)
            path_failed
            (view m)
            (join parent (gen_key n))
            counted.gen_id
            (status path_failed, counted)
      fails = record {
        reply = refl;
        moves = rebase (stays counted t);
        sent = sym (append-nil m.sent);
        ids = refl;
      }
