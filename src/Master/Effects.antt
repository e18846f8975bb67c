-- ===== src/Master/Effects.antt =====
-- `handle_op` as a whole: no request makes it fault on a tree, and what each may change.
use prpc.Base.{
  ℕ, suc, ◌<◌, ◌≡◌, refl, ◌∙◌, true, false, length, none, arith, Bytes, bytes_eq, nat_eq,
  if◌then◌else◌,
}
use prpc.Base.Maps.{Map, assign, erase}
use prpc.Base.Outcome.{Returns}
use prpc.Master.Answers.{when_ok}
use prpc.Master.Changes.{
  formed, asks_exit, Effect, Counts, unasked, counter_stays, counter_erased, counter_raised,
  answer-Effect, same-Effect, spec_add-Owners, spec_del-Owners, spec_set-Owners, spec_gen-Owners,
  touch_root-Effect,
}
use prpc.Master.Delete.{master_del_lem}
use prpc.Master.Disconnect.{belongs, disconnect_clear_data_lem}
use prpc.Master.Generate.{master_gen_lem}
use prpc.Master.Handlers.{master_add_lem, master_set_lem}
use prpc.Master.Leaves.{tree_of, view, Moves}
use prpc.Master.Store.{IsStored}
use prpc.Master.Tree.{IsTree}
use prpc.Master.{
  Socket, Master, MasterStatus, ok_status, node_failed, path_failed, error, Request, gen_req,
  add_req, del_req, set_req, get_req, sub_req, exit_req, finalize_req, other_req, malformed_req,
  no_reply, counter, int_limit, touch_root, dispatch, handle_op, erase_watcher, disconnected,
}

-- The counters have not reached the largest `int`.
abbrev pub Roomy : Map Bytes ℕ → Type 0
Roomy ids = (p : Bytes) → suc (counter p ids) < int_limit

gen-Counts :
    (st : MasterStatus) (ids : Map Bytes ℕ) (p : Bytes)
    → Counts ids
        (elim st [ error ↦ ids | node_failed ↦ ids | _ ↦ assign p (suc (counter p ids)) ids ])
gen-Counts ok_status ids p = counter_raised ids p
gen-Counts node_failed ids p = counter_stays ids
gen-Counts path_failed ids p = counter_raised ids p
gen-Counts disconnected ids p = counter_raised ids p
gen-Counts error ids p = counter_stays ids

del-Counts :
    (st : MasterStatus) (ids : Map Bytes ℕ) (p : Bytes) → Counts ids (when_ok st (erase p ids) ids)
del-Counts ok_status ids p = counter_erased ids p
del-Counts node_failed ids p = counter_stays ids
del-Counts path_failed ids p = counter_stays ids
del-Counts disconnected ids p = counter_stays ids
del-Counts error ids p = counter_stays ids

module _ (s : Socket) (m : Master) (t : IsTree (tree_of m)) (v : IsStored m.path) where
  finalize-Effect :
      (m' : Master)
      → Moves m m' (λ j. if belongs s (view m j) then none else view m j)
      → m'.gen_id ≡ m.gen_id
      → Effect s false 1 m m'
  finalize-Effect m' w i = record {
    tree = w.tree;
    store = w.store v;
    owners = λ r j h. ground (arith, h, w.reads j);
    sockets = w.sockets;
    counters = λ p. rw i (counter_stays m.gen_id p);
    exits = w.exits ∙ unasked m.exit;
    room = w.room;
    size = let small = w.size in omega (arith, small);
  }

  dispatch-Effect :
      (req : Request)
      → formed req ≡ true
      → Roomy m.gen_id
      → length m.path < m.path_room
      → Returns (dispatch s req m) (λ out. Effect s (asks_exit req) 1 m out.1)
  unfolding dispatch
  dispatch-Effect (gen_req parent value e) good room roomy =
      let (out, run, a) = master_gen_lem m t s parent value e (room parent) roomy in
      (
        out,
        run,
        answer-Effect s m _ _ _ _ _ out v (spec_gen-Owners s (view m) _ parent value e)
            (gen-Counts _ m.gen_id parent) a,
      )
  dispatch-Effect (add_req path value e) good room roomy =
      let (out, run, a) = master_add_lem m t s path value e roomy in
      (
        out,
        run,
        answer-Effect s m _ _ _ _ _ out v (spec_add-Owners s (view m) path value e)
            (counter_stays m.gen_id) a,
      )
  dispatch-Effect (del_req path) good room roomy =
      let (busy, _, (out, run, a)) = master_del_lem m t path in
      (
        out,
        run,
        answer-Effect s m _ _ _ _ _ out v (spec_del-Owners s (view m) busy path)
            (del-Counts _ m.gen_id path) a,
      )
  dispatch-Effect (set_req path value) good room roomy = (
    _,
    refl,
    answer-Effect s m _ _ _ _ _ _ v (spec_set-Owners s (view m) path value) (counter_stays m.gen_id)
        (master_set_lem m t s path value),
  )
  dispatch-Effect (get_req path) good room roomy = (_, refl, same-Effect s m t v)
  dispatch-Effect (sub_req path) good room roomy = (_, refl, same-Effect s m t v)
  dispatch-Effect exit_req good room roomy = (_, refl, exit-Effect (same-Effect s m t v))
    where
      exit-Effect : Effect s false 1 m m → Effect s true 1 m (record m { exit = true })
      exit-Effect e = record {
        tree = e.tree;
        store = e.store;
        owners = e.owners;
        sockets = e.sockets;
        counters = e.counters;
        exits = ground arith;
        room = e.room;
        size = e.size;
      }
  dispatch-Effect finalize_req good room roomy =
      let (m', run, (w, _, i, _)) = disconnect_clear_data_lem s m t v in
      (
        (no_reply, record m' { watchers = erase_watcher s m'.watchers }),
        rw run refl,
        unwatched m' (finalize-Effect m' w i),
      )
    where
      unwatched :
          (m' : Master)
          → Effect s false 1 m m'
          → Effect s false 1 m (record m' { watchers = erase_watcher s m'.watchers })
      unwatched m' e = record {
        tree = e.tree;
        store = e.store;
        owners = e.owners;
        sockets = e.sockets;
        counters = e.counters;
        exits = e.exits;
        room = e.room;
        size = e.size;
      }
  dispatch-Effect other_req good room roomy = (_, refl, same-Effect s m t v)
  dispatch-Effect malformed_req good room roomy = absurd (cc good)

-- Where the store is a tree, no counter is the largest `int` and two more nodes do not make `_path`
-- rehash, no request that can be read makes `handle_op` fault: no `SCHECK` of a handler fails. The
-- result is a tree again, with at most two nodes more; a node hangs on the asking connection or on one
-- that it hung on before; the table of connections stays, a counter grows by at most one, and `exit` is
-- set by the exit request alone.
pub handle_op-Effect :
    (s : Socket) (req : Request) (m : Master)
    → IsTree (tree_of m)
    → IsStored m.path
    → formed req ≡ true
    → Roomy m.gen_id
    → suc (length m.path) < m.path_room
    → Returns (handle_op s req m) (λ out. Effect s (asks_exit req) 2 m out.1)
unfolding handle_op
handle_op-Effect s req m t v good room roomy =
    let e = touch_root-Effect s m t v in
    let (out, run, f) =
      dispatch-Effect s (touch_root m) e.tree e.store req good (unfold touch_root in room)
        (rw e.room (omega (arith, e.size, roomy))) in
    (
      out,
      run,
      record {
        tree = f.tree;
        store = f.store;
        owners = λ r j h. ground (arith, f.owners r j h, e.owners r j);
        sockets = f.sockets ∙ e.sockets;
        counters = unfold touch_root in f.counters;
        exits = unfold touch_root in f.exits;
        room = f.room ∙ e.room;
        size = omega (arith, e.size, f.size);
      },
    )
