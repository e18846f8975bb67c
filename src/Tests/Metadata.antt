-- ===== src/Tests/Metadata.antt =====
-- Runs of the metadata service: src/rpc/Master.cpp.
use prpc.Base.{
  ◌≡◌, ◌≤◌, length, refl, Bool, true, false, none, some, List, [], ◌∷◌, arith, Bytes, bytes_eq,
  nat_eq, ◌↔◌, ◌⊎◌, if◌then◌else◌,
}
use prpc.Base.Maps.{find, assign, erase, emplace}
use prpc.Base.Sets.{contains, insert, lex_lt}
use prpc.Base.Outcome.{ok, Returns, Returns-at}
use prpc.Master.{
  Master, status, ok_status, ok_text, initial, Request, add_req, del_req, exit_req, handle_op,
  touch_root, dispatch, master_add, attach, insert_sub, node_at, is_closed, notify, path_failed,
  node_failed, error, ok_list, master_set, master_del, master_gen, master_sub,
  disconnect_clear_data, owned_paths, notify_watchers, counter,
}
use prpc.Master.Path.{
  check_valid_path, check_segments, ends_segment, key_of, parent_of, find_last_of, join, gen_key,
  to_string, pad, digits,
}
use prpc.Master.Serving.{accepts, reads, serving, on_accept, add_watcher}
use prpc.Master.Serving.Safety.{Ends, serving-Ends, initial-IsValid}
use prpc.Master.Serving.Valid.{IsValid, on_accept-IsValid}
use prpc.Master.Changes.{Effect}
use prpc.Master.Effects.{Roomy, handle_op-Effect}
use prpc.Master.Handlers.{master_add_lem, master_set_lem}
use prpc.Master.Delete.{master_del_lem}
use prpc.Master.Generate.{master_gen_lem}
use prpc.Master.Disconnect.{disconnect_clear_data_lem, belongs}
use prpc.Master.Queries.{master_sub_lem, Lists}
use prpc.Master.Answers.{Answers, when_ok}
use prpc.Master.Leaves.{view, Moves}
use prpc.Master.Tree.{is_there}
use prpc.Master.Spec.{Child, spec_del, updated}
use prpc.Master.Path.Segments.{IsPath, check_valid_path_iff}
use prpc.Master.Path.Keys.{number_of-gen_key, number_of}

-- "/a"
abbrev path_a : Bytes
path_a = b'/' ∷ b'a' ∷ []

-- "b"
abbrev text_b : Bytes
text_b = b'b' ∷ []

-- "/a/b"
abbrev path_ab : Bytes
path_ab = b'/' ∷ b'a' ∷ b'/' ∷ b'b' ∷ []

-- A client that makes "/a" and goes away, a second that asks the service to exit.
serving-Ends_example :
    let rounds =
      (accepts 5 3 ∷ accepts 6 4 ∷ [])
      ∷ (reads 5 (add_req path_a [] true ∷ []) false ∷ [])
      ∷ (reads 6 (exit_req ∷ []) false ∷ [])
      ∷ [] in
    Returns (serving rounds (initial 13)) (Ends 2 false rounds)
unfolding find emplace erase
serving-Ends_example =
    serving-Ends 0 _ (initial 13) (initial-IsValid 13) refl (omega arith) (omega arith)
      (tt, ((refl, tt), ((refl, tt), tt)))

abbrev start : Master
start = record (initial 13) { fd_socket_map = (5, 3) ∷ []; watchers = 3 ∷ [] }

start-IsValid : IsValid 0 start
unfolding on_accept add_watcher emplace find
start-IsValid = on_accept-IsValid 0 5 3 (initial 13) (initial-IsValid 13)

abbrev grown : Master
grown = record start {
  path =
      (path_a, record { owner = some 3; value = b'x' ∷ []; sub = [] })
      ∷ ([], record { owner = none; value = []; sub = (b'a' ∷ []) ∷ [] })
      ∷ [];
  sent = (3, notify path_a) ∷ [];
}

add_a : Request
add_a = add_req path_a (b'x' ∷ []) true

grows : handle_op 3 add_a start ≡ ok (status ok_status, grown)
unfolding add_a handle_op dispatch touch_root emplace master_add find assign contains insert lex_lt
    attach insert_sub node_at is_closed notify_watchers check_valid_path check_segments ends_segment
    key_of parent_of find_last_of
grows = refl

roomy : Roomy []
unfolding counter find
roomy p = omega arith

grown-Effect : Effect 3 false 2 start grown
unfolding add_a
grown-Effect =
    Returns-at
      (handle_op-Effect 3 add_a start start-IsValid.tree start-IsValid.store refl roomy
        (omega arith))
      (status ok_status, grown) grows

handle_op-Effect_example :
    Returns (handle_op 3 (del_req path_a) grown) (λ out. Effect 3 false 2 grown out.1)
handle_op-Effect_example =
    handle_op-Effect 3 (del_req path_a) grown grown-Effect.tree grown-Effect.store refl roomy
      (omega arith)

-- "/a" hangs on a connection, so that it takes no child: the reply is that the path failed.
master_add_lem_example :
    Returns
      (master_add 3 path_ab [] false grown)
      (Answers grown (status path_failed) path_failed (view grown) path_ab [])
unfolding find check_valid_path check_segments ends_segment key_of parent_of find_last_of
master_add_lem_example = master_add_lem grown grown-Effect.tree 3 path_ab [] false (omega arith)

master_set_lem_example :
    Answers grown
      (status ok_status)
      ok_status
      (updated path_a (some ([], some 3)) (view grown))
      path_a
      []
      (master_set path_a [] grown)
unfolding find check_valid_path check_segments ends_segment
master_set_lem_example = master_set_lem grown grown-Effect.tree 3 path_a []

master_del_lem_example :
    (busy : Bool) × ((busy ≡ true) ↔ Child (view grown) path_a)
    × (let spec = spec_del busy path_a (view grown) in
        Returns (master_del path_a grown) (
          Answers grown (status spec.0) spec.0 spec.1 path_a (when_ok spec.0 (erase path_a []) [])))
master_del_lem_example = master_del_lem grown grown-Effect.tree path_a

abbrev settled : Master
settled = record grown {
  path =
      (path_a, record { owner = none; value = b'x' ∷ []; sub = [] })
      ∷ ([], record { owner = none; value = []; sub = (b'a' ∷ []) ∷ [] })
      ∷ [];
}

add_settled : Request
add_settled = add_req path_a (b'x' ∷ []) false

settles : handle_op 3 add_settled start ≡ ok (status ok_status, settled)
unfolding add_settled handle_op dispatch touch_root emplace master_add find assign contains insert
    lex_lt attach insert_sub node_at is_closed notify_watchers check_valid_path check_segments
    ends_segment key_of parent_of find_last_of
settles = refl

settled-Effect : Effect 3 false 2 start settled
unfolding add_settled
settled-Effect =
    Returns-at
      (handle_op-Effect 3 add_settled start start-IsValid.tree start-IsValid.store refl roomy
        (omega arith))
      (status ok_status, settled) settles

-- The first key that is made under "/a".
master_gen_lem_example :
    let path = join path_a (gen_key 0) in
    Returns (master_gen 3 path_a text_b true settled) (
      Answers settled
        (ok_text (gen_key 0))
        ok_status
        (updated path (some (text_b, some 3)) (view settled))
        path
        ((path_a, 1) ∷ []))
unfolding check_valid_path check_segments ends_segment counter find join gen_key to_string pad
    digits assign
master_gen_lem_example =
    master_gen_lem settled settled-Effect.tree 3 path_a text_b true (omega arith) (omega arith)

disconnect_clear_data_lem_example : Returns (disconnect_clear_data 3 grown) λ m'.
    Moves grown m' (λ j. if belongs 3 (view grown j) then none else view grown j)
    × (m'.sent ≡ (3, notify path_a) ∷ (3, notify path_a) ∷ [])
    × (m'.gen_id ≡ [])
    × (length m'.path ≤ 2)
unfolding owned_paths
disconnect_clear_data_lem_example =
    disconnect_clear_data_lem 3 grown grown-Effect.tree grown-Effect.store

master_sub_lem_example :
    ((check_valid_path path_a ≡ false) × (master_sub path_a grown ≡ status error))
    ⊎ ((check_valid_path path_a ≡ true)
        × (view grown path_a ≡ none)
        × (master_sub path_a grown ≡ status node_failed))
    ⊎ ((check_valid_path path_a ≡ true)
        × (is_there (view grown path_a) ≡ true)
        × ((ks : List Bytes) × (master_sub path_a grown ≡ ok_list ks)
            × Lists (view grown) path_a ks))
master_sub_lem_example = master_sub_lem grown path_a grown-Effect.tree grown-Effect.store

check_valid_path_iff_example : (check_valid_path path_ab ≡ true) ↔ IsPath path_ab
check_valid_path_iff_example = check_valid_path_iff path_ab

number_of-gen_key_example : number_of (gen_key 42) ≡ 42
number_of-gen_key_example = number_of-gen_key 42
