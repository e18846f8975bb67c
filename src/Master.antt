-- ===== src/Master.antt =====
-- The metadata service: `Master` of src/rpc/Master.h and src/rpc/Master.cpp, with its handlers and
-- its serving loop. The state is the class's fields; what the sockets are given to send is a list.
pub mod Path
pub mod Tree
pub mod Store
pub mod Leaves
pub mod Spec
pub mod Answers
pub mod Handlers
pub mod Delete
pub mod Generate
pub mod Queries
pub mod Disconnect
pub mod Changes
pub mod Effects
pub mod Serving
use prpc.Base.{
  ℕ, zero, suc, ◌+◌, ◌-◌, ◌^◌, ◌≡◌, Bool, true, false, ◌&&◌, ◌||◌, not, Option, none, some, List,
  [], ◌∷◌, ◌++◌, map, Bytes, ltb, if◌then◌else◌, length, ◌==◌, bytes_eq, nat_eq,
}
use prpc.Base.Maps.{Map, find, assign, erase, emplace}
use prpc.Base.Sets.{contains, insert, remove}
use prpc.Base.Outcome.{Outcome, ok, fault, ◌>>=◌, ◌>>◌, check}
use Path.{check_valid_path, key_of, parent_of, join, gen_key}

-- A `TcpSocket*`: the identity of the object.
abbrev pub Socket : Type 0
Socket = ℕ

pub data MasterStatus : Type 0 where
  ok_status node_failed path_failed disconnected error : MasterStatus

pub record MasterNode : Type 0 where
  pub owner : Option Socket
  pub value : Bytes
  pub sub : List Bytes

-- The value that `_path[key]` makes where the key is missing.
abbrev pub new_node : MasterNode
new_node = record { owner = none; value = []; sub = [] }

-- A request, as `handle_op` and the handlers read it from the archive: `malformed_req` is one on which
-- a `req >>` fails its check.
pub data Request : Type 0 where
  gen_req : (parent value : Bytes) (ephemeral : Bool) → Request
  add_req : (path value : Bytes) (ephemeral : Bool) → Request
  del_req : (path : Bytes) → Request
  set_req : (path value : Bytes) → Request
  get_req : (path : Bytes) → Request
  sub_req : (path : Bytes) → Request
  exit_req : Request
  finalize_req : Request
  other_req : Request
  malformed_req : Request

-- What a handler writes into its response.
pub data Reply : Type 0 where
  no_reply : Reply
  status : MasterStatus → Reply
  ok_text : Bytes → Reply
  ok_list : List Bytes → Reply

pub data Message : Type 0 where
  respond : Reply → Message
  notify : Bytes → Message

-- `path_room` is how many elements `_path` holds before an `emplace` of one more rehashes it, which
-- makes its iterators invalid.
pub record Master : Type 0 where
  pub gen_id : Map Bytes ℕ
  pub path : Map Bytes MasterNode
  pub path_room : ℕ
  pub fd_socket_map : Map ℕ Socket
  pub watchers : List Socket
  pub exit : Bool
  pub sent : List (Socket × Message)

abbrev pub initial : ℕ → Master
initial room = record {
  gen_id = [];
  path = [];
  path_room = room;
  fd_socket_map = [];
  watchers = [];
  exit = false;
  sent = [];
}

-- One more than the largest `int`: the counters of `_gen_id` overflow there.
abbrev pub int_limit : ℕ
int_limit = 2 ^ 31

abbrev pub send : Master → Socket → Message → Master
send m s msg = record m { sent = m.sent ++ (s, msg) ∷ [] }

unfoldable pub notify_watchers : Bytes → Master → Master
notify_watchers path m = record m { sent = m.sent ++ map (λ w. (w, notify path)) m.watchers }

-- `_path[key]`
unfoldable pub node_at : Bytes → Map Bytes MasterNode → MasterNode
node_at p paths = elim (find p paths) [ none ↦ new_node | some v ↦ v ]

-- `SCHECK(node.sub.erase(key))` on the node of `p`
unfoldable pub erase_sub : Bytes → Bytes → Map Bytes MasterNode → Outcome (Map Bytes MasterNode)
unfolding node_at
erase_sub p key paths = do
  let node = node_at p paths
  check (contains key node.sub)
  ok (assign p (record node { sub = remove key node.sub }) paths)

-- `SCHECK(pit->second.sub.insert(key).second)` on the node `node` of `p`
unfoldable pub insert_sub : Bytes → Bytes → Map Bytes MasterNode → Outcome (Map Bytes MasterNode)
unfolding node_at
insert_sub p key paths = do
  let node = node_at p paths
  check (not (contains key node.sub))
  ok (assign p (record node { sub = insert key node.sub }) paths)

-- One round of the loop over `temp` in `disconnect_clear_data`.
unfoldable pub clear_path : Bytes → Master → Outcome Master
clear_path path m = elim (find path m.path) [
  | none ↦ fault
  | some v ↦ do
    paths ← erase_sub (parent_of path) (key_of path) (erase path m.path)
    ok (notify_watchers path (record m { path = paths }))
]

unfoldable pub clear_paths : List Bytes → Master → Outcome Master
clear_paths [] m = ok m
clear_paths (path ∷ temp) m = clear_path path m >>= clear_paths temp

abbrev pub owned_by : Socket → MasterNode → Bool
owned_by s v = elim v.owner [ none ↦ false | some t ↦ t == s ]

-- `temp`: the paths of the nodes that the socket owns
unfoldable pub owned_paths : Socket → Map Bytes MasterNode → List Bytes
owned_paths s [] = []
owned_paths s ((p, v) ∷ m) = let rest = owned_paths s m in if owned_by s v then p ∷ rest else rest

unfoldable pub disconnect_clear_data : Socket → Master → Outcome Master
unfolding owned_paths
disconnect_clear_data s m = clear_paths (owned_paths s m.path) m

-- `_gen_id[parent]`
unfoldable pub counter : Bytes → Map Bytes ℕ → ℕ
counter p ids = elim (find p ids) [ none ↦ 0 | some n ↦ n ]

-- `pit == _path.end() || pit->second.owner != nullptr`
unfoldable pub is_closed : Option MasterNode → Bool
is_closed none = true
is_closed (some v) = elim v.owner [ none ↦ false | some s ↦ true ]

abbrev pub owner_of : Bool → Socket → Option Socket
owner_of ephemeral s = if ephemeral then some s else none

-- What `master_gen` and `master_add` do from `_path.emplace(…)` on, where the path is new: `pit` was
-- found before that, and is used after it.
unfoldable pub attach : Bytes → Bytes → Bytes → MasterNode → Master → Outcome Master
attach parent key path node m =
    if ltb (length m.path) m.path_room
    then (do
      paths ← insert_sub parent key (emplace path node m.path)
      ok (record m { path = paths }))
    else fault

unfoldable pub master_gen : Socket → Bytes → Bytes → Bool → Master → Outcome (Reply × Master)
unfolding attach
master_gen s parent value ephemeral m =
    if not (check_valid_path parent)
    then ok (status error, m)
    else if is_closed (find parent m.path)
    then ok (status node_failed, m)
    else do
      let n = counter parent m.gen_id
      check (ltb (suc n) int_limit)
      let m' = record m { gen_id = assign parent (suc n) m.gen_id }
      let key = gen_key n
      let path = join parent key
      if ltb 11 (length key) then ok (status error, m') else elim (find path m'.path) [
        | some v ↦ ok (status path_failed, m')
        | none ↦ do
          m'' ←
              attach parent key path
                (record { owner = owner_of ephemeral s; value = value; sub = [] }) m'
          ok (ok_text key, notify_watchers path m'')
      ]

unfoldable pub master_add : Socket → Bytes → Bytes → Bool → Master → Outcome (Reply × Master)
unfolding attach
master_add s path value ephemeral m =
    if not (check_valid_path path)
    then ok (status error, m)
    else if is_closed (find (parent_of path) m.path)
    then ok (status path_failed, m)
    else elim (find path m.path) [
      | some v ↦ ok (status node_failed, m)
      | none ↦ do
        m' ←
            attach (parent_of path) (key_of path) path
              (record { owner = owner_of ephemeral s; value = value; sub = [] }) m
        ok (status ok_status, notify_watchers path m')
    ]

-- `SCHECK(pit != _path.end()); SCHECK(pit->second.sub.erase(key))`
unfoldable pub detach : Bytes → Bytes → Master → Outcome Master
detach parent key m = elim (find parent m.path) [
  | none ↦ fault
  | some v ↦ do paths ← erase_sub parent key m.path; ok (record m { path = paths })
]

unfoldable pub has_children : MasterNode → Bool
has_children v = elim v.sub [ [] ↦ false | k ∷ ks ↦ true ]

unfoldable pub master_del : Bytes → Master → Outcome (Reply × Master)
unfolding detach has_children
master_del path m =
    if not (check_valid_path path) then ok (status error, m) else elim (find path m.path) [
      | none ↦ ok (status node_failed, m)
      | some v ↦ if has_children v then ok (status path_failed, m) else do
        m' ←
            detach (parent_of path) (key_of path)
              (record m { path = erase path m.path; gen_id = erase path m.gen_id })
        ok (status ok_status, notify_watchers path m')
    ]

unfoldable pub master_set : Bytes → Bytes → Master → Reply × Master
master_set path value m =
    if not (check_valid_path path) then (status error, m) else elim (find path m.path) [
      | none ↦ (status node_failed, m)
      | some v ↦ (
        status ok_status,
        notify_watchers path (record m { path = assign path (record v { value = value }) m.path }),
      )
    ]

unfoldable pub master_get : Bytes → Master → Reply
master_get path m =
    if not (check_valid_path path)
    then status error
    else elim (find path m.path) [ none ↦ status node_failed | some v ↦ ok_text v.value ]

unfoldable pub master_sub : Bytes → Master → Reply
master_sub path m =
    if not (check_valid_path path)
    then status error
    else elim (find path m.path) [ none ↦ status node_failed | some v ↦ ok_list v.sub ]

-- `_path[""]`, which makes the root where it is missing; no iterator is in use that a rehash would
-- touch, and `path_room` is what there is after it
unfoldable pub touch_root : Master → Master
touch_root m = record m { path = emplace [] new_node m.path }

unfoldable pub erase_watcher : Socket → List Socket → List Socket
erase_watcher s [] = []
erase_watcher s (w ∷ ws) = let rest = erase_watcher s ws in if w == s then rest else w ∷ rest

-- the `switch` of `handle_op`
unfoldable pub dispatch : Socket → Request → Master → Outcome (Reply × Master)
unfolding erase_watcher
dispatch s (gen_req parent value ephemeral) m = master_gen s parent value ephemeral m
dispatch s (add_req path value ephemeral) m = master_add s path value ephemeral m
dispatch s (del_req path) m = master_del path m
dispatch s (set_req path value) m = ok (master_set path value m)
dispatch s (get_req path) m = ok (master_get path m, m)
dispatch s (sub_req path) m = ok (master_sub path m, m)
dispatch s exit_req m = ok (no_reply, record m { exit = true })
dispatch s finalize_req m = do
  m' ← disconnect_clear_data s m
  ok (no_reply, record m' { watchers = erase_watcher s m'.watchers })
dispatch s other_req m = ok (no_reply, m)
dispatch s malformed_req m = fault

unfoldable pub handle_op : Socket → Request → Master → Outcome (Reply × Master)
handle_op s req m = dispatch s req (touch_root m)
