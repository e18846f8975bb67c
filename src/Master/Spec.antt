-- ===== src/Master/Spec.antt =====
-- What the metadata service promises, with no `sub` sets and no map order: a namespace is a function
-- from paths to a value and the connection that the node hangs on.
use prpc.Base.{ℕ, ◌≡◌, Bool, true, not, Option, none, some, Bytes, if◌then◌else◌, ◌==◌, bytes_eq}
use prpc.Master.{Socket, MasterStatus, ok_status, node_failed, path_failed, error}
use prpc.Master.Path.{check_valid_path, parent_of, join, gen_key}
use prpc.Master.Path.Split.{IsSegment}
use prpc.Master.Tree.{is_there}

abbrev pub Entry : Type 0
Entry = Bytes × Option Socket

abbrev pub Namespace : Type 0
Namespace = Bytes → Option Entry

abbrev pub updated : Bytes → Option Entry → Namespace → Namespace
updated p c g j = if p == j then c else g j

-- No child may hang on a node that is missing or that a connection keeps alive.
abbrev pub blocked : Option Entry → Bool
blocked none = true
blocked (some (v, o)) = is_there o

abbrev pub spec_add : Bytes → Bytes → Option Socket → Namespace → MasterStatus × Namespace
spec_add path value owner g =
    if not (check_valid_path path)
    then (error, g)
    else if blocked (g (parent_of path))
    then (path_failed, g)
    else if is_there (g path)
    then (node_failed, g)
    else (ok_status, updated path (some (value, owner)) g)

-- `busy` says whether the path has a child.
abbrev pub spec_del : Bool → Bytes → Namespace → MasterStatus × Namespace
spec_del busy path g =
    if not (check_valid_path path)
    then (error, g)
    else if not (is_there (g path))
    then (node_failed, g)
    else if busy
    then (path_failed, g)
    else (ok_status, updated path none g)

abbrev pub revalue : Bytes → Option Entry → Option Entry
revalue value none = none
revalue value (some (v, o)) = some (value, o)

abbrev pub spec_set : Bytes → Bytes → Namespace → MasterStatus × Namespace
spec_set path value g =
    if not (check_valid_path path)
    then (error, g)
    else if not (is_there (g path))
    then (node_failed, g)
    else (ok_status, updated path (revalue value (g path)) g)

-- `n` is the number of keys made under `parent` so far.
abbrev pub spec_gen : ℕ → Bytes → Bytes → Option Socket → Namespace → MasterStatus × Namespace
spec_gen n parent value owner g =
    if not (check_valid_path parent)
    then (error, g)
    else if blocked (g parent)
    then (node_failed, g)
    else if is_there (g (join parent (gen_key n)))
    then (path_failed, g)
    else (ok_status, updated (join parent (gen_key n)) (some (value, owner)) g)

-- A child of `path`, by its key.
pub record Child (g : Namespace) (path : Bytes) : Type 0 where
  pub key : Bytes
  pub segment : IsSegment key
  pub there : is_there (g (join path key)) ≡ true
