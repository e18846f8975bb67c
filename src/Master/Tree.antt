-- ===== src/Master/Tree.antt =====
-- The invariant of `_path`: the stored paths form a tree, and each node's `sub` is exactly the set
-- of its children's keys. It is stated of the lookup function, so that the map's order is forgotten.
use prpc.Base.{
  ◌≡◌, sym, subst, fun_ext, ap, ◌⊎◌, inl, inr, ◌≢◌, Bool, true, false, Option, none, some, [], ◌∷◌,
  arith, Bytes, if◌then◌else◌, ◌==◌, bytes_eq, bytes_beq_iff, Bool-cases, length,
}
use prpc.Base.Sets.{contains, insert, remove, contains-insert, contains-remove}
use prpc.Master.{MasterNode}
use prpc.Master.Path.{check_valid_path, key_of, parent_of, join}
use prpc.Master.Path.Split.{
  IsSegment, slash_free, key_of-join, parent_of-join, join-parent-key, join-valid, join_root-valid,
  length-join,
}

abbrev pub Lookup : Type 0
Lookup = Bytes → Option MasterNode

abbrev pub is_there {ℓ} : {A : Type ℓ} → Option A → Bool
is_there none = false
is_there (some a) = true

-- A node that a client's connection keeps alive.
abbrev pub is_ephemeral : Option MasterNode → Bool
is_ephemeral none = false
is_ephemeral (some v) = is_there v.owner

abbrev pub has_sub : Bytes → Option MasterNode → Bool
has_sub k none = false
has_sub k (some v) = contains k v.sub

pub record IsTree (f : Lookup) : Type 0 where
  pub root : is_ephemeral (f []) ≡ false
  pub valid : (p : Bytes) → is_there (f p) ≡ true → p ≢ [] → check_valid_path p ≡ true
  pub parent :
      (p : Bytes)
      → is_there (f p) ≡ true
      → p ≢ []
      → (has_sub (key_of p) (f (parent_of p)) ≡ true) × (is_ephemeral (f (parent_of p)) ≡ false)
  pub child :
      (q k : Bytes)
      → has_sub k (f q) ≡ true
      → (slash_free k ≡ true) × (k ≢ []) × (is_there (f (join q k)) ≡ true)

-- A new leaf: the node `u` of `q` takes the key `k`, and the path `q/k` takes a node with no child.
abbrev pub grown : Lookup → Bytes → Bytes → MasterNode → MasterNode → Lookup
grown f q k u v j =
    if q == j
    then some (record u { sub = insert k u.sub })
    else if join q k == j
    then some v
    else f j

-- A leaf less: the node `u` of `q` loses the key `k`, and `q/k` is gone.
abbrev pub pruned : Lookup → Bytes → Bytes → MasterNode → Lookup
pruned f q k u j =
    if q == j then some (record u { sub = remove k u.sub }) else if join q k == j then none else f j

pub join_ne : (q k : Bytes) → q ≢ join q k
join_ne q k e = absurd (omega (arith, length-join q k, ap length e))

pub join_ne_nil : (q k : Bytes) → join q k ≢ []
unfolding join
join_ne_nil [] k e = cc
join_ne_nil (c ∷ q) k e = cc

module _ (f : Lookup) (q k : Bytes) (u v : MasterNode) where
  grown_there :
      f q ≡ some u → (j : Bytes) → is_there (f j) ≡ true → is_there (grown f q k u v j) ≡ true
  grown_there e j h = ground (arith, h)

  grown_parent :
      IsTree f
      → f q ≡ some u
      → u.owner ≡ none
      → f (join q k) ≡ none
      → slash_free k ≡ true
      → v.sub ≡ []
      → (p : Bytes) → is_there (grown f q k u v p) ≡ true
      → p ≢ []
      → (has_sub (key_of p) (grown f q k u v (parent_of p)) ≡ true)
        × (is_ephemeral (grown f q k u v (parent_of p)) ≡ false)
  unfolding contains
  grown_parent t e o n s z p h g = ground (
    arith,
    bytes_beq_iff q p,
    bytes_beq_iff (join q k) p,
    bytes_beq_iff q (parent_of p),
    bytes_beq_iff (join q k) (parent_of p),
    key_of-join q k s,
    parent_of-join q k s,
    t.parent p,
    contains-insert k (key_of p) u.sub,
    bytes_beq_iff k (key_of p),
    join_ne q k,
  )

  grown_child :
      IsTree f
      → f q ≡ some u
      → u.owner ≡ none
      → f (join q k) ≡ none
      → slash_free k ≡ true
      → k ≢ []
      → v.sub ≡ []
      → (p i : Bytes) → has_sub i (grown f q k u v p) ≡ true
      → (slash_free i ≡ true) × (i ≢ []) × (is_there (grown f q k u v (join p i)) ≡ true)
  unfolding contains
  grown_child t e o n s nz z p i h = ground (
    arith,
    h,
    bytes_beq_iff q p,
    bytes_beq_iff (join q k) p,
    bytes_beq_iff q (join p i),
    bytes_beq_iff (join q k) (join p i),
    t.child p i,
    contains-insert k i u.sub,
    bytes_beq_iff k i,
  )

  grown_valid :
      IsTree f
      → f q ≡ some u
      → IsSegment k
      → (p : Bytes) → is_there (grown f q k u v p) ≡ true
      → p ≢ []
      → check_valid_path p ≡ true
  grown_valid t e s p h g = elim (Bool-cases (q == p)) [
    | inl same ↦ t.valid p (ground (arith, bytes_beq_iff q p, same, e)) g
    | inr other ↦ elim (Bool-cases (join q k == p)) [
      | inl new ↦ rw (← (bytes_beq_iff (join q k) p).0 new) (path_valid (Bool-cases (q == [])))
      | inr old ↦ t.valid p (ground (arith, other, old, h)) g
    ]
  ]
    where
      path_valid : ((q == []) ≡ true) ⊎ ((q == []) ≡ false) → check_valid_path (join q k) ≡ true
      path_valid (inl z) = rw ((bytes_beq_iff q []).0 z) (join_root-valid k s)
      path_valid (inr z) =
          join-valid q k (t.valid q (rw e) (λ w. ground (arith, z, (bytes_beq_iff q []).1 w))) s

  pub grown-IsTree :
      IsTree f
      → f q ≡ some u
      → u.owner ≡ none
      → f (join q k) ≡ none
      → IsSegment k
      → v.sub ≡ []
      → IsTree (grown f q k u v)
  grown-IsTree t e o n s z = record {
    root = ground (arith, t.root, bytes_beq_iff q [], bytes_beq_iff (join q k) [], join_ne_nil q k);
    valid = grown_valid t e s;
    parent = grown_parent t e o n s.free z;
    child = grown_child t e o n s.free s.nonempty z;
  }

module _ (f : Lookup) (q k : Bytes) (u v : MasterNode) (t : IsTree f) (e : f q ≡ some u)
    (here : f (join q k) ≡ some v) (leaf : v.sub ≡ []) (free : slash_free k ≡ true) where
  pruned_parent :
      (p : Bytes)
      → is_there (pruned f q k u p) ≡ true
      → p ≢ []
      → (has_sub (key_of p) (pruned f q k u (parent_of p)) ≡ true)
        × (is_ephemeral (pruned f q k u (parent_of p)) ≡ false)
  unfolding contains
  pruned_parent p h g =
      let there : is_there (f p) ≡ true = ground (arith, h, bytes_beq_iff q p) in
      ground (
        arith,
        bytes_beq_iff q p,
        bytes_beq_iff (join q k) p,
        bytes_beq_iff q (parent_of p),
        bytes_beq_iff (join q k) (parent_of p),
        t.parent p there g,
        join-parent-key p (t.valid p there g),
        contains-remove k (key_of p) u.sub,
        bytes_beq_iff k (key_of p),
        join_ne q k,
      )

  pruned_child :
      (p i : Bytes)
      → has_sub i (pruned f q k u p) ≡ true
      → (slash_free i ≡ true) × (i ≢ []) × (is_there (pruned f q k u (join p i)) ≡ true)
  unfolding contains
  pruned_child p i h =
      let before : has_sub i (f p) ≡ true =
        ground (arith, h, bytes_beq_iff q p, contains-remove k i u.sub) in
      ground (
        arith,
        h,
        bytes_beq_iff q p,
        bytes_beq_iff (join q k) p,
        bytes_beq_iff q (join p i),
        bytes_beq_iff (join q k) (join p i),
        t.child p i before,
        contains-remove k i u.sub,
        bytes_beq_iff k i,
        parent_of-join q k free,
        key_of-join q k free,
        parent_of-join p i (t.child p i before).0,
        key_of-join p i (t.child p i before).0,
      )

  pub pruned-IsTree : IsTree (pruned f q k u)
  pruned-IsTree = record {
    root = ground (arith, t.root, bytes_beq_iff q [], bytes_beq_iff (join q k) []);
    valid = λ p h g. t.valid p (ground (arith, h, bytes_beq_iff q p)) g;
    parent = pruned_parent;
    child = pruned_child;
  }

-- A node's value may change, and nothing else of the tree.
pub revalued-IsTree :
    (f g : Lookup) (q : Bytes) (u v : MasterNode)
    → IsTree f
    → f q ≡ some u
    → v.sub ≡ u.sub
    → v.owner ≡ u.owner
    → ((j : Bytes) → g j ≡ (if q == j then some v else f j))
    → IsTree g
revalued-IsTree f g q u v t e s o h = record {
  root = ground (arith, t.root, h [], bytes_beq_iff q []);
  valid = λ p there g. t.valid p (ground (arith, h p, bytes_beq_iff q p)) g;
  parent = λ p there g.
      ground
        (arith, h p, h (parent_of p), bytes_beq_iff q p, bytes_beq_iff q (parent_of p), t.parent p);
  child = λ p i there.
      ground (arith, h p, h (join p i), bytes_beq_iff q p, bytes_beq_iff q (join p i), t.child p i);
}

pub IsTree-ext : (f g : Lookup) → IsTree f → ((j : Bytes) → g j ≡ f j) → IsTree g
IsTree-ext f g t h = subst IsTree (fun_ext (λ j. sym (h j))) t
