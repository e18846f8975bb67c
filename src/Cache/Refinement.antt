-- ===== src/Cache/Refinement.antt =====
-- The operations of the cache on the list of entries that it stands for.
use prpc.Base.{
  ℕ, ◌+◌, ◌%◌, true, ◌≡◌, refl, sym, ap, ◌∙◌, subst, Bool, false, ◌||◌, Option, none, some, List,
  [], ◌∷◌, ◌++◌,
}
use prpc.Base.{arith, length, eqb, nat_eq, inl, inr, Bool-cases, Option-cases, Eq, ◌==◌, append-nil}
use prpc.Base.Maps.{Map, find, assign, find-assign}
use prpc.Base.Outcome.{ok, ◌>>=◌}
use prpc.Cache.{
  Ptr, HashMapValue, LruCache, over, need_to_evict, item_outdated, delink_node, push_node_to_front,
  evict_node, evict, evict_if_needed, evict_outdated, int_range, touch, find_value,
}
use prpc.Cache.Links.{Cell, Store, has, first_or, last_or, node_of, Seg, SameOutside}
use prpc.Cache.Cells.{
  total, drop_last, trim, split_last, length-without, total-without, lookup, lookup_split,
  Keyed-without, lookup-without,
}
use prpc.Cache.Moves.{delink_node-Seg, push_node_to_front-Seg}
use prpc.Cache.Invariant.{node_at, IsCache, SameLimits, has_node, evict_node-IsCache}

module _ {V : Type 0} where
  abbrev pub value_at : Option (HashMapValue V) → Option V
  value_at none = none
  value_at (some v) = some v.value

-- What `find` may do to the list: nothing, drop the entry for the key, or put it in front.
pub data Moved {K : Type 0} (k : K) : List (Cell K) → List (Cell K) → Type 0 where
  stays : {xs : List (Cell K)} → Moved k xs xs
  goes : (ys zs : List (Cell K)) (x : Cell K) → x.key ≡ k → Moved k (ys ++ (x ∷ zs)) (ys ++ zs)
  leads :
      (ys zs : List (Cell K)) (x : Cell K) → x.key ≡ k → Moved k (ys ++ (x ∷ zs)) (x ∷ (ys ++ zs))

module _ {K V : Type 0} ⦃equal : Eq K⦄ where
  same_limits : (c : LruCache K V) → SameLimits c c
  same_limits c = record { items = refl; memory = refl }

  -- The entry that was used comes to the front.
  to_front-IsCache :
      (c : LruCache K V) (ys zs : List (Cell K)) (x : Cell K)
      → IsCache c (ys ++ (x ∷ zs))
      → (d : LruCache K V) × ((do c ← delink_node x.at c; push_node_to_front x.at c) ≡ ok d)
        × IsCache d (x ∷ (ys ++ zs))
        × SameLimits c d
  to_front-IsCache c ys zs x h =
      let (g, e, chain, alone, same, gone) =
        delink_node-Seg c ys zs x h.chain h.at_head h.at_tail in
      let (keys, out) = Keyed-without ys zs x h.keyed in
      let (m, k, linked, kept) =
        push_node_to_front-Seg
          (record c { store = g; head = first_or (ys ++ zs) none; tail = last_or (ys ++ zs) none })
          (ys ++ zs) x none none chain refl refl alone gone in
      (
        record c { store = m; head = some x.at; tail = last_or (x ∷ (ys ++ zs)) none },
        rw (e) k,
        record {
          chain = linked;
          at_head = refl;
          at_tail = refl;
          mapped = λ j. h.mapped j ∙ lookup-without j ys zs x h.keyed;
          keyed = (out, keys);
          fresh = λ a i.
              let none_there =
                same a (has_node c.store none (ys ++ (x ∷ zs)) none a h.chain (h.fresh a i))
                ∙ h.fresh a i in
              kept a (spare_cell g (ys ++ zs) a chain alone none_there) ∙ none_there;
          counted = h.counted ∙ length-without ys zs x;
          measured = h.measured ∙ total-without ys zs x;
          few = omega (arith, length-without ys zs x, h.few);
          light = omega (arith, total-without ys zs x, h.light);
        },
        record { items = refl; memory = refl },
      )
    where
      spare_cell :
          (g : Store K) (xs : List (Cell K)) (a : Ptr)
          → Seg g none xs none
          → find x.at g ≡ some (node_of x none none)
          → find a g ≡ none
          → has a (x ∷ xs) ≡ false
      spare_cell g xs a chain alone e = elim (Bool-cases (eqb x.at a)) [
        | inl k ↦ let same : x.at ≡ a = ground (arith, k) in cc (same, alone, e)
        | inr k ↦ rw (k) (has_node g none xs none a chain e)
      ]

  asked :
      (c : LruCache K V) (xs : List (Cell K))
      → IsCache c xs
      → need_to_evict c
        ≡ (over c.max_item_count (length xs) || over c.max_item_memory_usage (total xs))
  unfolding need_to_evict
  asked c xs h =
      ap (λ n. over c.max_item_count n || over c.max_item_memory_usage c.item_memory_usage)
        h.counted
      ∙ ap (λ n. over c.max_item_count (length xs) || over c.max_item_memory_usage n) h.measured

  -- `if (_need_to_evict()) _evict(_tail)` trims the list.
  pub evict_if_needed-IsCache :
      (c : LruCache K V) (xs : List (Cell K))
      → IsCache c xs
      → (d : LruCache K V) × (evict_if_needed c ≡ ok d)
        × IsCache d (trim c.max_item_count c.max_item_memory_usage xs)
        × SameLimits c d
        × SameOutside xs c.store d.store
  evict_if_needed-IsCache c xs h = elim (Bool-cases (need_to_evict c)) [
    | inl e ↦ rw (e, sym (asked c xs h) ∙ e) (evicted xs h)
    | inr e ↦ rw (e, sym (asked c xs h) ∙ e) (c, refl, h, same_limits c, λ a i. refl)
  ]
    where
      evicted :
          (xs : List (Cell K))
          → IsCache c xs
          → (d : LruCache K V) × (evict c.tail c ≡ ok d)
            × IsCache d (drop_last xs)
            × SameLimits c d
            × SameOutside xs c.store d.store
      evicted [] h = (c, ap (λ t. evict t c) h.at_tail, h, same_limits c, λ a i. refl)
      evicted (x ∷ xs) h =
          let (l, e, at) = split_last x xs in
          let (d, k, held, limits, same) =
            evict_node-IsCache c (drop_last (x ∷ xs)) [] l (subst (IsCache c) e h) in
          (
            d,
            ap (λ t. evict t c) (h.at_tail ∙ at) ∙ k,
            subst (IsCache d) (append-nil (drop_last (x ∷ xs))) held,
            limits,
            subst (λ t. SameOutside t c.store d.store) (sym e) same,
          )

  -- An entry may change where it keeps its node.
  assign-IsCache :
      (c : LruCache K V) (xs : List (Cell K)) (k : K) (v w : HashMapValue V)
      → IsCache c xs
      → find k c.hashmap ≡ some v
      → w.node ≡ v.node
      → IsCache (record c { hashmap = assign k w c.hashmap }) xs
  assign-IsCache c xs k v w h e same = record {
    chain = h.chain;
    at_head = h.at_head;
    at_tail = h.at_tail;
    mapped = λ j. elim (Bool-cases (k == j)) [
      | inl k_is_j ↦
          let jk : k ≡ j = (equal.beq_iff k j).0 k_is_j in
          rw (find-assign k j w c.hashmap, k_is_j)
            (ap some same ∙ sym (ap node_at e) ∙ h.mapped k ∙ ap (λ k. lookup k xs) jk)
      | inr other ↦ rw (find-assign k j w c.hashmap, other) (h.mapped j)
    ];
    keyed = h.keyed;
    fresh = h.fresh;
    counted = h.counted;
    measured = h.measured;
    few = h.few;
    light = h.light;
  }

  at_key :
      (k : K) (v : HashMapValue V) (m : Map K (HashMapValue V)) → find k (assign k v m) ≡ some v
  at_key k v m = rw (find-assign k k v m, (equal.beq_iff k k).1 refl) refl

  again :
      (later : ℕ) (key : K) (v : HashMapValue V) (c : LruCache K V)
      → find key c.hashmap ≡ some v
      → item_outdated later v c ≡ true
      → evict_outdated later key c ≡ evict_node v.node c
  unfolding evict_outdated
  again later key v c e old = rw (evict_outdated, e, old) refl

  spare :
      (later : ℕ) (key : K) (v : HashMapValue V) (c : LruCache K V)
      → find key c.hashmap ≡ some v
      → item_outdated later v c ≡ false
      → evict_outdated later key c ≡ ok c
  unfolding evict_outdated
  spare later key v c e new = rw (evict_outdated, e, new) refl

  touch-IsCache :
      (now later : ℕ) (upgraded : Bool) (c : LruCache K V) (ys zs : List (Cell K)) (x : Cell K)
      (v : HashMapValue V)
      → IsCache c (ys ++ (x ∷ zs))
      → find x.key c.hashmap ≡ some v
      → x.at ≡ v.node
      → (d : LruCache K V) × (ws : List (Cell K)) × (touch now later upgraded x.key v c ≡ ok d)
        × IsCache d ws
        × Moved x.key (ys ++ (x ∷ zs)) ws
        × SameLimits c d
  unfolding touch
  touch-IsCache now later upgraded c ys zs x v h e at =
      let w : HashMapValue V = record v { access_count = (v.access_count + 1) % int_range } in
      let b : LruCache K V = record c { hashmap = assign x.key w c.hashmap } in
      let held : IsCache b (ys ++ (x ∷ zs)) =
        assign-IsCache c (ys ++ (x ∷ zs)) x.key v w h e refl in
      elim (Bool-cases (item_outdated now w b)) [
        | inl old ↦
            let there : find x.key b.hashmap ≡ some w = at_key x.key w c.hashmap in
            elim (Bool-cases (item_outdated later w b)) [
              | inl still ↦
                  let (d, k, after, limits, same) = evict_node-IsCache b ys zs x held in
                  (
                    d,
                    ys ++ zs,
                    rw (old)
                        (again later x.key w b there still ∙ ap (λ a. evict_node a b) (sym at) ∙ k),
                    after,
                    goes ys zs x refl,
                    record { items = limits.items; memory = limits.memory },
                  )
              | inr spared ↦ (
                b,
                ys ++ (x ∷ zs),
                rw (old) (spare later x.key w b there spared),
                held,
                stays,
                record { items = refl; memory = refl },
              )
            ]
        | inr new ↦ elim (Bool-cases upgraded) [
          | inl can ↦
              let (d, k, after, limits) = to_front-IsCache b ys zs x held in
              (
                d,
                x ∷ (ys ++ zs),
                rw (new, can)
                    (ap (λ a. do c ← delink_node a b; push_node_to_front a c) (sym at) ∙ k),
                after,
                leads ys zs x refl,
                record { items = limits.items; memory = limits.memory },
              )
          | inr cannot ↦ (
            b,
            ys ++ (x ∷ zs),
            rw (new, cannot) refl,
            held,
            stays,
            record { items = refl; memory = refl },
          )
        ]
      ]

  hit :
      (now later : ℕ) (upgraded : Bool) (key : K) (v : HashMapValue V) (c d : LruCache K V)
      → find key c.hashmap ≡ some v
      → touch now later upgraded key v c ≡ ok d
      → find_value now later upgraded key c ≡ ok (value_at (find key c.hashmap), d)
  unfolding find_value
  hit now later upgraded key v c d e k = rw (find_value, e, k) refl

  -- For a cache whose list, map and counters agree, `find` ends without a fault, whether it gets the
  -- lock to move the entry or not. It answers the value that the map has for the key, and the three
  -- agree on what is left: the same entries, or the entry for the key dropped or put in front.
  pub find_value-IsCache :
      (now later : ℕ) (upgraded : Bool) (key : K) (c : LruCache K V) (xs : List (Cell K))
      → IsCache c xs
      → (d : LruCache K V) × (ws : List (Cell K)) × (find_value now later upgraded key c
          ≡ ok (value_at (find key c.hashmap), d))
        × IsCache d ws
        × Moved key xs ws
        × SameLimits c d
  unfolding find_value
  find_value-IsCache now later upgraded key c xs h = elim (Option-cases (find key c.hashmap)) [
    | inl e ↦ (c, xs, rw (find_value, e) refl, h, stays, same_limits c)
    | inr (v, e) ↦
        let (ys, zs, x, split, keyed, at) =
          lookup_split key v.node xs (sym (h.mapped key) ∙ ap node_at e) in
        let held : IsCache c (ys ++ (x ∷ zs)) = subst (IsCache c) split h in
        let (d, ws, k, after, moved, limits) =
          touch-IsCache now later upgraded c ys zs x v held (ap (λ k. find k c.hashmap) keyed ∙ e)
            at in
        (
          d,
          ws,
          hit now later upgraded key v c d e
              (ap (λ j. touch now later upgraded j v c) (sym keyed) ∙ k),
          after,
          subst (λ t. Moved key t ws) (sym split)
              (subst (λ j. Moved j (ys ++ (x ∷ zs)) ws) keyed moved),
          limits,
        )
  ]
