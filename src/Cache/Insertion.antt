-- ===== src/Cache/Insertion.antt =====
-- `insert` of a key that the cache does not have: one entry in front, and the last ones trimmed.
use prpc.Base.{
  ℕ, suc, ◌+◌, ◌%◌, ◌≤◌, ◌<◌, ◌≡◌, refl, sym, ap, ◌∙◌, subst, false, Option, none, some, List, ◌∷◌,
}
use prpc.Base.{arith, length, eqb, ltb, ltb→lt, nat_eq, inl, inr, Bool-cases, Eq, ◌==◌}
use prpc.Base.Maps.{find, assign, emplace, find-assign, find-emplace}
use prpc.Base.Outcome.{ok}
use prpc.Cache.{
  Ptr, ListNode, HashMapValue, LruCache, size_t_max, evict_if_needed, link_node, place, insert,
}
use prpc.Cache.Links.{Cell, Store, has, first_or, last_or, node_of, Seg, frame-assign, update_at}
use prpc.Cache.Cells.{total, trim, lookup, lookup-trim, has-trim, length-trim, total-trim}
use prpc.Cache.Moves.{delink_node-alone, push_node_to_front-Seg}
use prpc.Cache.Invariant.{node_at, IsCache, SameLimits, has_node}
use prpc.Cache.Refinement.{evict_if_needed-IsCache}

not_mapped : {V : Type 0} (found : Option (HashMapValue V)) → node_at found ≡ none → found ≡ none
not_mapped none e = refl
not_mapped (some v) e = cc e

module _ {K V : Type 0} ⦃equal : Eq K⦄ where
  -- An address with a node has been given away.
  used :
      (d : LruCache K V) (a : Ptr) (n : ListNode K)
      → find a d.store ≡ some n
      → ((i : Ptr) → d.unused ≤ i → find i d.store ≡ none)
      → a < d.unused
  used d a n there fresh = elim (Bool-cases (ltb a d.unused)) [
    | inl e ↦ ltb→lt a d.unused e
    | inr e ↦ let gone = fresh a (ground (arith, e)) in cc (gone, there)
  ]

  -- A node that is in no list may be set up beside it.
  module _ (c : LruCache K V) (xs : List (Cell K)) (h : IsCache c xs) where
    abbrev with_node : ListNode K → LruCache K V
    with_node n = record c { unused = suc c.unused; store = assign c.unused n c.store }

    out_of_list : has c.unused xs ≡ false
    out_of_list = has_node c.store none xs none c.unused h.chain (h.fresh c.unused (omega arith))

    with_node-IsCache : (n : ListNode K) → IsCache (with_node n) xs
    with_node-IsCache n = record {
      chain = frame-assign c.store c.unused n none xs none h.chain out_of_list;
      at_head = h.at_head;
      at_tail = h.at_tail;
      mapped = h.mapped;
      keyed = h.keyed;
      fresh = λ a i.
          let apart : eqb c.unused a ≡ false = ground (arith, i) in
          rw (find-assign c.unused a n c.store, apart) (h.fresh a (omega (arith, i)));
      counted = h.counted;
      measured = h.measured;
      few = h.few;
      light = h.light;
    }

  module _ (now : ℕ) (key : K) (value : V) (usage : ℕ) where
    abbrev entry : Ptr → HashMapValue V
    entry a = record { value = value; node = a; access_count = 0; insert_timestamp_sec = now }

    abbrev cell : Ptr → Cell K
    cell a = record { at = a; key = key; usage = usage }

    abbrev counted_in : LruCache K V → LruCache K V
    counted_in c = record c {
      item_count = (c.item_count + 1) % size_t_max;
      item_memory_usage = (c.item_memory_usage + usage) % size_t_max;
    }

    -- The node is set up, comes into the map and to the front of the list.
    link_node-IsCache :
        (c : LruCache K V) (xs : List (Cell K)) (a : Ptr)
        → IsCache c xs
        → find a c.store
          ≡ some (record { key = key; value_memory_usage = 0; prev = none; next = none })
        → has a xs ≡ false
        → a < c.unused
        → lookup key xs ≡ none
        → find key c.hashmap ≡ none
        → length xs + 1 < size_t_max
        → total xs + usage < size_t_max
        → (d : LruCache K V) × (link_node now key value usage a c ≡ ok d)
          × IsCache (counted_in d) (cell a ∷ xs)
          × SameLimits c d
    unfolding link_node
    link_node-IsCache c xs a h held out below new absent room light =
        let n : ListNode K = node_of (cell a) none none in
        let m : Store K = assign a n c.store in
        let b : LruCache K V = record c { store = m; hashmap = emplace key (entry a) c.hashmap } in
        let there : find a m ≡ some n = ground (arith, find-assign a a n c.store) in
        let chain : Seg m none xs none = frame-assign c.store a n none xs none h.chain out in
        let there2 : find a (assign a n m) ≡ some n = ground (arith, find-assign a a n m) in
        let alone = delink_node-alone b xs (cell a) chain h.at_head h.at_tail there out in
        let (g, k, linked, kept) =
          push_node_to_front-Seg
            (record b { store = assign a n m; head = first_or xs none; tail = last_or xs none }) xs
            (cell a) none none (frame-assign m a n none xs none chain out) refl refl there2 out in
        (
          record b { store = g; head = some a; tail = last_or (cell a ∷ xs) none },
          rw
              (
                update_at c.store a
                    (record { key = key; value_memory_usage = 0; prev = none; next = none })
                    (λ n. record n { value_memory_usage = usage }) held,
                alone,
              )
              k,
          record {
            chain = linked;
            at_head = refl;
            at_tail = refl;
            mapped = λ j. elim (Bool-cases (key == j)) [
              | inl e ↦ rw (find-emplace key j (entry a) c.hashmap absent, e) refl
              | inr e ↦ rw (find-emplace key j (entry a) c.hashmap absent, e) (h.mapped j)
            ];
            keyed = (new, h.keyed);
            fresh = λ i o.
                let apart : eqb a i ≡ false = ground (arith, o, below) in
                let gone : has i xs ≡ false =
                  has_node c.store none xs none i h.chain (h.fresh i o) in
                kept i (rw (apart) gone)
                ∙ rw (find-assign a i n m, apart)
                    (rw (find-assign a i n c.store, apart) (h.fresh i o));
            counted = omega (arith, h.counted, room);
            measured = omega (arith, h.measured, light);
            few = omega (arith, room);
            light = omega (arith, light);
          },
          record { items = refl; memory = refl },
        )

    abbrev new_node : ListNode K
    new_node = record { key = key; value_memory_usage = 0; prev = none; next = none }

    abbrev with_new : LruCache K V → LruCache K V
    with_new c = record c { unused = suc c.unused; store = assign c.unused new_node c.store }

    steps :
        (c d e f : LruCache K V)
        → find key c.hashmap ≡ none
        → evict_if_needed (with_new c) ≡ ok d
        → link_node now key value usage c.unused d ≡ ok e
        → evict_if_needed (counted_in e) ≡ ok f
        → insert now key value usage c ≡ ok f
    unfolding insert place
    steps c d e f absent first linked last = rw (insert, absent, place, first, linked) last

    -- For a key that the cache does not have, and as long as its counters do not reach the top of
    -- `size_t`, `insert` ends without a fault. The list, the map and the counters agree again: the
    -- list has the new entry in front, and its last entry was dropped where it was over a limit before
    -- that, and again where it is over one after that. Only one is dropped each time, so that the limit
    -- on the memory may be passed.
    pub insert-IsCache :
        (c : LruCache K V) (xs : List (Cell K))
        → IsCache c xs
        → find key c.hashmap ≡ none
        → length xs + 1 < size_t_max
        → total xs + usage < size_t_max
        → (d : LruCache K V) × (insert now key value usage c ≡ ok d)
          × IsCache d (
              trim c.max_item_count c.max_item_memory_usage
                (cell c.unused ∷ trim c.max_item_count c.max_item_memory_usage xs))
          × SameLimits c d
    insert-IsCache c xs h absent room light =
        let a : Ptr = c.unused in
        let m : ℕ = c.max_item_count in
        let n : ℕ = c.max_item_memory_usage in
        let out : has a xs ≡ false = out_of_list c xs h in
        let (d, first, held, limits, same) =
          evict_if_needed-IsCache (with_new c) xs (with_node-IsCache c xs h new_node) in
        let there : find a d.store ≡ some new_node =
          same a out ∙ ground (arith, find-assign a a new_node c.store) in
        let shorter : length (trim m n xs) ≤ length xs = length-trim m n xs in
        let smaller : total (trim m n xs) ≤ total xs = total-trim m n xs in
        let unknown : lookup key (trim m n xs) ≡ none =
          lookup-trim key m n xs (sym (h.mapped key) ∙ ap node_at absent) in
        let (e, linked, grown, limits2) =
          link_node-IsCache d (trim m n xs) a held there (has-trim a m n xs out)
            (used d a new_node there held.fresh) unknown
            (not_mapped (find key d.hashmap) (held.mapped key ∙ unknown))
            (omega (arith, shorter, room)) (omega (arith, smaller, light)) in
        let (f, last, trimmed, limits3, same3) =
          evict_if_needed-IsCache (counted_in e) (cell a ∷ trim m n xs) grown in
        let items : e.max_item_count ≡ m = limits2.items ∙ limits.items in
        let memory : e.max_item_memory_usage ≡ n = limits2.memory ∙ limits.memory in
        (
          f,
          steps c d e f absent first linked last,
          subst (λ t. IsCache f (trim t n (cell a ∷ trim m n xs))) items
              (subst (λ t. IsCache f (trim e.max_item_count t (cell a ∷ trim m n xs))) memory
                trimmed),
          record { items = limits3.items ∙ items; memory = limits3.memory ∙ memory },
        )
