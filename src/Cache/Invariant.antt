-- ===== src/Cache/Invariant.antt =====
-- The invariant of a cache and of what it stands for: the list, the hash map and the counters agree.
use prpc.Base.{
  ◌≤◌, ◌<◌, ◌≡◌, refl, sym, ◌∙◌, subst, true, false, Option, none, some, List, [], ◌∷◌, ◌++◌,
}
use prpc.Base.{arith, length, eqb, nat_eq, inl, inr, Bool-cases, if◌then◌else◌, Eq, ◌==◌}
use prpc.Base.Maps.{find, erase, find-erase}
use prpc.Base.Outcome.{ok}
use prpc.Cache.{Ptr, HashMapValue, LruCache, size_t_max, minus, delete_node, evict_node}
use prpc.Cache.Links.{
  Cell, Store, has, first_or, last_or, node_of, Seg, frame, SameOutside, has-append,
}
use prpc.Cache.Cells.{
  total, length-without, total-without, lookup, Keyed, Keyed-without, lookup-without,
}
use prpc.Cache.Moves.{delink_node-Seg}

module _ {V : Type 0} where
  abbrev pub node_at : Option (HashMapValue V) → Option Ptr
  node_at none = none
  node_at (some v) = some v.node

-- An address with no node is not in the list.
pub has_node :
    {K : Type 0} (m : Store K) (p : Option Ptr) (xs : List (Cell K)) (q : Option Ptr) (a : Ptr)
    → Seg m p xs q
    → find a m ≡ none
    → has a xs ≡ false
has_node m p [] q a s e = refl
has_node m p (x ∷ xs) q a s e = elim (Bool-cases (eqb x.at a)) [
  | inl k ↦ let same : x.at ≡ a = ground (arith, k) in cc (same, s.0, e)
  | inr k ↦ rw (k) (has_node m (some x.at) xs q a s.2 e)
]

pub not_in :
    {K : Type 0} (a b : Ptr) (xs : List (Cell K))
    → has a xs ≡ false
    → has b xs ≡ true
    → eqb a b ≡ false
not_in a b xs out i = elim (Bool-cases (eqb a b)) [
  | inl e ↦ absurd (let same : a ≡ b = ground (arith, e) in ground (arith, same, out, i))
  | inr e ↦ e
]

not_it :
    {K : Type 0} (b a : Ptr) (ys zs : List (Cell K)) (x : Cell K)
    → x.at ≡ b
    → has a (ys ++ (x ∷ zs)) ≡ false
    → eqb b a ≡ false
not_it b a ys zs x e i = ground (arith, e, i, has-append a ys (x ∷ zs))

module _ {K V : Type 0} ⦃equal : Eq K⦄ where
  -- The cache `c` stands for the entries `xs`.
  pub record IsCache (c : LruCache K V) (xs : List (Cell K)) : Type 0 where
    pub chain : Seg c.store none xs none
    pub at_head : c.head ≡ first_or xs none
    pub at_tail : c.tail ≡ last_or xs none
    pub mapped : (k : K) → node_at (find k c.hashmap) ≡ lookup k xs
    pub keyed : Keyed xs
    pub fresh : (a : Ptr) → c.unused ≤ a → find a c.store ≡ none
    pub counted : c.item_count ≡ length xs
    pub measured : c.item_memory_usage ≡ total xs
    pub few : length xs < size_t_max
    pub light : total xs < size_t_max

  -- The limits do not change.
  pub record SameLimits (c d : LruCache K V) : Type 0 where
    pub items : d.max_item_count ≡ c.max_item_count
    pub memory : d.max_item_memory_usage ≡ c.max_item_memory_usage

  -- A node that is taken out of the list, of the map and of the store.
  pub evict_node-IsCache :
      (c : LruCache K V) (ys zs : List (Cell K)) (x : Cell K)
      → IsCache c (ys ++ (x ∷ zs))
      → (d : LruCache K V) × (evict_node x.at c ≡ ok d)
        × IsCache d (ys ++ zs)
        × SameLimits c d
        × SameOutside (ys ++ (x ∷ zs)) c.store d.store
  unfolding evict_node
  evict_node-IsCache c ys zs x h =
      let (g, e, chain, alone, same, gone) =
        delink_node-Seg c ys zs x h.chain h.at_head h.at_tail in
      let (keys, out) = Keyed-without ys zs x h.keyed in
      let one_less = length-without ys zs x in
      let lighter = total-without ys zs x in
      (
        record c {
          store = erase x.at g;
          hashmap = erase x.key c.hashmap;
          head = first_or (ys ++ zs) none;
          tail = last_or (ys ++ zs) none;
          item_count = minus c.item_count 1;
          item_memory_usage = minus c.item_memory_usage x.usage;
        },
        rw (e) (deleted g alone),
        record {
          chain =
              frame g (erase x.at g) none (ys ++ zs) none chain
                (λ a i. rw (find-erase x.at a g, not_in x.at a (ys ++ zs) gone i) refl);
          at_head = refl;
          at_tail = refl;
          mapped = λ k.
              erased k (h.mapped k) (lookup-without k ys zs x h.keyed)
                (λ j. subst (λ k. lookup k (ys ++ zs) ≡ none) j out);
          keyed = keys;
          fresh = λ a i. erased_fresh g x.at a (
              same a (has_node c.store none (ys ++ (x ∷ zs)) none a h.chain (h.fresh a i))
              ∙ h.fresh a i);
          counted = omega (arith, h.counted, one_less, h.few);
          measured = omega (arith, h.measured, lighter, h.light);
          few = omega (arith, one_less, h.few);
          light = omega (arith, lighter, h.light);
        },
        record { items = refl; memory = refl },
        λ a i. rw (find-erase x.at a g, not_it x.at a ys zs x refl i) (same a i),
      )
    where
      deleted :
          (g : Store K)
          → find x.at g ≡ some (node_of x none none)
          → delete_node x.at (find x.at g) (record c {
            store = g;
            head = first_or (ys ++ zs) none;
            tail = last_or (ys ++ zs) none;
          })
            ≡ ok (record c {
              store = erase x.at g;
              hashmap = erase x.key c.hashmap;
              head = first_or (ys ++ zs) none;
              tail = last_or (ys ++ zs) none;
              item_count = minus c.item_count 1;
              item_memory_usage = minus c.item_memory_usage x.usage;
            })
      deleted g alone = rw (alone) refl

      erased :
          (k : K)
          → node_at (find k c.hashmap) ≡ lookup k (ys ++ (x ∷ zs))
          → lookup k (ys ++ (x ∷ zs)) ≡ (if x.key == k then some x.at else lookup k (ys ++ zs))
          → (x.key ≡ k → lookup k (ys ++ zs) ≡ none)
          → node_at (find k (erase x.key c.hashmap)) ≡ lookup k (ys ++ zs)
      erased k e f out = elim (Bool-cases (x.key == k)) [
        | inl same ↦
            rw (find-erase x.key k c.hashmap, same) (sym (out ((equal.beq_iff x.key k).0 same)))
        | inr other ↦ rw (find-erase x.key k c.hashmap, other) (e ∙ f ∙ rw (other) refl)
      ]

      erased_fresh : (g : Store K) (b a : Ptr) → find a g ≡ none → find a (erase b g) ≡ none
      erased_fresh g b a e = rw (find-erase b a g, e) (ground arith)
