-- ===== src/Cache/Limits.antt =====
-- The limit on the number of entries, and the end of `clear`.
use prpc.Base.{
  ℕ, zero, suc, ◌+◌, ◌≤◌, ◌<◌, ◌≡◌, ◌≢◌, refl, ap, ◌∙◌, ◌||◌, Option, none, some, List, [], ◌∷◌,
}
use prpc.Base.{arith, length, nat_eq, inl, inr, Bool-cases, Eq}
use prpc.Base.Maps.{find, erase, find-erase}
use prpc.Base.Outcome.{ok, Returns}
use prpc.Cache.{Ptr, LruCache, size_t_max, over, insert, delete_all, clear}
use prpc.Cache.Links.{Cell, Store, first_or, Seg, frame}
use prpc.Cache.Cells.{total, drop_last, trim}
use prpc.Cache.Invariant.{IsCache, not_in}
use prpc.Cache.Insertion.{insert-IsCache}

module _ {K : Type 0} where
  one_shorter : (x : Cell K) (xs : List (Cell K)) → length (drop_last (x ∷ xs)) ≡ length xs
  one_shorter x [] = refl
  one_shorter x (y ∷ xs) = ap suc (one_shorter y xs)

  length-trim_one :
      (m n : ℕ) (x : Cell K) (xs : List (Cell K))
      → m ≢ 0
      → length xs ≤ m
      → length (trim m n (x ∷ xs)) ≤ m
  length-trim_one m n x xs some_limit h =
      elim (Bool-cases (over m (length (x ∷ xs)) || over n (total (x ∷ xs)))) [
        | inl e ↦ rw (e) (omega (arith, one_shorter x xs, h))
        | inr e ↦ rw (e) (ground (arith, e, some_limit))
      ]

  length-trim_below : (m n : ℕ) (xs : List (Cell K)) → length xs ≤ m → length (trim m n xs) ≤ m
  length-trim_below m n [] h = elim (Bool-cases (over m 0 || over n 0)) [
    | inl e ↦ rw (e) h
    | inr e ↦ rw (e) h
  ]
  length-trim_below m n (x ∷ xs) h =
      elim (Bool-cases (over m (length (x ∷ xs)) || over n (total (x ∷ xs)))) [
        | inl e ↦ rw (e) (omega (arith, one_shorter x xs, h))
        | inr e ↦ rw (e) h
      ]

  delete_all-Seg :
      (fuel : ℕ) (m : Store K) (p : Option Ptr) (xs : List (Cell K))
      → Seg m p xs none
      → length xs ≤ fuel
      → (g : Store K) × (delete_all fuel (first_or xs none) m ≡ ok g)
        × ((a : Ptr) → find a m ≡ none → find a g ≡ none)
  unfolding delete_all
  delete_all-Seg fuel m p [] s h = (m, refl, λ a e. e)
  delete_all-Seg zero m p (x ∷ xs) s h = absurd (omega (arith, h))
  delete_all-Seg (suc fuel) m p (x ∷ xs) s h =
      let rest : Seg (erase x.at m) (some x.at) xs none =
        frame m (erase x.at m) (some x.at) xs none s.2
          (λ a i. rw (find-erase x.at a m, not_in x.at a xs s.1 i) refl) in
      let (g, e, same) =
        delete_all-Seg fuel (erase x.at m) (some x.at) xs rest (omega (arith, h)) in
      (g, rw (delete_all, s.0) e, λ a k. same a (rw (find-erase x.at a m, k) (ground arith)))

module _ {K V : Type 0} ⦃equal : Eq K⦄ where
  -- A cache with a limit on the number of its entries, and no more entries than that, has no more
  -- after the `insert` of a key that it does not have, whatever the limit on their memory, as long as
  -- its counters do not reach the top of `size_t`.
  pub insert_bounded :
      (now : ℕ) (key : K) (value : V) (usage : ℕ) (c : LruCache K V) (xs : List (Cell K))
      → IsCache c xs
      → find key c.hashmap ≡ none
      → length xs + 1 < size_t_max
      → total xs + usage < size_t_max
      → c.max_item_count ≢ 0
      → c.item_count ≤ c.max_item_count
      → Returns (insert now key value usage c) λ d. d.item_count ≤ d.max_item_count
  insert_bounded now key value usage c xs h absent room light some_limit below =
      let (d, e, held, limits) = insert-IsCache now key value usage c xs h absent room light in
      let m : ℕ = c.max_item_count in
      let n : ℕ = c.max_item_memory_usage in
      let few : length xs ≤ m = omega (arith, h.counted, below) in
      let bound =
        length-trim_one m n (record { at = c.unused; key = key; usage = usage }) (trim m n xs)
          some_limit (length-trim_below m n xs few) in
      (d, e, omega (arith, held.counted, limits.items, bound))

  -- For a cache whose list, map and counters agree, the loop of `clear` ends after as many rounds as
  -- there are items, meets no dangling pointer, and leaves a cache with no entries that is in order.
  pub clear-IsCache :
      (fuel : ℕ) (c : LruCache K V) (xs : List (Cell K))
      → IsCache c xs
      → c.item_count ≤ fuel
      → Returns (clear fuel c) λ d. IsCache d []
  unfolding clear find
  clear-IsCache fuel c xs h enough =
      let (g, e, same) =
        delete_all-Seg fuel c.store none xs h.chain (omega (arith, h.counted, enough)) in
      (
        record c {
          hashmap = [];
          store = g;
          item_memory_usage = 0;
          item_count = 0;
          head = none;
          tail = none;
        },
        emptied g (ap (λ a. delete_all fuel a c.store) h.at_head ∙ e),
        record {
          chain = tt;
          at_head = refl;
          at_tail = refl;
          mapped = λ k. refl;
          keyed = tt;
          fresh = λ a i. same a (h.fresh a i);
          counted = refl;
          measured = refl;
          few = omega arith;
          light = omega arith;
        },
      )
    where
      emptied :
          (g : Store K)
          → delete_all fuel c.head c.store ≡ ok g
          → clear fuel c
            ≡ ok (record c {
              hashmap = [];
              store = g;
              item_memory_usage = 0;
              item_count = 0;
              head = none;
              tail = none;
            })
      emptied g e = rw (clear, e) refl
