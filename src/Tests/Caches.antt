-- ===== src/Tests/Caches.antt =====
-- Runs of the cache: src/misc/LRUCache.h.
use prpc.Base.{ℕ, ◌≤◌, ◌≡◌, refl, true, false, Option, none, some, List, [], ◌∷◌, arith, nat_eq}
use prpc.Base.Maps.{find, assign, erase, emplace}
use prpc.Base.Outcome.{Outcome, ok, Returns, ◌>>=◌}
use prpc.Cache.{
  LruCache, create, insert, find_value, clear, place, link_node, update, delink_node, unlink,
  push_node_to_front, need_to_evict, evict_node, touch, evict_outdated, item_outdated,
}
use prpc.Cache.Links.{Cell}
use prpc.Cache.Cells.{trim}
use prpc.Cache.Invariant.{IsCache, SameLimits}
use prpc.Cache.Refinement.{Moved, value_at, find_value-IsCache}
use prpc.Cache.Insertion.{insert-IsCache}
use prpc.Cache.Limits.{insert_bounded, clear-IsCache}

-- The keys 4 and 7 with the values 40 and 70; one more fits.
abbrev two : LruCache ℕ ℕ
two = record {
  store =
      (0, record { key = 4; value_memory_usage = 8; prev = some 1; next = none })
      ∷ (1, record { key = 7; value_memory_usage = 8; prev = none; next = some 0 })
      ∷ [];
  unused = 2;
  hashmap =
      (7, record { value = 70; node = 1; access_count = 0; insert_timestamp_sec = 5 })
      ∷ (4, record { value = 40; node = 0; access_count = 0; insert_timestamp_sec = 5 })
      ∷ [];
  head = some 1;
  tail = some 0;
  max_item_count = 2;
  max_item_memory_usage = 0;
  item_ttl_sec = 0;
  item_max_access_count = 3;
  item_count = 2;
  item_memory_usage = 16;
}

abbrev cells : List (Cell ℕ)
cells = record { at = 1; key = 7; usage = 8 } ∷ record { at = 0; key = 4; usage = 8 } ∷ []

is_two : (do c ← insert 5 4 40 8 (create 2 0 0 3); insert 5 7 70 8 c) ≡ ok two
unfolding insert place link_node update delink_node unlink push_node_to_front need_to_evict create
    find assign emplace
is_two = refl

two-IsCache : IsCache two cells
unfolding find
two-IsCache = record {
  chain = (refl, refl, (refl, refl, tt));
  at_head = refl;
  at_tail = refl;
  mapped = λ k. ground arith;
  keyed = (refl, (refl, tt));
  fresh = λ a i. ground (arith, i);
  counted = refl;
  measured = refl;
  few = omega arith;
  light = omega arith;
}

-- The key 4 again, with another value: the map keeps the old value, the count is raised although
-- there is no new node, and so the key 7 is evicted.
abbrev inserted_again : Outcome (Option ℕ × Option ℕ × ℕ × ℕ)
inserted_again = do
  c ← insert 6 4 41 8 two
  r ← find_value 7 7 false 4 c
  s ← find_value 7 7 false 7 c
  ok (r.0, s.0, c.item_count, c.item_memory_usage)

again : inserted_again ≡ ok (some 40, none, 2, 16)
unfolding insert place link_node update delink_node unlink push_node_to_front need_to_evict
    evict_node find assign emplace erase find_value touch evict_outdated item_outdated
again = refl

absent : find 9 two.hashmap ≡ none
unfolding find
absent = refl

insert-IsCache_example :
    (d : LruCache ℕ ℕ) × (insert 8 9 90 8 two ≡ ok d)
    × IsCache d (trim 2 0 (record { at = 2; key = 9; usage = 8 } ∷ trim 2 0 cells))
    × SameLimits two d
insert-IsCache_example =
    insert-IsCache 8 9 90 8 two cells two-IsCache absent (omega arith) (omega arith)

insert_bounded_example : Returns (insert 8 9 90 8 two) λ d. d.item_count ≤ d.max_item_count
insert_bounded_example =
    insert_bounded 8 9 90 8 two cells two-IsCache absent (omega arith) (omega arith)
      (λ e. ground (arith, e)) (omega arith)

find_value-IsCache_example :
    (d : LruCache ℕ ℕ) × (ws : List (Cell ℕ)) × (find_value 8 8 true 4 two
      ≡ ok (value_at (find 4 two.hashmap), d))
    × IsCache d ws
    × Moved 4 cells ws
    × SameLimits two d
find_value-IsCache_example = find_value-IsCache 8 8 true 4 two cells two-IsCache

clear-IsCache_example : Returns (clear 2 two) λ d. IsCache d []
clear-IsCache_example = clear-IsCache 2 two cells two-IsCache (omega arith)
