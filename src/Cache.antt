-- ===== src/Cache.antt =====
-- `LRUCache` of src/misc/LRUCache.h: a hash map beside a doubly linked list of nodes, the one that was
-- used last in front. A node stands in a store at its address, and an access through a pointer to no
-- node is a fault. Every operation takes the lock, `find` the shared
-- one: this is about calls one after another, and not about two calls of `find` at once.
pub mod Links
pub mod Moves
pub mod Cells
pub mod Invariant
pub mod Refinement
pub mod Insertion
pub mod Limits
use prpc.Base.{
  ℕ, zero, suc, ◌+◌, ◌-◌, ◌%◌, ◌^◌, ◌≡◌, Bool, true, false, not, ◌&&◌, ◌||◌, Option, none, some,
  List, [],
}
use prpc.Base.{ltb, leb, eqb, if◌then◌else◌, Eq, nat_eq}
use prpc.Base.Maps.{Map, find, assign, erase, emplace}
use prpc.Base.Outcome.{Outcome, ok, fault, ◌>>=◌}

abbrev pub Ptr : Type 0
Ptr = ℕ

pub record ListNode (K : Type 0) : Type 0 where
  pub key : K
  pub value_memory_usage : ℕ
  pub prev : Option Ptr
  pub next : Option Ptr

-- The counter is shared by the copies of an entry, so it stands for the one in the map.
pub record HashMapValue (V : Type 0) : Type 0 where
  pub value : V
  pub node : Ptr
  pub access_count : ℕ
  pub insert_timestamp_sec : ℕ

-- `store` are the nodes, and `unused` is the address of the next one.
pub record LruCache (K V : Type 0) : Type 0 where
  pub store : Map Ptr (ListNode K)
  pub unused : Ptr
  pub hashmap : Map K (HashMapValue V)
  pub head : Option Ptr
  pub tail : Option Ptr
  pub max_item_count : ℕ
  pub max_item_memory_usage : ℕ
  pub item_ttl_sec : ℕ
  pub item_max_access_count : ℕ
  pub item_count : ℕ
  pub item_memory_usage : ℕ

abbrev pub size_t_max : ℕ
size_t_max = 0x10000000000000000

-- The `int` of an atomic counter, as its 32 bits, and its conversion to `size_t`.
abbrev pub int_range : ℕ
int_range = 2 ^ 32

abbrev pub as_size_t : ℕ → ℕ
as_size_t n = if ltb n (2 ^ 31) then n else n + (size_t_max - int_range)

-- `size_t` counters wrap below zero.
abbrev pub minus : ℕ → ℕ → ℕ
minus a b = (a + size_t_max - b) % size_t_max

abbrev pub over : ℕ → ℕ → Bool
over limit n = not (eqb limit 0) && ltb limit n

abbrev pub points_to : Option Ptr → Ptr → Bool
points_to none a = false
points_to (some b) a = eqb b a

module _ {K : Type 0} where
  -- `*p = f(*p)`
  unfoldable pub update :
      Ptr → (ListNode K → ListNode K) → Map Ptr (ListNode K) → Outcome (Map Ptr (ListNode K))
  update a f store = elim (find a store) [ none ↦ fault | some n ↦ ok (assign a (f n) store) ]

  -- `if (p != nullptr)`
  abbrev pub update_if :
      Option Ptr → (ListNode K → ListNode K) → Map Ptr (ListNode K) → Outcome (Map Ptr (ListNode K))
  update_if none f store = ok store
  update_if (some a) f store = update a f store

  abbrev pub set_next : Option Ptr → ListNode K → ListNode K
  set_next p n = record n { next = p }

  abbrev pub set_prev : Option Ptr → ListNode K → ListNode K
  set_prev p n = record n { prev = p }

  abbrev pub set_alone : ListNode K → ListNode K
  set_alone n = record n { prev = none; next = none }

  -- The writes to the nodes in `_delink_node`: the neighbours of `a`, then `a`.
  unfoldable pub unlink : Ptr → ListNode K → Map Ptr (ListNode K) → Outcome (Map Ptr (ListNode K))
  unlink a n store = do
    store ← update_if n.prev (set_next n.next) store
    store ← update_if n.next (set_prev n.prev) store
    update a set_alone store

  -- The loop of `clear` from a node on; `fuel` bounds its rounds.
  unfoldable pub delete_all : ℕ → Option Ptr → Map Ptr (ListNode K) → Outcome (Map Ptr (ListNode K))
  delete_all fuel none store = ok store
  delete_all zero (some a) store = fault
  delete_all (suc fuel) (some a) store = elim (find a store) [
    | none ↦ fault
    | some n ↦ delete_all fuel n.next (erase a store)
  ]

module _ {K V : Type 0} where
  -- the constructor
  unfoldable pub create : ℕ → ℕ → ℕ → ℕ → LruCache K V
  create max_item_count max_item_memory_usage item_ttl_sec item_max_access_count = record {
    store = [];
    unused = 0;
    hashmap = [];
    head = none;
    tail = none;
    max_item_count = max_item_count;
    max_item_memory_usage = max_item_memory_usage;
    item_ttl_sec = item_ttl_sec;
    item_max_access_count = item_max_access_count;
    item_count = 0;
    item_memory_usage = 0;
  }

  -- `current_access_count` converts from `int` to `size_t`, and so does the difference of the times.
  unfoldable pub item_outdated : ℕ → HashMapValue V → LruCache K V → Bool
  item_outdated now v c =
      (not (eqb c.item_max_access_count 0)
        && leb c.item_max_access_count (as_size_t v.access_count))
      || (not (eqb c.item_ttl_sec 0)
          && leb c.item_ttl_sec ((now + size_t_max - v.insert_timestamp_sec) % size_t_max))

  -- `_need_to_evict`: a limit of 0 is none.
  unfoldable pub need_to_evict : LruCache K V → Bool
  need_to_evict c =
      over c.max_item_count c.item_count || over c.max_item_memory_usage c.item_memory_usage

  -- The ends of the list, where the node `a` is one.
  abbrev pub move_ends : Ptr → ListNode K → LruCache K V → LruCache K V
  move_ends a n c = record c {
    tail = if points_to c.tail a then n.prev else c.tail;
    head = if points_to c.head a then n.next else c.head;
  }

  unfoldable pub delink_node : Ptr → LruCache K V → Outcome (LruCache K V)
  delink_node a c = elim (find a c.store) [
    | none ↦ fault
    | some n ↦ do store ← unlink a n c.store; ok (record (move_ends a n c) { store = store })
  ]

  unfoldable pub push_node_to_front : Ptr → LruCache K V → Outcome (LruCache K V)
  push_node_to_front a c = do
    store ← update_if c.head (set_prev (some a)) c.store
    store ← update a (λ n. record n { prev = none; next = c.head }) store
    ok (record c {
      store = store;
      head = some a;
      tail = elim c.tail [ none ↦ some a | some b ↦ some b ];
    })

module _ {K V : Type 0} ⦃equal : Eq K⦄ where
  -- The counters, the map and `delete` in `_evict`.
  abbrev pub delete_node : Ptr → Option (ListNode K) → LruCache K V → Outcome (LruCache K V)
  delete_node a none c = fault
  delete_node a (some n) c = ok (record c {
    item_count = minus c.item_count 1;
    item_memory_usage = minus c.item_memory_usage n.value_memory_usage;
    hashmap = erase n.key c.hashmap;
    store = erase a c.store;
  })

  -- `_evict`, on a node
  unfoldable pub evict_node : Ptr → LruCache K V → Outcome (LruCache K V)
  evict_node a c = do c ← delink_node a c; delete_node a (find a c.store) c

  abbrev pub evict : Option Ptr → LruCache K V → Outcome (LruCache K V)
  evict none c = ok c
  evict (some a) c = evict_node a c

  abbrev pub evict_if_needed : LruCache K V → Outcome (LruCache K V)
  evict_if_needed c = if need_to_evict c then evict c.tail c else ok c

  -- The entry, looked up again under the lock; `later` is the time then.
  unfoldable pub evict_outdated : ℕ → K → LruCache K V → Outcome (LruCache K V)
  evict_outdated later key c = elim (find key c.hashmap) [
    | none ↦ ok c
    | some v ↦ if item_outdated later v c then evict_node v.node c else ok c
  ]

  -- `find` on an entry that is there. `upgraded` tells whether `try_upgrade` got the lock.
  unfoldable pub touch : ℕ → ℕ → Bool → K → HashMapValue V → LruCache K V → Outcome (LruCache K V)
  unfolding evict_outdated
  touch now later upgraded key v c =
      let w = record v { access_count = (v.access_count + 1) % int_range } in
      let c = record c { hashmap = assign key w c.hashmap } in
      if item_outdated now w c
      then evict_outdated later key c
      else if upgraded
      then (do c ← delink_node w.node c; push_node_to_front w.node c)
      else ok c

  unfoldable pub find_value : ℕ → ℕ → Bool → K → LruCache K V → Outcome (Option V × LruCache K V)
  find_value now later upgraded key c = elim (find key c.hashmap) [
    | none ↦ ok (none, c)
    | some v ↦ do c ← touch now later upgraded key v c; ok (some v.value, c)
  ]

  -- The node for the key, and the cache that has it.
  abbrev pub node_for : K → Option (HashMapValue V) → LruCache K V → Ptr × LruCache K V
  node_for key (some v) c = (v.node, c)
  node_for key none c = (
    c.unused,
    record c {
      unused = suc c.unused;
      store =
          assign c.unused (record { key = key; value_memory_usage = 0; prev = none; next = none })
            c.store;
    },
  )

  -- The middle of `insert`: the node, the entry of the map and the list. `usage` is
  -- `VALUE_MEMORY_USAGE_FN()(value)`.
  unfoldable pub link_node : ℕ → K → V → ℕ → Ptr → LruCache K V → Outcome (LruCache K V)
  link_node now key value usage a c = do
    store ← update a (λ n. record n { value_memory_usage = usage }) c.store
    let entry : HashMapValue V = record {
      value = value;
      node = a;
      access_count = 0;
      insert_timestamp_sec = now;
    } in
        do
          c ← delink_node a (record c { store = store; hashmap = emplace key entry c.hashmap })
          push_node_to_front a c

  -- `insert` from where the node is known.
  unfoldable pub place : ℕ → K → V → ℕ → Ptr → LruCache K V → Outcome (LruCache K V)
  place now key value usage a c = do
    c ← evict_if_needed c
    c ← link_node now key value usage a c
    evict_if_needed (record c {
      item_count = (c.item_count + 1) % size_t_max;
      item_memory_usage = (c.item_memory_usage + usage) % size_t_max;
    })

  unfoldable pub insert : ℕ → K → V → ℕ → LruCache K V → Outcome (LruCache K V)
  insert now key value usage c =
      let (a, c) = node_for key (find key c.hashmap) c in place now key value usage a c

  unfoldable pub clear : ℕ → LruCache K V → Outcome (LruCache K V)
  clear fuel c = do
    store ← delete_all fuel c.head c.store
    ok (record c {
      hashmap = [];
      store = store;
      item_memory_usage = 0;
      item_count = 0;
      head = none;
      tail = none;
    })
