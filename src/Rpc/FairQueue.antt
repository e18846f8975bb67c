-- ===== src/Rpc/FairQueue.antt =====
-- `FairQueue` of src/rpc/RpcContext.h and src/rpc/RpcContext.cpp: the dealers and the cached requests
-- of one RPC service. A server id is a number, and the id -1 ("any server") is `none`. What the
-- dealers' channels are given is a list.
pub mod Balance
pub mod Dealers
pub mod Delivery
use prpc.Base.{
  ℕ, zero, suc, ◌+◌, ◌-◌, ◌*◌, ◌/◌, ◌%◌, ◌^◌, ◌≡◌, Bool, true, false, ◌&&◌, ◌||◌, not, Option, none,
  some, List, [], ◌∷◌, ◌++◌, map, ltb, eqb, leb, if◌then◌else◌, length, get_elem?, nat_eq, ◌==◌,
}
use prpc.Base.Maps.{Map, find, assign, erase, emplace}
use prpc.Base.Outcome.{Outcome, ok, fault, ◌>>=◌, ◌>>◌, check}

-- A `Dealer*`: the identity of the object.
abbrev pub Dealer : Type 0
Dealer = ℕ

-- An `RpcRequest`: the fields of its head that routing reads, and the rest as a number.
pub record Request : Type 0 where
  pub rpc_id : ℕ
  pub sid : Option ℕ
  pub body : ℕ

-- The indices are a 32-bit and a 64-bit pattern.
pub record FairQueue : Type 0 where
  pub sid2dealers : Map ℕ (List Dealer)
  pub sids : List ℕ
  pub sids_rr_index : ℕ
  pub dealer_id_rr_index : ℕ
  pub sid2cache : Map ℕ (List Request)
  pub delivered : List (Dealer × Request)

abbrev pub is_empty {ℓ} : {A : Type ℓ} → List A → Bool
is_empty [] = true
is_empty (x ∷ xs) = false

abbrev pub last_of {ℓ} : {A : Type ℓ} → A → List A → A
last_of x [] = x
last_of x (y ∷ ys) = last_of y ys

abbrev pub init_of {ℓ} : {A : Type ℓ} → A → List A → List A
init_of x [] = []
init_of x (y ∷ ys) = x ∷ init_of y ys

abbrev pub deliver : Dealer → Request → FairQueue → FairQueue
deliver d req q = record q { delivered = q.delivered ++ (d, req) ∷ [] }

unfoldable pub add_server : ℕ → FairQueue → Outcome FairQueue
add_server sid q = elim (find sid q.sid2cache) [
  | some cache ↦ fault
  | none ↦ ok (record q { sid2cache = emplace sid [] q.sid2cache })
]

unfoldable pub remove_server : ℕ → FairQueue → Outcome FairQueue
remove_server sid q = elim (find sid q.sid2cache) [
  | none ↦ fault
  | some cache ↦ ok (record q { sid2cache = erase sid q.sid2cache })
]

abbrev pub dealers_at : ℕ → FairQueue → List Dealer
dealers_at sid q = elim (find sid q.sid2dealers) [ none ↦ [] | some ds ↦ ds ]

-- `while (cit->second->pop(req)) dealer->push_request(req)`: the cache is empty afterwards
unfoldable pub flush : ℕ → Dealer → FairQueue → FairQueue
flush sid d q = elim (find sid q.sid2cache) [
  | none ↦ q
  | some cache ↦ record q {
    sid2cache = assign sid [] q.sid2cache;
    delivered = q.delivered ++ map (λ req. (d, req)) cache;
  }
]

unfoldable pub add_server_dealer : ℕ → Dealer → FairQueue → FairQueue
unfolding flush
add_server_dealer sid d q = flush sid d (record q {
  sid2dealers = assign sid (dealers_at sid q ++ d ∷ []) q.sid2dealers;
  sids = q.sids ++ sid ∷ [];
})

-- The first loop of `remove_server_dealer`: an element that is found gives its place to the last one,
-- which is not looked at again. A round of fuel for each element.
unfoldable pub drop_dealer : ℕ → Dealer → List Dealer → List Dealer
drop_dealer zero d ds = ds
drop_dealer (suc f) d [] = []
drop_dealer (suc f) d (x ∷ ds) =
    let kept = x ∷ drop_dealer f d ds in
    let swapped : List Dealer = elim ds [
      | [] ↦ []
      | y ∷ ys ↦ last_of y ys ∷ drop_dealer f d (init_of y ys)
    ] in
    if x == d then swapped else kept

-- The second loop: the first occurrence gives its place to the last element.
unfoldable pub drop_sid : ℕ → List ℕ → List ℕ
drop_sid sid [] = []
drop_sid sid (x ∷ xs) =
    let kept = x ∷ drop_sid sid xs in
    let swapped : List ℕ = elim xs [ [] ↦ [] | y ∷ ys ↦ last_of y ys ∷ init_of y ys ] in
    if x == sid then swapped else kept

unfoldable pub remove_server_dealer : ℕ → Dealer → FairQueue → Outcome FairQueue
unfolding drop_dealer drop_sid
remove_server_dealer sid d q = elim (find sid q.sid2dealers) [
  | none ↦ fault
  | some ds ↦
      let ds' = drop_dealer (length ds) d ds in
      ok (record q {
        sid2dealers =
            if is_empty ds' then erase sid q.sid2dealers else assign sid ds' q.sid2dealers;
        sids = drop_sid sid q.sids;
      })
]

unfoldable pub empty : FairQueue → Bool
empty q = is_empty q.sid2dealers && is_empty q.sid2cache

-- The value of an `int` with the bit pattern `n`, as a `size_t`.
unfoldable pub to_size_t : ℕ → ℕ
to_size_t n = if ltb n (2 ^ 31) then n else n + (2 ^ 64 - 2 ^ 32)

-- `_sids[_sids_rr_index.fetch_add(1) % _sids.size()]`
unfoldable pub next_sid : FairQueue → Outcome (ℕ × FairQueue)
unfolding to_size_t
next_sid q = elim (length q.sids) [
  | zero ↦ fault
  | suc n ↦ elim (get_elem? q.sids (to_size_t q.sids_rr_index % suc n)) [
    | none ↦ fault
    | some sid ↦ ok (sid, record q { sids_rr_index = (q.sids_rr_index + 1) % 2 ^ 32 })
  ]
]

-- `next(sid)` behind the choice of the server
unfoldable pub next_dealer : ℕ → FairQueue → Outcome (Option Dealer × FairQueue)
next_dealer sid q = elim (find sid q.sid2dealers) [
  | none ↦ ok (none, q)
  | some ds ↦
      let raised = (q.dealer_id_rr_index + 1) % 2 ^ 64 in
      let index = if leb (length ds) raised then 0 else raised in
      elim (get_elem? ds index) [
        | none ↦ fault
        | some d ↦ ok (some d, record q { dealer_id_rr_index = index })
      ]
]

unfoldable pub next : Option ℕ → FairQueue → Outcome (Option Dealer × FairQueue)
unfolding next_sid next_dealer
next (some sid) q = next_dealer sid q
next none q = if is_empty q.sids then ok (none, q) else (next_sid q >>= λ r. next_dealer r.0 r.1)

-- `next()`
unfoldable pub next_any : FairQueue → Outcome (Option Dealer × FairQueue)
unfolding next_sid next_dealer
next_any q = do
  check (not (is_empty q.sids))
  (sid, q') ← next_sid q
  if is_empty q'.sid2dealers then ok (none, q') else next_dealer sid q'

-- `push_request` behind the choice of the server: the last dealer, or the cache
unfoldable pub push_to : ℕ → Request → FairQueue → Outcome (Bool × FairQueue)
push_to sid req q = elim (find sid q.sid2dealers) [
  | some ds ↦ elim ds [ [] ↦ fault | d ∷ rest ↦ ok (true, deliver (last_of d rest) req q) ]
  | none ↦ elim (find sid q.sid2cache) [
    | none ↦ ok (false, q)
    | some cache ↦ ok (true, record q { sid2cache = assign sid (cache ++ req ∷ []) q.sid2cache })
  ]
]

unfoldable pub push_request : Option ℕ → Request → FairQueue → Outcome (Bool × FairQueue)
unfolding push_to next_sid
push_request (some sid) req q = push_to sid req q
push_request none req q = elim q.sid2cache [
  | [] ↦ ok (false, q)
  | e ∷ es ↦
      if is_empty q.sids then push_to e.0 req q else (next_sid q >>= λ r. push_to r.0 req r.1)
]
