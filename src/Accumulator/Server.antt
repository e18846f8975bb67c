-- ===== src/Accumulator/Server.antt =====
-- `AccumulatorServer` of src/accumulator/AccumulatorServer.h and src/accumulator/AccumulatorServer.cpp:
-- its map of aggregators, and the loop that handles the requests. An archive is what is read from it.
pub mod Order
pub mod Typing
pub mod Answers
use prpc.Accumulator.Aggregators.{Aggregator, type_name, init, merge_aggregator}
use prpc.Base.{
  ℕ, zero, suc, ◌+◌, ◌-◌, ◌≡◌, Bool, true, false, Option, none, some, List, [], ◌∷◌, ◌++◌, map,
  Bytes, bytes_eq, nat_eq, ◌==◌, eqb, if◌then◌else◌,
}
use prpc.Base.Maps.{Map, find, assign, erase}
use prpc.Base.Outcome.{Outcome, ok, fault, ◌>>=◌, ◌>>◌, check}

-- One aggregator of a write request. `none` is of a type that the factory does not make.
pub record Entry : Type 0 where
  pub name : Bytes
  pub agg : Option Aggregator

-- `unknown` is a code that the `switch` has no case for, `malformed` a request on which a `>>` fails its
-- check.
pub data Operation : Type 0 where
  read : (name : Bytes) (type : ℕ) → Operation
  reset : (name : Bytes) (type : ℕ) → Operation
  write : (entries : List Entry) → Operation
  erase_names : (names : List Bytes) → Operation
  erase_all : Operation
  start : Operation
  stop : Operation
  wait_empty : Operation
  unknown : Operation
  malformed : Operation

-- `exhausted` says whether the archive has nothing left behind what the handler reads.
pub record Request : Type 0 where
  pub id : ℕ
  pub op : Operation
  pub exhausted : Bool

pub data Response : Type 0 where
  done : Response
  not_found : Response
  contents : Aggregator → Response

-- `aggs` is `_umap_name2aggs`, where a type's name stands in the aggregator; `responses` is what the
-- dealer is given to send, each with the request that it answers.
pub record Server : Type 0 where
  pub aggs : Map Bytes Aggregator
  pub agg_pool : Map ℕ Aggregator
  pub client_count : ℕ
  pub responses : List (ℕ × Response)

abbrev pub respond : ℕ → Response → Server → Server
respond id r s = record s { responses = s.responses ++ (id, r) ∷ [] }

unfoldable pub process_read_request : ℕ → Bytes → ℕ → Server → Outcome Server
process_read_request id name type s = elim (find name s.aggs) [
  | none ↦ ok (respond id not_found s)
  | some a ↦ do check (eqb type (type_name a)); ok (respond id (contents a) s)
]

unfoldable pub process_reset_request : ℕ → Bytes → ℕ → Server → Outcome Server
process_reset_request id name type s = elim (find name s.aggs) [
  | none ↦ ok (respond id not_found s)
  | some a ↦ do
    check (eqb type (type_name a))
    ok (respond id done (record s { aggs = assign name (init a) s.aggs }))
]

-- The loop's body: the pool's aggregator of the type is left with what was read.
unfoldable pub write_entry : Entry → Server → Outcome Server
write_entry e s = elim e.agg [
  | none ↦ fault
  | some d ↦ elim (find e.name s.aggs) [
    | none ↦ ok (record s { aggs = assign e.name d s.aggs })
    | some a ↦ do
      check (eqb (type_name d) (type_name a))
      ok (record s {
        aggs = assign e.name (merge_aggregator a d) s.aggs;
        agg_pool = assign (type_name d) d s.agg_pool;
      })
  ]
]

unfoldable pub write_entries : List Entry → Server → Outcome Server
unfolding write_entry
write_entries [] s = ok s
write_entries (e ∷ es) s = write_entry e s >>= write_entries es

unfoldable pub process_write_request : ℕ → List Entry → Server → Outcome Server
process_write_request id entries s = do s' ← write_entries entries s; ok (respond id done s')

unfoldable pub erase_each : List Bytes → Map Bytes Aggregator → Map Bytes Aggregator
erase_each [] m = m
erase_each (n ∷ ns) m = erase_each ns (erase n m)

unfoldable pub process_erase_request : ℕ → List Bytes → Server → Server
unfolding erase_each
process_erase_request id names s = respond id done (record s { aggs = erase_each names s.aggs })

unfoldable pub process_erase_all_request : ℕ → Server → Server
process_erase_all_request id s = respond id done (record s { aggs = [] })

unfoldable pub process_start_request : ℕ → Server → Server
process_start_request id s = respond id done (record s { client_count = suc s.client_count })

unfoldable pub process_stop_request : ℕ → Server → Outcome Server
process_stop_request id s = elim s.client_count [
  | zero ↦ fault
  | suc n ↦ ok (respond id done (record s { client_count = n }))
]

-- The `switch`, with the requests that wait for the queue to be empty.
unfoldable pub switch : Request → List ℕ → Server → Outcome (List ℕ × Server)
unfolding process_read_request process_reset_request process_write_request process_erase_request
    process_erase_all_request process_start_request process_stop_request
switch req waiting s = elim req.op [
  | read name type ↦ process_read_request req.id name type s >>= λ s'. ok (waiting, s')
  | reset name type ↦ process_reset_request req.id name type s >>= λ s'. ok (waiting, s')
  | write entries ↦ process_write_request req.id entries s >>= λ s'. ok (waiting, s')
  | erase_names names ↦ ok (waiting, process_erase_request req.id names s)
  | erase_all ↦ ok (waiting, process_erase_all_request req.id s)
  | start ↦ ok (waiting, process_start_request req.id s)
  | stop ↦ process_stop_request req.id s >>= λ s'. ok (waiting, s')
  | wait_empty ↦ ok (waiting ++ req.id ∷ [], s)
  | unknown ↦ ok (waiting, s)
  | malformed ↦ fault
]

-- `request.archive().is_exhausted()` after the `switch`: a request that waits was moved away, and its
-- archive is left with no buffer.
abbrev pub read_out : Request → Bool
read_out req = elim req.op [ wait_empty ↦ true | _ ↦ req.exhausted ]

unfoldable pub handle : Request → List ℕ → Server → Outcome (List ℕ × Server)
unfolding switch
handle req waiting s = do out ← switch req waiting s; check (read_out req); ok out

unfoldable pub release : List ℕ → Server → Server
release waiting s = record s { responses = s.responses ++ map (λ id. (id, done)) waiting }

-- How the loop stands: ended by `break`, or with nothing more received, some requests waiting.
pub data Loop : Type 0 where
  ended : Server → Loop
  receiving : List ℕ → Server → Loop

-- Each element is what one call of `recv_request` gives; `none` is a call that returns false.
unfoldable pub process_request : List (Option Request) → List ℕ → Server → Outcome Loop
unfolding handle release
process_request [] waiting s = ok (receiving waiting s)
process_request (none ∷ rs) [] s = ok (ended s)
process_request (none ∷ rs) (id ∷ ids) s = process_request rs [] (release (id ∷ ids) s)
process_request (some req ∷ rs) waiting s =
    handle req waiting s >>= λ out. process_request rs out.0 out.1
