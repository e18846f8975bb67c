-- ===== src/Rpc/Backend.antt =====
-- The backend of `RpcContext`, src/rpc/RpcContext.cpp: which queue takes a request, and which dealer
-- takes a response. The callers hold the context's lock, so each operation is one step.
pub mod Routing
pub mod Replay
use prpc.Base.{
  ℕ, ◌≡◌, Bool, true, false, Option, none, some, List, [], ◌∷◌, ◌++◌, nat_eq, ◌==◌, if◌then◌else◌,
}
use prpc.Base.Maps.{Map, find, assign, erase, emplace}
use prpc.Base.Outcome.{Outcome, ok, fault, ◌>>=◌}
use prpc.Rpc.FairQueue.{
  Dealer, Request, FairQueue, deliver, add_server, remove_server, add_server_dealer,
  remove_server_dealer, next, push_request, empty,
}

-- An `RpcResponse`: the dealer that it is for, and the rest as a number.
pub record Response : Type 0 where
  pub dest_dealer : ℕ
  pub body : ℕ

pub record Backend : Type 0 where
  pub server_backend : Map ℕ FairQueue
  pub client_backend : Map ℕ Dealer
  pub responses : List (Dealer × Response)

-- A new queue. Its indices are not initialised: they start anywhere.
abbrev pub new_queue : ℕ → ℕ → FairQueue
new_queue i j = record {
  sid2dealers = [];
  sids = [];
  sids_rr_index = i;
  dealer_id_rr_index = j;
  sid2cache = [];
  delivered = [];
}

-- the queue of `rpc_id`, made where it is missing
abbrev pub queue_at : ℕ → ℕ → ℕ → Backend → FairQueue
queue_at i j rpc_id b = elim (find rpc_id b.server_backend) [ none ↦ new_queue i j | some q ↦ q ]

abbrev pub put_queue : ℕ → FairQueue → Backend → Backend
put_queue rpc_id q b = record b { server_backend = assign rpc_id q b.server_backend }

-- `if (fq->empty()) _server_backend.erase(it)`
abbrev pub put_or_erase : ℕ → FairQueue → Backend → Backend
put_or_erase rpc_id q b =
    if empty q
    then record b { server_backend = erase rpc_id b.server_backend }
    else put_queue rpc_id q b

unfoldable pub end_add_server : ℕ → ℕ → ℕ → ℕ → Backend → Outcome Backend
end_add_server i j rpc_id sid b = do
  q ← add_server sid (queue_at i j rpc_id b)
  ok (put_queue rpc_id q b)

unfoldable pub context_remove_server : ℕ → ℕ → Backend → Outcome Backend
context_remove_server rpc_id sid b = elim (find rpc_id b.server_backend) [
  | none ↦ fault
  | some q ↦ do q' ← remove_server sid q; ok (put_or_erase rpc_id q' b)
]

unfoldable pub context_add_dealer : ℕ → ℕ → ℕ → ℕ → Dealer → Backend → Backend
context_add_dealer i j rpc_id sid d b =
    put_queue rpc_id (add_server_dealer sid d (queue_at i j rpc_id b)) b

unfoldable pub context_remove_dealer : ℕ → ℕ → Dealer → Backend → Outcome Backend
context_remove_dealer rpc_id sid d b = elim (find rpc_id b.server_backend) [
  | none ↦ fault
  | some q ↦ do q' ← remove_server_dealer sid d q; ok (put_or_erase rpc_id q' b)
]

unfoldable pub add_client_dealer : ℕ → Dealer → Backend → Backend
add_client_dealer id d b = record b { client_backend = emplace id d b.client_backend }

unfoldable pub remove_client_dealer : ℕ → Backend → Backend
remove_client_dealer id b = record b { client_backend = erase id b.client_backend }

-- What `RpcContext::push_request` does with the queue that it finds.
unfoldable pub dispatch : Request → FairQueue → Outcome FairQueue
dispatch req q = do
  (dealer, q') ← next req.sid q
  elim dealer [
    | some d ↦ ok (deliver d req q')
    | none ↦ push_request req.sid req q' >>= λ r. ok r.1
  ]

-- A request for a service that is not here is dropped.
unfoldable pub context_push_request : Request → Backend → Outcome Backend
unfolding dispatch
context_push_request req b = elim (find req.rpc_id b.server_backend) [
  | none ↦ ok b
  | some q ↦ do q' ← dispatch req q; ok (put_queue req.rpc_id q' b)
]

-- A response for a dealer that is gone is dropped.
unfoldable pub push_response : Response → Backend → Backend
push_response resp b = elim (find resp.dest_dealer b.client_backend) [
  | none ↦ b
  | some d ↦ record b { responses = b.responses ++ (d, resp) ∷ [] }
]
