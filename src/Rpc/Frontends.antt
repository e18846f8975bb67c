-- ===== src/Rpc/Frontends.antt =====
-- How `RpcContext::send_request` of src/rpc/RpcContext.cpp finds a peer. A `FrontEnd*` is the identity of
-- the object; whether it is available and whose it is are read off the context.
pub mod Choice
pub mod Services
use prpc.Base.{
  ℕ, zero, suc, ◌+◌, ◌*◌, ◌%◌, Bool, true, false, Option, none, some, List, [], ◌∷◌, ◌++◌, nat_eq,
  ◌==◌, eqb, if◌then◌else◌, length, get_elem?, Bytes, bytes_eq,
}
use prpc.Base.Maps.{Map, find}
use prpc.Base.Outcome.{Outcome, ok, fault, ◌>>=◌}
use prpc.Rpc.Backend.{Backend, Response, context_push_request, push_response}
use prpc.Rpc.FairQueue.{Request}

abbrev pub FrontEnd : Type 0
FrontEnd = ℕ

pub record ServerInfo : Type 0 where
  pub server_id : ℕ
  pub global_rank : ℕ

pub record RpcServiceInfo : Type 0 where
  pub rpc_service_name : Bytes
  pub rpc_id : ℕ
  pub servers : List ServerInfo

-- `rpc_server_info` has the rank of each server. `sent` is what the frontends are given to send.
pub record Context : Type 0 where
  pub self : ℕ
  pub client_sockets : Map ℕ FrontEnd
  pub rpc_info : Map Bytes RpcServiceInfo
  pub rpc_server_info : Map ℕ (Map ℕ ℕ)
  pub rpc_server_frontend : Map ℕ (List FrontEnd)
  pub rpc_server_id_frontend : Map ℕ FrontEnd
  pub available : FrontEnd → Bool
  pub rank_of : FrontEnd → ℕ
  pub backend : Backend
  pub sent : List (FrontEnd × Request)

-- A request with the rest of its head; a rank of -1 is `none`.
pub record Message : Type 0 where
  pub request : Request
  pub dest_rank : Option ℕ
  pub src_dealer : ℕ

unfoldable pub rpc_sid_pack : ℕ → ℕ → ℕ
rpc_sid_pack rpc_id sid = rpc_id * 1000000007 + sid

abbrev pub if_available : Context → FrontEnd → Option FrontEnd
if_available c f = if c.available f then some f else none

unfoldable pub get_client_frontend_by_rank : ℕ → Context → Option FrontEnd
get_client_frontend_by_rank rank c = elim (find rank c.client_sockets) [
  | none ↦ none
  | some f ↦ if_available c f
]

unfoldable pub first_available : Context → List FrontEnd → Option FrontEnd
first_available c [] = none
first_available c (f ∷ fs) =
    let rest = first_available c fs in if c.available f then some f else rest

-- `random` is what `rand()` gives; a remainder by 0 is a fault.
unfoldable pub get_client_frontend_by_rpc_id : ℕ → ℕ → Context → Outcome (Option FrontEnd)
unfolding first_available
get_client_frontend_by_rpc_id random rpc_id c = elim (find rpc_id c.rpc_server_frontend) [
  | none ↦ ok none
  | some v ↦ elim (length v) [
    | zero ↦ fault
    | suc n ↦ elim (get_elem? v (random % suc n)) [
      | none ↦ fault
      | some f ↦ ok (if c.available f then some f else first_available c v)
    ]
  ]
]

-- by the server's rank
unfoldable pub by_server_info : ℕ → ℕ → Context → Option FrontEnd
unfolding get_client_frontend_by_rank
by_server_info rpc_id server_id c = elim (find rpc_id c.rpc_server_info) [
  | none ↦ none
  | some servers ↦ elim (find server_id servers) [
    | none ↦ none
    | some rank ↦ get_client_frontend_by_rank rank c
  ]
]

unfoldable pub get_client_frontend_by_sid : ℕ → ℕ → Context → Option FrontEnd
unfolding by_server_info
get_client_frontend_by_sid rpc_id server_id c =
    elim (find (rpc_sid_pack rpc_id server_id) c.rpc_server_id_frontend) [
      | none ↦ by_server_info rpc_id server_id c
      | some f ↦ if c.available f then some f else by_server_info rpc_id server_id c
    ]

-- the choice of the frontend in `send_request`
unfoldable pub choose : ℕ → Message → Context → Outcome (Option FrontEnd)
unfolding get_client_frontend_by_sid get_client_frontend_by_rank get_client_frontend_by_rpc_id
choose random msg c = elim msg.request.sid [
  | some sid ↦ ok (get_client_frontend_by_sid msg.request.rpc_id sid c)
  | none ↦ elim msg.dest_rank [
    | some rank ↦ ok (get_client_frontend_by_rank rank c)
    | none ↦ get_client_frontend_by_rpc_id random msg.request.rpc_id c
  ]
]

-- `ENOSUCHSERVER`: the error code stands for the body of the response
abbrev pub no_such_server : ℕ
no_such_server = 101

-- The rank that the request goes to; -1 is `none`.
unfoldable pub send_request : ℕ → Message → Context → Outcome (Option ℕ × Context)
unfolding choose
send_request random msg c = do
  f ← choose random msg c
  elim f [
    | none ↦ ok (
      none,
      record c {
        backend =
            push_response (record { dest_dealer = msg.src_dealer; body = no_such_server })
              c.backend;
      },
    )
    | some f ↦
        if eqb (c.rank_of f) c.self
        then (context_push_request msg.request c.backend >>= λ b.
            ok (some (c.rank_of f), record c { backend = b }))
        else ok (some (c.rank_of f), record c { sent = c.sent ++ (f, msg.request) ∷ [] })
  ]
