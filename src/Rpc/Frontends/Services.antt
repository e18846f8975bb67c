-- ===== src/Rpc/Frontends/Services.antt =====
-- `RpcContext::update_service_info` of src/rpc/RpcContext.cpp and the queries that follow it: the tables by which a peer is found, from
-- the list that the metadata service has.
pub mod Offers
pub mod Tables
pub mod Queries
pub mod Repeats
use prpc.Base.{
  ℕ, Bool, true, false, if◌then◌else◌, Option, none, some, List, [], ◌∷◌, ◌++◌, nat_eq, Bytes,
  bytes_eq,
}
use prpc.Base.Maps.{Map, find, assign, emplace}
use prpc.Base.Outcome.{Outcome, ok, fault, ◌>>=◌}
use prpc.Rpc.Frontends.{
  Context, ServerInfo, RpcServiceInfo, rpc_sid_pack, get_client_frontend_by_sid,
}

-- the servers with a frontend
unfoldable pub kept_servers : Context → List ServerInfo → List ServerInfo
kept_servers c [] = []
kept_servers c (s ∷ servers) =
    let rest = kept_servers c servers in
    elim (find s.global_rank c.client_sockets) [ none ↦ rest | some f ↦ s ∷ rest ]

unfoldable pub register :
    Context → List RpcServiceInfo → Map Bytes RpcServiceInfo → Map Bytes RpcServiceInfo
unfolding kept_servers
register c [] m = m
register c (info ∷ list) m =
    register c list
      (emplace info.rpc_service_name (record info { servers = kept_servers c info.servers }) m)

-- `m[k]`, which is made where it is not there
abbrev pub at_or_new : {A : Type 0} → ℕ → Map ℕ (List A) → List A
at_or_new k m = elim (find k m) [ none ↦ [] | some v ↦ v ]

-- One server of the inner loop. It has a frontend, since only those were kept.
unfoldable pub place_server : ℕ → ServerInfo → Context → Outcome Context
place_server rpc_id s c = elim (find s.global_rank c.client_sockets) [
  | none ↦ fault
  | some f ↦ elim (find (rpc_sid_pack rpc_id s.server_id) c.rpc_server_id_frontend) [
    | some g ↦ fault
    | none ↦ ok (record c {
      rpc_server_info =
          assign rpc_id (assign s.server_id s.global_rank (at_or_new rpc_id c.rpc_server_info))
            c.rpc_server_info;
      rpc_server_frontend =
          assign rpc_id (at_or_new rpc_id c.rpc_server_frontend ++ f ∷ []) c.rpc_server_frontend;
      rpc_server_id_frontend = emplace (rpc_sid_pack rpc_id s.server_id) f c.rpc_server_id_frontend;
    })
  ]
]

unfoldable pub place_servers : ℕ → List ServerInfo → Context → Outcome Context
place_servers rpc_id [] c = ok c
place_servers rpc_id (s ∷ servers) c =
    place_server rpc_id s c >>= λ c. place_servers rpc_id servers c

unfoldable pub place_services : Map Bytes RpcServiceInfo → Context → Outcome Context
place_services [] c = ok c
place_services ((name, info) ∷ m) c =
    place_servers info.rpc_id info.servers c >>= λ c. place_services m c

unfoldable pub update_service_info : List RpcServiceInfo → Context → Outcome Context
unfolding register place_services
update_service_info list c =
    let info = register c list [] in
    place_services info (record c {
      rpc_info = info;
      rpc_server_info = [];
      rpc_server_frontend = [];
      rpc_server_id_frontend = [];
    })

unfoldable pub get_rpc_service_info : Bytes → Context → Option RpcServiceInfo
get_rpc_service_info rpc_name c = find rpc_name c.rpc_info

-- the loop of `get_avaliable_servers`
unfoldable pub available_servers : ℕ → List ServerInfo → Context → List ℕ
available_servers rpc_id [] c = []
available_servers rpc_id (s ∷ servers) c =
    let rest = available_servers rpc_id servers c in
    elim (get_client_frontend_by_sid rpc_id s.server_id c) [
      | none ↦ rest
      | some f ↦ if c.available f then s.server_id ∷ rest else rest
    ]

-- What it answers, and `servers` after it.
unfoldable pub get_avaliable_servers : Bytes → List ℕ → Context → Bool × List ℕ
unfolding available_servers
get_avaliable_servers rpc_name servers c = elim (find rpc_name c.rpc_info) [
  | none ↦ (false, servers)
  | some info ↦ (true, servers ++ available_servers info.rpc_id info.servers c)
]
