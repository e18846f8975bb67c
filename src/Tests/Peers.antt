-- ===== src/Tests/Peers.antt =====
-- Runs of the choice of a peer: `send_request` of src/rpc/RpcContext.cpp.
use prpc.Base.{
  ℕ, ◌≡◌, ◌≢◌, true, bytes_eq, none, some, List, [], ◌∷◌, ◌++◌, arith, eqb, if◌then◌else◌, nat_eq,
  refl,
}
use prpc.Base.Maps.{Map, find, assign, emplace}
use prpc.Base.Outcome.{Outcome, Returns, ok, fault, ◌>>=◌}
use prpc.Rpc.Frontends.Choice.{Finds, Serves, choose-Finds}
use prpc.Rpc.Frontends.{
  FrontEnd, RpcServiceInfo, rpc_sid_pack, Context, Message, choose, get_client_frontend_by_rpc_id,
  first_available, send_request,
}
use prpc.Rpc.Frontends.Services.{
  kept_servers, register, place_server, place_servers, place_services, update_service_info,
  get_avaliable_servers,
}
use prpc.Rpc.Frontends.Services.Offers.{distinct, offered}
use prpc.Rpc.Frontends.Services.Queries.{up, get_avaliable_servers_lem}
use prpc.Rpc.Frontends.Services.Repeats.{update_service_info-repeated}

-- Two frontends of the service 1, of which the first is not available.
abbrev peers : Context
peers = record {
  self = 0;
  client_sockets = (1, 21) ∷ (2, 22) ∷ [];
  rpc_info = [];
  rpc_server_info = [];
  rpc_server_frontend = (1, 21 ∷ 22 ∷ []) ∷ [];
  rpc_server_id_frontend = [];
  available = λ f. eqb f 22;
  rank_of = λ f. if eqb f 21 then 1 else 2;
  backend = record { server_backend = []; client_backend = []; responses = [] };
  sent = [];
}

abbrev message : Message
message = record {
  request = record { rpc_id = 1; sid = none; body = 5 };
  dest_rank = none;
  src_dealer = 9;
}

goes_to_the_second :
    send_request 0 message peers
    ≡ ok (some 2, record peers { sent = (22, record { rpc_id = 1; sid = none; body = 5 }) ∷ [] })
unfolding send_request choose get_client_frontend_by_rpc_id first_available find
goes_to_the_second = refl

some_peer :
    (rpc_id : ℕ) (v : List FrontEnd) → find rpc_id peers.rpc_server_frontend ≡ some v → v ≢ []
unfolding find
some_peer rpc_id [] e h = absurd (ground (arith, e))
some_peer rpc_id (f ∷ v) e h = cc

choose-Finds_example : Returns (choose 0 message peers) (Finds peers (Serves peers 0 1 none none))
choose-Finds_example = choose-Finds 0 message peers some_peer

-- Two services, one of them with a server that has no frontend.
abbrev services : List RpcServiceInfo
services =
    record {
      rpc_service_name = 97 ∷ [];
      rpc_id = 3;
      servers =
          record { server_id = 0; global_rank = 1 }
          ∷ record { server_id = 1; global_rank = 7 }
          ∷ record { server_id = 2; global_rank = 2 }
          ∷ [];
    }
    ∷ record {
      rpc_service_name = 98 ∷ [];
      rpc_id = 4;
      servers = record { server_id = 0; global_rank = 2 } ∷ [];
    }
    ∷ []

apart_from : distinct (offered (register peers services [])) ≡ true
unfolding register kept_servers emplace find rpc_sid_pack
apart_from = refl

frontends_of : Outcome Context → Outcome (Map ℕ (List FrontEnd))
frontends_of o = o >>= λ c. ok c.rpc_server_frontend

both_services :
    frontends_of (update_service_info services peers) ≡ ok ((4, 22 ∷ []) ∷ (3, 21 ∷ 22 ∷ []) ∷ [])
unfolding frontends_of update_service_info register kept_servers emplace find place_services
    place_servers place_server assign rpc_sid_pack
both_services = refl

-- What is kept of the first.
abbrev kept : RpcServiceInfo
kept = record {
  rpc_service_name = 97 ∷ [];
  rpc_id = 3;
  servers =
      record { server_id = 0; global_rank = 1 } ∷ record { server_id = 2; global_rank = 2 } ∷ [];
}

knows_it : find (97 ∷ []) (register peers services []) ≡ some kept
unfolding register kept_servers emplace find
knows_it = refl

get_avaliable_servers_lem_example :
    (r : Context) × (update_service_info services peers ≡ ok r)
    × (get_avaliable_servers (97 ∷ []) (5 ∷ []) r ≡ (true, (5 ∷ []) ++ up r kept.servers))
get_avaliable_servers_lem_example =
    get_avaliable_servers_lem services peers (97 ∷ []) kept (5 ∷ []) apart_from knows_it

-- One service that lists the server 0 twice.
abbrev twice : List RpcServiceInfo
twice =
    record {
      rpc_service_name = 97 ∷ [];
      rpc_id = 3;
      servers =
          record { server_id = 0; global_rank = 1 }
          ∷ record { server_id = 0; global_rank = 2 }
          ∷ [];
    }
    ∷ []

update_service_info-repeated_example : update_service_info twice peers ≡ fault
unfolding register kept_servers emplace find rpc_sid_pack
update_service_info-repeated_example = update_service_info-repeated twice peers refl
