-- ===== src/Rpc/Frontends/Services/Queries.antt =====
-- Which servers `get_avaliable_servers` finds after an update.
use prpc.Base.{
  ℕ, ◌≡◌, refl, ap, subst, ◌∙◌, inl, inr, true, none, some, List, [], ◌∷◌, ◌++◌, nat_eq, ◌==◌,
  if◌then◌else◌, arith, Bytes, bytes_eq, Bool-cases,
}
use prpc.Base.Maps.{Map, find}
use prpc.Base.Outcome.{ok}
use prpc.Rpc.Frontends.{
  FrontEnd, ServerInfo, RpcServiceInfo, Context, if_available, by_server_info,
  get_client_frontend_by_rank, get_client_frontend_by_sid,
}
use prpc.Rpc.Frontends.Services.{
  register, update_service_info, available_servers, get_avaliable_servers,
}
use prpc.Rpc.Frontends.Services.Offers.{Offer, Everywhere, offers_of, offered, distinct, Shows}
use prpc.Rpc.Frontends.Services.Tables.{update_service_info-IsUpdated}

-- The ids of the servers whose rank has an available frontend.
abbrev pub up : Context → List ServerInfo → List ℕ
up c [] = []
up c (s ∷ servers) =
    let rest = up c servers in
    elim (find s.global_rank c.client_sockets) [
      | none ↦ rest
      | some f ↦ if c.available f then s.server_id ∷ rest else rest
    ]

by_sid-Shows :
    (c : Context) (i : ℕ) (s : ServerInfo)
    → Shows c (i, s)
    → (f : FrontEnd) × (find s.global_rank c.client_sockets ≡ some f)
      × (get_client_frontend_by_sid i s.server_id c ≡ if_available c f)
unfolding get_client_frontend_by_sid by_server_info get_client_frontend_by_rank
by_sid-Shows c i s (f, servers, fs, at_rank, by_id, info, rank, row, l) = (
  f,
  at_rank,
  elim (Bool-cases (c.available f)) [
    | inl e ↦ rw (get_client_frontend_by_sid, by_id, e) refl
    | inr e ↦
        rw
          (
            get_client_frontend_by_sid, by_server_info, get_client_frontend_by_rank, by_id, e, info,
            rank, at_rank, e,
          )
          refl
  ],
)

one_more :
    (c : Context) (i : ℕ) (s : ServerInfo) (servers : List ServerInfo) (f : FrontEnd)
    → find s.global_rank c.client_sockets ≡ some f
    → get_client_frontend_by_sid i s.server_id c ≡ if_available c f
    → available_servers i servers c ≡ up c servers
    → available_servers i (s ∷ servers) c ≡ up c (s ∷ servers)
unfolding available_servers
one_more c i s servers f at_rank chosen rest = elim (Bool-cases (c.available f)) [
  | inl e ↦
      let got : get_client_frontend_by_sid i s.server_id c ≡ some f = chosen ∙ rw (e) refl in
      rw (available_servers, up, at_rank, got, e) (ap (λ l. s.server_id ∷ l) rest)
  | inr e ↦
      let got : get_client_frontend_by_sid i s.server_id c ≡ none = chosen ∙ rw (e) refl in
      rw (available_servers, up, at_rank, got, e) rest
]

available_servers-up :
    (c : Context) (i : ℕ) (servers : List ServerInfo)
    → Everywhere (Shows c) (offers_of i servers)
    → available_servers i servers c ≡ up c servers
unfolding available_servers
available_servers-up c i [] all = refl
available_servers-up c i (s ∷ servers) (one, all) =
    let (f, at_rank, chosen) = by_sid-Shows c i s one in
    one_more c i s servers f at_rank chosen (available_servers-up c i servers all)

first_part :
    {A : Type 0}
    → (P : A → Type 0) (xs ys : List A) → Everywhere P (xs ++ ys)
    → Everywhere P xs × Everywhere P ys
first_part P [] ys all = (tt, all)
first_part P (x ∷ xs) ys (one, all) = let (a, b) = first_part P xs ys all in ((one, a), b)

-- The servers of one of the services.
of_service :
    (P : Offer → Type 0) (name : Bytes) (info : RpcServiceInfo) (m : Map Bytes RpcServiceInfo)
    → find name m ≡ some info
    → Everywhere P (offered m)
    → Everywhere P (offers_of info.rpc_id info.servers)
unfolding find
of_service P name info [] e all = absurd (cc e)
of_service P name info ((key, w) ∷ m) e all =
    let (here, there) = first_part P (offers_of w.rpc_id w.servers) (offered m) all in
    elim (Bool-cases (key == name)) [
      | inl k ↦
          let same : w ≡ info = ground (arith, rw (k) at e) in
          subst (λ v. Everywhere P (offers_of v.rpc_id v.servers)) same here
      | inr k ↦ of_service P name info m (rw (k) at e) there
    ]

-- Where no two of the servers that it keeps, of one service or of two, have the same packed id, and
-- `info` is what `update_service_info` keeps for a name, `get_avaliable_servers` then adds to its
-- list the ids of just those servers of `info` whose rank has an available frontend, in their order.
pub get_avaliable_servers_lem :
    (list : List RpcServiceInfo) (c : Context) (name : Bytes) (info : RpcServiceInfo)
    (servers : List ℕ)
    → distinct (offered (register c list [])) ≡ true
    → find name (register c list []) ≡ some info
    → (r : Context) × (update_service_info list c ≡ ok r)
      × (get_avaliable_servers name servers r ≡ (true, servers ++ up r info.servers))
unfolding get_avaliable_servers
get_avaliable_servers_lem list c name info servers d e =
    let (r, k, u) = update_service_info-IsUpdated list c d in
    let known : find name r.rpc_info ≡ some info = ap (find name) u.info ∙ e in
    let shown = of_service (Shows r) name info r.rpc_info known u.shown in
    let same = available_servers-up r info.rpc_id info.servers shown in
    (r, k, rw (get_avaliable_servers, known, same) refl)
