-- ===== src/Rpc/Frontends/Services/Tables.antt =====
-- The tables that `update_service_info` makes agree with each other, and the choice of a peer that
-- follows does not fault.
use prpc.Base.{
  ℕ, ◌≡◌, refl, sym, ap, subst, fun_ext, ◌∙◌, inl, inr, true, false, none, some, List, [], ◌∷◌,
  ◌++◌, nat_eq, eqb, arith, Bytes, bytes_eq, Option-cases,
}
use prpc.Base.Maps.{Map, find, emplace}
use prpc.Base.Outcome.{Outcome, ok, fault, ◌>>=◌, Returns}
use prpc.Rpc.Frontends.{FrontEnd, ServerInfo, RpcServiceInfo, Context, rpc_sid_pack}
use prpc.Rpc.Frontends.Services.{
  kept_servers, register, place_server, place_servers, place_services, update_service_info,
}
use prpc.Rpc.Frontends.Services.Offers.{
  Offer, Everywhere, offers_of, offered, packed, distinct, Shows, NoneEmpty, off_emplaced, placed,
  place_server_lem, placed-Shows, still-Shows, placed-NoneEmpty,
}

unfoldable pub place_offers : List Offer → Context → Outcome Context
place_offers [] c = ok c
place_offers ((i, s) ∷ os) c = place_server i s c >>= λ c. place_offers os c

-- What the loops need of the servers that are still to come: each has a frontend, and an id that is not
-- in the table.
Placeable : Context → Offer → Type 0
Placeable c (i, s) =
    ((f : FrontEnd) × (find s.global_rank c.client_sockets ≡ some f))
    × (find (rpc_sid_pack i s.server_id) c.rpc_server_id_frontend ≡ none)

Placeable-placed :
    (c : Context) (i : ℕ) (s : ServerInfo) (f : FrontEnd) (os : List Offer)
    → find (rpc_sid_pack i s.server_id) c.rpc_server_id_frontend ≡ none
    → packed (rpc_sid_pack i s.server_id) os ≡ false
    → Everywhere (Placeable c) os
    → Everywhere (Placeable (placed i s f c)) os
unfolding Placeable
Placeable-placed c i s f [] new off all = tt
Placeable-placed c i s f ((j, t) ∷ os) new off ((up, free), all) =
    let far : eqb (rpc_sid_pack i s.server_id) (rpc_sid_pack j t.server_id) ≡ false =
      ground (arith, off) in
    let rest : packed (rpc_sid_pack i s.server_id) os ≡ false = ground (arith, off) in
    (
      (up, off_emplaced _ _ f c.rpc_server_id_frontend new far ∙ free),
      Placeable-placed c i s f os new rest all,
    )

place_offers-Shows :
    (os : List Offer) (c : Context) (done : List Offer)
    → distinct os ≡ true
    → Everywhere (Placeable c) os
    → Everywhere (Shows c) done
    → NoneEmpty c
    → Returns (place_offers os c) (λ r.
      Everywhere (Shows r) os × Everywhere (Shows r) done × NoneEmpty r × (r.rpc_info ≡ c.rpc_info))
unfolding place_offers Placeable
place_offers-Shows [] c done d all old h = (c, refl, (tt, old, h, refl))
place_offers-Shows ((i, s) ∷ os) c done d (((f, up), new), all) old h =
    let off : packed (rpc_sid_pack i s.server_id) os ≡ false = ground (arith, d) in
    let rest : distinct os ≡ true = ground (arith, d) in
    let (r, e, (here, (this, before), none_empty, same)) =
      place_offers-Shows os (placed i s f c) ((i, s) ∷ done) rest
        (Placeable-placed c i s f os new off all)
        (placed-Shows c i s f up new, all_still c i s f up new done old)
        (placed-NoneEmpty c i s f up new h) in
    (
      r,
      ap (λ o. o >>= place_offers os) (place_server_lem c i s f up new) ∙ e,
      ((this, here), before, none_empty, same),
    )
  where
    all_still :
        (c : Context) (i : ℕ) (s : ServerInfo) (f : FrontEnd)
        → find s.global_rank c.client_sockets ≡ some f
        → find (rpc_sid_pack i s.server_id) c.rpc_server_id_frontend ≡ none
        → (done : List Offer) → Everywhere (Shows c) done
        → Everywhere (Shows (placed i s f c)) done
    all_still c i s f up new [] all = tt
    all_still c i s f up new ((j, t) ∷ done) (one, all) =
        (still-Shows c i s f up new j t one, all_still c i s f up new done all)

-- The two loops go through the servers one after the other.
place_servers-offers :
    (i : ℕ) (servers : List ServerInfo) (os : List Offer) (c : Context)
    → place_offers (offers_of i servers ++ os) c ≡ place_servers i servers c >>= place_offers os
unfolding place_offers place_servers
place_servers-offers i [] os c = refl
place_servers-offers i (s ∷ servers) os c =
    through (place_server i s c) (place_servers-offers i servers os)
  where
    through :
        (o : Outcome Context)
        → ((d : Context)
            → place_offers (offers_of i servers ++ os) d
              ≡ place_servers i servers d >>= place_offers os)
        → (o >>= place_offers (offers_of i servers ++ os))
          ≡ ((o >>= place_servers i servers) >>= place_offers os)
    through (ok d) h = h d
    through fault h = refl

pub place_services-offers :
    (m : Map Bytes RpcServiceInfo) (c : Context) → place_offers (offered m) c ≡ place_services m c
unfolding place_offers place_services
place_services-offers [] c = refl
place_services-offers ((name, info) ∷ m) c =
    place_servers-offers info.rpc_id info.servers (offered m) c
    ∙ ap (λ k. place_servers info.rpc_id info.servers c >>= k)
        (fun_ext λ d. place_services-offers m d)

Reached : Context → Offer → Type 0
Reached c (i, s) = (f : FrontEnd) × (find s.global_rank c.client_sockets ≡ some f)

append-Everywhere :
    {A : Type 0}
    → (P : A → Type 0) (xs ys : List A) → Everywhere P xs
    → Everywhere P ys
    → Everywhere P (xs ++ ys)
append-Everywhere P [] ys a b = b
append-Everywhere P (x ∷ xs) ys (p, a) b = (p, append-Everywhere P xs ys a b)

keeps :
    (c : Context) (s : ServerInfo) (servers : List ServerInfo) (f : FrontEnd)
    → find s.global_rank c.client_sockets ≡ some f
    → kept_servers c (s ∷ servers) ≡ s ∷ kept_servers c servers
unfolding kept_servers
keeps c s servers f e = rw (kept_servers, e) refl

skips :
    (c : Context) (s : ServerInfo) (servers : List ServerInfo)
    → find s.global_rank c.client_sockets ≡ none
    → kept_servers c (s ∷ servers) ≡ kept_servers c servers
unfolding kept_servers
skips c s servers e = rw (kept_servers, e) refl

kept_servers-Reached :
    (c : Context) (i : ℕ) (servers : List ServerInfo)
    → Everywhere (Reached c) (offers_of i (kept_servers c servers))
unfolding kept_servers Reached
kept_servers-Reached c i [] = tt
kept_servers-Reached c i (s ∷ servers) =
    let rest = kept_servers-Reached c i servers in
    elim (Option-cases (find s.global_rank c.client_sockets)) [
      | inl e ↦ subst (λ k. Everywhere (Reached c) (offers_of i k)) (sym (skips c s servers e)) rest
      | inr (f, e) ↦
          subst (λ k. Everywhere (Reached c) (offers_of i k)) (sym (keeps c s servers f e))
            ((f, e), rest)
    ]

emplace-new :
    (k : Bytes) (v : RpcServiceInfo) (m : Map Bytes RpcServiceInfo)
    → find k m ≡ none
    → emplace k v m ≡ (k, v) ∷ m
unfolding emplace
emplace-new k v m e = rw (emplace, e) refl

emplace-old :
    (k : Bytes) (v w : RpcServiceInfo) (m : Map Bytes RpcServiceInfo)
    → find k m ≡ some w
    → emplace k v m ≡ m
unfolding emplace
emplace-old k v w m e = rw (emplace, e) refl

register-Reached :
    (c : Context) (list : List RpcServiceInfo) (m : Map Bytes RpcServiceInfo)
    → Everywhere (Reached c) (offered m)
    → Everywhere (Reached c) (offered (register c list m))
unfolding register
register-Reached c [] m all = all
register-Reached c (info ∷ list) m all =
    let kept = record info { servers = kept_servers c info.servers } in
    register-Reached c list (emplace info.rpc_service_name kept m)
      (elim (Option-cases (find info.rpc_service_name m)) [
        | inl e ↦
            subst (λ k. Everywhere (Reached c) (offered k))
              (sym (emplace-new info.rpc_service_name kept m e))
              (append-Everywhere (Reached c) (offers_of info.rpc_id kept.servers) (offered m)
                (kept_servers-Reached c info.rpc_id info.servers) all)
        | inr (w, e) ↦
            subst (λ k. Everywhere (Reached c) (offered k))
              (sym (emplace-old info.rpc_service_name kept w m e)) all
      ])

-- The tables that hold nothing yet.
abbrev pub emptied : Map Bytes RpcServiceInfo → Context → Context
emptied info c = record c {
  rpc_info = info;
  rpc_server_info = [];
  rpc_server_frontend = [];
  rpc_server_id_frontend = [];
}

emptied-Placeable :
    (c : Context) (m : Map Bytes RpcServiceInfo) (os : List Offer)
    → Everywhere (Reached c) os
    → Everywhere (Placeable (emptied m c)) os
unfolding Reached Placeable find
emptied-Placeable c m [] all = tt
emptied-Placeable c m ((i, s) ∷ os) (one, all) = ((one, refl), emptied-Placeable c m os all)

emptied-NoneEmpty : (c : Context) (m : Map Bytes RpcServiceInfo) → NoneEmpty (emptied m c)
unfolding find
emptied-NoneEmpty c m i fs e = cc e

-- The tables of a context lead from each server that they were made for to its frontend.
pub record IsUpdated (list : List RpcServiceInfo) (c r : Context) : Type 0 where
  pub info : r.rpc_info ≡ register c list []
  pub shown : Everywhere (Shows r) (offered r.rpc_info)
  pub none_empty : NoneEmpty r

pub update_service_info-IsUpdated :
    (list : List RpcServiceInfo) (c : Context)
    → distinct (offered (register c list [])) ≡ true
    → Returns (update_service_info list c) (IsUpdated list c)
unfolding update_service_info
update_service_info-IsUpdated list c d =
    let m = register c list [] in
    let (r, e, (shown, old, none_empty, same)) =
      place_offers-Shows (offered m) (emptied m c) [] d
        (emptied-Placeable c m (offered m) (register-Reached c list [] tt)) tt
        (emptied-NoneEmpty c m) in
    (
      r,
      sym (place_services-offers m (emptied m c)) ∙ e,
      record {
        info = same;
        shown = subst (λ k. Everywhere (Shows r) (offered k)) (sym same) shown;
        none_empty = none_empty;
      },
    )
