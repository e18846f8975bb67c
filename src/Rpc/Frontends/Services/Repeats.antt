-- ===== src/Rpc/Frontends/Services/Repeats.antt =====
-- `update_service_info` on servers with the same packed id.
use prpc.Base.{
  ℕ, ◌≡◌, refl, sym, ap, ◌∙◌, inl, inr, true, false, none, some, List, [], ◌∷◌, nat_eq, arith,
  bytes_eq, Bool-cases, Option-cases,
}
use prpc.Base.Maps.{find}
use prpc.Base.Outcome.{fault, ◌>>=◌}
use prpc.Rpc.Frontends.{FrontEnd, ServerInfo, RpcServiceInfo, Context, rpc_sid_pack}
use prpc.Rpc.Frontends.Services.{register, place_server, update_service_info}
use prpc.Rpc.Frontends.Services.Offers.{
  Offer, offered, packed, distinct, placed, place_server_lem, off_emplaced, at_emplaced, apart,
}
use prpc.Rpc.Frontends.Services.Tables.{place_offers, place_services-offers, emptied}

-- What follows from a server that is placed, where it is.
module _ (i : ℕ) (s : ServerInfo) (os : List Offer) (c : Context) where
  through_placed :
      ((f : FrontEnd)
        → find s.global_rank c.client_sockets ≡ some f
        → find (rpc_sid_pack i s.server_id) c.rpc_server_id_frontend ≡ none
        → place_offers os (placed i s f c) ≡ fault)
      → place_offers ((i, s) ∷ os) c ≡ fault
  unfolding place_offers place_server
  through_placed later = elim (Option-cases (find s.global_rank c.client_sockets)) [
    | inl e ↦
        let stops : place_server i s c ≡ fault = rw (place_server, e) refl in
        ap (λ o. o >>= place_offers os) stops
    | inr (f, e) ↦
        elim (Option-cases (find (rpc_sid_pack i s.server_id) c.rpc_server_id_frontend)) [
          | inr (g, k) ↦
              let stops : place_server i s c ≡ fault = rw (place_server, e, k) refl in
              ap (λ o. o >>= place_offers os) stops
          | inl k ↦ ap (λ o. o >>= place_offers os) (place_server_lem c i s f e k) ∙ later f e k
        ]
  ]

taken-faults :
    (os : List Offer) (c : Context) (p : ℕ) (g : FrontEnd)
    → packed p os ≡ true
    → find p c.rpc_server_id_frontend ≡ some g
    → place_offers os c ≡ fault
taken-faults [] c p g again taken = absurd (cc again)
taken-faults ((i, s) ∷ os) c p g again taken = through_placed i s os c λ f up new.
    let q = rpc_sid_pack i s.server_id in
    let far = apart q p g c.rpc_server_id_frontend new taken in
    taken-faults os (placed i s f c) p g (ground (arith, again, far))
      (off_emplaced q p f c.rpc_server_id_frontend new far ∙ taken)

repeated-faults : (os : List Offer) (c : Context) → distinct os ≡ false → place_offers os c ≡ fault
repeated-faults [] c d = absurd (cc d)
repeated-faults ((i, s) ∷ os) c d = through_placed i s os c λ f up new.
    elim (Bool-cases (packed (rpc_sid_pack i s.server_id) os)) [
      | inl again ↦
          taken-faults os (placed i s f c) (rpc_sid_pack i s.server_id) f again
            (at_emplaced (rpc_sid_pack i s.server_id) f c.rpc_server_id_frontend new)
      | inr once ↦ repeated-faults os (placed i s f c) (ground (arith, d, once))
    ]

-- Where two of the servers that are kept have the same packed id, of one service or of two,
-- `update_service_info` ends the process.
pub update_service_info-repeated :
    (list : List RpcServiceInfo) (c : Context)
    → distinct (offered (register c list [])) ≡ false
    → update_service_info list c ≡ fault
unfolding update_service_info
update_service_info-repeated list c d =
    let m = register c list [] in
    sym (place_services-offers m (emptied m c)) ∙ repeated-faults (offered m) (emptied m c) d
