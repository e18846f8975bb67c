-- ===== src/Rpc/Frontends/Choice.antt =====
-- Which frontend a request is sent to.
use prpc.Base.{
  ℕ, zero, suc, ◌%◌, ◌<◌, ◌≡◌, ◌≢◌, refl, ◌⊎◌, inl, inr, Bool, true, false, ◌||◌, Option, none,
  some, List, [], ◌∷◌, nat_eq, eqb, eqb_iff, length, get_elem?, arith, Bool-cases, Option-cases,
}
use prpc.Base.Maps.{Map, find}
use prpc.Base.Outcome.{Returns}
use prpc.Rpc.Frontends.{
  FrontEnd, Context, Message, rpc_sid_pack, get_client_frontend_by_rank, first_available,
  get_client_frontend_by_rpc_id, by_server_info, get_client_frontend_by_sid, choose,
}

abbrev pub listed : FrontEnd → List FrontEnd → Bool
listed f [] = false
listed f (g ∷ v) = eqb g f || listed f v

-- An available one of the frontends `P`, or none where none of them is available.
pub record Finds (c : Context) (P : FrontEnd → Type 0) (o : Option FrontEnd) : Type 0 where
  pub found : (f : FrontEnd) → o ≡ some f → (c.available f ≡ true) × P f
  pub missed : o ≡ none → (f : FrontEnd) → P f → c.available f ≡ false

first_available-Finds :
    (c : Context) (v : List FrontEnd) → Finds c (λ f. listed f v ≡ true) (first_available c v)
unfolding first_available
first_available-Finds c [] = record { found = λ f h. cc; missed = λ h f m. cc }
first_available-Finds c (g ∷ v) =
    let i = first_available-Finds c v in
    elim (Bool-cases (c.available g)) [
      | inl up ↦ rw up record { found = λ f h. ground (arith, h, up); missed = λ h f m. cc }
      | inr down ↦ rw down record {
        found = λ f h. let (a, l) = i.found f h in (a, ground (arith, l));
        missed = λ h f m. elim (Bool-cases (eqb g f)) [
          | inl same ↦ cc ((eqb_iff g f).0 same, down)
          | inr other ↦ i.missed h f (rw other at m)
        ];
      }
    ]

by_rank-Finds :
    (c : Context) (r : ℕ)
    → Finds c (λ f. find r c.client_sockets ≡ some f) (get_client_frontend_by_rank r c)
unfolding get_client_frontend_by_rank
by_rank-Finds c r = elim (Option-cases (find r c.client_sockets)) [
  | inl e ↦ rw (get_client_frontend_by_rank, e) record { found = λ f h. cc; missed = λ h f m. cc }
  | inr (g, e) ↦ elim (Bool-cases (c.available g)) [
    | inl up ↦
        rw (get_client_frontend_by_rank, e, up)
          record { found = λ f h. (cc (h, up), h); missed = λ h f m. cc }
    | inr down ↦
        rw (get_client_frontend_by_rank, e, down)
          record { found = λ f h. cc; missed = λ h f m. cc (m, down) }
  ]
]

-- An index below the length finds an element.
get_elem?-listed :
    (v : List FrontEnd) (i : ℕ)
    → i < length v
    → (f : FrontEnd) × (get_elem? v i ≡ some f) × (listed f v ≡ true)
get_elem?-listed [] i h = absurd (omega arith)
get_elem?-listed (g ∷ v) zero h = (g, refl, ground arith)
get_elem?-listed (g ∷ v) (suc i) h =
    let (f, e, l) = get_elem?-listed v i (omega arith) in (f, e, ground (arith, l))

module _ (c : Context) (random rpc_id : ℕ) where
  by_random :
      (v : List FrontEnd)
      → find rpc_id c.rpc_server_frontend ≡ some v
      → v ≢ []
      → Returns (get_client_frontend_by_rpc_id random rpc_id c) (
          Finds c (λ f.
            (w : List FrontEnd) × (find rpc_id c.rpc_server_frontend ≡ some w)
            × (listed f w ≡ true)))
  unfolding get_client_frontend_by_rpc_id
  by_random [] e h = absurd (h refl)
  by_random (g ∷ v) e h =
      let (f, at_index, l) = get_elem?-listed (g ∷ v) (random % suc (length v)) (omega arith) in
      let i = first_available-Finds c (g ∷ v) in
      elim (Bool-cases (c.available f)) [
        | inl up ↦ (
          some f,
          rw (get_client_frontend_by_rpc_id, e, at_index, up) refl,
          record { found = λ k n. (cc (n, up), (g ∷ v, e, cc (n, l))); missed = λ n k m. cc },
        )
        | inr down ↦ (
          first_available c (g ∷ v),
          rw (get_client_frontend_by_rpc_id, e, at_index, down) refl,
          record {
            found = λ k n. let (a, b) = i.found k n in (a, (g ∷ v, e, b));
            missed = λ n k (w, e', m). i.missed n k (cc (e, e', m));
          },
        )
      ]

  -- the frontends of the rank of the server `sid`
  abbrev pub OfInfo : ℕ → FrontEnd → Type 0
  OfInfo sid f =
      (servers : Map ℕ ℕ) × (r : ℕ) × (find rpc_id c.rpc_server_info ≡ some servers)
      × (find sid servers ≡ some r)
      × (find r c.client_sockets ≡ some f)

  by_info-Finds : (sid : ℕ) → Finds c (OfInfo sid) (by_server_info rpc_id sid c)
  unfolding by_server_info
  by_info-Finds sid = elim (Option-cases (find rpc_id c.rpc_server_info)) [
    | inl e ↦
        rw (by_server_info, e)
          record { found = λ f h. cc; missed = λ h f (servers, r, a, b, d). cc (e, a) }
    | inr (servers, e) ↦ elim (Option-cases (find sid servers)) [
      | inl e' ↦
          rw (by_server_info, e, e')
            record { found = λ f h. cc; missed = λ h f (servers', r, a, b, d). cc (e', a, b) }
      | inr (r, e') ↦
          let i = by_rank-Finds c r in
          rw (by_server_info, e, e')
            record {
              found = λ f h. let (up, at_rank) = i.found f h in (up, (servers, r, e, e', at_rank));
              missed = λ h f (servers', r', a, b, d). i.missed h f (cc (e, e', a, b, d));
            }
    ]
  ]

  by_sid-Finds :
      (sid : ℕ)
      → Finds c
          (λ f. (find (rpc_sid_pack rpc_id sid) c.rpc_server_id_frontend ≡ some f) ⊎ OfInfo sid f)
          (get_client_frontend_by_sid rpc_id sid c)
  unfolding get_client_frontend_by_sid
  by_sid-Finds sid =
      let i = by_info-Finds sid in
      elim (Option-cases (find (rpc_sid_pack rpc_id sid) c.rpc_server_id_frontend)) [
        | inl e ↦
            rw (get_client_frontend_by_sid, e)
              record {
                found = λ f h. let (up, info) = i.found f h in (up, inr info);
                missed = λ h f m. elim m [ inl a ↦ cc a | inr info ↦ i.missed h f info ];
              }
        | inr (g, e) ↦ elim (Bool-cases (c.available g)) [
          | inl up ↦
              rw (get_client_frontend_by_sid, e, up)
                record { found = λ f h. (cc (h, up), inl h); missed = λ h f m. cc }
          | inr down ↦
              rw (get_client_frontend_by_sid, e, down)
                record {
                  found = λ f h. let (up, info) = i.found f h in (up, inr info);
                  missed = λ h f m. elim m [ inl a ↦ cc (a, down) | inr info ↦ i.missed h f info ];
                }
        ]
      ]

  -- The frontends that a request may go to, available or not: those of the server that it names; else
  -- the one of the rank that it names; else those of the service.
  abbrev pub Serves : Option ℕ → Option ℕ → FrontEnd → Type 0
  Serves (some sid) rank f =
      (find (rpc_sid_pack rpc_id sid) c.rpc_server_id_frontend ≡ some f) ⊎ OfInfo sid f
  Serves none (some r) f = find r c.client_sockets ≡ some f
  Serves none none f =
      (w : List FrontEnd) × (find rpc_id c.rpc_server_frontend ≡ some w) × (listed f w ≡ true)

  chosen :
      (sid rank : Option ℕ) (body dealer : ℕ)
      → ((v : List FrontEnd) → find rpc_id c.rpc_server_frontend ≡ some v → v ≢ [])
      → Returns
          (choose random
            (record {
              request = record { rpc_id = rpc_id; sid = sid; body = body };
              dest_rank = rank;
              src_dealer = dealer;
            })
            c)
          (Finds c (Serves sid rank))
  unfolding choose
  chosen (some sid) rank body dealer h = (_, refl, by_sid-Finds sid)
  chosen none (some r) body dealer h = (_, refl, by_rank-Finds c r)
  chosen none none body dealer h = elim (Option-cases (find rpc_id c.rpc_server_frontend)) [
    | inl e ↦ (
      none,
      rw (get_client_frontend_by_rpc_id, e) refl,
      record { found = λ f n. cc; missed = λ n f (w, e', l). cc (e, e') },
    )
    | inr (v, e) ↦ by_random v e (h v e)
  ]

-- Where no service has an empty list of frontends, the choice of `send_request` does not fault,
-- whatever `rand` gives. It is an available frontend of those that the request may go to, and there is
-- none only where none of those is available.
pub choose-Finds :
    (random : ℕ) (msg : Message) (c : Context)
    → ((rpc_id : ℕ) (v : List FrontEnd) → find rpc_id c.rpc_server_frontend ≡ some v → v ≢ [])
    → Returns
        (choose random msg c)
        (Finds c (Serves c random msg.request.rpc_id msg.request.sid msg.dest_rank))
choose-Finds random msg c h =
    chosen c random msg.request.rpc_id msg.request.sid msg.dest_rank msg.request.body msg.src_dealer
      (h msg.request.rpc_id)
