-- ===== src/Rpc/Frontends/Services/Offers.antt =====
-- What `update_service_info` writes for one server, and that it leaves the others in the tables.
use prpc.Base.{
  ℕ, ◌≡◌, ◌≢◌, refl, sym, ap, ◌∙◌, inl, inr, Bool, true, false, not, ◌&&◌, ◌||◌, none, some, List,
  [], ◌∷◌, ◌++◌, nat_eq, eqb, arith, Bytes, bytes_eq, Bool-cases,
}
use prpc.Base.Maps.{Map, find, assign, emplace, find-assign, find-emplace}
use prpc.Base.Outcome.{ok}
use prpc.Rpc.Frontends.{FrontEnd, ServerInfo, RpcServiceInfo, Context, rpc_sid_pack}
use prpc.Rpc.Frontends.Services.{at_or_new, place_server}
use prpc.Rpc.Frontends.Choice.{listed}

abbrev pub Offer : Type 0
Offer = ℕ × ServerInfo

abbrev pub Everywhere : {A : Type 0} → (A → Type 0) → List A → Type 0
Everywhere P [] = Unit
Everywhere P (a ∷ l) = P a × Everywhere P l

abbrev pub offers_of : ℕ → List ServerInfo → List Offer
offers_of i [] = []
offers_of i (s ∷ servers) = (i, s) ∷ offers_of i servers

-- All servers of all services, in the order of the loops.
abbrev pub offered : Map Bytes RpcServiceInfo → List Offer
offered [] = []
offered ((name, info) ∷ m) = offers_of info.rpc_id info.servers ++ offered m

abbrev pub pack : Offer → ℕ
pack (i, s) = rpc_sid_pack i s.server_id

abbrev pub packed : ℕ → List Offer → Bool
packed p [] = false
packed p (o ∷ os) = eqb (pack o) p || packed p os

-- No two have the same packed id.
abbrev pub distinct : List Offer → Bool
distinct [] = true
distinct (o ∷ os) = not (packed (pack o) os) && distinct os

-- Each of the tables leads from the server to the frontend of its rank.
abbrev pub Shows : Context → Offer → Type 0
Shows c (i, s) =
    (f : FrontEnd) × (servers : Map ℕ ℕ) × (fs : List FrontEnd) × (find s.global_rank
        c.client_sockets
      ≡ some f)
    × (find (rpc_sid_pack i s.server_id) c.rpc_server_id_frontend ≡ some f)
    × (find i c.rpc_server_info ≡ some servers)
    × (find s.server_id servers ≡ some s.global_rank)
    × (find i c.rpc_server_frontend ≡ some fs)
    × (listed f fs ≡ true)

abbrev pub NoneEmpty : Context → Type 0
NoneEmpty c = (i : ℕ) (fs : List FrontEnd) → find i c.rpc_server_frontend ≡ some fs → fs ≢ []

listed_more :
    (f g : FrontEnd) (fs : List FrontEnd) → listed f fs ≡ true → listed f (fs ++ g ∷ []) ≡ true
listed_more f g (h ∷ fs) l = elim (Bool-cases (eqb h f)) [
  | inl e ↦ rw (e) refl
  | inr e ↦ rw (e) (listed_more f g fs (rw (e) at l))
]
listed_more f g [] l = cc l

listed_last : (f : FrontEnd) (fs : List FrontEnd) → listed f (fs ++ f ∷ []) ≡ true
listed_last f [] = ground arith
listed_last f (h ∷ fs) = elim (Bool-cases (eqb h f)) [
  | inl e ↦ rw (e) refl
  | inr e ↦ rw (e) (listed_last f fs)
]

more_not_empty : (f : FrontEnd) (fs : List FrontEnd) → fs ++ f ∷ [] ≢ []
more_not_empty f [] e = cc e
more_not_empty f (h ∷ fs) e = cc e

module _ {V : Type 0} where
  at_key : (a : ℕ) (x : V) (m : Map ℕ V) → find a (assign a x m) ≡ some x
  at_key a x m = ground (arith, find-assign a a x m)

  off_key : (a b : ℕ) (x : V) (m : Map ℕ V) → eqb a b ≡ false → find b (assign a x m) ≡ find b m
  off_key a b x m e = rw (find-assign a b x m, e) refl

  pub at_emplaced :
      (a : ℕ) (x : V) (m : Map ℕ V) → find a m ≡ none → find a (emplace a x m) ≡ some x
  at_emplaced a x m h = ground (arith, find-emplace a a x m h)

  pub off_emplaced :
      (a b : ℕ) (x : V) (m : Map ℕ V)
      → find a m ≡ none
      → eqb a b ≡ false
      → find b (emplace a x m) ≡ find b m
  off_emplaced a b x m h e = rw (find-emplace a b x m h, e) refl

  -- A key that is there is none that is not.
  pub apart :
      (a b : ℕ) (y : V) (m : Map ℕ V) → find a m ≡ none → find b m ≡ some y → eqb a b ≡ false
  apart a b y m h k = elim (Bool-cases (eqb a b)) [
    | inl e ↦ let same : a ≡ b = ground (arith, e) in cc (same, h, k)
    | inr e ↦ e
  ]

changed :
    {A : Type 0}
    → (i j : ℕ) (g : List A → List A) (m : Map ℕ (List A)) (v : List A) → i ≡ j
    → find j m ≡ some v
    → find j (assign i (g (at_or_new i m)) m) ≡ some (g v)
changed i j g m v same e =
    let here : find i m ≡ some v = cc (same, e) in
    let old : at_or_new i m ≡ v = rw (at_or_new, here) refl in
    ap (λ k. find k (assign i (g (at_or_new i m)) m)) (sym same)
    ∙ at_key i (g (at_or_new i m)) m
    ∙ ap (λ w. some (g w)) old

abbrev pub placed : ℕ → ServerInfo → FrontEnd → Context → Context
placed i s f c = record c {
  rpc_server_info =
      assign i (assign s.server_id s.global_rank (at_or_new i c.rpc_server_info)) c.rpc_server_info;
  rpc_server_frontend =
      assign i (at_or_new i c.rpc_server_frontend ++ f ∷ []) c.rpc_server_frontend;
  rpc_server_id_frontend = emplace (rpc_sid_pack i s.server_id) f c.rpc_server_id_frontend;
}

module _ (c : Context) (i : ℕ) (s : ServerInfo) (f : FrontEnd)
    (up : find s.global_rank c.client_sockets ≡ some f)
    (new : find (rpc_sid_pack i s.server_id) c.rpc_server_id_frontend ≡ none) where
  pub place_server_lem : place_server i s c ≡ ok (placed i s f c)
  unfolding place_server
  place_server_lem = rw (place_server, up, new) refl

  pub placed-Shows : Shows (placed i s f c) (i, s)
  placed-Shows = (
    f,
    assign s.server_id s.global_rank (at_or_new i c.rpc_server_info),
    at_or_new i c.rpc_server_frontend ++ f ∷ [],
    up,
    at_emplaced (rpc_sid_pack i s.server_id) f c.rpc_server_id_frontend new,
    at_key i _ c.rpc_server_info,
    at_key s.server_id _ _,
    at_key i _ c.rpc_server_frontend,
    listed_last f _,
  )

  pub still-Shows : (j : ℕ) (t : ServerInfo) → Shows c (j, t) → Shows (placed i s f c) (j, t)
  still-Shows j t (g, servers, fs, a, b, d, e, l, m) =
      let far =
        apart (rpc_sid_pack i s.server_id) (rpc_sid_pack j t.server_id) g c.rpc_server_id_frontend
          new b in
      let by_id =
        off_emplaced (rpc_sid_pack i s.server_id) (rpc_sid_pack j t.server_id) f
          c.rpc_server_id_frontend new far
        ∙ b in
      elim (Bool-cases (eqb i j)) [
        | inl k ↦
            let same : i ≡ j = ground (arith, k) in
            let other : eqb s.server_id t.server_id ≡ false =
              elim (Bool-cases (eqb s.server_id t.server_id)) [
                | inl n ↦
                    let sid : s.server_id ≡ t.server_id = ground (arith, n) in
                    cc (same, sid, new, b)
                | inr n ↦ n
              ] in
            (
              g,
              assign s.server_id s.global_rank servers,
              fs ++ f ∷ [],
              a,
              by_id,
              changed i j (assign s.server_id s.global_rank) c.rpc_server_info servers same d,
              off_key s.server_id t.server_id s.global_rank servers other ∙ e,
              changed i j (λ v. v ++ f ∷ []) c.rpc_server_frontend fs same l,
              listed_more g f fs m,
            )
        | inr k ↦ (
          g,
          servers,
          fs,
          a,
          by_id,
          off_key i j _ c.rpc_server_info k ∙ d,
          e,
          off_key i j _ c.rpc_server_frontend k ∙ l,
          m,
        )
      ]

  pub placed-NoneEmpty : NoneEmpty c → NoneEmpty (placed i s f c)
  placed-NoneEmpty h j fs e = elim (Bool-cases (eqb i j)) [
    | inl k ↦
        let same : i ≡ j = ground (arith, k) in
        let is : fs ≡ at_or_new i c.rpc_server_frontend ++ f ∷ [] =
          cc (
            same,
            e,
            at_key i (at_or_new i c.rpc_server_frontend ++ f ∷ []) c.rpc_server_frontend,
          ) in
        λ n. more_not_empty f (at_or_new i c.rpc_server_frontend) (sym is ∙ n)
    | inr k ↦ h j fs (sym (off_key i j _ c.rpc_server_frontend k) ∙ e)
  ]
