-- ===== src/Rpc/Backend/Routing.antt =====
-- Where `RpcContext::push_request` puts a request.
use prpc.Base.{
  ℕ, ◌≡◌, ◌<◌, refl, ap, ◌∙◌, ◌⊎◌, inl, inr, Bool, true, false, Option, none, some, List, [], ◌∷◌,
  ◌++◌, arith, nat_eq, if◌then◌else◌, Option-cases,
}
use prpc.Base.Maps.{Map, find, assign}
use prpc.Base.Outcome.{Outcome, ok, ◌>>=◌, Returns}
use prpc.Rpc.Backend.{dispatch}
use prpc.Rpc.FairQueue.Balance.{IsBalanced}
use prpc.Rpc.FairQueue.Dealers.{count}
use prpc.Rpc.FairQueue.Delivery.{SameServers, Picks, next-Picks, Names, dealers_at-same}
use prpc.Rpc.FairQueue.{
  Dealer, Request, FairQueue, dealers_at, next, push_request, push_to, deliver, is_empty, next_sid,
}

-- What becomes of a request. `delivered`: one dealer of a server that is meant gets it. `cached`: no
-- server that is meant has a dealer, and one of them keeps it. `dropped`: none has a dealer or a cache.
pub data Routed (req : Request) (q q' : FairQueue) : Type 0 where
  delivered :
      (d : Dealer) (sid : ℕ)
      → Names req.sid sid
      → 0 < count d (dealers_at sid q)
      → q'.delivered ≡ q.delivered ++ (d, req) ∷ []
      → q'.sid2cache ≡ q.sid2cache
      → Routed req q q'
  cached :
      (sid : ℕ) (cache : List Request)
      → Names req.sid sid
      → ((j : ℕ) → Names req.sid j → dealers_at j q ≡ [])
      → find sid q.sid2cache ≡ some cache
      → q'.delivered ≡ q.delivered
      → q'.sid2cache ≡ assign sid (cache ++ req ∷ []) q.sid2cache
      → Routed req q q'
  dropped :
      ((j : ℕ) → Names req.sid j → (dealers_at j q ≡ []) × (find j q.sid2cache ≡ none))
      → q'.delivered ≡ q.delivered
      → q'.sid2cache ≡ q.sid2cache
      → Routed req q q'

no_entry :
    (sid : ℕ) (q : FairQueue) → IsBalanced q → dealers_at sid q ≡ [] → find sid q.sid2dealers ≡ none
no_entry sid q b h = elim (Option-cases (find sid q.sid2dealers)) [
  | inl e ↦ e
  | inr (ds, e) ↦ absurd (b.nonempty sid (e ∙ ap some (ground (arith, h, e))))
]

record Pushed (target : Option ℕ) (req : Request) (q : FairQueue) (out : Bool × FairQueue)
    : Type 0 where
  balanced : IsBalanced out.1
  fate :
      ((sid : ℕ) × (cache : List Request) × Names target sid
        × (find sid q.sid2cache ≡ some cache)
        × (out.1.delivered ≡ q.delivered)
        × (out.1.sid2cache ≡ assign sid (cache ++ req ∷ []) q.sid2cache))
      ⊎ (((j : ℕ) → Names target j → find j q.sid2cache ≡ none)
          × (out.1.delivered ≡ q.delivered)
          × (out.1.sid2cache ≡ q.sid2cache))

push_to-Pushed :
    (sid : ℕ) (req : Request) (q : FairQueue)
    → IsBalanced q
    → find sid q.sid2dealers ≡ none
    → Returns (push_to sid req q) (Pushed (some sid) req q)
unfolding push_to
push_to-Pushed sid req q b e = elim (Option-cases (find sid q.sid2cache)) [
  | inl c ↦ (
    (false, q),
    rw (e, push_to) (rw (c, push_to) refl),
    record { balanced = b; fate = inr (λ j h. rw (← h) c, refl, refl) },
  )
  | inr (cache, c) ↦ (
    (true, record q { sid2cache = assign sid (cache ++ req ∷ []) q.sid2cache }),
    rw (e, push_to) (rw (c, push_to) refl),
    record {
      balanced = record { counts = b.counts; nonempty = b.nonempty };
      fate = inl (sid, cache, refl, c, refl, refl);
    },
  )
]

find-first : (k : ℕ) (v : List Request) (m : Map ℕ (List Request)) → find k ((k, v) ∷ m) ≡ some v
unfolding find
find-first k v m = ground arith

unlisted : (q : FairQueue) → IsBalanced q → ((j : ℕ) → dealers_at j q ≡ []) → is_empty q.sids ≡ true
unfolding count
unlisted q b idle = none_of q.sids refl
  where
    none_of : (xs : List ℕ) → q.sids ≡ xs → is_empty xs ≡ true
    none_of [] e = refl
    none_of (x ∷ xs) e = absurd (ground (arith, b.counts x, e, idle x))

find-nil : (j : ℕ) → find {V = List Request} j [] ≡ none
unfolding find
find-nil j = refl

-- What `push_request` does where no server that is meant has a dealer.
push_request-Pushed :
    (target : Option ℕ) (req : Request) (q : FairQueue)
    → IsBalanced q
    → ((j : ℕ) → Names target j → dealers_at j q ≡ [])
    → Returns (push_request target req q) (Pushed target req q)
unfolding push_request
push_request-Pushed (some sid) req q b idle =
    push_to-Pushed sid req q b (no_entry sid q b (idle sid refl))
push_request-Pushed none req q b idle = kept q.sid2cache refl
  where
    widen :
        (out : Bool × FairQueue) (k : ℕ) (v : List Request) (m : Map ℕ (List Request))
        → q.sid2cache ≡ (k, v) ∷ m
        → ((sid : ℕ) × (cache : List Request) × Names (some k) sid
            × (find sid q.sid2cache ≡ some cache)
            × (out.1.delivered ≡ q.delivered)
            × (out.1.sid2cache ≡ assign sid (cache ++ req ∷ []) q.sid2cache))
          ⊎ (((j : ℕ) → Names (some k) j → find j q.sid2cache ≡ none)
              × (out.1.delivered ≡ q.delivered)
              × (out.1.sid2cache ≡ q.sid2cache))
        → (sid : ℕ) × (cache : List Request) × Names none sid
          × (find sid q.sid2cache ≡ some cache)
          × (out.1.delivered ≡ q.delivered)
          × (out.1.sid2cache ≡ assign sid (cache ++ req ∷ []) q.sid2cache)
    widen out k v m e (inl (sid, cache, h, found, d, c)) = (sid, cache, tt, found, d, c)
    widen out k v m e (inr (h, d, c)) = absurd (cc (h k refl, find-first k v m, ap (find k) e))

    by_cache : Map ℕ (List Request) → Outcome (Bool × FairQueue)
    by_cache m = elim m [
      | [] ↦ ok (false, q)
      | x ∷ xs ↦
          if is_empty q.sids then push_to x.0 req q else (next_sid q >>= λ r. push_to r.0 req r.1)
    ]

    kept :
        (m : Map ℕ (List Request))
        → q.sid2cache ≡ m
        → Returns (push_request none req q) (Pushed none req q)
    kept [] e = (
      (false, q),
      ap by_cache e,
      record { balanced = b; fate = inr (λ j h. ap (find j) e ∙ find-nil j, refl, refl) },
    )
    kept ((k, v) ∷ m) e =
        let (out, run, p) = push_to-Pushed k req q b (no_entry k q b (idle k tt)) in
        (
          out,
          ap by_cache e ∙ rw (unlisted q b (λ j. idle j tt)) run,
          record { balanced = p.balanced; fate = inl (widen out k v m e p.fate) },
        )

module _ (req : Request) (q q1 : FairQueue) (s : SameServers q q1) where
  Pushed-Routed :
      (out : Bool × FairQueue)
      → ((j : ℕ) → Names req.sid j → dealers_at j q ≡ [])
      → Pushed req.sid req q1 out
      → Routed req q out.1
  Pushed-Routed out idle p = elim p.fate [
    | inl (sid, cache, h, e, d, c) ↦
        cached sid cache h idle (rw (← s.sid2cache) e) (d ∙ s.delivered) (rw (← s.sid2cache) c)
    | inr (h, d, c) ↦
        dropped (λ j n. (idle j n, rw (← s.sid2cache) (h j n))) (d ∙ s.delivered) (c ∙ s.sid2cache)
  ]

  routed :
      (pick : Option Dealer)
      → next req.sid q ≡ ok (pick, q1)
      → Picks req.sid q (pick, q1)
      → Returns (dispatch req q) λ q'. IsBalanced q' × Routed req q q'
  unfolding dispatch
  routed (some d) run p =
      let (sid, h, c) = p.chosen d refl in
      (
        deliver d req q1,
        rw run refl,
        (
          record { counts = p.balanced.counts; nonempty = p.balanced.nonempty },
          delivered d sid h c (rw s.delivered refl) s.sid2cache,
        ),
      )
  routed none run p =
      let idle : (j : ℕ) → Names req.sid j → dealers_at j q1 ≡ [] =
        λ j h. dealers_at-same j q q1 s ∙ p.nobody refl j h in
      let (out, pushed, t) = push_request-Pushed req.sid req q1 p.balanced idle in
      (out.1, rw (run, pushed) refl, (t.balanced, Pushed-Routed out (p.nobody refl) t))

-- A request to a balanced queue faults nowhere and keeps the balance. A dealer of a server that is
-- meant gets it where there is one; else a server that is meant keeps it at the end of its cache where
-- there is one with a cache; else it is dropped. Nothing else is delivered or cached.
pub dispatch-Routed :
    (req : Request) (q : FairQueue)
    → IsBalanced q
    → Returns (dispatch req q) λ q'. IsBalanced q' × Routed req q q'
dispatch-Routed req q b =
    let (out, run, p) = next-Picks req.sid q b in routed req q out.1 p.same out.0 run p
