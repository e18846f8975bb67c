-- ===== src/Rpc/Backend/Replay.antt =====
-- Requests that come before their server's first dealer wait for it, and keep their order.
use prpc.Base.{
  ℕ, true, ◌≡◌, refl, ap, ◌∙◌, sym, none, some, List, [], ◌∷◌, ◌++◌, map, append_assoc, append-nil,
  arith, nat_eq,
}
use prpc.Base.Maps.{find, assign, find-assign}
use prpc.Base.Outcome.{Outcome, ok, ◌>>=◌, Returns}
use prpc.Rpc.Backend.{dispatch}
use prpc.Rpc.FairQueue.{
  Dealer, Request, FairQueue, add_server_dealer, flush, next, next_dealer, push_request, push_to,
  dealers_at,
}

abbrev pub dispatch_all : List Request → FairQueue → Outcome FairQueue
dispatch_all [] q = ok q
dispatch_all (req ∷ reqs) q = dispatch req q >>= dispatch_all reqs

abbrev pub AllFor : ℕ → List Request → Type 0
AllFor sid [] = Unit {0}
AllFor sid (req ∷ reqs) = (req.sid ≡ some sid) × AllFor sid reqs

next-waiting :
    (sid : ℕ) (q : FairQueue) → find sid q.sid2dealers ≡ none → next (some sid) q ≡ ok (none, q)
unfolding next next_dealer
next-waiting sid q e = ground (arith, e)

push_request-waiting :
    (sid : ℕ) (req : Request) (cache : List Request) (q : FairQueue)
    → find sid q.sid2dealers ≡ none
    → find sid q.sid2cache ≡ some cache
    → push_request (some sid) req q
      ≡ ok (true, record q { sid2cache = assign sid (cache ++ req ∷ []) q.sid2cache })
unfolding push_request push_to
push_request-waiting sid req cache q e c = ground (arith, e, c)

dispatch_waiting :
    (sid : ℕ) (req : Request) (cache : List Request) (q : FairQueue)
    → req.sid ≡ some sid
    → find sid q.sid2dealers ≡ none
    → find sid q.sid2cache ≡ some cache
    → dispatch req q ≡ ok (record q { sid2cache = assign sid (cache ++ req ∷ []) q.sid2cache })
unfolding dispatch
dispatch_waiting sid req cache q s e c = rw (
  ap (λ t. next t q) s ∙ next-waiting sid q e,
  ap (λ t. push_request t req q) s ∙ push_request-waiting sid req cache q e c,
)

-- The queue while `reqs` wait for a dealer of `sid`.
pub record Waiting (sid : ℕ) (reqs : List Request) (q q' : FairQueue) : Type 0 where
  pub cached : find sid q'.sid2cache ≡ some reqs
  pub delivered : q'.delivered ≡ q.delivered
  pub no_dealer : find sid q'.sid2dealers ≡ none

dispatch_all-Waiting :
    (sid : ℕ) (reqs cache : List Request) (q : FairQueue)
    → AllFor sid reqs
    → find sid q.sid2dealers ≡ none
    → find sid q.sid2cache ≡ some cache
    → Returns (dispatch_all reqs q) (Waiting sid (cache ++ reqs) q)
dispatch_all-Waiting sid [] cache q a e c = (
  q,
  refl,
  record { cached = c ∙ ap some (sym (append-nil cache)); delivered = refl; no_dealer = e },
)
dispatch_all-Waiting sid (req ∷ reqs) cache q a e c =
    let q1 = record q { sid2cache = assign sid (cache ++ req ∷ []) q.sid2cache } in
    let c1 : find sid q1.sid2cache ≡ some (cache ++ req ∷ []) =
      ground (arith, find-assign sid sid (cache ++ req ∷ []) q.sid2cache) in
    let (q', run, w) = dispatch_all-Waiting sid reqs (cache ++ req ∷ []) q1 a.1 e c1 in
    (
      q',
      rw (dispatch_waiting sid req cache q a.0 e c) run,
      record {
        cached = w.cached ∙ ap some (append_assoc cache (req ∷ []) reqs);
        delivered = w.delivered;
        no_dealer = w.no_dealer;
      },
    )

-- Requests for a server with no dealer do not fault and are cached; its first dealer is then given
-- what was cached before and each of them, once and in order, and the cache is empty.
pub replay_in_order :
    (sid : ℕ) (d : Dealer) (reqs cache : List Request) (q : FairQueue)
    → AllFor sid reqs
    → find sid q.sid2dealers ≡ none
    → find sid q.sid2cache ≡ some cache
    → Returns (dispatch_all reqs q) λ q1.
      let q' = add_server_dealer sid d q1 in
      (q'.delivered ≡ q.delivered ++ map (λ req. (d, req)) (cache ++ reqs))
      × (find sid q'.sid2cache ≡ some [])
      × (dealers_at sid q' ≡ d ∷ [])
unfolding add_server_dealer flush
replay_in_order sid d reqs cache q a e c =
    let (q1, run, w) = dispatch_all-Waiting sid reqs cache q a e c in
    (
      q1,
      run,
      (
        ground (arith, w.cached, w.delivered),
        ground (arith, w.cached, find-assign sid sid [] q1.sid2cache),
        ground (arith, w.cached, w.no_dealer, find-assign sid sid (d ∷ []) q1.sid2dealers),
      ),
    )
