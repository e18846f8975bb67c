-- ===== src/Rpc/FairQueue/Balance.antt =====
-- The invariant that ties `_sids` to `_sid2dealers`, and what it gives: a choice never faults.
use prpc.Base.{
  ℕ, ◌+◌, ◌≡◌, ◌<◌, refl, inl, inr, ◌≢◌, Option, none, some, List, [], ◌∷◌, ◌++◌, arith, eqb_iff,
  if◌then◌else◌, length, length-append, nat_eq, ◌==◌, Option-cases,
}
use prpc.Base.Maps.{Map, find, assign, erase, find-assign, find-erase}
use prpc.Base.Outcome.{Returns}
use prpc.Rpc.FairQueue.Dealers.{
  to_nat, count, count-append, Dropped, drop_dealer-Dropped, count-drop_sid,
}
use prpc.Rpc.FairQueue.{
  Dealer, FairQueue, is_empty, dealers_at, flush, add_server_dealer, drop_dealer, drop_sid,
  remove_server_dealer,
}

-- Each server stands in `_sids` once for each of its dealers, and none has an empty vector.
pub record IsBalanced (q : FairQueue) : Type 0 where
  pub counts : (sid : ℕ) → count sid q.sids ≡ length (dealers_at sid q)
  pub nonempty : (sid : ℕ) → find sid q.sid2dealers ≢ some []

flush-IsBalanced : (sid d : ℕ) (q : FairQueue) → IsBalanced q → IsBalanced (flush sid d q)
unfolding flush
flush-IsBalanced sid d q b = elim (Option-cases (find sid q.sid2cache)) [
  | inl e ↦ rw (e, flush) b
  | inr (cache, e) ↦ rw (e, flush) (record { counts = b.counts; nonempty = b.nonempty })
]

-- Registering a dealer of a server in a balanced queue leaves a balanced queue.
pub add_server_dealer-IsBalanced :
    (sid d : ℕ) (q : FairQueue) → IsBalanced q → IsBalanced (add_server_dealer sid d q)
unfolding add_server_dealer count
add_server_dealer-IsBalanced sid d q b = flush-IsBalanced sid d _ (record {
  counts = λ j. ground (
    arith,
    b.counts j,
    b.counts sid,
    count-append j q.sids (sid ∷ []),
    length-append (dealers_at sid q) (d ∷ []),
    find-assign sid j (dealers_at sid q ++ d ∷ []) q.sid2dealers,
    eqb_iff sid j,
  );
  nonempty = λ j e. absurd (
      ground (
        arith,
        e,
        b.nonempty j,
        find-assign sid j (dealers_at sid q ++ d ∷ []) q.sid2dealers,
        length-append (dealers_at sid q) (d ∷ []),
      ));
})

abbrev or_nil : Option (List Dealer) → List Dealer
or_nil none = []
or_nil (some ds) = ds

shrunk : ℕ → List Dealer → Map ℕ (List Dealer) → Map ℕ (List Dealer)
shrunk sid ds m = if is_empty ds then erase sid m else assign sid ds m

shrunk-find :
    (sid j : ℕ) (ds : List Dealer) (m : Map ℕ (List Dealer))
    → (or_nil (find j (shrunk sid ds m)) ≡ (if sid == j then ds else or_nil (find j m)))
      × (find j (shrunk sid ds m) ≡ some [] → find j m ≡ some [])
unfolding shrunk
shrunk-find sid j [] m =
    (ground (arith, find-erase sid j m), λ h. ground (arith, h, find-erase sid j m))
shrunk-find sid j (d ∷ ds) m = (
  ground (arith, find-assign sid j (d ∷ ds) m),
  λ h. ground (arith, h, find-assign sid j (d ∷ ds) m),
)

dealers_at-or_nil : (sid : ℕ) (q : FairQueue) → dealers_at sid q ≡ or_nil (find sid q.sid2dealers)
dealers_at-or_nil sid q = ground arith

-- The queue without the dealer `d` of the server `sid`: balanced, and else as it was.
pub record Unregistered (sid d : ℕ) (q q' : FairQueue) : Type 0 where
  pub balanced : IsBalanced q'
  pub fewer : length (dealers_at sid q') + 1 ≡ length (dealers_at sid q)
  pub dealers :
      (x : ℕ) → count x (dealers_at sid q') ≡ (if x == d then 0 else count x (dealers_at sid q))
  pub others : (j : ℕ) → j ≢ sid → dealers_at j q' ≡ dealers_at j q
  pub cache : q'.sid2cache ≡ q.sid2cache
  pub delivered : q'.delivered ≡ q.delivered

module _ (sid d : ℕ) (q : FairQueue) (b : IsBalanced q) (ds : List Dealer)
    (e : find sid q.sid2dealers ≡ some ds) (once : count d ds ≡ 1) where
  left_dealers : List Dealer
  left_dealers = drop_dealer (length ds) d ds

  left_queue : FairQueue
  unfolding shrunk left_dealers
  left_queue = record q {
    sid2dealers = shrunk sid left_dealers q.sid2dealers;
    sids = drop_sid sid q.sids;
  }

  left-Dropped : Dropped d ds left_dealers
  unfolding left_dealers
  left-Dropped = drop_dealer-Dropped (length ds) d ds (omega arith) (omega arith)

  left_at : (j : ℕ) → dealers_at j left_queue ≡ (if sid == j then left_dealers else dealers_at j q)
  unfolding left_queue
  left_at j = ground (arith, (shrunk-find sid j left_dealers q.sid2dealers).0)

  listed : 0 < count sid q.sids
  listed = ground (arith, b.counts sid, b.nonempty sid, e)

  left_Unregistered : Unregistered sid d q left_queue
  left_Unregistered = record {
    balanced = record {
      counts = λ j. ground (
        arith,
        left_at j,
        left-Dropped.size,
        once,
        e,
        b.counts j,
        b.counts sid,
        eqb_iff sid j,
        left_sids j,
      );
      nonempty = left_nonempty;
    };
    fewer = ground (arith, left_at sid, left-Dropped.size, once, e);
    dealers = λ x. ground (arith, left_at sid, left-Dropped.counts x, e);
    others = λ j h. ground (arith, left_at j, h);
    cache = unfold left_queue in refl;
    delivered = unfold left_queue in refl;
  }
    where
      left_sids : (j : ℕ) → count j left_queue.sids + to_nat (sid == j) ≡ count j q.sids
      left_sids j = unfold left_queue in count-drop_sid sid j q.sids listed

      left_nonempty : (j : ℕ) → find j left_queue.sid2dealers ≢ some []
      left_nonempty j h =
          b.nonempty j ((shrunk-find sid j left_dealers q.sid2dealers).1 (unfold left_queue in h))

-- From a balanced queue, taking away a dealer that is registered once for the server does not fault,
-- takes away nothing else, and keeps the balance, the caches and what is delivered.
pub remove_server_dealer-Unregistered :
    (sid d : ℕ) (q : FairQueue)
    → IsBalanced q
    → count d (dealers_at sid q) ≡ 1
    → Returns (remove_server_dealer sid d q) (Unregistered sid d q)
unfolding remove_server_dealer left_queue shrunk left_dealers count
remove_server_dealer-Unregistered sid d q b h = elim (Option-cases (find sid q.sid2dealers)) [
  | inl e ↦ absurd (ground (arith, h, e))
  | inr (ds, e) ↦
      let once : count d ds ≡ 1 = ground (arith, h, e) in
      (
        left_queue sid d q b ds e once,
        rw (e, remove_server_dealer),
        left_Unregistered sid d q b ds e once,
      )
]
