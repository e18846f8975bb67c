-- ===== src/Rpc/FairQueue/Delivery.antt =====
-- Where a request goes: the choice of a dealer, and the cache of a server with none.
use prpc.Base.{
  ℕ, zero, suc, ◌+◌, ◌%◌, ◌^◌, ◌≡◌, ◌<◌, refl, ◌∙◌, inl, inr, true, false, Option, none, some, List,
  [], ◌∷◌, arith, leb, if◌then◌else◌, length, get_elem?, nat_eq, Bool-cases, Option-cases,
}
use prpc.Base.Maps.{find}
use prpc.Base.Outcome.{ok, Returns}
use prpc.Rpc.FairQueue.Balance.{IsBalanced}
use prpc.Rpc.FairQueue.Dealers.{count}
use prpc.Rpc.FairQueue.{
  Dealer, FairQueue, is_empty, dealers_at, to_size_t, next_sid, next_dealer, next,
}

get_elem?-count :
    (xs : List ℕ) (i : ℕ) → i < length xs → (x : ℕ) × (get_elem? xs i ≡ some x) × (0 < count x xs)
unfolding count
get_elem?-count [] i h = absurd (omega arith)
get_elem?-count (x ∷ xs) zero h = (x, refl, ground arith)
get_elem?-count (x ∷ xs) (suc i) h =
    let (y, e, c) = get_elem?-count xs i (omega arith) in (y, e, omega arith)

-- `q'` has the servers, dealers and caches of `q`.
pub record SameServers (q q' : FairQueue) : Type 0 where
  pub sid2dealers : q'.sid2dealers ≡ q.sid2dealers
  pub sids : q'.sids ≡ q.sids
  pub sid2cache : q'.sid2cache ≡ q.sid2cache
  pub delivered : q'.delivered ≡ q.delivered

-- The choice among the dealers of `sid`: one of them, or none if there is none.
pub record Chooses (sid : ℕ) (q : FairQueue) (out : Option Dealer × FairQueue) : Type 0 where
  pub same : SameServers q out.1
  pub chosen : (d : Dealer) → out.0 ≡ some d → 0 < count d (dealers_at sid q)
  pub nobody : out.0 ≡ none → dealers_at sid q ≡ []

pub next_dealer-Chooses :
    (sid : ℕ) (q : FairQueue) → IsBalanced q → Returns (next_dealer sid q) (Chooses sid q)
unfolding next_dealer
next_dealer-Chooses sid q b = elim (Option-cases (find sid q.sid2dealers)) [
  | inl e ↦ (
    (none, q),
    rw (e, next_dealer) refl,
    record {
      same = record { sid2dealers = refl; sids = refl; sid2cache = refl; delivered = refl };
      chosen = λ d h. cc;
      nobody = λ h. rw (e, dealers_at) refl;
    },
  )
  | inr (ds, e) ↦
      let raised = (q.dealer_id_rr_index + 1) % 2 ^ 64 in
      let index = if leb (length ds) raised then 0 else raised in
      let inside : index < length ds = ground (arith, filled ds e) in
      let (d, at_index, c) = get_elem?-count ds index inside in
      (
        (some d, record q { dealer_id_rr_index = index }),
        rw (e, next_dealer) (rw at_index refl),
        record {
          same = record { sid2dealers = refl; sids = refl; sid2cache = refl; delivered = refl };
          chosen = λ d' h. ground (arith, h, c, e);
          nobody = λ h. cc;
        },
      )
]
  where
    filled : (ds : List Dealer) → find sid q.sid2dealers ≡ some ds → 0 < length ds
    filled [] e = absurd (b.nonempty sid e)
    filled (d ∷ ds) e = omega arith

next_sid_at :
    (q : FairQueue) (n sid : ℕ)
    → length q.sids ≡ suc n
    → get_elem? q.sids (to_size_t q.sids_rr_index % suc n) ≡ some sid
    → next_sid q ≡ ok (sid, record q { sids_rr_index = (q.sids_rr_index + 1) % 2 ^ 32 })
unfolding next_sid
next_sid_at q n sid full e = rw (full, next_sid) (rw e refl)

length-pred : (xs : List ℕ) → is_empty xs ≡ false → (n : ℕ) × (length xs ≡ suc n)
length-pred [] h = cc
length-pred (x ∷ xs) h = (length xs, refl)

next_sid_lem :
    (q : FairQueue)
    → is_empty q.sids ≡ false
    → Returns (next_sid q) λ r. (0 < count r.0 q.sids) × SameServers q r.1
next_sid_lem q h =
    let (n, full) = length-pred q.sids h in
    let (sid, e, c) = get_elem?-count q.sids (to_size_t q.sids_rr_index % suc n) (omega arith) in
    (
      (sid, record q { sids_rr_index = (q.sids_rr_index + 1) % 2 ^ 32 }),
      next_sid_at q n sid full e,
      (c, record { sid2dealers = refl; sids = refl; sid2cache = refl; delivered = refl }),
    )

pub dealers_at-same :
    (sid : ℕ) (q q' : FairQueue) → SameServers q q' → dealers_at sid q' ≡ dealers_at sid q
dealers_at-same sid q q' s = rw (s.sid2dealers, dealers_at) refl

pub same-IsBalanced : (q q' : FairQueue) → SameServers q q' → IsBalanced q → IsBalanced q'
same-IsBalanced q q' s b = record {
  counts = λ sid. rw (s.sids, dealers_at-same sid q q' s) (b.counts sid);
  nonempty = λ sid. rw s.sid2dealers (b.nonempty sid);
}

-- Which servers a request may go to: the one that it names, or any.
abbrev pub Names : Option ℕ → ℕ → Type 0
Names none sid = Unit {0}
Names (some s) sid = s ≡ sid

-- A choice for `target`, and the queue after it.
pub record Picks (target : Option ℕ) (q : FairQueue) (out : Option Dealer × FairQueue)
    : Type 0 where
  pub same : SameServers q out.1
  pub balanced : IsBalanced out.1
  pub chosen :
      (d : Dealer)
      → out.0 ≡ some d
      → (sid : ℕ) × Names target sid × (0 < count d (dealers_at sid q))
  pub nobody : out.0 ≡ none → (sid : ℕ) → Names target sid → dealers_at sid q ≡ []

pub no_dealers :
    (q : FairQueue) → IsBalanced q → is_empty q.sids ≡ true → (sid : ℕ) → dealers_at sid q ≡ []
unfolding count
no_dealers q b e sid = nil_of (dealers_at sid q) (ground (arith, b.counts sid, nothing q.sids e))
  where
    nil_of : (xs : List ℕ) → length xs ≡ 0 → xs ≡ []
    nil_of [] h = refl
    nil_of (x ∷ xs) h = absurd (omega arith)

    nothing : (xs : List ℕ) → is_empty xs ≡ true → count sid xs ≡ 0
    nothing [] h = refl
    nothing (x ∷ xs) h = cc

SameServers-trans : {p q r : FairQueue} → SameServers p q → SameServers q r → SameServers p r
SameServers-trans s t = record {
  sid2dealers = t.sid2dealers ∙ s.sid2dealers;
  sids = t.sids ∙ s.sids;
  sid2cache = t.sid2cache ∙ s.sid2cache;
  delivered = t.delivered ∙ s.delivered;
}

-- On a balanced queue `next` does not fault, whatever the indices are: it returns a dealer of a server
-- that is meant, or none where none has a dealer, and changes the indices alone.
pub next-Picks :
    (target : Option ℕ) (q : FairQueue) → IsBalanced q → Returns (next target q) (Picks target q)
unfolding next count
next-Picks (some sid) q b =
    let (out, run, c) = next_dealer-Chooses sid q b in
    (
      out,
      run,
      record {
        same = c.same;
        balanced = same-IsBalanced q out.1 c.same b;
        chosen = λ d h. (sid, refl, c.chosen d h);
        nobody = λ h j e. rw (← e) (c.nobody h);
      },
    )
next-Picks none q b = elim (Bool-cases (is_empty q.sids)) [
  | inl nobody ↦ (
    (none, q),
    rw nobody refl,
    record {
      same = record { sid2dealers = refl; sids = refl; sid2cache = refl; delivered = refl };
      balanced = b;
      chosen = λ d h. cc;
      nobody = λ h j e. no_dealers q b nobody j;
    },
  )
  | inr some_sid ↦
      let ((sid, q'), run, (listed, s)) = next_sid_lem q some_sid in
      let b' = same-IsBalanced q q' s b in
      let (out, run', c) = next_dealer-Chooses sid q' b' in
      (
        out,
        rw (some_sid, run) run',
        record {
          same = SameServers-trans s c.same;
          balanced = same-IsBalanced q' out.1 c.same b';
          chosen = λ d h. (sid, tt, rw (← dealers_at-same sid q q' s) (c.chosen d h));
          nobody = λ h j e.
              absurd (ground (arith, c.nobody h, dealers_at-same sid q q' s, b.counts sid, listed));
        },
      )
]
