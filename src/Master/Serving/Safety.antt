-- ===== src/Master/Serving/Safety.antt =====
-- The serving loop never faults, and outlives no client's nodes.
use prpc.Base.{
  ℕ, ◌+◌, ◌*◌, ◌<◌, ◌≤◌, ◌≡◌, refl, ap, ◌∙◌, Bool, true, false, ◌||◌, some, List, [], ◌∷◌, ◌++◌,
  arith, Bytes, bytes_eq, nat_eq, if◌then◌else◌, inl, inr, Option-cases, Bool-cases, length,
}
use prpc.Base.Maps.{Map, find, erase, emplace}
use prpc.Base.Sets.{contains}
use prpc.Base.Outcome.{ok, Returns}
use prpc.Master.Disconnect.{belongs}
use prpc.Master.Leaves.{view}
use prpc.Master.Serving.{
  Event, accepts, reads, on_accept, on_close, on_event, on_events, Run, stopped, running, is_empty,
  serving, serving_rounds,
}
use prpc.Master.{Socket, Master, Request, counter, int_limit, initial}
use prpc.Master.Serving.Valid.{
  connected, all_formed, any_asks, IsValid, IsValid-mono, connected-find, on_accept-IsValid,
  on_messages-Served, on_close-IsValid,
}
use prpc.Master.Serving.Rounds.{
  Polled, PolledRounds, table, count_requests, count_rounds, all_formed_events, all_formed_rounds,
  event_asks, round_asks,
}

record After (n : ℕ) (t : Map ℕ Socket) (room : ℕ) (exits : Bool) (m : Master) : Type 0 where
  valid : IsValid n m
  same : m.fd_socket_map ≡ t
  roomy : m.path_room ≡ room
  asked : m.exit ≡ exits

closing :
    (n fd : ℕ) (s : Socket) (alive : Bool) (m : Master)
    → IsValid n m
    → find fd m.fd_socket_map ≡ some s
    → Returns
        (if alive then ok m else on_close fd m)
        (After n (if alive then m.fd_socket_map else erase fd m.fd_socket_map) m.path_room m.exit)
closing n fd s true m v e = (m, refl, record { valid = v; same = refl; roomy = refl; asked = refl })
closing n fd s false m v e =
    let (k, run, (w, same, asked, roomy)) = on_close-IsValid n fd s m v e in
    (k, run, record { valid = w; same = same; roomy = roomy; asked = asked })

on_event-reads :
    (n fd : ℕ) (s : Socket) (reqs : List Request) (alive : Bool) (m : Master)
    → IsValid n m
    → all_formed reqs ≡ true
    → n + length reqs < int_limit
    → 2 * (n + length reqs) ≤ m.path_room
    → find fd m.fd_socket_map ≡ some s
    → Returns (on_event (reads fd reqs alive) m) (
        After
          (n + length reqs)
          (if alive then m.fd_socket_map else erase fd m.fd_socket_map)
          m.path_room
          (m.exit || any_asks reqs))
unfolding on_event
on_event-reads n fd s reqs alive m v good room roomy e =
    let (k, run, w) =
      on_messages-Served n s reqs m v good room roomy (connected-find fd s m.fd_socket_map e) in
    let (m', run', a) = closing (n + length reqs) fd s alive k w.valid (rw w.same e) in
    (
      m',
      rw (e, on_event) (rw run run'),
      record {
        valid = a.valid;
        same = a.same ∙ ap (λ (t : Map ℕ Socket). if alive then t else erase fd t) w.same;
        roomy = a.roomy ∙ w.room;
        asked = a.asked ∙ w.exits;
      },
    )

on_events-After :
    (n : ℕ) (es : List Event) (m : Master)
    → IsValid n m
    → all_formed_events es ≡ true
    → n + count_requests es < int_limit
    → 2 * (n + count_requests es) ≤ m.path_room
    → Polled es m.fd_socket_map
    → Returns (on_events es m) (
        After
          (n + count_requests es)
          (table es m.fd_socket_map)
          m.path_room
          (m.exit || event_asks es))
unfolding on_events on_event emplace on_accept
on_events-After n [] m v good room roomy p = (
  m,
  refl,
  record { valid = IsValid-mono (omega arith) v; same = refl; roomy = refl; asked = ground arith },
)
on_events-After n (accepts fd s ∷ es) m v good room roomy p =
    on_events-After n es (on_accept fd s m) (on_accept-IsValid n fd s m v) good room roomy p
on_events-After n (reads fd reqs alive ∷ es) m v good room roomy p =
    elim (Option-cases (find fd m.fd_socket_map)) [
      | inl e ↦ absurd (ground (arith, e, p.0))
      | inr (s, e) ↦
          let (k, run, a) =
            on_event-reads n fd s reqs alive m v (ground (arith, good)) (omega arith)
              (omega (arith, roomy)) e in
          let (m', run', b) =
            on_events-After (n + length reqs) es k a.valid (ground (arith, good)) (omega arith)
              (rw a.roomy (omega (arith, roomy))) (rw a.same p.1) in
          (
            m',
            rw run run',
            record {
              valid = IsValid-mono (omega arith) b.valid;
              same = b.same ∙ ap (table es) a.same;
              roomy = b.roomy ∙ a.roomy;
              asked = ground (arith, a.asked, b.asked);
            },
          )
    ]

-- How a run may end: still serving in a valid state; or stopped after some of the rounds, in which a
-- client asked for it where `exits` was not set before, with every client gone and no node left that
-- hangs on a client.
abbrev pub Ends : ℕ → Bool → List (List Event) → Run → Type 0
Ends n exits rounds (running m) = IsValid n m
Ends n exits rounds (stopped m) =
    IsValid n m
    × ((before : List (List Event)) × (after : List (List Event)) × (rounds ≡ before ++ after)
        × ((exits || round_asks before) ≡ true))
    × (m.fd_socket_map ≡ [])
    × ((r : Socket) (j : Bytes) → belongs r (view m j) ≡ false)

no_owner :
    (n : ℕ) (m : Master)
    → IsValid n m
    → is_empty m.fd_socket_map ≡ true
    → (r : Socket) (j : Bytes) → belongs r (view m j) ≡ false
no_owner n m v z r j = elim (Bool-cases (belongs r (view m j))) [
  | inr none_left ↦ none_left
  | inl mine ↦ absurd (alone m.fd_socket_map z (v.owners r j mine))
]
  where
    alone : (t : Map ℕ Socket) → is_empty t ≡ true → connected r t ≡ true → ⊥
    alone [] e c = cc
    alone (x ∷ t) e c = cc

nothing_left : {A : Type 0} → (l : List A) → is_empty l ≡ true → l ≡ []
nothing_left [] e = refl
nothing_left (x ∷ l) e = absurd (cc e)

-- A round in front of a run.
Ends-cons :
    (n k : ℕ) (exits asks : Bool) (es : List Event) (rounds : List (List Event)) (r : Run)
    → n ≤ k
    → asks ≡ (exits || event_asks es)
    → Ends n asks rounds r
    → Ends k exits (es ∷ rounds) r
Ends-cons n k exits asks es rounds (running m) h same e = IsValid-mono h e
Ends-cons n k exits asks es rounds (stopped m) h same
      (v, (before, after, split, asked), gone, free) =
    (
      IsValid-mono h v,
      (es ∷ before, after, ap (λ l. es ∷ l) split, ground (arith, same, asked)),
      gone,
      free,
    )

serving_rounds-Ends :
    (n : ℕ) (rounds : List (List Event)) (m : Master)
    → IsValid n m
    → all_formed_rounds rounds ≡ true
    → n + count_rounds rounds < int_limit
    → 2 * (n + count_rounds rounds) ≤ m.path_room
    → PolledRounds rounds m.fd_socket_map
    → Returns (serving_rounds rounds m) (Ends (n + count_rounds rounds) m.exit rounds)
unfolding serving_rounds
serving_rounds-Ends n [] m v good room roomy p = (running m, refl, IsValid-mono (omega arith) v)
serving_rounds-Ends n (es ∷ rounds) m v good room roomy p =
    let (k, run, a) =
      on_events-After n es m v (ground (arith, good)) (omega arith) (omega (arith, roomy)) p.0 in
    let (r, run', e) =
      serving_rounds-Ends (n + count_requests es) rounds k a.valid (ground (arith, good))
        (omega arith) (rw a.roomy (omega (arith, roomy))) (rw a.same p.1) in
    let later =
      Ends-cons (n + count_requests es + count_rounds rounds)
        (n + (count_requests es + count_rounds rounds)) m.exit k.exit es rounds r (omega arith)
        a.asked e in
    elim (Bool-cases k.exit) [
      | inr open_still ↦ (r, rw run (rw open_still run'), later)
      | inl asked ↦ elim (Bool-cases (is_empty k.fd_socket_map)) [
        | inr busy ↦ (r, rw run (rw (asked, busy) run'), later)
        | inl gone ↦ (
          stopped k,
          rw run (rw (asked, gone) refl),
          (
            IsValid-mono (omega arith) a.valid,
            (es ∷ [], rounds, refl, ground (arith, a.asked, asked)),
            nothing_left k.fd_socket_map gone,
            no_owner _ k a.valid gone,
          ),
        )
      ]
    ]

-- From a valid state, where `poll` reports only connections that are open, the requests that come can
-- be read and are, with the `n` before, fewer than 2 ^ 31, and twice as many nodes do not make `_path`
-- rehash, the loop does not fault, whatever the clients ask and whenever they go away. It is still
-- serving in a valid state; or it has stopped in one, some rounds after the start, in which a client
-- asked for it, with no connection left, and no node that hangs on one.
pub serving-Ends :
    (n : ℕ) (rounds : List (List Event)) (m : Master)
    → IsValid n m
    → all_formed_rounds rounds ≡ true
    → n + count_rounds rounds < int_limit
    → 2 * (n + count_rounds rounds) ≤ m.path_room
    → PolledRounds rounds m.fd_socket_map
    → Returns (serving rounds m) (Ends (n + count_rounds rounds) false rounds)
unfolding serving
serving-Ends n rounds m v good room roomy p =
    serving_rounds-Ends n rounds (record m { exit = false })
      (record {
        tree = v.tree;
        store = v.store;
        sockets = v.sockets;
        counters = v.counters;
        size = v.size;
        owners = v.owners;
      })
      good room roomy p

pub initial-IsValid : (room : ℕ) → IsValid 0 (initial room)
unfolding find contains counter
initial-IsValid room = record {
  tree = record { root = refl; valid = λ p h g. cc; parent = λ p h g. cc; child = λ q k h. cc };
  store = record { keys = tt; subs = tt };
  sockets = tt;
  counters = λ p. omega arith;
  size = omega arith;
  owners = λ r j h. cc;
}
