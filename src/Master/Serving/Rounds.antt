-- ===== src/Master/Serving/Rounds.antt =====
-- What is said of the events that the serving loop is given.
use prpc.Base.{
  ℕ, ◌+◌, ◌≡◌, Bool, true, false, ◌&&◌, ◌||◌, List, [], ◌∷◌, bytes_eq, nat_eq, if◌then◌else◌,
  length,
}
use prpc.Base.Maps.{Map, find, erase, emplace}
use prpc.Master.Serving.{Event, accepts, reads}
use prpc.Master.Tree.{is_there}
use prpc.Master.{Socket}
use prpc.Master.Serving.Valid.{all_formed, any_asks}

-- What `poll` reports is a descriptor that the loop knows: the acceptor, or a connection that is
-- accepted and not closed.
abbrev pub Polled : List Event → Map ℕ Socket → Type 0
Polled [] t = Unit {0}
Polled (accepts fd s ∷ es) t = Polled es (emplace fd s t)
Polled (reads fd reqs alive ∷ es) t =
    (is_there (find fd t) ≡ true) × Polled es (if alive then t else erase fd t)

-- The table of connections after some events.
abbrev pub table : List Event → Map ℕ Socket → Map ℕ Socket
table [] t = t
table (accepts fd s ∷ es) t = table es (emplace fd s t)
table (reads fd reqs alive ∷ es) t = table es (if alive then t else erase fd t)

abbrev pub PolledRounds : List (List Event) → Map ℕ Socket → Type 0
PolledRounds [] t = Unit {0}
PolledRounds (es ∷ rounds) t = Polled es t × PolledRounds rounds (table es t)

abbrev pub count_requests : List Event → ℕ
count_requests [] = 0
count_requests (accepts fd s ∷ es) = count_requests es
count_requests (reads fd reqs alive ∷ es) = length reqs + count_requests es

abbrev pub count_rounds : List (List Event) → ℕ
count_rounds [] = 0
count_rounds (es ∷ rounds) = count_requests es + count_rounds rounds

abbrev pub all_formed_events : List Event → Bool
all_formed_events [] = true
all_formed_events (accepts fd s ∷ es) = all_formed_events es
all_formed_events (reads fd reqs alive ∷ es) = all_formed reqs && all_formed_events es

abbrev pub all_formed_rounds : List (List Event) → Bool
all_formed_rounds [] = true
all_formed_rounds (es ∷ rounds) = all_formed_events es && all_formed_rounds rounds

abbrev pub event_asks : List Event → Bool
event_asks [] = false
event_asks (accepts fd s ∷ es) = event_asks es
event_asks (reads fd reqs alive ∷ es) = any_asks reqs || event_asks es

-- Whether a client has asked the service to exit.
abbrev pub round_asks : List (List Event) → Bool
round_asks [] = false
round_asks (es ∷ rounds) = event_asks es || round_asks rounds
