-- ===== src/Master/Serving/Valid.antt =====
-- The invariant of the serving loop, and that messages and closed connections keep it.
use prpc.Base.{
  ℕ, suc, ◌+◌, ◌*◌, ◌<◌, ◌≤◌, ◌≡◌, refl, ap, ◌∙◌, ◌≢◌, Bool, true, false, ◌||◌, ◌&&◌, none, some,
  List, [], ◌∷◌, arith, Bytes, bytes_eq, nat_eq, eqb, if◌then◌else◌, ◌⊎◌, inl, inr, length,
}
use prpc.Base.Maps.{Map, Unique, find, erase, emplace, erase-Unique, emplace-Unique}
use prpc.Base.Outcome.{Returns}
use prpc.Master.Disconnect.{belongs, disconnect_clear_data_lem}
use prpc.Master.Changes.{formed, asks_exit}
use prpc.Master.Effects.{handle_op-Effect}
use prpc.Master.Leaves.{tree_of, view}
use prpc.Master.Serving.{on_accept, on_message, on_messages, on_close}
use prpc.Master.Store.{IsStored}
use prpc.Master.Tree.{IsTree}
use prpc.Master.{Socket, Master, Request, respond, send, erase_watcher, counter, int_limit}

abbrev pub connected : Socket → Map ℕ Socket → Bool
connected r [] = false
connected r ((fd, s) ∷ m) = eqb s r || connected r m

-- `n` bounds the requests handled so far.
pub record IsValid (n : ℕ) (m : Master) : Type 0 where
  pub tree : IsTree (tree_of m)
  pub store : IsStored m.path
  pub sockets : Unique m.fd_socket_map
  pub counters : (p : Bytes) → counter p m.gen_id ≤ n
  pub size : length m.path ≤ 2 * n
  -- a node hangs only on a connection that is there
  pub owners :
      (r : Socket) (j : Bytes) → belongs r (view m j) ≡ true → connected r m.fd_socket_map ≡ true

pub connected-find :
    (fd : ℕ) (s : Socket) (m : Map ℕ Socket) → find fd m ≡ some s → connected s m ≡ true
unfolding find
connected-find fd s [] h = absurd (ground (arith, h))
connected-find fd s ((g, r) ∷ m) h = ground (arith, h, connected-find fd s m)

pub connected-emplace :
    (fd : ℕ) (s r : Socket) (m : Map ℕ Socket)
    → connected r m ≡ true
    → connected r (emplace fd s m) ≡ true
unfolding emplace
connected-emplace fd s r m h = ground (arith, h)

pub erase_absent : (fd : ℕ) (m : Map ℕ Socket) → find fd m ≡ none → erase fd m ≡ m
unfolding find erase
erase_absent fd [] h = refl
erase_absent fd ((g, r) ∷ m) h = ground (arith, h, erase_absent fd m)

pub connected-erase :
    (fd : ℕ) (s r : Socket) (m : Map ℕ Socket)
    → Unique m
    → find fd m ≡ some s
    → connected r m ≡ true
    → r ≢ s
    → connected r (erase fd m) ≡ true
unfolding find erase
connected-erase fd s r [] u h c n = absurd (ground (arith, h))
connected-erase fd s r ((g, q) ∷ m) u h c n =
    ground (arith, u, h, c, n, connected-erase fd s r m, erase_absent fd m)

pub IsValid-mono : {n k : ℕ} {m : Master} → n ≤ k → IsValid n m → IsValid k m
IsValid-mono h v = record {
  tree = v.tree;
  store = v.store;
  sockets = v.sockets;
  counters = λ p. omega (arith, v.counters p);
  size = let small = v.size in omega (arith, small, h);
  owners = v.owners;
}

pub on_accept-IsValid :
    (n : ℕ) (fd : ℕ) (s : Socket) (m : Master) → IsValid n m → IsValid n (on_accept fd s m)
unfolding on_accept
on_accept-IsValid n fd s m v = record {
  tree = v.tree;
  store = v.store;
  sockets = emplace-Unique fd s m.fd_socket_map v.sockets;
  counters = v.counters;
  size = v.size;
  owners = λ r j h. connected-emplace fd s r m.fd_socket_map (v.owners r j h);
}

-- Whether all of them can be read, and whether one asks the service to exit.
abbrev pub all_formed : List Request → Bool
all_formed [] = true
all_formed (req ∷ reqs) = formed req && all_formed reqs

abbrev pub any_asks : List Request → Bool
any_asks [] = false
any_asks (req ∷ reqs) = asks_exit req || any_asks reqs

-- The state after messages: valid, the connections are as they were, and `exit` is set where one of
-- them asks for it.
pub record Served (n : ℕ) (asked : Bool) (m m' : Master) : Type 0 where
  pub valid : IsValid n m'
  pub same : m'.fd_socket_map ≡ m.fd_socket_map
  pub exits : m'.exit ≡ (m.exit || asked)
  pub room : m'.path_room ≡ m.path_room

pub on_message-Served :
    (n : ℕ) (s : Socket) (req : Request) (m : Master)
    → IsValid n m
    → formed req ≡ true
    → suc n < int_limit
    → 2 * suc n ≤ m.path_room
    → connected s m.fd_socket_map ≡ true
    → Returns (on_message s req m) (Served (suc n) (asks_exit req) m)
unfolding on_message
on_message-Served n s req m v good room roomy c =
    let (out, run, e) =
      handle_op-Effect s req m v.tree v.store good (λ p. omega (arith, v.counters p))
        (let small = v.size in omega (arith, small, roomy)) in
    (
      send out.1 s (respond out.0),
      rw run refl,
      record {
        valid = record {
          tree = e.tree;
          store = e.store;
          sockets = rw e.sockets v.sockets;
          counters = λ p. omega (arith, v.counters p, e.counters p);
          size = let small = v.size in let grown = e.size in omega (arith, small, grown);
          owners = λ r j h. rw e.sockets (owned r (e.owners r j h) (v.owners r j));
        };
        same = e.sockets;
        exits = e.exits;
        room = e.room;
      },
    )
  where
    owned :
        (r : Socket) {P : Type 0}
        → P ⊎ (r ≡ s)
        → (P → connected r m.fd_socket_map ≡ true)
        → connected r m.fd_socket_map ≡ true
    owned r (inl h) f = f h
    owned r (inr e) f = rw e c

pub on_messages-Served :
    (n : ℕ) (s : Socket) (reqs : List Request) (m : Master)
    → IsValid n m
    → all_formed reqs ≡ true
    → n + length reqs < int_limit
    → 2 * (n + length reqs) ≤ m.path_room
    → connected s m.fd_socket_map ≡ true
    → Returns (on_messages s reqs m) (Served (n + length reqs) (any_asks reqs) m)
unfolding on_messages
on_messages-Served n s [] m v good room roomy c = (
  m,
  refl,
  record { valid = IsValid-mono (omega arith) v; same = refl; exits = ground arith; room = refl },
)
on_messages-Served n s (req ∷ reqs) m v good room roomy c =
    let (k, run, w) =
      on_message-Served n s req m v (ground (arith, good)) (omega arith) (omega (arith, roomy)) c in
    let (m', run', w') =
      on_messages-Served (suc n) s reqs k w.valid (ground (arith, good)) (omega arith)
        (rw w.room (omega (arith, roomy))) (rw w.same c) in
    (
      m',
      rw run run',
      record {
        valid = IsValid-mono (omega arith) w'.valid;
        same = w'.same ∙ w.same;
        exits = ground (arith, w.exits, w'.exits);
        room = w'.room ∙ w.room;
      },
    )

-- After a connection is closed, no node hangs on it.
pub on_close-IsValid :
    (n fd : ℕ) (s : Socket) (m : Master)
    → IsValid n m
    → find fd m.fd_socket_map ≡ some s
    → Returns (on_close fd m) λ m'.
      IsValid n m'
      × (m'.fd_socket_map ≡ erase fd m.fd_socket_map)
      × (m'.exit ≡ m.exit)
      × (m'.path_room ≡ m.path_room)
unfolding on_close
on_close-IsValid n fd s m v e =
    let (k, run, (w, _, i, small)) = disconnect_clear_data_lem s m v.tree v.store in
    (
      record k { watchers = erase_watcher s k.watchers; fd_socket_map = erase fd k.fd_socket_map },
      rw (e, on_close) (rw run refl),
      (
        record {
          tree = w.tree;
          store = w.store v.store;
          sockets = rw w.sockets (erase-Unique fd m.fd_socket_map v.sockets);
          counters = λ p. rw i (v.counters p);
          size = let before = v.size in omega (arith, before, small);
          owners = λ r j h.
              let (mine, other) = still r j (rw (w.reads j) at h) in
              rw w.sockets
                (connected-erase fd s r m.fd_socket_map v.sockets e (v.owners r j mine) other);
        },
        ap (erase fd) w.sockets,
        w.exits,
        w.room,
      ),
    )
  where
    still :
        (r : Socket) (j : Bytes)
        → belongs r (if belongs s (view m j) then none else view m j) ≡ true
        → (belongs r (view m j) ≡ true) × (r ≢ s)
    still r j h = (ground (arith, h), λ q. absurd (ground (arith, h, q)))
