-- ===== src/Master/Serving.antt =====
-- The serving loop: `Master::serving` of src/rpc/Master.cpp. What `poll` and the sockets deliver is a
-- list of events.
pub mod Valid
pub mod Rounds
pub mod Safety
use prpc.Base.{
  ℕ, Bool, true, false, ◌&&◌, Option, none, some, List, [], ◌∷◌, ◌++◌, nat_eq, ◌==◌, if◌then◌else◌,
}
use prpc.Base.Maps.{find, erase, emplace}
use prpc.Base.Outcome.{Outcome, ok, fault, ◌>>=◌}
use prpc.Master.{
  Socket, Master, Request, Reply, respond, send, handle_op, disconnect_clear_data, erase_watcher,
}

-- A descriptor that `poll` reports: the acceptor's, with the connection that it accepts, or a
-- client's, with the messages that it reads and whether it is still alive.
pub data Event : Type 0 where
  accepts : (fd : ℕ) (s : Socket) → Event
  reads : (fd : ℕ) (requests : List Request) (alive : Bool) → Event

-- `_watchers.emplace(tcp_socket, …)`
unfoldable pub add_watcher : Socket → List Socket → List Socket
add_watcher s [] = s ∷ []
add_watcher s (w ∷ ws) = let rest = add_watcher s ws in if w == s then w ∷ ws else w ∷ rest

unfoldable pub on_accept : ℕ → Socket → Master → Master
unfolding add_watcher
on_accept fd s m = record m {
  watchers = add_watcher s m.watchers;
  fd_socket_map = emplace fd s m.fd_socket_map;
}

-- The handler that `handle_event` calls for each message.
unfoldable pub on_message : Socket → Request → Master → Outcome Master
on_message s req m = do (reply, m') ← handle_op s req m; ok (send m' s (respond reply))

unfoldable pub on_messages : Socket → List Request → Master → Outcome Master
on_messages s [] m = ok m
on_messages s (req ∷ reqs) m = on_message s req m >>= on_messages s reqs

-- `if (!socket_alive)`
unfoldable pub on_close : ℕ → Master → Outcome Master
on_close fd m = elim (find fd m.fd_socket_map) [
  | none ↦ fault
  | some s ↦ do
    m' ← disconnect_clear_data s m
    ok (record m' {
      watchers = erase_watcher s m'.watchers;
      fd_socket_map = erase fd m'.fd_socket_map;
    })
]

unfoldable pub on_event : Event → Master → Outcome Master
on_event (accepts fd s) m = ok (on_accept fd s m)
on_event (reads fd reqs alive) m = elim (find fd m.fd_socket_map) [
  | none ↦ fault
  | some s ↦ do m' ← on_messages s reqs m; if alive then ok m' else on_close fd m'
]

unfoldable pub on_events : List Event → Master → Outcome Master
on_events [] m = ok m
on_events (e ∷ es) m = on_event e m >>= on_events es

-- How a run of the loop ends: by `break`, or with the rounds that are given used up.
pub data Run : Type 0 where
  stopped : Master → Run
  running : Master → Run

abbrev pub is_empty {ℓ} : {A : Type ℓ} → List A → Bool
is_empty [] = true
is_empty (x ∷ xs) = false

-- `while (true)`, with one list of events for each return of `poll`
unfoldable pub serving_rounds : List (List Event) → Master → Outcome Run
serving_rounds [] m = ok (running m)
serving_rounds (round ∷ rounds) m = on_events round m >>= λ m'.
    let more = serving_rounds rounds m' in
    if m'.exit && is_empty m'.fd_socket_map then ok (stopped m') else more

unfoldable pub serving : List (List Event) → Master → Outcome Run
unfolding serving_rounds
serving rounds m = serving_rounds rounds (record m { exit = false })
