-- ===== src/Tests/Accumulators.antt =====
-- Runs of the accumulators: src/accumulator.
use mathlib.Core.List.{Permᴰ}
use prpc.Accumulator.Aggregators.{sum_of}
use prpc.Accumulator.Server.Order.{seen, write_entries-order}
use prpc.Accumulator.Server.{Entry, Server, Request, write, start, stop, wait_empty, write_entries}
use prpc.Base.{true, ℕ, ◌≡◌, refl, Option, none, some, List, [], ◌∷◌}

abbrev empty_server : Server
empty_server = record { aggs = []; agg_pool = []; client_count = 0; responses = [] }

-- "n", a sum
abbrev entry : ℕ → Entry
entry v = record { name = b'n' ∷ []; agg = some (sum_of v) }

write_entries-order_example :
    seen (write_entries (entry 3 ∷ entry 4 ∷ []) empty_server)
    ≡ seen (write_entries (entry 4 ∷ entry 3 ∷ []) empty_server)
write_entries-order_example =
    write_entries-order (entry 3 ∷ entry 4 ∷ []) (entry 4 ∷ entry 3 ∷ []) (Permᴰ.swap refl refl)
      empty_server

abbrev request : ℕ → Request
request i = record { id = i; op = write (entry i ∷ []); exhausted = true }

-- A client starts, one waits for an empty queue, and a write comes before the queue is empty.
abbrev calls : List (Option Request)
calls =
    some (record { id = 1; op = start; exhausted = true })
    ∷ some (record { id = 2; op = wait_empty; exhausted = true })
    ∷ some (request 3)
    ∷ none
    ∷ some (record { id = 4; op = stop; exhausted = true })
    ∷ none
    ∷ []
