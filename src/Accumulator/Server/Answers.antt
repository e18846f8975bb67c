-- ===== src/Accumulator/Server/Answers.antt =====
-- The loop of `AccumulatorServer::process_request` answers each request once.
use prpc.Accumulator.Server.{
  Operation, start, stop, wait_empty, unknown, read_out, Request, Response, Server, Loop, ended,
  receiving,
}
use prpc.Base.{
  ℕ, zero, suc, true, ◌+◌, ◌≡◌, Option, none, some, List, [], ◌∷◌, ◌++◌, Bytes, bytes_eq, nat_eq,
  ◌==◌, if◌then◌else◌,
}
use prpc.Accumulator.Server.Typing.{Typed, Allowed}

abbrev pub tally : ℕ → List ℕ → ℕ
tally id [] = 0
tally id (i ∷ is) = (if i == id then 1 else 0) + tally id is

-- how often a request is answered
abbrev pub answers : ℕ → List (ℕ × Response) → ℕ
answers id [] = 0
answers id (r ∷ rs) = (if r.0 == id then 1 else 0) + answers id rs

-- the number of clients after a request
abbrev pub clients : ℕ → Operation → ℕ
clients n start = suc n
clients zero stop = zero
clients (suc n) stop = n
clients n _ = n

-- who waits for an empty queue after a request
abbrev pub waiters : List ℕ → Operation → ℕ → List ℕ
waiters ws wait_empty id = ws ++ id ∷ []
waiters ws _ id = ws

-- the answers that a request is to have: none where its code is not known
abbrev pub owed : Operation → ℕ → List ℕ
owed unknown i = []
owed _ i = i ∷ []

-- One request is answered, or waits to be.
record Handled (typing : Bytes → ℕ) (req : Request) (waiting : List ℕ) (s : Server)
    (out : List ℕ × Server) : Type 0 where
  typed : Typed typing out.1.aggs
  count : out.1.client_count ≡ clients s.client_count req.op
  waits : out.0 ≡ waiters waiting req.op req.id
  once :
      (id : ℕ)
      → answers id out.1.responses + tally id out.0
        ≡ answers id s.responses + tally id waiting + tally id (owed req.op req.id)

-- What the loop receives can be read, to its end, keeps to the types, and stops no more clients than
-- have started.
abbrev pub AllAllowed : (Bytes → ℕ) → ℕ → List (Option Request) → Type 0
AllAllowed typing n [] = Unit {0}
AllAllowed typing n (none ∷ rs) = AllAllowed typing n rs
AllAllowed typing n (some req ∷ rs) =
    Allowed typing n req.op × (read_out req ≡ true) × AllAllowed typing (clients n req.op) rs

-- the requests of a known code, up to the call that ends the loop
abbrev pub received : List ℕ → List (Option Request) → List ℕ
received waiting [] = []
received [] (none ∷ rs) = []
received (w ∷ ws) (none ∷ rs) = received [] rs
received waiting (some req ∷ rs) = owed req.op req.id ++ received (waiters waiting req.op req.id) rs

-- how often a request is answered or waits
abbrev pub settled : ℕ → Loop → ℕ
settled id (ended s) = answers id s.responses
settled id (receiving waiting s) = answers id s.responses + tally id waiting
