-- ===== src/Tests/Pipes.antt =====
-- A queue with two pushes whose links are stored in the other order.
use prpc.Base.{ℕ, ◌≡◌, refl, List, [], ◌∷◌, ◌++◌}
use prpc.Base.Outcome.{Outcome, ok, ◌>>=◌}
use prpc.Base.Maps.{find, assign, erase}
use prpc.Thread.MpscQueue.{
  MpscQueue, Event, exchanges, links_up, pops, run, pushed, new_queue, exchange, link, pop,
}
use prpc.Thread.MpscQueue.Order.{run-order, Offers}

abbrev crossed : List (Event ℕ)
crossed =
    exchanges 7
    ∷ exchanges 8
    ∷ links_up 1
    ∷ pops
    ∷ links_up 0
    ∷ pops
    ∷ exchanges 9
    ∷ pops
    ∷ pops
    ∷ []

outputs : Outcome (List ℕ × MpscQueue ℕ) → Outcome (List ℕ)
outputs o = o >>= λ o. ok o.0

crossed_in_order : outputs (run crossed new_queue) ≡ ok (7 ∷ 8 ∷ [])
unfolding outputs run new_queue exchange link pop find assign erase
crossed_in_order = refl

run-order_example :
    (out : List ℕ) × (r : MpscQueue ℕ) × (rest : List ℕ) × (run crossed new_queue ≡ ok (out, r))
    × (pushed crossed ≡ out ++ rest)
    × Offers r rest
run-order_example = run-order crossed
