-- ===== src/Tests/Queues.antt =====
-- Runs of the request routing: `FairQueue` and the backend of src/rpc/RpcContext.cpp.
use prpc.Base.{◌≡◌, none, some, [], ◌∷◌, refl, nat_eq}
use prpc.Base.Maps.{find, assign}
use prpc.Base.Outcome.{Returns}
use prpc.Rpc.FairQueue.{
  Request, FairQueue, dealers_at, add_server_dealer, remove_server_dealer, flush, next,
}
use prpc.Rpc.FairQueue.Dealers.{count}
use prpc.Rpc.FairQueue.Balance.{
  IsBalanced, Unregistered, add_server_dealer-IsBalanced, remove_server_dealer-Unregistered,
}
use prpc.Rpc.FairQueue.Delivery.{Picks, next-Picks}
use prpc.Rpc.Backend.{new_queue, dispatch}
use prpc.Rpc.Backend.Replay.{dispatch_all, replay_in_order}
use prpc.Rpc.Backend.Routing.{Routed, dispatch-Routed}

new_queue-IsBalanced : IsBalanced (new_queue 7 9)
unfolding find count
new_queue-IsBalanced = record { counts = λ sid. refl; nonempty = λ sid h. cc }

-- the dealers 11 and 12 of the server 5
abbrev staffed : FairQueue
staffed = record (new_queue 7 9) { sid2dealers = (5, 11 ∷ 12 ∷ []) ∷ []; sids = 5 ∷ 5 ∷ [] }

one-IsBalanced : IsBalanced (add_server_dealer 5 11 (new_queue 7 9))
one-IsBalanced = add_server_dealer-IsBalanced 5 11 (new_queue 7 9) new_queue-IsBalanced

add_server_dealer-IsBalanced_example :
    IsBalanced (add_server_dealer 5 12 (add_server_dealer 5 11 (new_queue 7 9)))
add_server_dealer-IsBalanced_example =
    add_server_dealer-IsBalanced 5 12 (add_server_dealer 5 11 (new_queue 7 9)) one-IsBalanced

staffed-IsBalanced : IsBalanced staffed
unfolding add_server_dealer flush find assign
staffed-IsBalanced =
    add_server_dealer-IsBalanced 5 12 (add_server_dealer 5 11 (new_queue 7 9)) one-IsBalanced

remove_server_dealer-Unregistered_example :
    Returns (remove_server_dealer 5 11 staffed) (Unregistered 5 11 staffed)
unfolding find count
remove_server_dealer-Unregistered_example =
    remove_server_dealer-Unregistered 5 11 staffed staffed-IsBalanced refl

next-Picks_example : Returns (next none staffed) (Picks none staffed)
next-Picks_example = next-Picks none staffed staffed-IsBalanced

abbrev anyone : Request
anyone = record { rpc_id = 1; sid = none; body = 0 }

abbrev first : Request
first = record { rpc_id = 1; sid = some 5; body = 1 }

abbrev second : Request
second = record { rpc_id = 1; sid = some 5; body = 2 }

dispatch-Routed_example :
    Returns (dispatch anyone staffed) λ q'. IsBalanced q' × Routed anyone staffed q'
dispatch-Routed_example = dispatch-Routed anyone staffed staffed-IsBalanced

-- the server 5 with no dealer
abbrev unstaffed : FairQueue
unstaffed = record (new_queue 7 9) { sid2cache = (5, []) ∷ [] }

replay_in_order_example : Returns (dispatch_all (first ∷ second ∷ []) unstaffed) λ q1.
    let q' = add_server_dealer 5 11 q1 in
    (q'.delivered ≡ (11, first) ∷ (11, second) ∷ [])
    × (find 5 q'.sid2cache ≡ some [])
    × (dealers_at 5 q' ≡ 11 ∷ [])
unfolding find
replay_in_order_example =
    replay_in_order 5 11 (first ∷ second ∷ []) [] unstaffed (refl, (refl, tt)) refl refl
