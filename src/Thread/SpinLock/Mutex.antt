-- ===== src/Thread/SpinLock/Mutex.antt =====
-- At most one thread has the lock, whatever the order of the steps.
use prpc.Base.{ℕ, zero, suc, ◌+◌, ◌≡◌, ◌≤◌, refl, Bool, true, false, List, [], ◌∷◌, arith}
use prpc.Thread.SpinLock.{
  Place, outside, spinning, inside, Move, lock, try_lock, retry, unlock, move, move_at, moves,
}

abbrev pub holds : Place → ℕ
holds inside = 1
holds _ = 0

abbrev pub holders : List Place → ℕ
holders [] = 0
holders (p ∷ ps) = holds p + holders ps

abbrev pub set_of : Bool → ℕ
set_of true = 1
set_of false = 0

move_lem :
    (k : ℕ) (m : Move) (flag : Bool) (p : Place)
    → set_of flag ≡ k + holds p
    → set_of (move m flag p).0 ≡ k + holds (move m flag p).1
unfolding move
move_lem k lock true outside h = h
move_lem k lock false outside h = omega (arith, h)
move_lem k lock flag spinning h = h
move_lem k lock flag inside h = h
move_lem k try_lock true outside h = h
move_lem k try_lock false outside h = omega (arith, h)
move_lem k try_lock flag spinning h = h
move_lem k try_lock flag inside h = h
move_lem k retry flag outside h = h
move_lem k retry true spinning h = h
move_lem k retry false spinning h = omega (arith, h)
move_lem k retry flag inside h = h
move_lem k unlock flag outside h = h
move_lem k unlock flag spinning h = h
move_lem k unlock true inside h = omega (arith, h)
move_lem k unlock false inside h = omega (arith, h)

move_at_lem :
    (i k : ℕ) (m : Move) (flag : Bool) (ps : List Place)
    → set_of flag ≡ k + holders ps
    → set_of (move_at i m flag ps).0 ≡ k + holders (move_at i m flag ps).1
unfolding move_at
move_at_lem i k m flag [] h = h
move_at_lem zero k m flag (p ∷ ps) h =
    omega (arith, h, move_lem (k + holders ps) m flag p (omega (arith, h)))
move_at_lem (suc i) k m flag (p ∷ ps) h =
    omega (arith, h, move_at_lem i (k + holds p) m flag ps (omega (arith, h)))

moves_lem :
    (ms : List (ℕ × Move)) (flag : Bool) (ps : List Place)
    → set_of flag ≡ holders ps
    → set_of (moves ms flag ps).0 ≡ holders (moves ms flag ps).1
unfolding moves
moves_lem [] flag ps h = h
moves_lem ((i, m) ∷ ms) flag ps h =
    moves_lem ms (move_at i m flag ps).0 (move_at i m flag ps).1
      (omega (arith, move_at_lem i 0 m flag ps (omega (arith, h))))

abbrev pub outsiders : ℕ → List Place
outsiders zero = []
outsiders (suc n) = outside ∷ outsiders n

no_holders : (n : ℕ) → 0 ≡ holders (outsiders n)
no_holders zero = refl
no_holders (suc n) = omega (arith, no_holders n)

-- However the steps of `n` threads interleave, at most one of them has the lock, and the flag is set
-- exactly while one has it.
pub moves-exclude :
    (n : ℕ) (ms : List (ℕ × Move))
    → let out = moves ms false (outsiders n) in (holders out.1 ≤ 1) × (set_of out.0 ≡ holders out.1)
moves-exclude n ms =
    let e = moves_lem ms false (outsiders n) (no_holders n) in
    (below (moves ms false (outsiders n)).0 (holders (moves ms false (outsiders n)).1) e, e)
  where
    below : (flag : Bool) (k : ℕ) → set_of flag ≡ k → k ≤ 1
    below true k e = omega (arith, e)
    below false k e = omega (arith, e)
