-- ===== src/Tests/Spins.antt =====
-- Runs of `SpinLock`: src/thread/SpinLock.h.
use prpc.Base.{ℕ, ◌≡◌, ◌≤◌, refl, true, false, List, [], ◌∷◌}
use prpc.Thread.SpinLock.Mutex.{holders, set_of, outsiders, moves-exclude}
use prpc.Thread.SpinLock.{
  Move, lock, try_lock, retry, unlock, move, move_at, moves, spinning, inside, outside,
}

abbrev race : List (ℕ × Move)
race = (0, lock) ∷ (1, lock) ∷ (0, unlock) ∷ (2, try_lock) ∷ (1, retry) ∷ []

third_wins : moves race false (outsiders 3) ≡ (true, outside ∷ spinning ∷ inside ∷ [])
unfolding moves move_at move
third_wins = refl

moves-exclude_example :
    let out = moves race false (outsiders 3) in (holders out.1 ≤ 1) × (set_of out.0 ≡ holders out.1)
moves-exclude_example = moves-exclude 3 race
