-- ===== src/Thread/SpinLock.antt =====
-- `SpinLock` of src/thread/SpinLock.h, with threads that share one lock. A step of a thread is one
-- `test_and_set` or one `clear` of the flag, and the steps of the threads interleave in any order.
pub mod Mutex
use prpc.Base.{ℕ, zero, suc, Bool, true, false, List, [], ◌∷◌, if◌then◌else◌}

-- Where a thread stands: outside, in the loop of `lock`, or with the lock.
pub data Place : Type 0 where
  outside spinning inside : Place

pub data Move : Type 0 where
  lock try_lock retry unlock : Move

-- `!_.test_and_set()`: whether the lock is taken, and the flag afterwards
abbrev pub test_and_set : Place → Bool → Bool × Place
test_and_set otherwise flag = (true, if flag then otherwise else inside)

-- A thread that does not stand where a move begins does nothing.
unfoldable pub move : Move → Bool → Place → Bool × Place
move lock flag outside = test_and_set spinning flag
move try_lock flag outside = test_and_set outside flag
move retry flag spinning = test_and_set spinning flag
move unlock flag inside = (false, outside)
move m flag p = (flag, p)

unfoldable pub move_at : ℕ → Move → Bool → List Place → Bool × List Place
unfolding move
move_at i m flag [] = (flag, [])
move_at zero m flag (p ∷ ps) = let (flag', p') = move m flag p in (flag', p' ∷ ps)
move_at (suc i) m flag (p ∷ ps) = let (flag', ps') = move_at i m flag ps in (flag', p ∷ ps')

unfoldable pub moves : List (ℕ × Move) → Bool → List Place → Bool × List Place
unfolding move_at
moves [] flag ps = (flag, ps)
moves ((i, m) ∷ ms) flag ps = let (flag', ps') = move_at i m flag ps in moves ms flag' ps'
