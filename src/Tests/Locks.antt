-- ===== src/Tests/Locks.antt =====
-- Runs of `RWSpinLock`: src/thread/SpinLock.h.
use prpc.Base.{ℕ, ◌≡◌, ◌<◌, ◌≤◌, ◌^◌, ◌↔◌, ◌⊎◌, true, List, [], ◌∷◌, refl, arith}
use prpc.Thread.RwSpinLock.Exclusion.{readers, upgraders, writers, sharers}
use prpc.Thread.RwSpinLock.Threads.{total, idlers, schedule-excludes, schedule-tests}
use prpc.Thread.RwSpinLock.{
  test_lock, test_lock_shared, test_lock_shared_low, test_upgrade, write, read, waits, once, idle,
  writing, Event, calls, runs, acquires, upgrade, schedule, act, step, call, run, passes,
}

-- Two readers come; the first is in `upgrade` while the second goes.
abbrev events : List (ℕ × Event)
events =
    (0, calls (acquires read waits))
    ∷ (0, runs)
    ∷ (0, runs)
    ∷ (1, calls (acquires read once))
    ∷ (1, runs)
    ∷ (1, runs)
    ∷ (0, calls upgrade)
    ∷ (0, runs)
    ∷ []

-- One thread takes the lock, and a second one tries to.
locked :
    schedule
      ((0, calls (acquires write waits))
        ∷ (0, runs)
        ∷ (0, runs)
        ∷ (1, calls (acquires write once))
        ∷ (1, runs)
        ∷ [])
      0
      (idlers 2)
    ≡ (1, writing ∷ idle ∷ [])
unfolding schedule act step call run passes test_lock
locked = refl

schedule-excludes_example :
    let ts = (schedule events 0 (idlers 2)).1 in
    (total writers ts ≤ 1) × ((total writers ts ≡ 0) ⊎ (total sharers ts ≡ 0))
schedule-excludes_example = schedule-excludes 2 (omega arith) events

schedule-tests_example :
    let w = (schedule events 0 (idlers 2)).0 in
    let ts = (schedule events 0 (idlers 2)).1 in
    (w < 2 ^ 31)
    × ((test_lock w ≡ true) ↔ ((total readers ts ≡ 0) × (total writers ts ≡ 0)))
    × ((test_lock_shared w ≡ true) ↔ (total writers ts ≡ 0))
    × ((test_lock_shared_low w ≡ true) ↔ ((total upgraders ts ≡ 0) × (total writers ts ≡ 0)))
    × ((test_upgrade w ≡ true) ↔ ((total readers ts ≡ total upgraders ts) × (total writers ts ≡ 0)))
schedule-tests_example = schedule-tests 2 (omega arith) events
