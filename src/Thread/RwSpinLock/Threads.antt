-- ===== src/Thread/RwSpinLock/Threads.antt =====
-- No schedule of the threads breaks the exclusion that `RWSpinLock` is for.
use prpc.Base.{
  ℕ, zero, suc, ◌+◌, ◌^◌, ◌≡◌, ◌<◌, ◌≤◌, ◌↔◌, ◌⊎◌, inl, refl, ◌∙◌, true, List, [], ◌∷◌, arith,
  length,
}
use prpc.Thread.RwSpinLock.Words.{
  limit, word_of, test_lock_iff, test_lock_shared_iff, test_lock_shared_low_iff, test_upgrade_iff,
}
use prpc.Thread.RwSpinLock.{
  test_lock, test_lock_shared, test_lock_shared_low, test_upgrade, Thread, idle, testing, trying,
  undoing, reading, raising, swapping, writing, lowering, Event, act, schedule,
}
use prpc.Thread.RwSpinLock.Exclusion.{readers, upgraders, writers, sharers, Tested, step-Fits}

abbrev pub total : (Thread → ℕ) → List Thread → ℕ
total weight [] = 0
total weight (t ∷ ts) = weight t + total weight ts

abbrev AllTested : List Thread → Type 0
AllTested [] = Unit {0}
AllTested (t ∷ ts) = Tested t × AllTested ts

-- The word agrees with the threads, beside others that have added `r`, `u` and `x`, and of which `a`
-- hold the lock as readers.
record Agrees (r u x a : ℕ) (out : ℕ × List Thread) : Type 0 where
  word :
      out.0
      ≡ word_of (r + total readers out.1) (u + total upgraders out.1) (x + total writers out.1)
  one : x + total writers out.1 ≤ 1
  alone : (x + total writers out.1 ≡ 0) ⊎ (a + total sharers out.1 ≡ 0)
  tested : AllTested out.1

readers_le : (t : Thread) → (readers t ≤ 1) × (sharers t + upgraders t ≤ readers t)
readers_le idle = (omega arith, omega arith)
readers_le (testing want mode) = (omega arith, omega arith)
readers_le (trying want mode value) = (omega arith, omega arith)
readers_le (undoing want mode) = (omega arith, omega arith)
readers_le reading = (omega arith, omega arith)
readers_le raising = (omega arith, omega arith)
readers_le (swapping value) = (omega arith, omega arith)
readers_le writing = (omega arith, omega arith)
readers_le lowering = (omega arith, omega arith)

total_le :
    (ts : List Thread)
    → (total readers ts ≤ length ts) × (total sharers ts + total upgraders ts ≤ total readers ts)
total_le [] = (omega arith, omega arith)
total_le (t ∷ ts) =
    (omega (arith, total_le ts, readers_le t), omega (arith, total_le ts, readers_le t))

length-act : (i : ℕ) (e : Event) (w : ℕ) (ts : List Thread) → length (act i e w ts).1 ≡ length ts
unfolding act
length-act i e w [] = refl
length-act zero e w (t ∷ ts) = refl
length-act (suc i) e w (t ∷ ts) = omega (arith, length-act i e w ts)

act-Agrees :
    (i : ℕ) (e : Event) (w : ℕ) (ts : List Thread) (r u x a : ℕ)
    → r + length ts < limit
    → a + u ≤ r
    → Agrees r u x a (w, ts)
    → Agrees r u x a (act i e w ts)
unfolding act
act-Agrees i e w [] r u x a room less g = g
act-Agrees zero e w (t ∷ ts) r u x a room less g =
    let f =
      step-Fits (r + total readers ts) (u + total upgraders ts) (x + total writers ts)
        (a + total sharers ts) (omega (arith, total_le ts)) (omega (arith, total_le ts)) e w t
        (record {
          word = omega (arith, g.word);
          one = omega (arith, g.one);
          alone = ground (arith, g.alone);
          tested = g.tested.0;
        }) in
    record {
      word = omega (arith, f.word);
      one = omega (arith, f.one);
      alone = ground (arith, f.alone);
      tested = (f.tested, g.tested.1);
    }
act-Agrees (suc i) e w (t ∷ ts) r u x a room less g =
    let f =
      act-Agrees i e w ts (r + readers t) (u + upgraders t) (x + writers t) (a + sharers t)
        (omega (arith, readers_le t)) (omega (arith, readers_le t))
        (record {
          word = omega (arith, g.word);
          one = omega (arith, g.one);
          alone = ground (arith, g.alone);
          tested = g.tested.1;
        }) in
    record {
      word = omega (arith, f.word);
      one = omega (arith, f.one);
      alone = ground (arith, f.alone);
      tested = (g.tested.0, f.tested);
    }

schedule-Agrees :
    (es : List (ℕ × Event)) (w : ℕ) (ts : List Thread)
    → length ts < limit
    → Agrees 0 0 0 0 (w, ts)
    → Agrees 0 0 0 0 (schedule es w ts) × (length (schedule es w ts).1 ≡ length ts)
unfolding schedule
schedule-Agrees [] w ts room g = (g, refl)
schedule-Agrees ((i, e) ∷ es) w ts room g =
    let g' = act-Agrees i e w ts 0 0 0 0 (omega arith) (omega arith) g in
    let size = length-act i e w ts in
    let (h, same) = schedule-Agrees es (act i e w ts).0 (act i e w ts).1 (omega arith) g' in
    (h, same ∙ size)

-- `n` threads outside any call
abbrev pub idlers : ℕ → List Thread
idlers zero = []
idlers (suc n) = idle ∷ idlers n

idlers-Agrees : (n : ℕ) → Agrees 0 0 0 0 (0, idlers n) × (length (idlers n) ≡ n)
idlers-Agrees zero =
    (record { word = refl; one = omega arith; alone = inl refl; tested = tt }, refl)
idlers-Agrees (suc n) =
    let (g, size) = idlers-Agrees n in
    (
      record {
        word = omega (arith, g.word);
        one = omega (arith, g.one);
        alone = ground (arith, g.alone);
        tested = (tt, g.tested);
      },
      omega (arith, size),
    )

module _ (n : ℕ) (room : n < limit) (es : List (ℕ × Event)) where
  after : ℕ × List Thread
  after = schedule es 0 (idlers n)

  after-Agrees : Agrees 0 0 0 0 after × (length after.1 ≡ n)
  unfolding after
  after-Agrees =
      let (g, size) = idlers-Agrees n in
      let (h, same) = schedule-Agrees es 0 (idlers n) (omega arith) g in (h, same ∙ size)

-- A word, and threads that it counts.
record Counted (w : ℕ) (ts : List Thread) : Type 0 where
  word : w ≡ word_of (total readers ts) (total upgraders ts) (total writers ts)
  few : total readers ts < limit
  less : total upgraders ts ≤ total readers ts
  one : total writers ts ≤ 1

counted :
    (n : ℕ)
    → n < limit
    → (es : List (ℕ × Event)) → Counted (schedule es 0 (idlers n)).0 (schedule es 0 (idlers n)).1
unfolding after
counted n room es =
    let (g, size) = after-Agrees n room es in
    record {
      word = omega (arith, g.word);
      few = omega (arith, total_le (after n room es).1, size);
      less = omega (arith, total_le (after n room es).1);
      one = omega (arith, g.one);
    }

-- With fewer than 2 ^ 15 threads, no schedule leads to two writers, nor to a writer beside a thread
-- that holds the lock as a reader.
pub schedule-excludes :
    (n : ℕ)
    → n < limit
    → (es : List (ℕ × Event))
    → let ts = (schedule es 0 (idlers n)).1 in
      (total writers ts ≤ 1) × ((total writers ts ≡ 0) ⊎ (total sharers ts ≡ 0))
unfolding after
schedule-excludes n room es =
    let g = (after-Agrees n room es).0 in (omega (arith, g.one), ground (arith, g.alone))

-- With fewer than 2 ^ 15 threads and after any schedule, the word is no negative `int32_t`, and the
-- tests read the threads off it. `lock` may be taken when no thread has a part in the lock, a shared
-- lock when there is no writer, `lock_shared_low` when also no thread is in `upgrade`, and an upgrade
-- when there is no writer and each thread that counts as a reader is in `upgrade`.
pub schedule-tests :
    (n : ℕ)
    → n < limit
    → (es : List (ℕ × Event))
    → let w = (schedule es 0 (idlers n)).0 in
      let ts = (schedule es 0 (idlers n)).1 in
      (w < 2 ^ 31)
      × ((test_lock w ≡ true) ↔ ((total readers ts ≡ 0) × (total writers ts ≡ 0)))
      × ((test_lock_shared w ≡ true) ↔ (total writers ts ≡ 0))
      × ((test_lock_shared_low w ≡ true) ↔ ((total upgraders ts ≡ 0) × (total writers ts ≡ 0)))
      × ((test_upgrade w ≡ true)
          ↔ ((total readers ts ≡ total upgraders ts) × (total writers ts ≡ 0)))
schedule-tests n room es =
    let c = counted n room es in
    (
      omega (arith, c.word, c.one, c.few, c.less),
      rw c.word (test_lock_iff _ _ _ c.few c.less c.one),
      rw c.word (test_lock_shared_iff _ _ _ c.few c.less c.one),
      rw c.word (test_lock_shared_low_iff _ _ _ c.few c.less c.one),
      rw c.word (test_upgrade_iff _ _ _ c.few c.less c.one),
    )
