-- ===== src/Thread/RwSpinLock/Exclusion.antt =====
-- One step of one thread keeps the word in agreement with the counts of all threads.
use prpc.Base.{ℕ, ◌+◌, ◌≡◌, ◌<◌, ◌≤◌, ◌⊎◌, inl, inr, true, arith, eqb, Bool-cases}
use prpc.Base.Bits.{bit_xor-1}
use prpc.Thread.RwSpinLock.Words.{
  limit, word_of, test_lock_shared_iff, test_lock_shared_low_iff, test_upgrade_iff,
}
use prpc.Thread.RwSpinLock.{
  reader, test_lock, test_upgrade, fetch_sub, Want, write, read, read_low, Mode, waits, once,
  Thread, idle, testing, trying, undoing, reading, raising, swapping, writing, lowering, Call,
  acquires, unlock, unlock_shared, upgrade, downgrade, try_upgrade, Event, calls, runs, fails,
  passes, refused, share, run, call, fail, step,
}

-- What a thread has added to the word.
abbrev pub readers : Thread → ℕ
readers idle = 0
readers (testing want mode) = 0
readers (trying want mode value) = 0
readers writing = 0
readers _ = 1

abbrev pub upgraders : Thread → ℕ
upgraders raising = 1
upgraders (swapping value) = 1
upgraders _ = 0

abbrev pub writers : Thread → ℕ
writers writing = 1
writers lowering = 1
writers _ = 0

-- A thread that holds the lock as a reader.
abbrev pub sharers : Thread → ℕ
sharers reading = 1
sharers _ = 0

-- What the value of a pending exchange has passed.
abbrev pub Tested : Thread → Type 0
Tested (trying write mode value) = value ≡ 0
Tested (swapping value) = test_upgrade value ≡ true
Tested _ = Unit {0}

-- The word and a thread agree, where the other threads have added `r`, `u` and `x`, and `a` of them
-- hold the lock as readers.
pub record Fits (r u x a : ℕ) (out : ℕ × Thread) : Type 0 where
  pub word : out.0 ≡ word_of (r + readers out.1) (u + upgraders out.1) (x + writers out.1)
  pub one : x + writers out.1 ≤ 1
  pub alone : (x + writers out.1 ≡ 0) ⊎ (a + sharers out.1 ≡ 0)
  pub tested : Tested out.1

module _ (r u x a : ℕ) (room : r + 1 < limit) (less : a + u ≤ r) where
  call-Fits : (t : Thread) (c : Call) (w : ℕ) → Fits r u x a (w, t) → Fits r u x a (call w t c)
  unfolding call
  call-Fits idle (acquires want mode) w f = record {
    word = f.word;
    one = f.one;
    alone = f.alone;
    tested = tt;
  }
  call-Fits idle unlock w f = f
  call-Fits idle unlock_shared w f = f
  call-Fits idle upgrade w f = f
  call-Fits idle downgrade w f = f
  call-Fits idle try_upgrade w f = f
  call-Fits reading (acquires want mode) w f = f
  call-Fits reading unlock w f = f
  call-Fits reading unlock_shared w f = record {
    word = omega (arith, f.word, f.one);
    one = omega (arith, f.one);
    alone = ground (arith, f.alone);
    tested = tt;
  }
  call-Fits reading upgrade w f = record {
    word = omega (arith, f.word, f.one);
    one = omega (arith, f.one);
    alone = ground (arith, f.alone);
    tested = tt;
  }
  call-Fits reading downgrade w f = f
  call-Fits reading try_upgrade w f = elim (Bool-cases (eqb w reader)) [
    | inr other ↦ rw other f
    | inl alone ↦ rw alone record {
      word = ground (arith, alone, f.word, f.one);
      one = ground (arith, alone, f.word, f.one);
      alone = inr (ground (arith, alone, f.word, f.one));
      tested = tt;
    }
  ]
  call-Fits writing (acquires want mode) w f = f
  call-Fits writing unlock w f = record {
    word = omega (arith, f.word, f.one, bit_xor-1 w);
    one = omega (arith, f.one);
    alone = ground (arith, f.alone);
    tested = tt;
  }
  call-Fits writing unlock_shared w f = f
  call-Fits writing upgrade w f = f
  call-Fits writing downgrade w f = record {
    word = omega (arith, f.word, f.one);
    one = omega (arith, f.one);
    alone = ground (arith, f.alone);
    tested = tt;
  }
  call-Fits writing try_upgrade w f = f
  call-Fits (testing want mode) c w f = f
  call-Fits (trying want mode value) c w f = f
  call-Fits (undoing want mode) c w f = f
  call-Fits raising c w f = f
  call-Fits (swapping value) c w f = f
  call-Fits lowering c w f = f

  refused-Fits :
      (want : Want) (mode : Mode) (w : ℕ)
      → Fits r u x a (w, idle)
      → Fits r u x a (w, refused want mode)
  refused-Fits want waits w f = record { word = f.word; one = f.one; alone = f.alone; tested = tt }
  refused-Fits want once w f = f

  fail-Fits : (t : Thread) (w : ℕ) → Fits r u x a (w, t) → Fits r u x a (fail w t)
  unfolding fail
  fail-Fits (trying write mode value) w f =
      refused-Fits write mode w
        (record { word = f.word; one = f.one; alone = f.alone; tested = tt })
  fail-Fits (swapping value) w f = record {
    word = f.word;
    one = f.one;
    alone = f.alone;
    tested = tt;
  }
  fail-Fits idle w f = f
  fail-Fits reading w f = f
  fail-Fits writing w f = f
  fail-Fits (testing want mode) w f = f
  fail-Fits (trying read mode value) w f = f
  fail-Fits (trying read_low mode value) w f = f
  fail-Fits (undoing want mode) w f = f
  fail-Fits raising w f = f
  fail-Fits lowering w f = f

  share-Fits :
      (want : Want) (mode : Mode) (w : ℕ)
      → (passes want w ≡ true → x ≡ 0)
      → Fits r u x a (w, idle)
      → Fits r u x a (share want mode w)
  unfolding share
  share-Fits want mode w free f = elim (Bool-cases (passes want w)) [
    | inr shut ↦
        rw shut
          record { word = omega (arith, f.word, f.one); one = f.one; alone = f.alone; tested = tt }
    | inl met ↦ rw met record {
      word = omega (arith, f.word, f.one);
      one = f.one;
      alone = inl (ground (arith, free met));
      tested = tt;
    }
  ]

  read_free : (w : ℕ) → Fits r u x a (w, idle) → passes read w ≡ true → x ≡ 0
  unfolding passes
  read_free w f h =
      (test_lock_shared_iff r u x (omega arith) (omega arith) (omega (arith, f.one))).0
        (ground (arith, h, f.word))

  read_low_free : (w : ℕ) → Fits r u x a (w, idle) → passes read_low w ≡ true → x ≡ 0
  unfolding passes
  read_low_free w f h =
      ((test_lock_shared_low_iff r u x (omega arith) (omega arith) (omega (arith, f.one))).0
        (ground (arith, h, f.word))).1

  trying-Fits :
      (want : Want) (mode : Mode) (w : ℕ)
      → passes want w ≡ true
      → Fits r u x a (w, idle)
      → Fits r u x a (w, trying want mode w)
  unfolding passes test_lock
  trying-Fits write mode w h f = record {
    word = f.word;
    one = f.one;
    alone = f.alone;
    tested = ground (arith, h);
  }
  trying-Fits read mode w h f = record { word = f.word; one = f.one; alone = f.alone; tested = tt }
  trying-Fits read_low mode w h f = record {
    word = f.word;
    one = f.one;
    alone = f.alone;
    tested = tt;
  }

  run-Fits : (t : Thread) (w : ℕ) → Fits r u x a (w, t) → Fits r u x a (run w t)
  unfolding run
  run-Fits idle w f = f
  run-Fits reading w f = f
  run-Fits writing w f = f
  run-Fits (testing want mode) w f =
      let g : Fits r u x a (w, idle) = record {
        word = f.word;
        one = f.one;
        alone = f.alone;
        tested = tt;
      } in
      elim (Bool-cases (passes want w)) [
        | inr shut ↦ rw shut (refused-Fits want mode w g)
        | inl met ↦ rw met (trying-Fits want mode w met g)
      ]
  run-Fits (trying write mode value) w f = elim (Bool-cases (eqb w value)) [
    | inr other ↦ rw other (
        refused-Fits write mode w
          record { word = f.word; one = f.one; alone = f.alone; tested = tt })
    | inl same ↦ rw same record {
      word = ground (arith, same, f.word, f.tested, f.one);
      one = ground (arith, same, f.word, f.tested, f.one);
      alone = inr (ground (arith, same, f.word, f.tested));
      tested = tt;
    }
  ]
  run-Fits (trying read mode value) w f =
      let g : Fits r u x a (w, idle) = record {
        word = f.word;
        one = f.one;
        alone = f.alone;
        tested = tt;
      } in
      share-Fits read mode w (read_free w g) g
  run-Fits (trying read_low mode value) w f =
      let g : Fits r u x a (w, idle) = record {
        word = f.word;
        one = f.one;
        alone = f.alone;
        tested = tt;
      } in
      share-Fits read_low mode w (read_low_free w g) g
  run-Fits (undoing want mode) w f =
      refused-Fits want mode (fetch_sub reader w)
        record { word = omega (arith, f.word, f.one); one = f.one; alone = f.alone; tested = tt }
  run-Fits raising w f = elim (Bool-cases (test_upgrade w)) [
    | inr wait ↦ rw wait f
    | inl met ↦ rw met record { word = f.word; one = f.one; alone = f.alone; tested = met }
  ]
  run-Fits (swapping value) w f = elim (Bool-cases (eqb w value)) [
    | inr other ↦ rw other record { word = f.word; one = f.one; alone = f.alone; tested = tt }
    | inl same ↦
        let met =
          (test_upgrade_iff (r + 1) (u + 1) x room (omega arith) (omega (arith, f.one))).0
            (ground (arith, same, f.tested, f.word)) in
        rw same record {
          word = ground (arith, same, f.word, met);
          one = ground (arith, met);
          alone = inr (ground (arith, met));
          tested = tt;
        }
  ]
  run-Fits lowering w f = record {
    word = omega (arith, f.word, f.one, bit_xor-1 w);
    one = omega (arith, f.one);
    alone = inl (omega (arith, f.one));
    tested = tt;
  }

  pub step-Fits : (e : Event) (w : ℕ) (t : Thread) → Fits r u x a (w, t) → Fits r u x a (step e w t)
  unfolding step
  step-Fits (calls c) w t f = call-Fits t c w f
  step-Fits runs w t f = run-Fits t w f
  step-Fits fails w t f = fail-Fits t w f
