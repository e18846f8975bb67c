-- ===== src/Thread/RwSpinLock.antt =====
-- `RWSpinLock` of src/thread/SpinLock.h, with threads that share one lock. Each atomic instruction is
-- one step, and the steps of the threads interleave in any order. The word is the 32-bit pattern of
-- the `int32_t`.
pub mod Words
pub mod Exclusion
pub mod Threads
use prpc.Base.{
  ℕ, zero, suc, ◌+◌, ◌-◌, ◌*◌, ◌/◌, ◌%◌, ◌^◌, Bool, true, false, ◌&&◌, List, [], ◌∷◌, eqb, ltb, leb,
  if◌then◌else◌,
}
use prpc.Base.Bits.{bit_and, bit_xor}

abbrev pub upgrader : ℕ
upgrader = 65536

abbrev pub reader : ℕ
reader = 2

abbrev pub writer : ℕ
writer = 1

unfoldable pub test_lock : ℕ → Bool
test_lock value = eqb value 0

unfoldable pub test_lock_shared : ℕ → Bool
test_lock_shared value = eqb (bit_and value writer) 0

-- a pattern of 2 ^ 31 or more is negative
unfoldable pub test_lock_shared_low : ℕ → Bool
test_lock_shared_low value =
    (if leb (2 ^ 31) value then true else ltb value upgrader) && eqb (bit_and value writer) 0

-- `/` and `%` round to 0, so that both sides have the sign of the value
unfoldable pub test_upgrade : ℕ → Bool
test_upgrade value =
    let size = if leb (2 ^ 31) value then 2 ^ 32 - value else value in
    eqb (bit_and value writer) 0 && eqb (size / upgrader) (size % upgrader / reader)

abbrev pub fetch_add : ℕ → ℕ → ℕ
fetch_add k value = (value + k) % 2 ^ 32

abbrev pub fetch_sub : ℕ → ℕ → ℕ
fetch_sub k value = (value + (2 ^ 32 - k)) % 2 ^ 32

-- What `ttas` is called for, and whether the call waits or tries once.
pub data Want : Type 0 where
  write read read_low : Want

pub data Mode : Type 0 where
  waits once : Mode

-- Where a thread stands. `testing`: before it loads the word. `trying`: with a value that passed the
-- test. `undoing`: with a reader to take back. `raising` and `swapping`: in `upgrade`, after the first
-- instruction. `lowering`: between the two instructions of `downgrade`.
pub data Thread : Type 0 where
  idle : Thread
  testing : Want → Mode → Thread
  trying : Want → Mode → ℕ → Thread
  undoing : Want → Mode → Thread
  reading : Thread
  raising : Thread
  swapping : ℕ → Thread
  writing : Thread
  lowering : Thread

-- `acquires` has the six methods that take the lock: `lock`, `lock_shared` and `lock_shared_low`, which
-- wait, and `try_lock`, `try_lock_shared` and `try_lock_shared_low`, which try once.
pub data Call : Type 0 where
  acquires : Want → Mode → Call
  unlock unlock_shared upgrade downgrade try_upgrade : Call

-- A thread starts a call, runs its next instruction, or has a weak exchange fail for no reason.
pub data Event : Type 0 where
  calls : Call → Event
  runs : Event
  fails : Event

unfoldable pub passes : Want → ℕ → Bool
unfolding test_lock test_lock_shared test_lock_shared_low
passes write value = test_lock value
passes read value = test_lock_shared value
passes read_low value = test_lock_shared_low value

abbrev pub refused : Want → Mode → Thread
refused want waits = testing want waits
refused want once = idle

-- `fetch_add(READER)`, and the test of what was there
unfoldable pub share : Want → Mode → ℕ → ℕ × Thread
unfolding passes
share want mode word =
    (fetch_add reader word, if passes want word then reading else undoing want mode)

-- The next instruction of a thread inside a call.
unfoldable pub run : ℕ → Thread → ℕ × Thread
unfolding passes share test_upgrade
run word (testing want mode) =
    (word, if passes want word then trying want mode word else refused want mode)
run word (trying write mode value) =
    if eqb word value then (writer, writing) else (word, refused write mode)
run word (trying read mode value) = share read mode word
run word (trying read_low mode value) = share read_low mode word
run word (undoing want mode) = (fetch_sub reader word, refused want mode)
run word raising = (word, if test_upgrade word then swapping word else raising)
run word (swapping value) =
    if eqb word value
    then (fetch_sub (upgrader + reader - writer) value, writing)
    else (word, raising)
run word lowering = (bit_xor word writer, reading)
run word t = (word, t)

-- A call by a thread that holds what the call needs; any other thread does nothing.
unfoldable pub call : ℕ → Thread → Call → ℕ × Thread
call word idle (acquires want mode) = (word, testing want mode)
call word reading unlock_shared = (fetch_sub reader word, idle)
call word reading upgrade = (fetch_add upgrader word, raising)
call word reading try_upgrade = if eqb word reader then (writer, writing) else (word, reading)
call word writing unlock = (bit_xor word writer, idle)
call word writing downgrade = (fetch_add reader word, lowering)
call word t c = (word, t)

-- `compare_exchange_weak` may fail where the values agree
unfoldable pub fail : ℕ → Thread → ℕ × Thread
fail word (trying write mode value) = (word, refused write mode)
fail word (swapping value) = (word, raising)
fail word t = (word, t)

unfoldable pub step : Event → ℕ → Thread → ℕ × Thread
unfolding call run fail
step (calls c) word t = call word t c
step runs word t = run word t
step fails word t = fail word t

-- A step of the thread at `i`.
unfoldable pub act : ℕ → Event → ℕ → List Thread → ℕ × List Thread
unfolding step
act i e word [] = (word, [])
act zero e word (t ∷ ts) = let (word', t') = step e word t in (word', t' ∷ ts)
act (suc i) e word (t ∷ ts) = let (word', ts') = act i e word ts in (word', t ∷ ts')

unfoldable pub schedule : List (ℕ × Event) → ℕ → List Thread → ℕ × List Thread
unfolding act
schedule [] word ts = (word, ts)
schedule ((i, e) ∷ es) word ts = let (word', ts') = act i e word ts in schedule es word' ts'
