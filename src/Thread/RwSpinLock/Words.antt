-- ===== src/Thread/RwSpinLock/Words.antt =====
-- What the tests of `RWSpinLock` read off a word that counts `r` readers, `u` upgraders and `x`
-- writers, where no count is too large for its bits.
use prpc.Base.{ℕ, ◌+◌, ◌*◌, ◌≡◌, ◌<◌, ◌≤◌, ◌↔◌, true, arith}
use prpc.Base.Bits.{bit_and-1}
use prpc.Thread.RwSpinLock.{
  upgrader, reader, writer, test_lock, test_lock_shared, test_lock_shared_low, test_upgrade,
}

abbrev pub limit : ℕ
limit = 32768

abbrev pub word_of : ℕ → ℕ → ℕ → ℕ
word_of r u x = r * reader + u * upgrader + x * writer

module _ (r u x : ℕ) (fits : r < limit) (less : u ≤ r) (one : x ≤ 1) where
  pub test_lock_iff : (test_lock (word_of r u x) ≡ true) ↔ ((r ≡ 0) × (x ≡ 0))
  unfolding test_lock
  test_lock_iff = ground arith

  pub test_lock_shared_iff : (test_lock_shared (word_of r u x) ≡ true) ↔ (x ≡ 0)
  unfolding test_lock_shared
  test_lock_shared_iff = ground (arith, bit_and-1 (word_of r u x))

  pub test_lock_shared_low_iff : (test_lock_shared_low (word_of r u x) ≡ true) ↔ ((u ≡ 0) × (x ≡ 0))
  unfolding test_lock_shared_low
  test_lock_shared_low_iff = ground (arith, bit_and-1 (word_of r u x))

  pub test_upgrade_iff : (test_upgrade (word_of r u x) ≡ true) ↔ ((r ≡ u) × (x ≡ 0))
  unfolding test_upgrade
  test_upgrade_iff = ground (arith, bit_and-1 (word_of r u x))
