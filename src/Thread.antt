-- ===== src/Thread.antt =====
-- The locks of src/thread.
pub mod MpscQueue
pub mod RwSpinLock
pub mod SpinLock
