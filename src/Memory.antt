-- ===== src/Memory.antt =====
-- The allocators.
pub mod BlockAllocator
