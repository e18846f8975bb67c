-- ===== src/Tests.antt =====
-- Runs of the definitions at concrete inputs.
pub mod Metadata
pub mod Codecs
pub mod Queues
pub mod Locks
pub mod Accumulators
pub mod Texts
pub mod Peers
pub mod Spins
pub mod Archives
pub mod Caches
pub mod Pipes
pub mod Blocks
