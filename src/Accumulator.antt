-- ===== src/Accumulator.antt =====
-- The accumulators of src/accumulator: statistics that the processes of a cluster send to one server.
pub mod Aggregators
pub mod Server
