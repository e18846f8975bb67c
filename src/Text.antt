-- ===== src/Text.antt =====
-- The text helpers of src/misc.
pub mod Split
