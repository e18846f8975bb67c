-- ===== src/Codec.antt =====
-- The codecs of src/codec.
pub mod Base64
pub mod Uri
