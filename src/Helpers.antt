-- ===== src/Helpers.antt =====
-- src/definitions/helpers: containers that are never empty, and CBOR embedded under tag 24.
pub mod NonEmptyVec
pub mod NonEmptyMap
pub mod Tag24
