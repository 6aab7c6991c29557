-- ===== src/Issuance.antt =====
-- src/issuance: a credential is built, its elements are digested, and it is signed.
pub mod Random
pub mod X5Chain
pub mod Items
pub mod Digests
pub mod Mdoc
pub mod Builder
