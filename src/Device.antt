-- ===== src/Device.antt =====
-- src/presentation/device.rs: the holder's side of a session.
pub mod Establish
pub mod Filter
pub mod Types
pub mod FromMdoc
pub mod Prepare
pub mod Signing
pub mod Manager
pub mod AgeAttestation
