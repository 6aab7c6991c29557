-- ===== src/Namespaces.antt =====
-- The data elements of src/definitions/namespaces.
pub mod Arms
pub mod Named
pub mod Digits
pub mod Latin1
pub mod FullDate
pub mod Dates
pub mod Prefixed
pub mod AgeOver
pub mod DrivingPrivileges
pub mod BiometricTemplate
pub mod IssuingJurisdiction
pub mod OrgIso1801351
pub mod Alpha2
pub mod UnDistinguishingSign
pub mod EyeColour
pub mod HairColour
pub mod Sex
pub mod Aamva
