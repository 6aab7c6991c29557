-- ===== src/Namespaces/Aamva.antt =====
-- The data elements of src/definitions/namespaces/org_iso_18013_5_1_aamva.
pub mod CountyCode
pub mod DhsCompliance
pub mod DomesticDrivingPrivileges
pub mod OrgIso1801351Aamva
pub mod EdlIndicator
pub mod NameSuffix
pub mod NameTruncation
pub mod Present
pub mod RaceAndEthnicity
pub mod Sex
pub mod WeightRange
