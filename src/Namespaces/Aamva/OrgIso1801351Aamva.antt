-- ===== src/Namespaces/Aamva/OrgIso1801351Aamva.antt =====
-- The `org.iso.18013.5.1.aamva` namespace (src/definitions/namespaces/org_iso_18013_5_1_aamva/mod.rs),
-- with what the derive macros make of it.
pub mod Read
use isomdl.Prelude.{ℕ, ◌≡◌, refl, List, [], ◌∷◌, map, Option, none, some, returns}
use isomdl.Prelude.Text.{Text, codes}
use isomdl.Prelude.Int.{pos}
use isomdl.Prelude.Map.{Map, text_ord}
use isomdl.Cbor.{Bytes, Value, text, bytes, integer, array, items_of}
use isomdl.FromJson.{
  Json, Reading, implement, safely, optional, option_from_map, string_from_json, u32_from_json,
  byte_str_from_json, vec_from_json, non_empty_vec_from_json,
}
use isomdl.Helpers.NonEmptyVec.{NonEmptyVec, into_inner}
use isomdl.Derive.FromJson.{Conversions, struct, ◌▷◌, plain}
use isomdl.Derive.FromJson
use isomdl.Derive.ToCbor.{Insertion, always, if_some, many}
use isomdl.Derive.ToCbor
use isomdl.Namespaces.FullDate.{Dates}
use isomdl.Namespaces.FullDate
use isomdl.Namespaces.Prefixed.{as_value}
use isomdl.Namespaces.Latin1.{Latin1}
use isomdl.Namespaces.Latin1
use isomdl.Namespaces.Aamva.DomesticDrivingPrivileges.{
  DomesticDrivingPrivileges, privileges_from_json, privileges_to_cbor,
}
use isomdl.Namespaces.Aamva.CountyCode.{CountyCode}
use isomdl.Namespaces.Aamva.CountyCode
use isomdl.Namespaces.Aamva.DhsCompliance.{DhsCompliance}
use isomdl.Namespaces.Aamva.DhsCompliance
use isomdl.Namespaces.Aamva.EdlIndicator.{EdlIndicator}
use isomdl.Namespaces.Aamva.EdlIndicator
use isomdl.Namespaces.Aamva.NameSuffix.{NameSuffix}
use isomdl.Namespaces.Aamva.NameSuffix
use isomdl.Namespaces.Aamva.NameTruncation.{NameTruncation}
use isomdl.Namespaces.Aamva.NameTruncation
use isomdl.Namespaces.Aamva.Present.{Present}
use isomdl.Namespaces.Aamva.Present
use isomdl.Namespaces.Aamva.RaceAndEthnicity.{RaceAndEthnicity}
use isomdl.Namespaces.Aamva.RaceAndEthnicity
use isomdl.Namespaces.Aamva.Sex.{Sex}
use isomdl.Namespaces.Aamva.Sex
use isomdl.Namespaces.Aamva.WeightRange.{WeightRange}
use isomdl.Namespaces.Aamva.WeightRange

module _ (dates : Dates) where
  open dates use {Date}

  pub record OrgIso1801351Aamva : Type 0 where
    pub domestic_driving_privileges : DomesticDrivingPrivileges dates
    pub name_suffix : Option NameSuffix
    pub organ_donor : Option Present
    pub veteran : Option Present
    pub family_name_truncation : NameTruncation
    pub given_name_truncation : NameTruncation
    pub aka_family_name_v2 : Option Latin1
    pub aka_given_name_v2 : Option Latin1
    pub aka_suffix : Option NameSuffix
    pub weight_range : Option WeightRange
    pub race_ethnicity : Option RaceAndEthnicity
    pub edl_credential : Option EdlIndicator
    pub sex : Sex
    pub dhs_compliance : DhsCompliance
    pub resident_county : Option CountyCode
    pub hazmat_endorsement_expiration_date : Option Date
    pub cdl_indicator : Option Present
    pub dhs_compliance_text : Option Text
    pub dhs_temporary_lawful_status : Option Present

  make_elements :
      DomesticDrivingPrivileges dates
      → Option NameSuffix
      → Option Present
      → Option Present
      → NameTruncation
      → NameTruncation
      → Option Latin1
      → Option Latin1
      → Option NameSuffix
      → Option WeightRange
      → Option RaceAndEthnicity
      → Option EdlIndicator
      → Sex
      → DhsCompliance
      → Option CountyCode
      → Option Date
      → Option Present
      → Option Text
      → Option Present
      → OrgIso1801351Aamva
  make_elements domestic_driving_privileges name_suffix organ_donor veteran family_name_truncation
        given_name_truncation aka_family_name_v2 aka_given_name_v2 aka_suffix weight_range
        race_ethnicity edl_credential sex dhs_compliance resident_county
        hazmat_endorsement_expiration_date cdl_indicator dhs_compliance_text
        dhs_temporary_lawful_status =
      record {
        domestic_driving_privileges = domestic_driving_privileges;
        name_suffix = name_suffix;
        organ_donor = organ_donor;
        veteran = veteran;
        family_name_truncation = family_name_truncation;
        given_name_truncation = given_name_truncation;
        aka_family_name_v2 = aka_family_name_v2;
        aka_given_name_v2 = aka_given_name_v2;
        aka_suffix = aka_suffix;
        weight_range = weight_range;
        race_ethnicity = race_ethnicity;
        edl_credential = edl_credential;
        sex = sex;
        dhs_compliance = dhs_compliance;
        resident_county = resident_county;
        hazmat_endorsement_expiration_date = hazmat_endorsement_expiration_date;
        cdl_indicator = cdl_indicator;
        dhs_compliance_text = dhs_compliance_text;
        dhs_temporary_lawful_status = dhs_temporary_lawful_status;
      }

  unfoldable pub elements_fields : Conversions OrgIso1801351Aamva
  unfolding make_elements
  elements_fields =
      struct make_elements
      ▷ (
        codes "domestic_driving_privileges",
        plain (implement (privileges_from_json dates)) (codes "domestic_driving_privileges"),
      )
      ▷ (codes "name_suffix", plain (optional (safely NameSuffix.from_json)) (codes "name_suffix"))
      ▷ (codes "organ_donor", plain (optional (safely Present.from_json)) (codes "organ_donor"))
      ▷ (codes "veteran", plain (optional (safely Present.from_json)) (codes "veteran"))
      ▷ (
        codes "family_name_truncation",
        plain (safely NameTruncation.from_json) (codes "family_name_truncation"),
      )
      ▷ (
        codes "given_name_truncation",
        plain (safely NameTruncation.from_json) (codes "given_name_truncation"),
      )
      ▷ (
        codes "aka_family_name.v2",
        plain (optional (safely Latin1.from_json)) (codes "aka_family_name.v2"),
      )
      ▷ (
        codes "aka_given_name.v2",
        plain (optional (safely Latin1.from_json)) (codes "aka_given_name.v2"),
      )
      ▷ (codes "aka_suffix", plain (optional (safely NameSuffix.from_json)) (codes "aka_suffix"))
      ▷ (
        codes "weight_range",
        plain (optional (safely WeightRange.from_json)) (codes "weight_range"),
      )
      ▷ (
        codes "race_ethnicity",
        plain (optional (safely RaceAndEthnicity.from_json)) (codes "race_ethnicity"),
      )
      ▷ (
        codes "EDL_credential",
        plain (optional (safely EdlIndicator.from_json)) (codes "EDL_credential"),
      )
      ▷ (codes "sex", plain (safely Sex.from_json) (codes "sex"))
      ▷ (codes "DHS_compliance", plain (safely DhsCompliance.from_json) (codes "DHS_compliance"))
      ▷ (
        codes "resident_county",
        plain (optional (safely CountyCode.from_json)) (codes "resident_county"),
      )
      ▷ (
        codes "hazmat_endorsement_expiration_date",
        plain (optional (safely (FullDate.from_json dates)))
            (codes "hazmat_endorsement_expiration_date"),
      )
      ▷ (codes "CDL_indicator", plain (optional (safely Present.from_json)) (codes "CDL_indicator"))
      ▷ (
        codes "DHS_compliance_text",
        plain (optional (safely string_from_json)) (codes "DHS_compliance_text"),
      )
      ▷ (
        codes "DHS_temporary_lawful_status",
        plain (optional (safely Present.from_json)) (codes "DHS_temporary_lawful_status"),
      )

  unfoldable pub elements_from_json : Json → Reading OrgIso1801351Aamva
  unfolding elements_fields FromJson.from_json
  elements_from_json = FromJson.from_json elements_fields

  unfoldable pub elements_insertions : OrgIso1801351Aamva → List Insertion
  elements_insertions r =
      always (codes "domestic_driving_privileges")
        (privileges_to_cbor dates r.domestic_driving_privileges)
      ∷ if_some (codes "name_suffix") (as_value NameSuffix.to_cbor r.name_suffix)
      ∷ if_some (codes "organ_donor") (as_value Present.to_cbor r.organ_donor)
      ∷ if_some (codes "veteran") (as_value Present.to_cbor r.veteran)
      ∷ always (codes "family_name_truncation") (NameTruncation.to_cbor r.family_name_truncation)
      ∷ always (codes "given_name_truncation") (NameTruncation.to_cbor r.given_name_truncation)
      ∷ if_some (codes "aka_family_name.v2") (as_value Latin1.to_cbor r.aka_family_name_v2)
      ∷ if_some (codes "aka_given_name.v2") (as_value Latin1.to_cbor r.aka_given_name_v2)
      ∷ if_some (codes "aka_suffix") (as_value NameSuffix.to_cbor r.aka_suffix)
      ∷ if_some (codes "weight_range") (as_value WeightRange.to_cbor r.weight_range)
      ∷ if_some (codes "race_ethnicity") (as_value RaceAndEthnicity.to_cbor r.race_ethnicity)
      ∷ if_some (codes "EDL_credential") (as_value EdlIndicator.to_cbor r.edl_credential)
      ∷ always (codes "sex") (Sex.to_cbor r.sex)
      ∷ always (codes "DHS_compliance") (DhsCompliance.to_cbor r.dhs_compliance)
      ∷ if_some (codes "resident_county") (as_value CountyCode.to_cbor r.resident_county)
      ∷ if_some (codes "hazmat_endorsement_expiration_date")
          (as_value (FullDate.to_cbor dates) r.hazmat_endorsement_expiration_date)
      ∷ if_some (codes "CDL_indicator") (as_value Present.to_cbor r.cdl_indicator)
      ∷ if_some (codes "DHS_compliance_text") (as_value text r.dhs_compliance_text)
      ∷ if_some (codes "DHS_temporary_lawful_status")
          (as_value Present.to_cbor r.dhs_temporary_lawful_status)
      ∷ []

  unfoldable pub elements_to_ns_map : OrgIso1801351Aamva → Map Text Value
  unfolding elements_insertions ToCbor.to_ns_map
  elements_to_ns_map r = ToCbor.to_ns_map (elements_insertions r)

  unfoldable pub elements_to_cbor : OrgIso1801351Aamva → Value
  unfolding elements_insertions ToCbor.to_cbor
  elements_to_cbor r = ToCbor.to_cbor (elements_insertions r)
