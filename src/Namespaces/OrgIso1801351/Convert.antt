-- ===== src/Namespaces/OrgIso1801351/Convert.antt =====
-- What the derive macros make of the `org.iso.18013.5.1` namespace
-- (src/definitions/namespaces/org_iso_18013_5_1/mod.rs). The crates time and base64 are parameters.
use isomdl.Prelude.{ℕ, List, [], ◌∷◌, Option, returns}
use isomdl.Prelude.Text.{Text, codes}
use isomdl.Prelude.Int.{pos}
use isomdl.Prelude.Map.{Map, text_ord}
use isomdl.Cbor.{Bytes, Value, text, bytes, integer}
use isomdl.FromJson.{
  Json, Reading, implement, safely, optional, option_from_map, string_from_json, u32_from_json,
  byte_str_from_json,
}
use isomdl.Derive.FromJson.{Conversions, struct, ◌▷◌, plain}
use isomdl.Derive.FromJson
use isomdl.Derive.ToCbor.{Insertion, always, if_some, many}
use isomdl.Derive.ToCbor
use isomdl.Namespaces.FullDate.{Dates}
use isomdl.Namespaces.FullDate
use isomdl.Namespaces.Prefixed.{as_value}
use isomdl.Namespaces.Latin1.{Latin1}
use isomdl.Namespaces.Latin1
use isomdl.Namespaces.Dates.{DateTimes, TDate, TDateOrFullDate}
use isomdl.Namespaces.Dates
use isomdl.Namespaces.Alpha2.Json
use isomdl.Namespaces.DrivingPrivileges.{privileges_from_json, privileges_to_cbor}
use isomdl.Namespaces.UnDistinguishingSign.{UnDistinguishingSign}
use isomdl.Namespaces.UnDistinguishingSign
use isomdl.Namespaces.Sex.{Sex}
use isomdl.Namespaces.Sex
use isomdl.Namespaces.EyeColour.{EyeColour}
use isomdl.Namespaces.EyeColour
use isomdl.Namespaces.HairColour.{HairColour}
use isomdl.Namespaces.HairColour
use isomdl.Namespaces.AgeOver.{AgeOver}
use isomdl.Namespaces.AgeOver
use isomdl.Namespaces.BiometricTemplate.{BiometricTemplate}
use isomdl.Namespaces.BiometricTemplate
use isomdl.Namespaces.IssuingJurisdiction
use isomdl.Namespaces.OrgIso1801351.{OrgIso1801351, make_elements}

-- a number as the conversion to CBOR writes it
abbrev pub number_value : ℕ → Value
number_value n = integer (pos n)

module _ (dates : Dates) where
  unfoldable pub elements_insertions : OrgIso1801351 dates → List Insertion
  elements_insertions r =
      always (codes "family_name") (Latin1.to_cbor r.family_name)
      ∷ always (codes "given_name") (Latin1.to_cbor r.given_name)
      ∷ always (codes "birth_date") (FullDate.to_cbor dates r.birth_date)
      ∷ always (codes "issue_date") (Dates.either_to_cbor dates r.issue_date)
      ∷ always (codes "expiry_date") (Dates.either_to_cbor dates r.expiry_date)
      ∷ always (codes "issuing_country") (Json.to_cbor r.issuing_country)
      ∷ always (codes "issuing_authority") (Latin1.to_cbor r.issuing_authority)
      ∷ always (codes "document_number") (Latin1.to_cbor r.document_number)
      ∷ always (codes "portrait") (bytes r.portrait)
      ∷ always (codes "driving_privileges") (privileges_to_cbor dates r.driving_privileges)
      ∷ always (codes "un_distinguishing_sign")
          (UnDistinguishingSign.Json.to_cbor r.un_distinguishing_sign)
      ∷ if_some (codes "administrative_number") (as_value Latin1.to_cbor r.administrative_number)
      ∷ if_some (codes "sex") (as_value Sex.to_cbor r.sex)
      ∷ if_some (codes "height") (as_value number_value r.height)
      ∷ if_some (codes "weight") (as_value number_value r.weight)
      ∷ if_some (codes "eye_colour") (as_value EyeColour.to_cbor r.eye_colour)
      ∷ if_some (codes "hair_colour") (as_value HairColour.to_cbor r.hair_colour)
      ∷ if_some (codes "birth_place") (as_value Latin1.to_cbor r.birth_place)
      ∷ if_some (codes "resident_address") (as_value Latin1.to_cbor r.resident_address)
      ∷ if_some (codes "portrait_capture_date") (as_value Dates.to_cbor r.portrait_capture_date)
      ∷ if_some (codes "age_in_years") (as_value number_value r.age_in_years)
      ∷ if_some (codes "age_birth_year") (as_value number_value r.age_birth_year)
      ∷ many (AgeOver.to_ns_map r.age_over_xx)
      ∷ if_some (codes "issuing_jurisdiction")
          (as_value IssuingJurisdiction.to_cbor r.issuing_jurisdiction)
      ∷ if_some (codes "nationality") (as_value Json.to_cbor r.nationality)
      ∷ if_some (codes "resident_city") (as_value Latin1.to_cbor r.resident_city)
      ∷ if_some (codes "resident_state") (as_value Latin1.to_cbor r.resident_state)
      ∷ if_some (codes "resident_postal_code") (as_value Latin1.to_cbor r.resident_postal_code)
      ∷ if_some (codes "resident_country") (as_value Json.to_cbor r.resident_country)
      ∷ many (BiometricTemplate.to_ns_map r.biometric_template_xx)
      ∷ if_some (codes "family_name_national_character")
          (as_value text r.family_name_national_character)
      ∷ if_some (codes "given_name_national_character")
          (as_value text r.given_name_national_character)
      ∷ if_some (codes "signature_usual_mark") (as_value bytes r.signature_usual_mark)
      ∷ []

  unfoldable pub elements_to_ns_map : OrgIso1801351 dates → Map Text Value
  unfolding elements_insertions ToCbor.to_ns_map
  elements_to_ns_map r = ToCbor.to_ns_map (elements_insertions r)

  unfoldable pub elements_to_cbor : OrgIso1801351 dates → Value
  unfolding elements_insertions ToCbor.to_cbor
  elements_to_cbor r = ToCbor.to_cbor (elements_insertions r)

module _ (dates : Dates) (times : DateTimes) (decode : Text → Option Bytes) where
  unfoldable pub elements_fields : Conversions (OrgIso1801351 dates)
  unfolding make_elements
  elements_fields =
      struct (make_elements dates)
      ▷ (codes "family_name", plain (safely Latin1.from_json) (codes "family_name"))
      ▷ (codes "given_name", plain (safely Latin1.from_json) (codes "given_name"))
      ▷ (codes "birth_date", plain (safely (FullDate.from_json dates)) (codes "birth_date"))
      ▷ (
        codes "issue_date",
        plain (implement (Dates.either_from_json times dates)) (codes "issue_date"),
      )
      ▷ (
        codes "expiry_date",
        plain (implement (Dates.either_from_json times dates)) (codes "expiry_date"),
      )
      ▷ (codes "issuing_country", plain (safely Json.from_json) (codes "issuing_country"))
      ▷ (codes "issuing_authority", plain (safely Latin1.from_json) (codes "issuing_authority"))
      ▷ (codes "document_number", plain (safely Latin1.from_json) (codes "document_number"))
      ▷ (codes "portrait", plain (safely (byte_str_from_json decode)) (codes "portrait"))
      ▷ (
        codes "driving_privileges",
        plain (implement (privileges_from_json dates)) (codes "driving_privileges"),
      )
      ▷ (
        codes "un_distinguishing_sign",
        plain (safely UnDistinguishingSign.Json.from_json) (codes "un_distinguishing_sign"),
      )
      ▷ (
        codes "administrative_number",
        plain (optional (safely Latin1.from_json)) (codes "administrative_number"),
      )
      ▷ (codes "sex", plain (optional (safely Sex.from_json)) (codes "sex"))
      ▷ (codes "height", plain (optional (safely u32_from_json)) (codes "height"))
      ▷ (codes "weight", plain (optional (safely u32_from_json)) (codes "weight"))
      ▷ (codes "eye_colour", plain (optional (safely EyeColour.from_json)) (codes "eye_colour"))
      ▷ (codes "hair_colour", plain (optional (safely HairColour.from_json)) (codes "hair_colour"))
      ▷ (codes "birth_place", plain (optional (safely Latin1.from_json)) (codes "birth_place"))
      ▷ (
        codes "resident_address",
        plain (optional (safely Latin1.from_json)) (codes "resident_address"),
      )
      ▷ (
        codes "portrait_capture_date",
        plain (optional (implement (Dates.from_json times))) (codes "portrait_capture_date"),
      )
      ▷ (codes "age_in_years", plain (optional (safely u32_from_json)) (codes "age_in_years"))
      ▷ (codes "age_birth_year", plain (optional (safely u32_from_json)) (codes "age_birth_year"))
      ▷ (codes "age_over_xx", λ map. returns (AgeOver.from_map map))
      ▷ (
        codes "issuing_jurisdiction",
        λ map. returns (option_from_map IssuingJurisdiction.from_map map),
      )
      ▷ (codes "nationality", plain (optional (safely Json.from_json)) (codes "nationality"))
      ▷ (codes "resident_city", plain (optional (safely Latin1.from_json)) (codes "resident_city"))
      ▷ (
        codes "resident_state",
        plain (optional (safely Latin1.from_json)) (codes "resident_state"),
      )
      ▷ (
        codes "resident_postal_code",
        plain (optional (safely Latin1.from_json)) (codes "resident_postal_code"),
      )
      ▷ (
        codes "resident_country",
        plain (optional (safely Json.from_json)) (codes "resident_country"),
      )
      ▷ (codes "biometric_template_xx", λ map. returns (BiometricTemplate.from_map decode map))
      ▷ (
        codes "family_name_national_character",
        plain (optional (safely string_from_json)) (codes "family_name_national_character"),
      )
      ▷ (
        codes "given_name_national_character",
        plain (optional (safely string_from_json)) (codes "given_name_national_character"),
      )
      ▷ (
        codes "signature_usual_mark",
        plain (optional (safely (byte_str_from_json decode))) (codes "signature_usual_mark"),
      )

  unfoldable pub elements_from_json : Json → Reading (OrgIso1801351 dates)
  unfolding elements_fields FromJson.from_json
  elements_from_json = FromJson.from_json elements_fields
