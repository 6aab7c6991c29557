-- ===== src/Namespaces/OrgIso1801351/Written.antt =====
-- What stands in the map of the `org.iso.18013.5.1` namespace
-- (src/definitions/namespaces/org_iso_18013_5_1/mod.rs).
use isomdl.Prelude.{◌≡◌, false, ◌∙◌, some, none}
use isomdl.Prelude.Text.{Text, codes, text_eq}
use isomdl.Prelude.Map.{Map, get, last, or_else-none, text_ord}
use isomdl.Cbor.{Value, text, bytes}
use isomdl.Derive.ToCbor.{last_written, get-to_ns_map}
use isomdl.Namespaces.Latin1
use isomdl.Namespaces.FullDate.{Dates}
use isomdl.Namespaces.FullDate
use isomdl.Namespaces.Dates
use isomdl.Namespaces.Alpha2.Json
use isomdl.Namespaces.DrivingPrivileges.{privileges_to_cbor}
use isomdl.Namespaces.UnDistinguishingSign
use isomdl.Namespaces.Sex
use isomdl.Namespaces.EyeColour
use isomdl.Namespaces.HairColour
use isomdl.Namespaces.IssuingJurisdiction
use isomdl.Namespaces.AgeOver
use isomdl.Namespaces.AgeOver.{AgeOver}
use isomdl.Namespaces.BiometricTemplate
use isomdl.Namespaces.BiometricTemplate.{BiometricTemplate}
use isomdl.Namespaces.Prefixed.{as_value, last-collect-none}
use isomdl.Namespaces.OrgIso1801351.{OrgIso1801351}
use isomdl.Namespaces.OrgIso1801351.Convert.{number_value, elements_insertions, elements_to_ns_map}

module _ (k : Text) where
  no_age :
      (m : AgeOver)
      → ((a : AgeOver.Age) → text_eq (AgeOver.write_key a) k ≡ false)
      → last k (AgeOver.to_ns_map m) ≡ none
  unfolding AgeOver.to_ns_map
  no_age m apart = last-collect-none AgeOver.write_key _ k m apart

  pub no_template :
      (m : BiometricTemplate)
      → ((a : Text) → text_eq (BiometricTemplate.write_key a) k ≡ false)
      → last k (BiometricTemplate.to_ns_map m) ≡ none
  unfolding BiometricTemplate.to_ns_map
  no_template m apart = last-collect-none BiometricTemplate.write_key _ k m apart

ruleset other_names = (or_else-none, no_age, no_template)

module _ (dates : Dates) (r : OrgIso1801351 dates) where
  -- the elements that are fields of their own: the mandatory ones, and the others where they are
  pub record IsWritten (map : Map Text Value) : Type 0 where
    pub family_name : get (codes "family_name") map ≡ some (Latin1.to_cbor r.family_name)
    pub given_name : get (codes "given_name") map ≡ some (Latin1.to_cbor r.given_name)
    pub birth_date : get (codes "birth_date") map ≡ some (FullDate.to_cbor dates r.birth_date)
    pub issue_date : get (codes "issue_date") map ≡ some (Dates.either_to_cbor dates r.issue_date)
    pub expiry_date :
        get (codes "expiry_date") map ≡ some (Dates.either_to_cbor dates r.expiry_date)
    pub issuing_country : get (codes "issuing_country") map ≡ some (Json.to_cbor r.issuing_country)
    pub issuing_authority :
        get (codes "issuing_authority") map ≡ some (Latin1.to_cbor r.issuing_authority)
    pub document_number :
        get (codes "document_number") map ≡ some (Latin1.to_cbor r.document_number)
    pub portrait : get (codes "portrait") map ≡ some (bytes r.portrait)
    pub driving_privileges :
        get (codes "driving_privileges") map ≡ some (privileges_to_cbor dates r.driving_privileges)
    pub un_distinguishing_sign :
        get (codes "un_distinguishing_sign") map
        ≡ some (UnDistinguishingSign.Json.to_cbor r.un_distinguishing_sign)
    pub administrative_number :
        get (codes "administrative_number") map ≡ as_value Latin1.to_cbor r.administrative_number
    pub sex : get (codes "sex") map ≡ as_value Sex.to_cbor r.sex
    pub height : get (codes "height") map ≡ as_value number_value r.height
    pub weight : get (codes "weight") map ≡ as_value number_value r.weight
    pub eye_colour : get (codes "eye_colour") map ≡ as_value EyeColour.to_cbor r.eye_colour
    pub hair_colour : get (codes "hair_colour") map ≡ as_value HairColour.to_cbor r.hair_colour
    pub birth_place : get (codes "birth_place") map ≡ as_value Latin1.to_cbor r.birth_place
    pub resident_address :
        get (codes "resident_address") map ≡ as_value Latin1.to_cbor r.resident_address
    pub portrait_capture_date :
        get (codes "portrait_capture_date") map ≡ as_value Dates.to_cbor r.portrait_capture_date
    pub age_in_years : get (codes "age_in_years") map ≡ as_value number_value r.age_in_years
    pub age_birth_year : get (codes "age_birth_year") map ≡ as_value number_value r.age_birth_year
    pub issuing_jurisdiction :
        get (codes "issuing_jurisdiction") map
        ≡ as_value IssuingJurisdiction.to_cbor r.issuing_jurisdiction
    pub nationality : get (codes "nationality") map ≡ as_value Json.to_cbor r.nationality
    pub resident_city : get (codes "resident_city") map ≡ as_value Latin1.to_cbor r.resident_city
    pub resident_state : get (codes "resident_state") map ≡ as_value Latin1.to_cbor r.resident_state
    pub resident_postal_code :
        get (codes "resident_postal_code") map ≡ as_value Latin1.to_cbor r.resident_postal_code
    pub resident_country :
        get (codes "resident_country") map ≡ as_value Json.to_cbor r.resident_country
    pub family_name_national_character :
        get (codes "family_name_national_character") map
        ≡ as_value text r.family_name_national_character
    pub given_name_national_character :
        get (codes "given_name_national_character") map
        ≡ as_value text r.given_name_national_character
    pub signature_usual_mark :
        get (codes "signature_usual_mark") map ≡ as_value bytes r.signature_usual_mark

  written :
      (k : Text) → get k (elements_to_ns_map dates r) ≡ last_written k (elements_insertions dates r)
  unfolding elements_to_ns_map
  written k = get-to_ns_map k (elements_insertions dates r)

  -- Every mandatory element stands in the namespace's map, every other one exactly when the struct
  -- has it, each under its own name and with its own value.
  pub elements_to_ns_map-IsWritten : IsWritten (elements_to_ns_map dates r)
  unfolding elements_insertions text_eq AgeOver.write_key BiometricTemplate.write_key
  elements_to_ns_map-IsWritten = record {
    family_name = written (codes "family_name") ∙ simp other_names;
    given_name = written (codes "given_name") ∙ simp other_names;
    birth_date = written (codes "birth_date") ∙ simp other_names;
    issue_date = written (codes "issue_date") ∙ simp other_names;
    expiry_date = written (codes "expiry_date") ∙ simp other_names;
    issuing_country = written (codes "issuing_country") ∙ simp other_names;
    issuing_authority = written (codes "issuing_authority") ∙ simp other_names;
    document_number = written (codes "document_number") ∙ simp other_names;
    portrait = written (codes "portrait") ∙ simp other_names;
    driving_privileges = written (codes "driving_privileges") ∙ simp other_names;
    un_distinguishing_sign = written (codes "un_distinguishing_sign") ∙ simp other_names;
    administrative_number = written (codes "administrative_number") ∙ simp other_names;
    sex = written (codes "sex") ∙ simp other_names;
    height = written (codes "height") ∙ simp other_names;
    weight = written (codes "weight") ∙ simp other_names;
    eye_colour = written (codes "eye_colour") ∙ simp other_names;
    hair_colour = written (codes "hair_colour") ∙ simp other_names;
    birth_place = written (codes "birth_place") ∙ simp other_names;
    resident_address = written (codes "resident_address") ∙ simp other_names;
    portrait_capture_date = written (codes "portrait_capture_date") ∙ simp other_names;
    age_in_years = written (codes "age_in_years") ∙ simp other_names;
    age_birth_year = written (codes "age_birth_year") ∙ simp other_names;
    issuing_jurisdiction = written (codes "issuing_jurisdiction") ∙ simp other_names;
    nationality = written (codes "nationality") ∙ simp other_names;
    resident_city = written (codes "resident_city") ∙ simp other_names;
    resident_state = written (codes "resident_state") ∙ simp other_names;
    resident_postal_code = written (codes "resident_postal_code") ∙ simp other_names;
    resident_country = written (codes "resident_country") ∙ simp other_names;
    family_name_national_character =
        written (codes "family_name_national_character") ∙ simp other_names;
    given_name_national_character =
        written (codes "given_name_national_character") ∙ simp other_names;
    signature_usual_mark = written (codes "signature_usual_mark") ∙ simp other_names;
  }
