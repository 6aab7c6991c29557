-- ===== src/Namespaces/OrgIso1801351/Read.antt =====
-- When a JSON object is read as the `org.iso.18013.5.1` namespace
-- (src/definitions/namespaces/org_iso_18013_5_1/mod.rs).
use isomdl.Prelude.{◌≡◌, ◌↔◌, ap, ◌∙◌, Option, ok, returns, arith}
use isomdl.Prelude.Text.{Text, codes}
use isomdl.Cbor.{Bytes}
use isomdl.FromJson.{
  object, Fields, Object, entries, implement, safely, optional, option_from_map, string_from_json,
  u32_from_json, byte_str_from_json,
}
use isomdl.Derive.FromJson.{plain, from_object}
use isomdl.Derive.FromJson
use isomdl.Derive.FromJson.Exact.{Reads, from_object_exact}
use isomdl.Namespaces.FullDate.{Dates}
use isomdl.Namespaces.FullDate
use isomdl.Namespaces.Latin1
use isomdl.Namespaces.Dates.{DateTimes}
use isomdl.Namespaces.Dates
use isomdl.Namespaces.Alpha2.Json
use isomdl.Namespaces.DrivingPrivileges.{privileges_from_json}
use isomdl.Namespaces.UnDistinguishingSign
use isomdl.Namespaces.Sex
use isomdl.Namespaces.EyeColour
use isomdl.Namespaces.HairColour
use isomdl.Namespaces.AgeOver
use isomdl.Namespaces.BiometricTemplate
use isomdl.Namespaces.IssuingJurisdiction
use isomdl.Namespaces.OrgIso1801351.{OrgIso1801351}
use isomdl.Namespaces.OrgIso1801351.Convert.{elements_fields, elements_from_json}

module _ (dates : Dates) (times : DateTimes) (decode : Text → Option Bytes) where
  open dates use {Date}

  -- every element reads, and is the struct's
  pub record IsReadFrom (map : Object) (r : OrgIso1801351 dates) : Type 0 where
    pub family_name :
        plain (safely Latin1.from_json) (codes "family_name") map ≡ returns (ok r.family_name)
    pub given_name :
        plain (safely Latin1.from_json) (codes "given_name") map ≡ returns (ok r.given_name)
    pub birth_date :
        plain (safely (FullDate.from_json dates)) (codes "birth_date") map
        ≡ returns (ok r.birth_date)
    pub issue_date :
        plain (implement (Dates.either_from_json times dates)) (codes "issue_date") map
        ≡ returns (ok r.issue_date)
    pub expiry_date :
        plain (implement (Dates.either_from_json times dates)) (codes "expiry_date") map
        ≡ returns (ok r.expiry_date)
    pub issuing_country :
        plain (safely Json.from_json) (codes "issuing_country") map ≡ returns (ok r.issuing_country)
    pub issuing_authority :
        plain (safely Latin1.from_json) (codes "issuing_authority") map
        ≡ returns (ok r.issuing_authority)
    pub document_number :
        plain (safely Latin1.from_json) (codes "document_number") map
        ≡ returns (ok r.document_number)
    pub portrait :
        plain (safely (byte_str_from_json decode)) (codes "portrait") map ≡ returns (ok r.portrait)
    pub driving_privileges :
        plain (implement (privileges_from_json dates)) (codes "driving_privileges") map
        ≡ returns (ok r.driving_privileges)
    pub un_distinguishing_sign :
        plain (safely UnDistinguishingSign.Json.from_json) (codes "un_distinguishing_sign") map
        ≡ returns (ok r.un_distinguishing_sign)
    pub administrative_number :
        plain (optional (safely Latin1.from_json)) (codes "administrative_number") map
        ≡ returns (ok r.administrative_number)
    pub sex : plain (optional (safely Sex.from_json)) (codes "sex") map ≡ returns (ok r.sex)
    pub height :
        plain (optional (safely u32_from_json)) (codes "height") map ≡ returns (ok r.height)
    pub weight :
        plain (optional (safely u32_from_json)) (codes "weight") map ≡ returns (ok r.weight)
    pub eye_colour :
        plain (optional (safely EyeColour.from_json)) (codes "eye_colour") map
        ≡ returns (ok r.eye_colour)
    pub hair_colour :
        plain (optional (safely HairColour.from_json)) (codes "hair_colour") map
        ≡ returns (ok r.hair_colour)
    pub birth_place :
        plain (optional (safely Latin1.from_json)) (codes "birth_place") map
        ≡ returns (ok r.birth_place)
    pub resident_address :
        plain (optional (safely Latin1.from_json)) (codes "resident_address") map
        ≡ returns (ok r.resident_address)
    pub portrait_capture_date :
        plain (optional (implement (Dates.from_json times))) (codes "portrait_capture_date") map
        ≡ returns (ok r.portrait_capture_date)
    pub age_in_years :
        plain (optional (safely u32_from_json)) (codes "age_in_years") map
        ≡ returns (ok r.age_in_years)
    pub age_birth_year :
        plain (optional (safely u32_from_json)) (codes "age_birth_year") map
        ≡ returns (ok r.age_birth_year)
    pub age_over_xx : returns (AgeOver.from_map map) ≡ returns (ok r.age_over_xx)
    pub issuing_jurisdiction :
        returns (option_from_map IssuingJurisdiction.from_map map)
        ≡ returns (ok r.issuing_jurisdiction)
    pub nationality :
        plain (optional (safely Json.from_json)) (codes "nationality") map
        ≡ returns (ok r.nationality)
    pub resident_city :
        plain (optional (safely Latin1.from_json)) (codes "resident_city") map
        ≡ returns (ok r.resident_city)
    pub resident_state :
        plain (optional (safely Latin1.from_json)) (codes "resident_state") map
        ≡ returns (ok r.resident_state)
    pub resident_postal_code :
        plain (optional (safely Latin1.from_json)) (codes "resident_postal_code") map
        ≡ returns (ok r.resident_postal_code)
    pub resident_country :
        plain (optional (safely Json.from_json)) (codes "resident_country") map
        ≡ returns (ok r.resident_country)
    pub biometric_template_xx :
        returns (BiometricTemplate.from_map decode map) ≡ returns (ok r.biometric_template_xx)
    pub family_name_national_character :
        plain (optional (safely string_from_json)) (codes "family_name_national_character") map
        ≡ returns (ok r.family_name_national_character)
    pub given_name_national_character :
        plain (optional (safely string_from_json)) (codes "given_name_national_character") map
        ≡ returns (ok r.given_name_national_character)
    pub signature_usual_mark :
        plain (optional (safely (byte_str_from_json decode))) (codes "signature_usual_mark") map
        ≡ returns (ok r.signature_usual_mark)

  all_read :
      (map : Object) (r : OrgIso1801351 dates)
      → Reads (elements_fields dates times decode) map (λ x. x ≡ r)
      → IsReadFrom map r
  unfolding Reads elements_fields
  all_read map r h =
      let (x0, e0, h0) = h in
      let (x1, e1, h1) = h0 in
      let (x2, e2, h2) = h1 in
      let (x3, e3, h3) = h2 in
      let (x4, e4, h4) = h3 in
      let (x5, e5, h5) = h4 in
      let (x6, e6, h6) = h5 in
      let (x7, e7, h7) = h6 in
      let (x8, e8, h8) = h7 in
      let (x9, e9, h9) = h8 in
      let (x10, e10, h10) = h9 in
      let (x11, e11, h11) = h10 in
      let (x12, e12, h12) = h11 in
      let (x13, e13, h13) = h12 in
      let (x14, e14, h14) = h13 in
      let (x15, e15, h15) = h14 in
      let (x16, e16, h16) = h15 in
      let (x17, e17, h17) = h16 in
      let (x18, e18, h18) = h17 in
      let (x19, e19, h19) = h18 in
      let (x20, e20, h20) = h19 in
      let (x21, e21, h21) = h20 in
      let (x22, e22, h22) = h21 in
      let (x23, e23, h23) = h22 in
      let (x24, e24, h24) = h23 in
      let (x25, e25, h25) = h24 in
      let (x26, e26, h26) = h25 in
      let (x27, e27, h27) = h26 in
      let (x28, e28, h28) = h27 in
      let (x29, e29, h29) = h28 in
      let (x30, e30, h30) = h29 in
      let (x31, e31, h31) = h30 in
      let (x32, e32, h32) = h31 in
      record {
        family_name = e0 ∙ ap (λ (x : OrgIso1801351 dates). returns (ok x.family_name)) h32;
        given_name = e1 ∙ ap (λ (x : OrgIso1801351 dates). returns (ok x.given_name)) h32;
        birth_date = e2 ∙ ap (λ (x : OrgIso1801351 dates). returns (ok x.birth_date)) h32;
        issue_date = e3 ∙ ap (λ (x : OrgIso1801351 dates). returns (ok x.issue_date)) h32;
        expiry_date = e4 ∙ ap (λ (x : OrgIso1801351 dates). returns (ok x.expiry_date)) h32;
        issuing_country = e5 ∙ ap (λ (x : OrgIso1801351 dates). returns (ok x.issuing_country)) h32;
        issuing_authority =
            e6 ∙ ap (λ (x : OrgIso1801351 dates). returns (ok x.issuing_authority)) h32;
        document_number = e7 ∙ ap (λ (x : OrgIso1801351 dates). returns (ok x.document_number)) h32;
        portrait = e8 ∙ ap (λ (x : OrgIso1801351 dates). returns (ok x.portrait)) h32;
        driving_privileges =
            e9 ∙ ap (λ (x : OrgIso1801351 dates). returns (ok x.driving_privileges)) h32;
        un_distinguishing_sign =
            e10 ∙ ap (λ (x : OrgIso1801351 dates). returns (ok x.un_distinguishing_sign)) h32;
        administrative_number =
            e11 ∙ ap (λ (x : OrgIso1801351 dates). returns (ok x.administrative_number)) h32;
        sex = e12 ∙ ap (λ (x : OrgIso1801351 dates). returns (ok x.sex)) h32;
        height = e13 ∙ ap (λ (x : OrgIso1801351 dates). returns (ok x.height)) h32;
        weight = e14 ∙ ap (λ (x : OrgIso1801351 dates). returns (ok x.weight)) h32;
        eye_colour = e15 ∙ ap (λ (x : OrgIso1801351 dates). returns (ok x.eye_colour)) h32;
        hair_colour = e16 ∙ ap (λ (x : OrgIso1801351 dates). returns (ok x.hair_colour)) h32;
        birth_place = e17 ∙ ap (λ (x : OrgIso1801351 dates). returns (ok x.birth_place)) h32;
        resident_address =
            e18 ∙ ap (λ (x : OrgIso1801351 dates). returns (ok x.resident_address)) h32;
        portrait_capture_date =
            e19 ∙ ap (λ (x : OrgIso1801351 dates). returns (ok x.portrait_capture_date)) h32;
        age_in_years = e20 ∙ ap (λ (x : OrgIso1801351 dates). returns (ok x.age_in_years)) h32;
        age_birth_year = e21 ∙ ap (λ (x : OrgIso1801351 dates). returns (ok x.age_birth_year)) h32;
        age_over_xx = e22 ∙ ap (λ (x : OrgIso1801351 dates). returns (ok x.age_over_xx)) h32;
        issuing_jurisdiction =
            e23 ∙ ap (λ (x : OrgIso1801351 dates). returns (ok x.issuing_jurisdiction)) h32;
        nationality = e24 ∙ ap (λ (x : OrgIso1801351 dates). returns (ok x.nationality)) h32;
        resident_city = e25 ∙ ap (λ (x : OrgIso1801351 dates). returns (ok x.resident_city)) h32;
        resident_state = e26 ∙ ap (λ (x : OrgIso1801351 dates). returns (ok x.resident_state)) h32;
        resident_postal_code =
            e27 ∙ ap (λ (x : OrgIso1801351 dates). returns (ok x.resident_postal_code)) h32;
        resident_country =
            e28 ∙ ap (λ (x : OrgIso1801351 dates). returns (ok x.resident_country)) h32;
        biometric_template_xx =
            e29 ∙ ap (λ (x : OrgIso1801351 dates). returns (ok x.biometric_template_xx)) h32;
        family_name_national_character =
            e30
            ∙ ap (λ (x : OrgIso1801351 dates). returns (ok x.family_name_national_character)) h32;
        given_name_national_character =
            e31
            ∙ ap (λ (x : OrgIso1801351 dates). returns (ok x.given_name_national_character)) h32;
        signature_usual_mark =
            e32 ∙ ap (λ (x : OrgIso1801351 dates). returns (ok x.signature_usual_mark)) h32;
      }

  read_all :
      (map : Object) (r : OrgIso1801351 dates)
      → IsReadFrom map r
      → from_object (elements_fields dates times decode) map ≡ returns (ok r)
  unfolding from_object elements_fields
  read_all map r h = ground (arith, h)

  -- An object is read as the namespace exactly when each of its elements reads from the entry of its
  -- own name, or for the ages, the jurisdiction and the templates from the object, and the result
  -- has what they read.
  pub elements_from_json_exact :
      (fs : Fields) (r : OrgIso1801351 dates)
      → (elements_from_json dates times decode (object fs) ≡ returns (ok r))
        ↔ IsReadFrom (entries fs) r
  unfolding elements_from_json FromJson.from_json
  elements_from_json_exact fs r =
      let (there, back) = from_object_exact (elements_fields dates times decode) (entries fs) r in
      ((λ h. all_read (entries fs) r (there h)), (λ h. read_all (entries fs) r h))
