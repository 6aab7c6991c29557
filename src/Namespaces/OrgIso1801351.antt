-- ===== src/Namespaces/OrgIso1801351.antt =====
-- The `org.iso.18013.5.1` namespace (src/definitions/namespaces/org_iso_18013_5_1/mod.rs). The dates of
-- the crate time are a parameter.
pub mod Convert
pub mod Read
pub mod Written
pub mod Ages
use isomdl.Prelude.{ℕ, ◌≡◌, refl, List, [], ◌∷◌, map, Option, none, some, returns}
use isomdl.Prelude.Text.{Text, codes}
use isomdl.Prelude.Int.{pos}
use isomdl.Prelude.Map.{Map, text_ord}
use isomdl.Cbor.{Bytes, Value, text, bytes, integer, array, items_of}
use isomdl.FromJson.{
  Json, Reading, implement, safely, optional, option_from_map, string_from_json, u32_from_json,
  byte_str_from_json, vec_from_json, non_empty_vec_from_json,
}
use isomdl.Helpers.NonEmptyVec.{NonEmptyVec, into_inner}
use isomdl.Derive.FromJson.{Conversions, struct, ◌▷◌, plain}
use isomdl.Derive.FromJson
use isomdl.Derive.ToCbor.{Insertion, always, if_some, many}
use isomdl.Derive.ToCbor
use isomdl.Namespaces.FullDate.{Dates}
use isomdl.Namespaces.FullDate
use isomdl.Namespaces.Prefixed.{as_value}
use isomdl.Namespaces.Latin1.{Latin1}
use isomdl.Namespaces.Latin1
use isomdl.Namespaces.Dates.{DateTimes, TDate, TDateOrFullDate}
use isomdl.Namespaces.Dates
use isomdl.Namespaces.Alpha2.{Alpha2}
use isomdl.Namespaces.Alpha2.Json
use isomdl.Namespaces.DrivingPrivileges.{
  DrivingPrivileges, privileges_from_json, privileges_to_cbor,
}
use isomdl.Namespaces.UnDistinguishingSign.{UnDistinguishingSign}
use isomdl.Namespaces.UnDistinguishingSign
use isomdl.Namespaces.Sex.{Sex}
use isomdl.Namespaces.Sex
use isomdl.Namespaces.EyeColour.{EyeColour}
use isomdl.Namespaces.EyeColour
use isomdl.Namespaces.HairColour.{HairColour}
use isomdl.Namespaces.HairColour
use isomdl.Namespaces.AgeOver.{AgeOver}
use isomdl.Namespaces.AgeOver
use isomdl.Namespaces.BiometricTemplate.{BiometricTemplate}
use isomdl.Namespaces.BiometricTemplate
use isomdl.Namespaces.IssuingJurisdiction

module _ (dates : Dates) where
  open dates use {Date}

  pub record OrgIso1801351 : Type 0 where
    pub family_name : Latin1
    pub given_name : Latin1
    pub birth_date : Date
    pub issue_date : TDateOrFullDate dates
    pub expiry_date : TDateOrFullDate dates
    pub issuing_country : Alpha2
    pub issuing_authority : Latin1
    pub document_number : Latin1
    pub portrait : Bytes
    pub driving_privileges : DrivingPrivileges dates
    pub un_distinguishing_sign : UnDistinguishingSign
    pub administrative_number : Option Latin1
    pub sex : Option Sex
    pub height : Option ℕ
    pub weight : Option ℕ
    pub eye_colour : Option EyeColour
    pub hair_colour : Option HairColour
    pub birth_place : Option Latin1
    pub resident_address : Option Latin1
    pub portrait_capture_date : Option TDate
    pub age_in_years : Option ℕ
    pub age_birth_year : Option ℕ
    pub age_over_xx : AgeOver
    pub issuing_jurisdiction : Option Text
    pub nationality : Option Alpha2
    pub resident_city : Option Latin1
    pub resident_state : Option Latin1
    pub resident_postal_code : Option Latin1
    pub resident_country : Option Alpha2
    pub biometric_template_xx : BiometricTemplate
    pub family_name_national_character : Option Text
    pub given_name_national_character : Option Text
    pub signature_usual_mark : Option Bytes

  unfoldable pub make_elements :
      Latin1
      → Latin1
      → Date
      → TDateOrFullDate dates
      → TDateOrFullDate dates
      → Alpha2
      → Latin1
      → Latin1
      → Bytes
      → DrivingPrivileges dates
      → UnDistinguishingSign
      → Option Latin1
      → Option Sex
      → Option ℕ
      → Option ℕ
      → Option EyeColour
      → Option HairColour
      → Option Latin1
      → Option Latin1
      → Option TDate
      → Option ℕ
      → Option ℕ
      → AgeOver
      → Option Text
      → Option Alpha2
      → Option Latin1
      → Option Latin1
      → Option Latin1
      → Option Alpha2
      → BiometricTemplate
      → Option Text
      → Option Text
      → Option Bytes
      → OrgIso1801351
  make_elements family_name given_name birth_date issue_date expiry_date issuing_country
        issuing_authority document_number portrait driving_privileges un_distinguishing_sign
        administrative_number sex height weight eye_colour hair_colour birth_place resident_address
        portrait_capture_date age_in_years age_birth_year age_over_xx issuing_jurisdiction
        nationality resident_city resident_state resident_postal_code resident_country
        biometric_template_xx family_name_national_character given_name_national_character
        signature_usual_mark =
      record {
        family_name = family_name;
        given_name = given_name;
        birth_date = birth_date;
        issue_date = issue_date;
        expiry_date = expiry_date;
        issuing_country = issuing_country;
        issuing_authority = issuing_authority;
        document_number = document_number;
        portrait = portrait;
        driving_privileges = driving_privileges;
        un_distinguishing_sign = un_distinguishing_sign;
        administrative_number = administrative_number;
        sex = sex;
        height = height;
        weight = weight;
        eye_colour = eye_colour;
        hair_colour = hair_colour;
        birth_place = birth_place;
        resident_address = resident_address;
        portrait_capture_date = portrait_capture_date;
        age_in_years = age_in_years;
        age_birth_year = age_birth_year;
        age_over_xx = age_over_xx;
        issuing_jurisdiction = issuing_jurisdiction;
        nationality = nationality;
        resident_city = resident_city;
        resident_state = resident_state;
        resident_postal_code = resident_postal_code;
        resident_country = resident_country;
        biometric_template_xx = biometric_template_xx;
        family_name_national_character = family_name_national_character;
        given_name_national_character = given_name_national_character;
        signature_usual_mark = signature_usual_mark;
      }
