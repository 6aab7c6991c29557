-- ===== src/Examples/Elements.antt =====
-- The elements of src/definitions/namespaces at a licence, read from JSON and written, and the
-- conversions that the derive macros of src/macros make.
use isomdl.Prelude.{
  ℕ, ◌≡◌, ◌↔◌, ◌⊎◌, refl, true, List, [], ◌∷◌, ◌++◌, Option, none, some, ok, err, returns, panics,
  arith, All, length, ◌+◌, ◌≤◌, if◌then◌else◌,
}
use isomdl.Prelude.Int.{ℤ, pos}
use isomdl.Prelude.Text.{Text, codes, text_eq, text_lt, strip_prefix, starts_with}
use isomdl.Prelude.Map.{get, insert, IsSorted, text_ord}
use isomdl.Cbor.{Bytes, text, bool}
use isomdl.FromJson.{
  Fields, Object, object, string, boolean, array, field, end, nil, entries, missing, FromJsonError,
  string_from_json,
}
use isomdl.Derive.FromJson.{from_object, summed}
use isomdl.Derive.FromJson.Exact.{Reads, Settles, failures, from_object_exact, from_object-Settles}
use isomdl.Derive.ToCbor.{always, if_some, to_ns_map, last_written, Insertion, get-to_ns_map}
use isomdl.Namespaces.FullDate.{Dates, to_string, four_wide, month_and_day, to_string-four_wide}
use isomdl.Namespaces.Dates.{
  DateTimes, full_date, either_from_json, four_digits, IsCalendar, IsLate, either_from_json_panics,
}
use isomdl.Namespaces.Latin1
use isomdl.Namespaces.Latin1.{Latin1, from_str, from_str-Latin1}
use isomdl.Namespaces.Alpha2.{Alpha2, code_no, as_str}
use isomdl.Namespaces.FullDate
use isomdl.Namespaces.Alpha2.Json
use isomdl.Namespaces.Alpha2.Parse
use isomdl.Namespaces.Arms.{first_arm}
use isomdl.Namespaces.DrivingPrivileges.{privileges_from_json}
use isomdl.Namespaces.UnDistinguishingSign.Json as Sign
use isomdl.Namespaces.UnDistinguishingSign.Parse.{from_string}
use isomdl.FromJson.{byte_str_from_json, option_from_json_opt, option_from_map}
use isomdl.Namespaces.BiometricTemplate
use isomdl.Namespaces.AgeOver
use isomdl.Namespaces.AgeOver.{AgeOver, Age, write_key}
use isomdl.Namespaces.DrivingPrivileges.{Code, code_fields}
use isomdl.Namespaces.IssuingJurisdiction
use isomdl.Namespaces.OrgIso1801351.{OrgIso1801351}
use isomdl.Namespaces.OrgIso1801351.Convert.{elements_from_json, elements_to_ns_map}
use isomdl.Namespaces.OrgIso1801351.Read.{IsReadFrom, elements_from_json_exact}
use isomdl.Namespaces.OrgIso1801351.Written.{IsWritten, elements_to_ns_map-IsWritten}
use isomdl.Namespaces.OrgIso1801351.Ages.{ages_from_json}
use isomdl.Namespaces.UnDistinguishingSign.{sign_n}

-- dates that are all the first of May of the year 2000, and no date-times
abbrev dates : Dates
dates = record {
  Date = Text;
  year = λ _. pos 2000;
  month = λ _. 5;
  day = λ _. 1;
  parse = λ s. some s;
}

abbrev no_times : DateTimes
no_times = record {
  OffsetDateTime = ℕ;
  parse = λ _. none;
  to_utc = λ t. some t;
  without_milliseconds = λ t. some t;
  format = λ _. none;
}

abbrev raw : Text → Option Bytes
raw s = some s

-- date-times that cannot be written in UTC
-- a date-time is its year in UTC, and one text is of the year 10000
abbrev late_times : DateTimes
late_times = record {
  OffsetDateTime = ℤ;
  parse = λ s. some (if text_eq s (codes "9999-12-31T23:59:59-01:00") then pos 10000 else pos 2000);
  to_utc = λ t. if four_digits t then some t else none;
  without_milliseconds = λ t. some t;
  format = λ t. if four_digits t then some (codes "2000-01-01T00:00:00Z") else none;
}

late_times-IsCalendar : IsCalendar late_times
late_times-IsCalendar = record {
  utc_year = λ t. t;
  is_utc = λ _. true;
  moves = λ t u h. (ground arith, refl);
  fits = λ t h. (t, rw h refl);
  trims = λ t. (t, refl, refl, refl);
  formats = λ t h k. (codes "2000-01-01T00:00:00Z", rw k refl);
  refuses = λ t h k. rw k refl;
}

abbrev json : Fields
json = field (codes "age_over_18") (boolean true) (
    field (codes "birth_date") (string (codes "2000-05-01")) (
      field (codes "document_number") (string (codes "12")) (
        field (codes "driving_privileges") (array nil) (
          field (codes "expiry_date") (string (codes "2000-05-01")) (
            field (codes "family_name") (string (codes "F")) (
              field (codes "given_name") (string (codes "G")) (
                field (codes "issue_date") (string (codes "2000-05-01")) (
                  field (codes "issuing_authority") (string (codes "A")) (
                    field (codes "issuing_country") (string (codes "NO")) (
                      field (codes "issuing_jurisdiction") (string (codes "NO-03")) (
                        field (codes "portrait") (string (codes "p")) (
                          field (codes "un_distinguishing_sign") (string (codes "N"))
                            end))))))))))))

abbrev latin : Text → Latin1
latin s = record { inner = s }

abbrev licence : OrgIso1801351 dates
licence = record {
  family_name = latin (codes "F");
  given_name = latin (codes "G");
  birth_date = codes "2000-05-01";
  issue_date = full_date (codes "2000-05-01");
  expiry_date = full_date (codes "2000-05-01");
  issuing_country = code_no;
  issuing_authority = latin (codes "A");
  document_number = latin (codes "12");
  portrait = codes "p";
  driving_privileges = [];
  un_distinguishing_sign = sign_n;
  administrative_number = none;
  sex = none;
  height = none;
  weight = none;
  eye_colour = none;
  hair_colour = none;
  birth_place = none;
  resident_address = none;
  portrait_capture_date = none;
  age_in_years = none;
  age_birth_year = none;
  age_over_xx = (record { tens = b'1'; units = b'8' }, true) ∷ [];
  issuing_jurisdiction = some (codes "NO-03");
  nationality = none;
  resident_city = none;
  resident_state = none;
  resident_postal_code = none;
  resident_country = none;
  biometric_template_xx = [];
  family_name_national_character = none;
  given_name_national_character = none;
  signature_usual_mark = none;
}

licence_read : elements_from_json dates no_times raw (object json) ≡ returns (ok licence)
unfolding elements_from_json text_eq text_lt get insert strip_prefix starts_with as_str
    Latin1.from_json string_from_json FullDate.from_json either_from_json Json.from_json
    Parse.from_str first_arm Parse.arms byte_str_from_json privileges_from_json Sign.from_json
    option_from_json_opt AgeOver.from_map option_from_map IssuingJurisdiction.from_map
    BiometricTemplate.from_map from_string
licence_read = refl

elements_from_json_exact_example :
    (elements_from_json dates no_times raw (object json) ≡ returns (ok licence))
    ↔ IsReadFrom dates no_times raw (entries json) licence
elements_from_json_exact_example = elements_from_json_exact dates no_times raw json licence

elements_to_ns_map-IsWritten_example : IsWritten dates licence (elements_to_ns_map dates licence)
elements_to_ns_map-IsWritten_example = elements_to_ns_map-IsWritten dates licence

abbrev eighteen : Age
eighteen = record { tens = b'1'; units = b'8' }

entries-json-IsSorted : IsSorted (entries json)
unfolding entries text_lt
entries-json-IsSorted = ground arith

ages_from_json_example :
    (get (write_key eighteen) (elements_to_ns_map dates licence) ≡ some (bool true))
    ↔ (get (write_key eighteen) (entries json) ≡ some (boolean true))
ages_from_json_example =
    ages_from_json dates no_times raw json licence eighteen true entries-json-IsSorted licence_read
      refl

abbrev code_object : Object
code_object = (codes "code", string (codes "B96")) ∷ []

abbrev b96 : Code
b96 = record { code = codes "B96"; sign = none; value = none }

from_object_exact_example :
    (from_object code_fields code_object ≡ returns (ok b96))
    ↔ Reads code_fields code_object (λ x. x ≡ b96)
from_object_exact_example = from_object_exact code_fields code_object b96

code_fields-Settles : Settles code_fields []
unfolding Settles code_fields get option_from_json_opt
code_fields-Settles = (((tt, (err missing, refl)), (ok none, refl)), (ok none, refl))

from_object-Settles_example :
    ((a : Code) × (from_object code_fields [] ≡ returns (ok a)) × (failures code_fields [] ≡ []))
    ⊎ ((e : FromJsonError) × (es : List FromJsonError) × (from_object code_fields []
          ≡ returns (err (summed e es)))
        × (failures code_fields [] ≡ e ∷ es))
from_object-Settles_example = from_object-Settles code_fields [] code_fields-Settles

abbrev insertions : List Insertion
insertions = always (codes "code") (text (codes "B96")) ∷ if_some (codes "sign") none ∷ []

get-to_ns_map_example :
    get (codes "code") (to_ns_map insertions) ≡ last_written (codes "code") insertions
get-to_ns_map_example = get-to_ns_map (codes "code") insertions

from_str-Latin1_example : (from_str (codes "Åse") ≡ ok (latin (codes "Åse"))) ↔ (
    (codes "Åse" ≡ codes "Åse")
    × All (λ c. Latin1.is_latin c ≡ true) (codes "Åse")
    × (length (codes "Åse") + Latin1.upper_count (codes "Åse") ≤ 150))
from_str-Latin1_example = from_str-Latin1 (codes "Åse") (latin (codes "Åse"))

to_string-four_wide_example :
    (to_string dates [] ≡ four_wide dates 2000 ++ month_and_day dates []) ↔ (1000 ≤ 2000)
to_string-four_wide_example = to_string-four_wide dates [] 2000 refl (omega arith)

either_from_json_panics_example :
    (either_from_json late_times dates (string (codes "9999-12-31T23:59:59-01:00")) ≡ panics)
    ↔ IsLate late_times late_times-IsCalendar dates (string (codes "9999-12-31T23:59:59-01:00"))
either_from_json_panics_example =
    either_from_json_panics late_times late_times-IsCalendar dates
      (string (codes "9999-12-31T23:59:59-01:00"))

from_map_exact_example : (IssuingJurisdiction.from_map (entries json) ≡ ok (codes "NO-03")) ↔ (
    (country : Alpha2) × (rest : Text) × (get (codes "issuing_country") (entries json)
      ≡ some (string (as_str country)))
    × (codes "NO-03" ≡ as_str country ++ rest)
    × (get (codes "issuing_jurisdiction") (entries json) ≡ some (string (codes "NO-03"))))
from_map_exact_example = IssuingJurisdiction.from_map_exact (entries json) (codes "NO-03")
