-- ===== src/Namespaces/DrivingPrivileges.antt =====
-- src/definitions/namespaces/org_iso_18013_5_1/driving_privileges.rs, with what the derive macros
-- make of its structs.
use isomdl.Prelude.{List, [], ◌∷◌, map, Option}
use isomdl.Prelude.Text.{Text, codes}
use isomdl.Prelude.Map.{text_ord}
use isomdl.Cbor.{Value, text, array, items_of}
use isomdl.FromJson.{
  Json, Reading, implement, safely, optional, string_from_json, vec_from_json,
  non_empty_vec_from_json,
}
use isomdl.Helpers.NonEmptyVec.{NonEmptyVec, into_inner}
use isomdl.Derive.FromJson.{Conversions, struct, ◌▷◌, plain}
use isomdl.Derive.FromJson
use isomdl.Derive.ToCbor.{Insertion, always, if_some, many}
use isomdl.Derive.ToCbor
use isomdl.Namespaces.FullDate.{Dates}
use isomdl.Namespaces.FullDate
use isomdl.Namespaces.Prefixed.{as_value}

pub record Code : Type 0 where
  pub code : Text
  pub sign : Option Text
  pub value : Option Text

make_code : Text → Option Text → Option Text → Code
make_code code sign value = record { code = code; sign = sign; value = value }

unfoldable pub code_fields : Conversions Code
unfolding make_code
code_fields =
    struct make_code
    ▷ (codes "code", plain (safely string_from_json) (codes "code"))
    ▷ (codes "sign", plain (optional (safely string_from_json)) (codes "sign"))
    ▷ (codes "value", plain (optional (safely string_from_json)) (codes "value"))

unfoldable pub code_from_json : Json → Reading Code
unfolding code_fields FromJson.from_json
code_from_json = FromJson.from_json code_fields

unfoldable pub code_insertions : Code → List Insertion
code_insertions r =
    always (codes "code") (text r.code)
    ∷ if_some (codes "sign") (as_value text r.sign)
    ∷ if_some (codes "value") (as_value text r.value)
    ∷ []

unfoldable pub code_to_cbor : Code → Value
unfolding code_insertions ToCbor.to_cbor
code_to_cbor r = ToCbor.to_cbor (code_insertions r)

abbrev pub Codes : Type 0
Codes = NonEmptyVec Code

unfoldable pub codes_from_json : Json → Reading Codes
unfolding code_from_json non_empty_vec_from_json
codes_from_json = non_empty_vec_from_json (implement code_from_json)

unfoldable pub codes_to_cbor : Codes → Value
unfolding code_to_cbor
codes_to_cbor c = array (items_of (map code_to_cbor (into_inner c)))

module _ (dates : Dates) where
  open dates use {Date}

  pub record DrivingPrivilege : Type 0 where
    pub vehicle_category_code : Text
    pub issue_date : Option Date
    pub expiry_date : Option Date
    pub codes : Option Codes

  make_privilege : Text → Option Date → Option Date → Option Codes → DrivingPrivilege
  make_privilege vehicle_category_code issue_date expiry_date codes = record {
    vehicle_category_code = vehicle_category_code;
    issue_date = issue_date;
    expiry_date = expiry_date;
    codes = codes;
  }

  unfoldable pub privilege_fields : Conversions DrivingPrivilege
  unfolding make_privilege
  privilege_fields =
      struct make_privilege
      ▷ (
        codes "vehicle_category_code",
        plain (safely string_from_json) (codes "vehicle_category_code"),
      )
      ▷ (
        codes "issue_date",
        plain (optional (safely (FullDate.from_json dates))) (codes "issue_date"),
      )
      ▷ (
        codes "expiry_date",
        plain (optional (safely (FullDate.from_json dates))) (codes "expiry_date"),
      )
      ▷ (codes "codes", plain (optional (implement codes_from_json)) (codes "codes"))

  unfoldable pub privilege_from_json : Json → Reading DrivingPrivilege
  unfolding privilege_fields FromJson.from_json
  privilege_from_json = FromJson.from_json privilege_fields

  unfoldable pub privilege_insertions : DrivingPrivilege → List Insertion
  privilege_insertions r =
      always (codes "vehicle_category_code") (text r.vehicle_category_code)
      ∷ if_some (codes "issue_date") (as_value (FullDate.to_cbor dates) r.issue_date)
      ∷ if_some (codes "expiry_date") (as_value (FullDate.to_cbor dates) r.expiry_date)
      ∷ if_some (codes "codes") (as_value codes_to_cbor r.codes)
      ∷ []

  unfoldable pub privilege_to_cbor : DrivingPrivilege → Value
  unfolding privilege_insertions ToCbor.to_cbor
  privilege_to_cbor r = ToCbor.to_cbor (privilege_insertions r)

  abbrev pub DrivingPrivileges : Type 0
  DrivingPrivileges = List DrivingPrivilege

  unfoldable pub privileges_from_json : Json → Reading DrivingPrivileges
  unfolding privilege_from_json vec_from_json
  privileges_from_json = vec_from_json (implement privilege_from_json)

  unfoldable pub privileges_to_cbor : DrivingPrivileges → Value
  unfolding privilege_to_cbor
  privileges_to_cbor d = array (items_of (map privilege_to_cbor d))
