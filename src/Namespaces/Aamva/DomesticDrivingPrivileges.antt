-- ===== src/Namespaces/Aamva/DomesticDrivingPrivileges.antt =====
-- src/definitions/namespaces/org_iso_18013_5_1_aamva/domestic_driving_privileges.rs, with what the
-- derive macros make of its structs.
use isomdl.Prelude.{List, [], ◌∷◌, map, Option}
use isomdl.Prelude.Text.{Text, codes}
use isomdl.Prelude.Map.{text_ord}
use isomdl.Cbor.{Value, text, array, items_of}
use isomdl.FromJson.{
  Json, Reading, implement, safely, optional, string_from_json, vec_from_json,
  non_empty_vec_from_json,
}
use isomdl.Helpers.NonEmptyVec.{NonEmptyVec, into_inner}
use isomdl.Derive.FromJson.{Conversions, struct, ◌▷◌, plain}
use isomdl.Derive.FromJson
use isomdl.Derive.ToCbor.{Insertion, always, if_some, many}
use isomdl.Derive.ToCbor
use isomdl.Namespaces.FullDate.{Dates}
use isomdl.Namespaces.FullDate
use isomdl.Namespaces.Prefixed.{as_value}

pub record DomesticVehicleRestriction : Type 0 where
  pub domestic_vehicle_restriction_code : Option Text
  pub domestic_vehicle_restriction_description : Text

make_restriction : Option Text → Text → DomesticVehicleRestriction
make_restriction domestic_vehicle_restriction_code domestic_vehicle_restriction_description =
    record {
      domestic_vehicle_restriction_code = domestic_vehicle_restriction_code;
      domestic_vehicle_restriction_description = domestic_vehicle_restriction_description;
    }

unfoldable pub restriction_fields : Conversions DomesticVehicleRestriction
unfolding make_restriction
restriction_fields =
    struct make_restriction
    ▷ (
      codes "domestic_vehicle_restriction_code",
      plain (optional (safely string_from_json)) (codes "domestic_vehicle_restriction_code"),
    )
    ▷ (
      codes "domestic_vehicle_restriction_description",
      plain (safely string_from_json) (codes "domestic_vehicle_restriction_description"),
    )

unfoldable pub restriction_from_json : Json → Reading DomesticVehicleRestriction
unfolding restriction_fields FromJson.from_json
restriction_from_json = FromJson.from_json restriction_fields

unfoldable pub restriction_insertions : DomesticVehicleRestriction → List Insertion
restriction_insertions r =
    if_some (codes "domestic_vehicle_restriction_code")
      (as_value text r.domestic_vehicle_restriction_code)
    ∷ always (codes "domestic_vehicle_restriction_description")
        (text r.domestic_vehicle_restriction_description)
    ∷ []

unfoldable pub restriction_to_cbor : DomesticVehicleRestriction → Value
unfolding restriction_insertions ToCbor.to_cbor
restriction_to_cbor r = ToCbor.to_cbor (restriction_insertions r)

abbrev pub DomesticVehicleRestrictions : Type 0
DomesticVehicleRestrictions = NonEmptyVec DomesticVehicleRestriction

unfoldable pub restrictions_from_json : Json → Reading DomesticVehicleRestrictions
unfolding restriction_from_json non_empty_vec_from_json
restrictions_from_json = non_empty_vec_from_json (implement restriction_from_json)

unfoldable pub restrictions_to_cbor : DomesticVehicleRestrictions → Value
unfolding restriction_to_cbor
restrictions_to_cbor v = array (items_of (map restriction_to_cbor (into_inner v)))

pub record DomesticVehicleEndorsement : Type 0 where
  pub domestic_vehicle_endorsement_code : Option Text
  pub domestic_vehicle_endorsement_description : Text

make_endorsement : Option Text → Text → DomesticVehicleEndorsement
make_endorsement domestic_vehicle_endorsement_code domestic_vehicle_endorsement_description =
    record {
      domestic_vehicle_endorsement_code = domestic_vehicle_endorsement_code;
      domestic_vehicle_endorsement_description = domestic_vehicle_endorsement_description;
    }

unfoldable pub endorsement_fields : Conversions DomesticVehicleEndorsement
unfolding make_endorsement
endorsement_fields =
    struct make_endorsement
    ▷ (
      codes "domestic_vehicle_endorsement_code",
      plain (optional (safely string_from_json)) (codes "domestic_vehicle_endorsement_code"),
    )
    ▷ (
      codes "domestic_vehicle_endorsement_description",
      plain (safely string_from_json) (codes "domestic_vehicle_endorsement_description"),
    )

unfoldable pub endorsement_from_json : Json → Reading DomesticVehicleEndorsement
unfolding endorsement_fields FromJson.from_json
endorsement_from_json = FromJson.from_json endorsement_fields

unfoldable pub endorsement_insertions : DomesticVehicleEndorsement → List Insertion
endorsement_insertions r =
    if_some (codes "domestic_vehicle_endorsement_code")
      (as_value text r.domestic_vehicle_endorsement_code)
    ∷ always (codes "domestic_vehicle_endorsement_description")
        (text r.domestic_vehicle_endorsement_description)
    ∷ []

unfoldable pub endorsement_to_cbor : DomesticVehicleEndorsement → Value
unfolding endorsement_insertions ToCbor.to_cbor
endorsement_to_cbor r = ToCbor.to_cbor (endorsement_insertions r)

abbrev pub DomesticVehicleEndorsements : Type 0
DomesticVehicleEndorsements = NonEmptyVec DomesticVehicleEndorsement

unfoldable pub endorsements_from_json : Json → Reading DomesticVehicleEndorsements
unfolding endorsement_from_json non_empty_vec_from_json
endorsements_from_json = non_empty_vec_from_json (implement endorsement_from_json)

unfoldable pub endorsements_to_cbor : DomesticVehicleEndorsements → Value
unfolding endorsement_to_cbor
endorsements_to_cbor v = array (items_of (map endorsement_to_cbor (into_inner v)))

module _ (dates : Dates) where
  open dates use {Date}

  pub record DomesticVehicleClass : Type 0 where
    pub domestic_vehicle_class_code : Text
    pub domestic_vehicle_class_description : Text
    pub issue_date : Option Date
    pub expiry_date : Option Date

  make_class : Text → Text → Option Date → Option Date → DomesticVehicleClass
  make_class domestic_vehicle_class_code domestic_vehicle_class_description issue_date expiry_date =
      record {
        domestic_vehicle_class_code = domestic_vehicle_class_code;
        domestic_vehicle_class_description = domestic_vehicle_class_description;
        issue_date = issue_date;
        expiry_date = expiry_date;
      }

  unfoldable pub class_fields : Conversions DomesticVehicleClass
  unfolding make_class
  class_fields =
      struct make_class
      ▷ (
        codes "domestic_vehicle_class_code",
        plain (safely string_from_json) (codes "domestic_vehicle_class_code"),
      )
      ▷ (
        codes "domestic_vehicle_class_description",
        plain (safely string_from_json) (codes "domestic_vehicle_class_description"),
      )
      ▷ (
        codes "issue_date",
        plain (optional (safely (FullDate.from_json dates))) (codes "issue_date"),
      )
      ▷ (
        codes "expiry_date",
        plain (optional (safely (FullDate.from_json dates))) (codes "expiry_date"),
      )

  unfoldable pub class_from_json : Json → Reading DomesticVehicleClass
  unfolding class_fields FromJson.from_json
  class_from_json = FromJson.from_json class_fields

  unfoldable pub class_insertions : DomesticVehicleClass → List Insertion
  class_insertions r =
      always (codes "domestic_vehicle_class_code") (text r.domestic_vehicle_class_code)
      ∷ always (codes "domestic_vehicle_class_description")
          (text r.domestic_vehicle_class_description)
      ∷ if_some (codes "issue_date") (as_value (FullDate.to_cbor dates) r.issue_date)
      ∷ if_some (codes "expiry_date") (as_value (FullDate.to_cbor dates) r.expiry_date)
      ∷ []

  unfoldable pub class_to_cbor : DomesticVehicleClass → Value
  unfolding class_insertions ToCbor.to_cbor
  class_to_cbor r = ToCbor.to_cbor (class_insertions r)

  pub record DomesticDrivingPrivilege : Type 0 where
    pub domestic_vehicle_class : Option DomesticVehicleClass
    pub domestic_vehicle_restrictions : Option DomesticVehicleRestrictions
    pub domestic_vehicle_endorsements : Option DomesticVehicleEndorsements

  make_privilege :
      Option DomesticVehicleClass
      → Option DomesticVehicleRestrictions
      → Option DomesticVehicleEndorsements
      → DomesticDrivingPrivilege
  make_privilege domestic_vehicle_class domestic_vehicle_restrictions
        domestic_vehicle_endorsements =
      record {
        domestic_vehicle_class = domestic_vehicle_class;
        domestic_vehicle_restrictions = domestic_vehicle_restrictions;
        domestic_vehicle_endorsements = domestic_vehicle_endorsements;
      }

  unfoldable pub privilege_fields : Conversions DomesticDrivingPrivilege
  unfolding make_privilege
  privilege_fields =
      struct make_privilege
      ▷ (
        codes "domestic_vehicle_class",
        plain (optional (implement class_from_json)) (codes "domestic_vehicle_class"),
      )
      ▷ (
        codes "domestic_vehicle_restrictions",
        plain (optional (implement restrictions_from_json)) (codes "domestic_vehicle_restrictions"),
      )
      ▷ (
        codes "domestic_vehicle_endorsements",
        plain (optional (implement endorsements_from_json)) (codes "domestic_vehicle_endorsements"),
      )

  unfoldable pub privilege_from_json : Json → Reading DomesticDrivingPrivilege
  unfolding privilege_fields FromJson.from_json
  privilege_from_json = FromJson.from_json privilege_fields

  unfoldable pub privilege_insertions : DomesticDrivingPrivilege → List Insertion
  privilege_insertions r =
      if_some (codes "domestic_vehicle_class") (as_value class_to_cbor r.domestic_vehicle_class)
      ∷ if_some (codes "domestic_vehicle_restrictions")
          (as_value restrictions_to_cbor r.domestic_vehicle_restrictions)
      ∷ if_some (codes "domestic_vehicle_endorsements")
          (as_value endorsements_to_cbor r.domestic_vehicle_endorsements)
      ∷ []

  unfoldable pub privilege_to_cbor : DomesticDrivingPrivilege → Value
  unfolding privilege_insertions ToCbor.to_cbor
  privilege_to_cbor r = ToCbor.to_cbor (privilege_insertions r)

  abbrev pub DomesticDrivingPrivileges : Type 0
  DomesticDrivingPrivileges = List DomesticDrivingPrivilege

  unfoldable pub privileges_from_json : Json → Reading DomesticDrivingPrivileges
  unfolding privilege_from_json vec_from_json
  privileges_from_json = vec_from_json (implement privilege_from_json)

  unfoldable pub privileges_to_cbor : DomesticDrivingPrivileges → Value
  unfolding privilege_to_cbor
  privileges_to_cbor d = array (items_of (map privilege_to_cbor d))
