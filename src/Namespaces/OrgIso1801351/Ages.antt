-- ===== src/Namespaces/OrgIso1801351/Ages.antt =====
-- The statements on ages, from the JSON object that the `org.iso.18013.5.1` namespace
-- (src/definitions/namespaces/org_iso_18013_5_1/mod.rs) is read from to the namespace's map.
use isomdl.Prelude.{◌≡◌, ◌↔◌, true, Bool, sym, ◌∙◌, some, Option, ok, returns, arith}
use isomdl.Prelude.Text.{Text, text_eq}
use isomdl.Prelude.Map.{get, last, last-get, collect-IsSorted, IsSorted, or_else-none, text_ord}
use isomdl.Cbor.{Bytes, bool}
use isomdl.FromJson.{Fields, object, boolean, entries}
use isomdl.Derive.ToCbor.{get-to_ns_map}
use isomdl.Namespaces.FullDate.{Dates}
use isomdl.Namespaces.Dates.{DateTimes}
use isomdl.Namespaces.AgeOver
use isomdl.Namespaces.AgeOver.{AgeOver, Age, is_age, from_map-to_ns_map}
use isomdl.Namespaces.BiometricTemplate
use isomdl.Namespaces.Prefixed.{written_entries}
use isomdl.Namespaces.OrgIso1801351.{OrgIso1801351}
use isomdl.Namespaces.OrgIso1801351.Convert.{
  elements_from_json, elements_insertions, elements_to_ns_map,
}
use isomdl.Namespaces.OrgIso1801351.Read.{elements_from_json_exact}
use isomdl.Namespaces.OrgIso1801351.Written.{no_template}

last-to_ns_map :
    (ages : AgeOver) (k : Text) → last k (AgeOver.to_ns_map ages) ≡ get k (AgeOver.to_ns_map ages)
unfolding AgeOver.to_ns_map
last-to_ns_map ages k =
    last-get k (AgeOver.to_ns_map ages)
      (collect-IsSorted (written_entries AgeOver.write_key bool ages))

-- no element but a statement on an age has the name of one
get-age :
    (dates : Dates) (r : OrgIso1801351 dates) (a : Age)
    → get (AgeOver.write_key a) (elements_to_ns_map dates r)
      ≡ get (AgeOver.write_key a) (AgeOver.to_ns_map r.age_over_xx)
unfolding elements_to_ns_map elements_insertions text_eq AgeOver.write_key
    BiometricTemplate.write_key
get-age dates r a =
    get-to_ns_map (AgeOver.write_key a) (elements_insertions dates r)
    ∙ (simp (or_else-none, no_template))
    ∙ last-to_ns_map r.age_over_xx (AgeOver.write_key a)

-- When a JSON object has been read as the namespace, the namespace's map attests an age of two
-- digits with an answer exactly when the object has the element of that age with the answer.
pub ages_from_json :
    (dates : Dates) (times : DateTimes) (decode : Text → Option Bytes) (fs : Fields)
    (r : OrgIso1801351 dates) (a : Age) (b : Bool)
    → IsSorted (entries fs)
    → elements_from_json dates times decode (object fs) ≡ returns (ok r)
    → is_age a ≡ true
    → (get (AgeOver.write_key a) (elements_to_ns_map dates r) ≡ some (bool b))
      ↔ (get (AgeOver.write_key a) (entries fs) ≡ some (boolean b))
ages_from_json dates times decode fs r a b s h own =
    let read = ((elements_from_json_exact dates times decode fs r).0 h).age_over_xx in
    let (there, back) =
      from_map-to_ns_map (entries fs) r.age_over_xx a b s own (ground (arith, read)) in
    ((λ e. there (sym (get-age dates r a) ∙ e)), (λ e. get-age dates r a ∙ back e))
