-- ===== src/Namespaces/IssuingJurisdiction.antt =====
-- src/definitions/namespaces/org_iso_18013_5_1/issuing_jurisdiction.rs
use isomdl.Prelude.{
  ◌≡◌, ◌↔◌, refl, sym, ap, ◌∙◌, Bool, true, false, ◌++◌, some, Result, ok, err, ok_or, ◌>>=◌,
  >>=_succeeds, ok_or-eq-ok, arith,
}
use isomdl.Prelude.Text.{Text, codes, starts_with, starts_with-eq_true, starts_with-append}
use isomdl.Prelude.Map.{get, text_ord}
use isomdl.Cbor.{Value, text}
use isomdl.FromJson.{string, Object, FromJsonError, missing, parsing, ParseError, string_from_json}
use isomdl.FromJson
use isomdl.Namespaces.Alpha2.{Alpha2, as_str}
use isomdl.Namespaces.Alpha2.Json.{from_json_exact}
use isomdl.Namespaces.Alpha2.Json
use isomdl.Namespaces.Named.{string_from_json_exact}

pub data Error : Type 0 where
  country_mismatch : Error

unfoldable pub into_from_json_error : Error → FromJsonError
into_from_json_error country_mismatch = parsing FromJson.ParseError.country_mismatch

unfoldable pub to_cbor : Text → Value
to_cbor i = text i

abbrev matching : Text → Bool → Result FromJsonError Text
matching jurisdiction true = ok jurisdiction
matching jurisdiction false = err (into_from_json_error country_mismatch)

unfoldable pub from_map : Object → Result FromJsonError Text
unfolding starts_with into_from_json_error
from_map map = do
  jurisdiction ← ok_or (get (codes "issuing_jurisdiction") map) missing >>= string_from_json
  country ← ok_or (get (codes "issuing_country") map) missing >>= Json.from_json
  matching jurisdiction (starts_with jurisdiction (as_str country))

matching-eq_ok :
    (jurisdiction : Text) (b : Bool) {read : Text}
    → matching jurisdiction b ≡ ok read
    → (b ≡ true) × (jurisdiction ≡ read)
matching-eq_ok jurisdiction true h = (refl, ground (arith, h))
matching-eq_ok jurisdiction false h = absurd (ground (arith, h))

-- A jurisdiction is read exactly when it is a string that goes on from the code of the country that
-- stands beside it.
pub from_map_exact :
    (map : Object) (jurisdiction : Text)
    → (from_map map ≡ ok jurisdiction) ↔ (
        (country : Alpha2) × (rest : Text) × (get (codes "issuing_country") map
          ≡ some (string (as_str country)))
        × (jurisdiction ≡ as_str country ++ rest)
        × (get (codes "issuing_jurisdiction") map ≡ some (string jurisdiction)))
unfolding from_map string_from_json
from_map_exact map jurisdiction = (
  (λ h.
      let (j, read, h') =
        >>=_succeeds (ok_or (get (codes "issuing_jurisdiction") map) missing >>= string_from_json) _
          h in
      let (v, at, is) =
        >>=_succeeds (ok_or (get (codes "issuing_jurisdiction") map) missing) _ read in
      let (country, read', h'') =
        >>=_succeeds (ok_or (get (codes "issuing_country") map) missing >>= Json.from_json) _ h' in
      let (v', at', is') =
        >>=_succeeds (ok_or (get (codes "issuing_country") map) missing) _ read' in
      let (starts, same) = matching-eq_ok j (starts_with j (as_str country)) h'' in
      let (rest, split) = starts_with-eq_true j (as_str country) starts in
      (
        country,
        rest,
        ok_or-eq-ok (get (codes "issuing_country") map) missing at'
            ∙ ap some ((from_json_exact v' country).0 is'),
        sym same ∙ split,
        ok_or-eq-ok (get (codes "issuing_jurisdiction") map) missing at
            ∙ ap some (string_from_json_exact v j is ∙ ap string same),
      )),
  (λ h.
      let (country, rest, at', splits, at) = h in
      let starts : starts_with jurisdiction (as_str country) ≡ true =
        ap (λ x. starts_with x (as_str country)) splits
        ∙ starts_with-append (as_str country) rest in
      let read = (from_json_exact (string (as_str country)) country).1 refl in
      ground (arith, at, at', read, starts)),
)
