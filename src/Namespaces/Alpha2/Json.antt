-- ===== src/Namespaces/Alpha2/Json.antt =====
-- The conversions of `Alpha2` (src/definitions/namespaces/org_iso_18013_5_1/alpha2.rs) from JSON and
-- to CBOR.
use isomdl.Prelude.{◌≡◌, ◌↔◌, refl, ap, ◌∙◌, Result, ok, >>=_succeeds, map_err-eq-ok, arith}
use isomdl.Cbor.{Value, text}
use isomdl.FromJson.{
  Json, string, FromJsonError, ParseError, unrecognized_text, string_from_json, parsed,
}
use isomdl.Namespaces.Named.{string_from_json_exact}
use isomdl.Namespaces.Alpha2.{Alpha2, as_str}
use isomdl.Namespaces.Alpha2.Parse.{Error, unrecognized, from_str}
use isomdl.Namespaces.Alpha2.RoundTrip.{from_str_exact}

-- into an `anyhow::Error`
any_error : Error → ParseError
any_error (unrecognized s) = unrecognized_text s

unfoldable pub from_json : Json → Result FromJsonError Alpha2
unfolding any_error
from_json = parsed any_error from_str

unfoldable pub to_cbor : Alpha2 → Value
to_cbor a = text (as_str a)

-- The country codes are read from their own texts, and from no other value.
pub from_json_exact : (v : Json) (a : Alpha2) → (from_json v ≡ ok a) ↔ (v ≡ string (as_str a))
unfolding from_json string_from_json
from_json_exact v a = (
  (λ h.
      let (s, is, got) = >>=_succeeds (string_from_json v) _ h in
      string_from_json_exact v s is
      ∙ ap string ((from_str_exact s a).0 (map_err-eq-ok _ (from_str s) got))),
  (λ h. rw h (ground (arith, (from_str_exact (as_str a) a).1 refl))),
)
