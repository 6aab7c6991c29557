-- ===== src/Namespaces/UnDistinguishingSign/Json.antt =====
-- The conversions of `UNDistinguishingSign`
-- (src/definitions/namespaces/org_iso_18013_5_1/un_distinguishing_sign.rs) from JSON and to CBOR.
use isomdl.Prelude.{Result, ok, ◌>>=◌}
use isomdl.Cbor.{Value, text}
use isomdl.FromJson.{Json, FromJsonError, string_from_json}
use isomdl.Namespaces.UnDistinguishingSign.{UnDistinguishingSign, to_string}
use isomdl.Namespaces.UnDistinguishingSign.Parse.{from_string}

unfoldable pub from_json : Json → Result FromJsonError UnDistinguishingSign
unfolding string_from_json
from_json v = string_from_json v >>= λ s. ok (from_string s)

unfoldable pub to_cbor : UnDistinguishingSign → Value
to_cbor s = text (to_string s)
