-- ===== src/Namespaces/Aamva/EdlIndicator.antt =====
-- src/definitions/namespaces/org_iso_18013_5_1_aamva/edl_indicator.rs
use isomdl.Prelude.{ℕ, ◌≡◌, ◌↔◌, ◌<◌, ◌^◌, ◌==◌, refl, some, Result, ok, err, if◌then◌else◌, arith}
use isomdl.Prelude.Int.{pos}
use isomdl.Cbor.{Value, integer}
use isomdl.FromJson.{Json, number, FromJsonError, ParseError, unrecognized_number, converted}
use isomdl.Namespaces.Named.{IsNumbered, converted-IsNumbered}

pub data EdlIndicator : Type 0 where
  drivers_license : EdlIndicator
  identification_card : EdlIndicator

pub data Error : Type 0 where
  unrecognized : ℕ → Error

unfoldable pub to_u8 : EdlIndicator → ℕ
to_u8 drivers_license = 1
to_u8 identification_card = 2

unfoldable pub to_cbor : EdlIndicator → Value
unfolding to_u8
to_cbor x = integer (pos (to_u8 x))

unfoldable pub try_from : ℕ → Result Error EdlIndicator
try_from u =
    if u == 1
    then ok drivers_license
    else if u == 2
    then ok identification_card
    else err (unrecognized u)

-- into an `anyhow::Error`
any_error : Error → ParseError
any_error (unrecognized u) = unrecognized_number u

unfoldable pub from_json : Json → Result FromJsonError EdlIndicator
unfolding try_from any_error
from_json = converted any_error try_from

small : (x : EdlIndicator) → to_u8 x < 2 ^ 32
unfolding to_u8
small drivers_license = omega arith
small identification_card = omega arith

own_number : (x : EdlIndicator) → try_from (to_u8 x) ≡ ok x
unfolding try_from to_u8
own_number drivers_license = refl
own_number identification_card = refl

only_number : (u : ℕ) (x : EdlIndicator) → try_from u ≡ ok x → u ≡ to_u8 x
unfolding try_from to_u8
only_number u drivers_license h = ground arith
only_number u identification_card h = ground arith

Table-IsNumbered : IsNumbered to_u8 try_from
Table-IsNumbered = record { small = small; found = own_number; sound = only_number }

-- The constants are read from their own numbers, and from no other value.
pub from_json_exact :
    (v : Json) (x : EdlIndicator) → (from_json v ≡ ok x) ↔ (v ≡ number (some (to_u8 x)))
from_json_exact v x = unfold from_json in converted-IsNumbered any_error Table-IsNumbered v x
