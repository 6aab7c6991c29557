-- ===== src/Namespaces/Sex.antt =====
-- src/definitions/namespaces/org_iso_18013_5_1/sex.rs
use isomdl.Prelude.{ℕ, ◌≡◌, ◌↔◌, ◌<◌, ◌^◌, ◌==◌, refl, some, Result, ok, err, if◌then◌else◌, arith}
use isomdl.Prelude.Int.{pos}
use isomdl.Cbor.{Value, integer}
use isomdl.FromJson.{Json, number, FromJsonError, ParseError, unrecognized_number, converted}
use isomdl.Namespaces.Named.{IsNumbered, converted-IsNumbered}

pub data Sex : Type 0 where
  not_known : Sex
  male : Sex
  female : Sex
  not_applicable : Sex

pub data Error : Type 0 where
  unrecognized : ℕ → Error

unfoldable pub to_u8 : Sex → ℕ
to_u8 not_known = 0
to_u8 male = 1
to_u8 female = 2
to_u8 not_applicable = 9

unfoldable pub to_cbor : Sex → Value
unfolding to_u8
to_cbor x = integer (pos (to_u8 x))

unfoldable pub try_from : ℕ → Result Error Sex
try_from u =
    if u == 0
    then ok not_known
    else if u == 1
    then ok male
    else if u == 2
    then ok female
    else if u == 9
    then ok not_applicable
    else err (unrecognized u)

-- into an `anyhow::Error`
any_error : Error → ParseError
any_error (unrecognized u) = unrecognized_number u

unfoldable pub from_json : Json → Result FromJsonError Sex
unfolding try_from any_error
from_json = converted any_error try_from

small : (x : Sex) → to_u8 x < 2 ^ 32
unfolding to_u8
small not_known = omega arith
small male = omega arith
small female = omega arith
small not_applicable = omega arith

own_number : (x : Sex) → try_from (to_u8 x) ≡ ok x
unfolding try_from to_u8
own_number not_known = refl
own_number male = refl
own_number female = refl
own_number not_applicable = refl

only_number : (u : ℕ) (x : Sex) → try_from u ≡ ok x → u ≡ to_u8 x
unfolding try_from to_u8
only_number u not_known h = ground arith
only_number u male h = ground arith
only_number u female h = ground arith
only_number u not_applicable h = ground arith

Table-IsNumbered : IsNumbered to_u8 try_from
Table-IsNumbered = record { small = small; found = own_number; sound = only_number }

-- The constants are read from their own numbers, and from no other value.
pub from_json_exact : (v : Json) (x : Sex) → (from_json v ≡ ok x) ↔ (v ≡ number (some (to_u8 x)))
from_json_exact v x = unfold from_json in converted-IsNumbered any_error Table-IsNumbered v x
