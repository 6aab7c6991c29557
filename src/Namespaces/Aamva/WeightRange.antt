-- ===== src/Namespaces/Aamva/WeightRange.antt =====
-- src/definitions/namespaces/org_iso_18013_5_1_aamva/weight_range.rs
use isomdl.Prelude.{ℕ, ◌≡◌, ◌↔◌, ◌<◌, ◌^◌, ◌==◌, refl, some, Result, ok, err, if◌then◌else◌, arith}
use isomdl.Prelude.Int.{pos}
use isomdl.Cbor.{Value, integer}
use isomdl.FromJson.{Json, number, FromJsonError, ParseError, unrecognized_number, converted}
use isomdl.Namespaces.Named.{IsNumbered, converted-IsNumbered}

pub data WeightRange : Type 0 where
  zero : WeightRange
  one : WeightRange
  two : WeightRange
  three : WeightRange
  four : WeightRange
  five : WeightRange
  six : WeightRange
  seven : WeightRange
  eight : WeightRange
  nine : WeightRange

pub data Error : Type 0 where
  unrecognized : ℕ → Error

unfoldable pub to_u8 : WeightRange → ℕ
to_u8 zero = 0
to_u8 one = 1
to_u8 two = 2
to_u8 three = 3
to_u8 four = 4
to_u8 five = 5
to_u8 six = 6
to_u8 seven = 7
to_u8 eight = 8
to_u8 nine = 9

unfoldable pub to_cbor : WeightRange → Value
unfolding to_u8
to_cbor x = integer (pos (to_u8 x))

unfoldable pub try_from : ℕ → Result Error WeightRange
try_from u =
    if u == 0
    then ok zero
    else if u == 1
    then ok one
    else if u == 2
    then ok two
    else if u == 3
    then ok three
    else if u == 4
    then ok four
    else if u == 5
    then ok five
    else if u == 6
    then ok six
    else if u == 7
    then ok seven
    else if u == 8
    then ok eight
    else if u == 9
    then ok nine
    else err (unrecognized u)

-- into an `anyhow::Error`
any_error : Error → ParseError
any_error (unrecognized u) = unrecognized_number u

unfoldable pub from_json : Json → Result FromJsonError WeightRange
unfolding try_from any_error
from_json = converted any_error try_from

small : (x : WeightRange) → to_u8 x < 2 ^ 32
unfolding to_u8
small zero = omega arith
small one = omega arith
small two = omega arith
small three = omega arith
small four = omega arith
small five = omega arith
small six = omega arith
small seven = omega arith
small eight = omega arith
small nine = omega arith

own_number : (x : WeightRange) → try_from (to_u8 x) ≡ ok x
unfolding try_from to_u8
own_number zero = refl
own_number one = refl
own_number two = refl
own_number three = refl
own_number four = refl
own_number five = refl
own_number six = refl
own_number seven = refl
own_number eight = refl
own_number nine = refl

only_number : (u : ℕ) (x : WeightRange) → try_from u ≡ ok x → u ≡ to_u8 x
unfolding try_from to_u8
only_number u zero h = ground arith
only_number u one h = ground arith
only_number u two h = ground arith
only_number u three h = ground arith
only_number u four h = ground arith
only_number u five h = ground arith
only_number u six h = ground arith
only_number u seven h = ground arith
only_number u eight h = ground arith
only_number u nine h = ground arith

Table-IsNumbered : IsNumbered to_u8 try_from
Table-IsNumbered = record { small = small; found = own_number; sound = only_number }

-- The constants are read from their own numbers, and from no other value.
pub from_json_exact :
    (v : Json) (x : WeightRange) → (from_json v ≡ ok x) ↔ (v ≡ number (some (to_u8 x)))
from_json_exact v x = unfold from_json in converted-IsNumbered any_error Table-IsNumbered v x
