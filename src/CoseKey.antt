-- ===== src/CoseKey.antt =====
-- src/definitions/device_key/cose_key.rs: COSE keys, their CBOR form and their curve points.
pub mod RoundTrip
pub mod Points
pub mod Jwk
use isomdl.Prelude.{
  ℕ, Bool, true, false, Option, none, some, List, [], ◌∷◌, Result, ok, err, to_option, ◌>>=◌, ok_or,
  length, leb, if◌then◌else◌,
}
use isomdl.Prelude.Int.{ℤ, pos, negsuc, eq_ℤ}
use isomdl.Cbor.{
  Bytes, Value, Entries, null, bool, integer, float, bytes, text, array, map, tag, end, remove_int,
  insert_int, get_int, without_int,
}
use isomdl.Helpers.Tag24.{Codec, through_value}

pub data Ec2Y : Type 0 where
  value : Bytes → Ec2Y
  sign_bit : Bool → Ec2Y

pub data Ec2Curve : Type 0 where
  p256 p384 p521 p256k : Ec2Curve

pub data OkpCurve : Type 0 where
  x25519 x448 ed25519 ed448 : OkpCurve

pub data CoseKey : Type 0 where
  ec2 : Ec2Curve → Bytes → Ec2Y → CoseKey
  okp : OkpCurve → Bytes → CoseKey

pub data Error : Type 0 where
  ec2_missing_x ec2_missing_y unknown_curve unsupported_curve unsupported_key_type : Error
  invalid_cose_key unsupported_format : Error
  invalid_type_y not_a_map : Value → Error

-- `cose_rs::algorithm::Algorithm`, the ones the code names
pub data Algorithm : Type 0 where
  es256 es384 es512 eddsa : Algorithm

unfoldable pub signature_algorithm : CoseKey → Option Algorithm
signature_algorithm (ec2 p256 _ _) = some es256
signature_algorithm (ec2 p384 _ _) = some es384
signature_algorithm (ec2 p521 _ _) = some es512
signature_algorithm (okp ed448 _) = some eddsa
signature_algorithm (okp ed25519 _) = some eddsa
signature_algorithm _ = none

unfoldable pub y_to_cbor : Ec2Y → Value
y_to_cbor (value s) = bytes s
y_to_cbor (sign_bit b) = bool b

unfoldable pub y_from_cbor : Value → Result Error Ec2Y
y_from_cbor (bytes s) = ok (value s)
y_from_cbor (bool b) = ok (sign_bit b)
y_from_cbor v = err (invalid_type_y v)

unfoldable pub ec2_curve_to_cbor : Ec2Curve → Value
ec2_curve_to_cbor p256 = integer (pos 1)
ec2_curve_to_cbor p384 = integer (pos 2)
ec2_curve_to_cbor p521 = integer (pos 3)
ec2_curve_to_cbor p256k = integer (pos 8)

unfoldable pub ec2_curve_from_id : ℤ → Result Error Ec2Curve
ec2_curve_from_id crv_id =
    if eq_ℤ crv_id (pos 1)
    then ok p256
    else if eq_ℤ crv_id (pos 2)
    then ok p384
    else if eq_ℤ crv_id (pos 3)
    then ok p521
    else if eq_ℤ crv_id (pos 8)
    then ok p256k
    else err unsupported_curve

unfoldable pub okp_curve_to_cbor : OkpCurve → Value
okp_curve_to_cbor x25519 = integer (pos 4)
okp_curve_to_cbor x448 = integer (pos 5)
okp_curve_to_cbor ed25519 = integer (pos 6)
okp_curve_to_cbor ed448 = integer (pos 7)

unfoldable pub okp_curve_from_id : ℤ → Result Error OkpCurve
okp_curve_from_id crv_id =
    if eq_ℤ crv_id (pos 4)
    then ok x25519
    else if eq_ℤ crv_id (pos 5)
    then ok x448
    else if eq_ℤ crv_id (pos 6)
    then ok ed25519
    else if eq_ℤ crv_id (pos 7)
    then ok ed448
    else err unsupported_curve

-- `From<CoseKey> for CborValue`
unfoldable pub to_cbor : CoseKey → Value
unfolding insert_int y_to_cbor ec2_curve_to_cbor okp_curve_to_cbor
to_cbor (ec2 crv x y) =
    let m = insert_int (pos 1) (integer (pos 2)) end in
    let m = insert_int (negsuc 0) (ec2_curve_to_cbor crv) m in
    let m = insert_int (negsuc 1) (bytes x) m in map (insert_int (negsuc 2) (y_to_cbor y) m)
to_cbor (okp crv x) =
    let m = insert_int (pos 1) (integer (pos 1)) end in
    let m = insert_int (negsuc 0) (okp_curve_to_cbor crv) m in
    map (insert_int (negsuc 1) (bytes x) m)

-- the arms of the `match` on the three removed values; `map` is what the removals left
by_key_type : Option Value → Option Value → Option Value → Entries → Result Error CoseKey
by_key_type (some (integer kty)) (some (integer crv_id)) (some (bytes x)) m =
    if eq_ℤ kty (pos 2)
    then (do
      crv ← ec2_curve_from_id crv_id
      v ← ok_or (remove_int (negsuc 2) m).0 ec2_missing_y
      y ← y_from_cbor v
      ok (ec2 crv x y))
    else if eq_ℤ kty (pos 1)
    then (do crv ← okp_curve_from_id crv_id; ok (okp crv x))
    else err unsupported_key_type
by_key_type _ _ _ _ = err unsupported_key_type

-- `TryFrom<CborValue> for CoseKey`
unfoldable pub from_cbor : Value → Result Error CoseKey
unfolding by_key_type ec2_curve_from_id okp_curve_from_id y_from_cbor get_int without_int
from_cbor (map m) =
    let (kty, m) = remove_int (pos 1) m in
    let (crv, m) = remove_int (negsuc 0) m in
    let (x, m) = remove_int (negsuc 1) m in by_key_type kty crv x m
from_cbor v = err (not_a_map v)

-- how serde writes and reads a key
abbrev pub codec : Codec Value → Codec CoseKey
codec values = through_value values to_cbor λ v. to_option (from_cbor v)
