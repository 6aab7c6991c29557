-- ===== src/CoseKey/Jwk.antt =====
-- The conversions of COSE keys from and to JSON web keys
-- (src/definitions/device_key/cose_key.rs). The data of the crate ssi-jwk are modelled by what the
-- code reads and writes; what a JWK says of a key besides its parameters is a parameter, with the
-- value that has none of it.
use isomdl.Prelude.{
  ◌≡◌, ◌↔◌, refl, subst, ap, true, [], ◌∷◌, Option, none, some, Result, ok, err, ◌>>=◌,
  >>=_succeeds, ok_or, ok_or-eq-ok, arith,
}
use isomdl.Prelude.Text.{Text, codes, text_eq}
use isomdl.Cbor.{Bytes}
use isomdl.CoseKey.{
  CoseKey, ec2, okp, Ec2Y, value, sign_bit, Ec2Curve, p256, p384, p521, p256k, OkpCurve, x25519,
  x448, ed25519, ed448, Error, ec2_missing_x, ec2_missing_y, unknown_curve, unsupported_curve,
  unsupported_key_type, unsupported_format,
}
use isomdl.Namespaces.Arms.{Arms, first_arm, every_arm, first_arm_sound}

pub record EcParams : Type 0 where
  pub curve : Option Text
  pub x_coordinate : Option Bytes
  pub y_coordinate : Option Bytes
  pub ecc_private_key : Option Bytes

pub record OctetParams : Type 0 where
  pub curve : Text
  pub public_key : Bytes
  pub private_key : Option Bytes

pub data Params : Type 0 where
  ec : EcParams → Params
  octet : OctetParams → Params
  other_params : Params

pub record Jwk (Use : Type 0) : Type 0 where
  pub params : Params
  pub use_of_key : Use

unfoldable pub ec2_name : Ec2Curve → Text
ec2_name p256 = codes "P-256"
ec2_name p384 = codes "P-384"
ec2_name p521 = codes "P-521"
ec2_name p256k = codes "secp256k1"

unfoldable pub ec2_arms : Arms Ec2Curve
ec2_arms =
    (codes "P-256", p256)
    ∷ (codes "P-384", p384)
    ∷ (codes "P-521", p521)
    ∷ (codes "secp256k1", p256k)
    ∷ []

abbrev named_curve : Option Text → Result Error Ec2Curve
named_curve none = err unknown_curve
named_curve (some crv) = ok_or (first_arm ec2_arms crv) unsupported_curve

-- `TryFrom<&ECParams> for EC2Curve`
unfoldable pub ec2_curve_from_params : EcParams → Result Error Ec2Curve
ec2_curve_from_params params = named_curve params.curve

-- `TryFrom<ECParams> for EC2Y`
unfoldable pub y_from_params : EcParams → Result Error Ec2Y
y_from_params params = ok_or params.y_coordinate ec2_missing_y >>= λ y. ok (value y)

unfoldable pub okp_name : OkpCurve → Text
okp_name x25519 = codes "X25519"
okp_name x448 = codes "X448"
okp_name ed25519 = codes "Ed25519"
okp_name ed448 = codes "Ed448"

unfoldable pub okp_arms : Arms OkpCurve
okp_arms =
    (codes "Ed25519", ed25519)
    ∷ (codes "Ed448", ed448)
    ∷ (codes "X25519", x25519)
    ∷ (codes "X448", x448)
    ∷ []

-- `TryFrom<&OctetParams> for OKPCurve`
unfoldable pub okp_curve_from_params : OctetParams → Result Error OkpCurve
okp_curve_from_params params = ok_or (first_arm okp_arms params.curve) unsupported_curve

unfoldable pub from_params : Params → Result Error CoseKey
unfolding ec2_curve_from_params y_from_params okp_curve_from_params
from_params (ec params) = do
  x ← ok_or params.x_coordinate ec2_missing_x
  crv ← ec2_curve_from_params params
  y ← y_from_params params
  ok (ec2 crv x y)
from_params (octet params) = do crv ← okp_curve_from_params params; ok (okp crv params.public_key)
from_params other_params = err unsupported_key_type

unfoldable pub to_params : CoseKey → Result Error Params
unfolding ec2_name okp_name
to_params (ec2 crv x (value y)) = ok (
    ec (record {
      curve = some (ec2_name crv);
      x_coordinate = some x;
      y_coordinate = some y;
      ecc_private_key = none;
    }))
to_params (ec2 crv x (sign_bit b)) = err unsupported_format
to_params (okp crv x) =
    ok (octet (record { curve = okp_name crv; public_key = x; private_key = none }))

-- `TryFrom<JWK> for CoseKey`
unfoldable pub from_jwk : {Use : Type 0} → Jwk Use → Result Error CoseKey
unfolding from_params
from_jwk jwk = from_params jwk.params

-- `TryFrom<CoseKey> for JWK`
unfoldable pub to_jwk : {Use : Type 0} → Use → CoseKey → Result Error (Jwk Use)
unfolding to_params
to_jwk no_use k = to_params k >>= λ params. ok (record { params = params; use_of_key = no_use })

-- parameters of a public key
abbrev pub IsPublic : Params → Type 0
IsPublic (ec params) = params.ecc_private_key ≡ none
IsPublic (octet params) = params.private_key ≡ none
IsPublic other_params = Unit

ec2_arms_agree : every_arm ec2_name ec2_arms ≡ true
unfolding ec2_name ec2_arms every_arm text_eq
ec2_arms_agree = refl

okp_arms_agree : every_arm okp_name okp_arms ≡ true
unfolding okp_name okp_arms every_arm text_eq
okp_arms_agree = refl

ec2_own : (crv : Ec2Curve) → first_arm ec2_arms (ec2_name crv) ≡ some crv
unfolding ec2_name ec2_arms first_arm text_eq
ec2_own p256 = refl
ec2_own p384 = refl
ec2_own p521 = refl
ec2_own p256k = refl

okp_own : (crv : OkpCurve) → first_arm okp_arms (okp_name crv) ≡ some crv
unfolding okp_name okp_arms first_arm text_eq
okp_own x25519 = refl
okp_own x448 = refl
okp_own ed25519 = refl
okp_own ed448 = refl

named_curve-eq_ok :
    (o : Option Text) (crv : Ec2Curve) → named_curve o ≡ ok crv → o ≡ some (ec2_name crv)
named_curve-eq_ok none crv h = cc
named_curve-eq_ok (some s) crv h = ap some (
    first_arm_sound ec2_name ec2_arms s ec2_arms_agree
      (ok_or-eq-ok (first_arm ec2_arms s) unsupported_curve h))

y-eq_ok :
    (params : EcParams) (y : Ec2Y)
    → y_from_params params ≡ ok y
    → (w : Bytes) × (params.y_coordinate ≡ some w) × (y ≡ value w)
unfolding y_from_params
y-eq_ok params y h =
    let (w, e, built) = >>=_succeeds (ok_or params.y_coordinate ec2_missing_y) _ h in
    (w, ok_or-eq-ok params.y_coordinate ec2_missing_y e, ground (arith, built))

params_back :
    (params : Params) (k : CoseKey)
    → from_params params ≡ ok k
    → IsPublic params
    → to_params k ≡ ok params
unfolding from_params to_params
params_back (ec params) k h p =
    let (x, is_x, h1) = >>=_succeeds (ok_or params.x_coordinate ec2_missing_x) _ h in
    let (crv, is_crv, h2) = >>=_succeeds (ec2_curve_from_params params) _ h1 in
    let (y, is_y, built) = >>=_succeeds (y_from_params params) _ h2 in
    let (w, at_y, made) = y-eq_ok params y is_y in
    let at_x = ok_or-eq-ok params.x_coordinate ec2_missing_x is_x in
    let at_crv = named_curve-eq_ok params.curve crv (unfold ec2_curve_from_params in is_crv) in
    ground (arith, p, built, at_x, at_crv, at_y, made)
params_back (octet params) k h p =
    let (crv, is_crv, built) = >>=_succeeds (okp_curve_from_params params) _ h in
    let name = first_arm_sound okp_name okp_arms params.curve okp_arms_agree (
      ok_or-eq-ok (first_arm okp_arms params.curve) unsupported_curve
        (unfold okp_curve_from_params in is_crv)) in
    ground (arith, p, built, name)
params_back other_params k h p = absurd (cc)

params_there :
    (params : Params) (k : CoseKey)
    → to_params k ≡ ok params
    → (from_params params ≡ ok k) × IsPublic params
unfolding from_params to_params
params_there (ec params) (ec2 crv x (value y)) h =
    unfold ec2_curve_from_params in unfold y_from_params in ground (arith, h, ec2_own crv)
params_there (octet params) (ec2 crv x (value y)) h = absurd (cc)
params_there other_params (ec2 crv x (value y)) h = absurd (cc)
params_there params (ec2 crv x (sign_bit b)) h = absurd (cc)
params_there (ec params) (okp crv x) h = absurd (cc)
params_there other_params (okp crv x) h = absurd (cc)
params_there (octet params) (okp crv x) h =
    unfold okp_curve_from_params in ground (arith, h, okp_own crv)

-- A COSE key is converted to a JWK exactly when the JWK is of a public key, says nothing of its use
-- and is converted back to the same COSE key; a key that has only the sign of y has no JWK.
pub to_jwk_exact :
    {Use : Type 0} (no_use : Use) (k : CoseKey) (jwk : Jwk Use)
    → (to_jwk no_use k ≡ ok jwk)
      ↔ ((from_jwk jwk ≡ ok k) × IsPublic jwk.params × (jwk.use_of_key ≡ no_use))
unfolding to_jwk from_jwk
to_jwk_exact no_use k jwk = (
  (λ h.
      let (params, e, built) = >>=_succeeds (to_params k) _ h in
      let (there, bare) = params_there params k e in
      (
        ground (arith, there, built),
        subst IsPublic (ground (arith, built)) bare,
        ground (arith, built),
      )),
  (λ h. ground (arith, params_back jwk.params k h.0 h.1, h.2)),
)
