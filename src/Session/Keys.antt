-- ===== src/Session/Keys.antt =====
-- src/definitions/session.rs: ephemeral keys, the shared secret and the session keys. The crates
-- p256, elliptic-curve, sha2 and hkdf are parameters.
pub mod Agreement
use isomdl.Prelude.{
  ◌≡◌, refl, Bool, true, false, Option, none, some, Result, ok, err, ◌>>=◌, ok_or, Outcome, returns,
  panics, or_panic, and_then, unwrapped, if◌then◌else◌, arith,
}
use isomdl.Prelude.Text.{Text, codes}
use isomdl.Cbor.{Bytes, Value}
use isomdl.CoseKey.{CoseKey, ec2, p256, value}
use isomdl.CoseKey
use isomdl.CoseKey.Points.{Sec1, encoded_point}
use isomdl.Helpers.Tag24.{Tag24}
use isomdl.Helpers.Tag24
use isomdl.Engagement.Envelope.{DeviceEngagement}

pub data Handover : Type 0 where
  qr : Handover
  nfc : Bytes → Option Bytes → Handover
  oid4vp : Text → Text → Handover

-- `SessionTranscript180135`
pub record SessionTranscript : Type 0 where
  pub device_engagement : Tag24 DeviceEngagement
  pub e_reader_key : Tag24 CoseKey
  pub handover : Handover

pub record SessionEstablishment : Type 0 where
  pub e_reader_key : Tag24 CoseKey
  pub payload : Bytes  -- the field `data`

-- `Error`, and what `anyhow` carries of the other steps
pub data Error : Type 0 where
  ephemeral_key_error no_public_key transcript_encoding : Error
  bad_key : CoseKey.Error → Error

-- What the code calls of the crates. `none` is an error.
pub record Ecdh (s : Sec1) : Type 1 where
  pub SecretKey : Type 0
  pub PublicKey : Type 0
  pub SharedSecret : Type 0
  -- `EncodedPoint::from(private_key.public_key()).x()`, `.y()`
  pub x_coordinate : SecretKey → Option Bytes
  pub y_coordinate : SecretKey → Option Bytes
  -- `SecretKey::to_bytes`, `SecretKey::from_bytes`
  pub to_bytes : SecretKey → Bytes
  pub from_bytes : s.FieldBytes → Option SecretKey
  -- `PublicKey::from_encoded_point`
  pub from_encoded_point : s.Point → Option PublicKey
  pub diffie_hellman : SecretKey → PublicKey → SharedSecret
  -- `Sha256::digest`
  pub digest : Bytes → Bytes
  -- `extract` with a salt, then `expand` with an info to 32 bytes, a length that it always takes
  pub session_key : SharedSecret → Bytes → Bytes → Bytes
  -- `Hkdf::new(None, key)`, then `expand` with an info to 16 bytes
  pub hkdf : Bytes → Bytes → Option Bytes
  -- `serde_cbor::to_vec` of a tagged value
  pub to_vec : Value → Option Bytes

module _ {s : Sec1} (E : Ecdh s) where
  -- The random draw of the private key is an argument.
  unfoldable pub create_p256_ephemeral_keys : E.SecretKey → Result Error (E.SecretKey × CoseKey)
  create_p256_ephemeral_keys private_key = do
    x ← ok_or (E.x_coordinate private_key) ephemeral_key_error
    y ← ok_or (E.y_coordinate private_key) ephemeral_key_error
    ok (private_key, ec2 p256 x (value y))

  as_point : Outcome CoseKey.Error s.Point → Outcome Error s.Point
  as_point panics = panics
  as_point (returns (ok p)) = returns (ok p)
  as_point (returns (err e)) = returns (err (bad_key e))

  unfoldable pub get_shared_secret : CoseKey → E.SecretKey → Outcome Error E.SharedSecret
  unfolding as_point
  get_shared_secret cose_key e_device_key_priv = and_then (as_point (encoded_point s cose_key)) λ p.
      unwrapped (ok_or (E.from_encoded_point p) no_public_key)
        λ public_key. returns (ok (E.diffie_hellman e_device_key_priv public_key))

  unfoldable pub derive_session_key :
      E.SharedSecret → Tag24 SessionTranscript → Bool → Result Error Bytes
  derive_session_key shared_secret session_transcript reader = do
    transcript ← ok_or (E.to_vec (Tag24.to_cbor session_transcript)) transcript_encoding
    ok (
        E.session_key shared_secret (E.digest transcript)
          (codes (if reader then "SKReader" else "SKDevice")))

  -- `calculate_ble_ident` of src/presentation/mod.rs
  unfoldable pub calculate_ble_ident : Tag24 CoseKey → Option Bytes
  calculate_ble_ident e_device_key = elim (E.to_vec (Tag24.to_cbor e_device_key)) [
    | none ↦ none
    | some bytes ↦ E.hkdf bytes (codes "BLEIdent")
  ]
