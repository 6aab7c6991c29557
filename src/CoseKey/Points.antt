-- ===== src/CoseKey/Points.antt =====
-- `TryFrom<CoseKey> for EncodedPoint` of src/definitions/device_key/cose_key.rs. The crates p256 and
-- generic-array are parameters.
use isomdl.Prelude.{
  ◌≡◌, ◌≢◌, ◌↔◌, ◌⊎◌, inl, inr, Bool, false, Option, none, some, ◌∷◌, ok, err, ok_or, Outcome,
  returns, panics, or_panic, length, take, length-take, ltb, if◌then◌else◌, arith, ℕ_discrete,
  Bool-cases,
}
use isomdl.Cbor.{Bytes}
use isomdl.CoseKey.{CoseKey, OkpCurve, ec2, okp, p256, value, sign_bit, Error, invalid_cose_key}

-- `none` is a panic in `field_bytes` and `eight_bytes`, an error in `from_bytes`.
pub record Sec1 : Type 1 where
  pub FieldBytes : Type 0
  pub Point : Type 0
  -- `GenericArray::from_slice`, at 32 bytes
  pub field_bytes : Bytes → Option FieldBytes
  -- `GenericArray::<_, U8>::clone_from_slice`
  pub eight_bytes : Bytes → Option Bytes
  -- `EncodedPoint::from_affine_coordinates`
  pub from_affine_coordinates : FieldBytes → FieldBytes → Bool → Point
  -- `EncodedPoint::from_bytes`
  pub from_bytes : Bytes → Option Point

-- generic-array: a slice is taken exactly when it has the array's length.
pub record IsGenericArray (s : Sec1) : Type 0 where
  pub field_fits : (b : Bytes) → length b ≡ 32 → (f : s.FieldBytes) × (s.field_bytes b ≡ some f)
  pub field_unfit : (b : Bytes) → length b ≢ 32 → s.field_bytes b ≡ none
  pub eight_unfit : (b : Bytes) → length b ≢ 8 → s.eight_bytes b ≡ none

module _ (s : Sec1) where
  -- the arm of an uncompressed P-256 key
  from_coordinates : Bytes → Bytes → Outcome Error s.Point
  from_coordinates x y =
      or_panic (s.field_bytes x)
        λ x'. or_panic (s.field_bytes y) λ y'. returns (ok (s.from_affine_coordinates x' y' false))

  unfoldable pub encoded_point : CoseKey → Outcome Error s.Point
  unfolding from_coordinates
  encoded_point (ec2 p256 x (value y)) = from_coordinates x y
  -- the coordinate becomes an array before the match on `y`
  encoded_point (ec2 p256 x (sign_bit y)) =
      or_panic (s.field_bytes x)
        λ _. returns (ok_or (s.from_bytes ((if y then 3 else 2) ∷ x)) invalid_cose_key)
  encoded_point (okp _ x) =
      -- `x[0..42]` panics on a shorter slice
      if ltb (length x) 42
      then panics
      else or_panic (s.eight_bytes (take 42 x))
          λ b. returns (ok_or (s.from_bytes b) invalid_cose_key)
  encoded_point _ = returns (err invalid_cose_key)

-- an OKP key, or a P-256 key with a coordinate that does not have 32 bytes
abbrev pub IsUnfit : CoseKey → Type 0
IsUnfit (ec2 p256 x (value y)) = (length x ≢ 32) ⊎ (length y ≢ 32)
IsUnfit (ec2 p256 x (sign_bit y)) = length x ≢ 32
IsUnfit (okp _ x) = Unit
IsUnfit _ = ⊥

module _ (s : Sec1) (g : IsGenericArray s) where
  coordinates_panic :
      (x y : Bytes) → (length x ≢ 32) ⊎ (length y ≢ 32) → from_coordinates s x y ≡ panics
  unfolding from_coordinates
  coordinates_panic x y (inl h) = rw (g.field_unfit x h)
  coordinates_panic x y (inr h) = ground (arith, g.field_unfit y h)

  coordinates_return :
      (x y : Bytes) → from_coordinates s x y ≡ panics → (length x ≢ 32) ⊎ (length y ≢ 32)
  unfolding from_coordinates
  coordinates_return x y h = elim (ℕ_discrete (length x) 32) [
    | no n ↦ inl n
    | yes e ↦ elim (ℕ_discrete (length y) 32) [
      | no n ↦ inr n
      | yes e' ↦ cc (h, (g.field_fits x e).1, (g.field_fits y e').1)
    ]
  ]

  okp_panics : (c : OkpCurve) (x : Bytes) → encoded_point s (okp c x) ≡ panics
  unfolding encoded_point
  okp_panics c x = elim (Bool-cases (ltb (length x) 42)) [
    | inl short ↦ rw short
    | inr long ↦ rw (long, g.eight_unfit (take 42 x) (λ e. ground (arith, length-take 42 x)))
  ]

  compressed_panics :
      (x : Bytes) (y : Bool) → length x ≢ 32 → encoded_point s (ec2 p256 x (sign_bit y)) ≡ panics
  unfolding encoded_point
  compressed_panics x y h = rw (g.field_unfit x h)

  compressed_return :
      (x : Bytes) (y : Bool) → encoded_point s (ec2 p256 x (sign_bit y)) ≡ panics → length x ≢ 32
  unfolding encoded_point
  compressed_return x y h = elim (ℕ_discrete (length x) 32) [
    | no n ↦ n
    | yes e ↦ ground (arith, h, (g.field_fits x e).1)
  ]

  -- Making a curve point panics exactly on an OKP key and on a P-256 key with a coordinate that
  -- does not have 32 bytes; every other key gives a point or `invalid_cose_key`.
  pub encoded_point_panics : (k : CoseKey) → (encoded_point s k ≡ panics) ↔ IsUnfit k
  unfolding encoded_point
  encoded_point_panics (ec2 p256 x (value y)) = (coordinates_return x y, coordinates_panic x y)
  encoded_point_panics (okp c x) = (λ _. tt, λ _. okp_panics c x)
  encoded_point_panics (ec2 p256 x (sign_bit y)) = (compressed_return x y, compressed_panics x y)
  encoded_point_panics _ = (λ h. cc, λ h. absurd h)
