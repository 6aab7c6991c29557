-- ===== src/CoseKey/RoundTrip.antt =====
-- The CBOR form of a COSE key and back.
use isomdl.Prelude.{
  ◌≡◌, refl, ap, to_option, ◌↔◌, inl, inr, Option-cases, Option, some, ok, arith, sym, ◌∙◌,
}
use isomdl.Prelude.Int.{ℤ, pos, negsuc, eq_ℤ_iff}
use isomdl.Cbor.{Value, Entries, bool, integer, bytes, map, get_int, without_int}
use isomdl.Cbor.Lookup.{get_int-without_int}
use isomdl.Helpers.Tag24.{Codec, Reads, converted}
use isomdl.CoseKey.{
  CoseKey, Ec2Y, Ec2Curve, OkpCurve, ec2, okp, p256, p384, x25519, value, sign_bit,
  ec2_curve_to_cbor, okp_curve_to_cbor, y_to_cbor, y_from_cbor, by_key_type, ec2_curve_from_id,
  okp_curve_from_id, to_cbor, from_cbor, codec,
}

-- Every key is read back from its CBOR form.
pub from_cbor-to_cbor : (k : CoseKey) → from_cbor (to_cbor k) ≡ ok k
unfolding from_cbor to_cbor
from_cbor-to_cbor (ec2 p256 x (value s)) = refl
from_cbor-to_cbor (ec2 p256 x (sign_bit b)) = refl
from_cbor-to_cbor (ec2 p384 x (value s)) = refl
from_cbor-to_cbor (ec2 _ x (sign_bit b)) = refl
from_cbor-to_cbor (ec2 _ x (value s)) = refl
from_cbor-to_cbor (okp x25519 x) = refl
from_cbor-to_cbor (okp _ x) = refl

-- If the bytes of a key's value are read as the value, they are read as the key.
pub codec-Reads :
    (values : Codec Value) (k : CoseKey) → Reads values (to_cbor k) → Reads (codec values) k
codec-Reads values k law b h =
    ap (converted (λ v. to_option (from_cbor v))) (law b h) ∙ ap to_option (from_cbor-to_cbor k)

-- The key's type, curve and coordinates, as the four labels of a map hold them.
abbrev Holds : CoseKey → Option Value → Option Value → Option Value → Option Value → Type 0
Holds (ec2 crv x y) kty c xs ys =
    (kty ≡ some (integer (pos 2)))
    × (c ≡ some (ec2_curve_to_cbor crv))
    × (xs ≡ some (bytes x))
    × (ys ≡ some (y_to_cbor y))
Holds (okp crv x) kty c xs ys =
    (kty ≡ some (integer (pos 1))) × (c ≡ some (okp_curve_to_cbor crv)) × (xs ≡ some (bytes x))

abbrev pub Carries : CoseKey → Entries → Type 0
Carries k m =
    Holds k (get_int (pos 1) m) (get_int (negsuc 0) m) (get_int (negsuc 1) m) (get_int (negsuc 2) m)

curve_id : (c : Ec2Curve) (i : ℤ) → ec2_curve_from_id i ≡ ok c → integer i ≡ ec2_curve_to_cbor c
unfolding ec2_curve_from_id ec2_curve_to_cbor
curve_id c i h = ground arith

okp_curve_id : (c : OkpCurve) (i : ℤ) → okp_curve_from_id i ≡ ok c → integer i ≡ okp_curve_to_cbor c
unfolding okp_curve_from_id okp_curve_to_cbor
okp_curve_id c i h = ground arith

y_value : (y : Ec2Y) (v : Value) → y_from_cbor v ≡ ok y → v ≡ y_to_cbor y
unfolding y_from_cbor y_to_cbor
y_value y (bytes s) h = ground arith
y_value y (bool b) h = ground arith
y_value y _ h = cc

arms_sound :
    (k : CoseKey) (kty c xs : Option Value) (m : Entries)
    → by_key_type kty c xs m ≡ ok k
    → Holds k kty c xs (get_int (negsuc 2) m)
unfolding by_key_type
arms_sound (ec2 crv x' y) (some (integer kty)) (some (integer c)) (some (bytes x)) m h =
    elim (Option-cases (get_int (negsuc 2) m)) [
      | inl e ↦ ground (arith, e)
      | inr (v, e) ↦ ground (arith, e, curve_id crv c, y_value y v, eq_ℤ_iff kty (pos 2))
    ]
arms_sound (okp crv x') (some (integer kty)) (some (integer c)) (some (bytes x)) m h =
    ground (arith, okp_curve_id crv c, eq_ℤ_iff kty (pos 1))
arms_sound k _ _ _ m h = absurd (cc)

arms_complete :
    (k : CoseKey) (kty c xs : Option Value) (m : Entries)
    → Holds k kty c xs (get_int (negsuc 2) m)
    → by_key_type kty c xs m ≡ ok k
unfolding by_key_type ec2_curve_from_id okp_curve_from_id ec2_curve_to_cbor okp_curve_to_cbor
    y_from_cbor y_to_cbor
arms_complete (ec2 p256 x (value s)) kty c xs m h = rw (h.0, h.1, h.2, h.3)
arms_complete (ec2 p256 x (sign_bit s)) kty c xs m h = rw (h.0, h.1, h.2, h.3)
arms_complete (ec2 _ x (sign_bit s)) kty c xs m h = rw (h.0, h.1, h.2, h.3)
arms_complete (ec2 _ x (value s)) kty c xs m h = rw (h.0, h.1, h.2, h.3)
arms_complete (okp x25519 x) kty c xs m h = rw (h.0, h.1, h.2)
arms_complete (okp _ x) kty c xs m h = rw (h.0, h.1, h.2)

-- what the three removals leave
abbrev left : Entries → Entries
left m = without_int (negsuc 1) (without_int (negsuc 0) (without_int (pos 1) m))

module _ (m : Entries) where
  y_left : get_int (negsuc 2) (left m) ≡ get_int (negsuc 2) m
  y_left = simp get_int-without_int

  crv_left : get_int (negsuc 0) (without_int (pos 1) m) ≡ get_int (negsuc 0) m
  crv_left = simp get_int-without_int

  x_left :
      get_int (negsuc 1) (without_int (negsuc 0) (without_int (pos 1) m)) ≡ get_int (negsuc 1) m
  x_left = simp get_int-without_int

  from_cbor_reads :
      from_cbor (map m)
      ≡ by_key_type (get_int (pos 1) m) (get_int (negsuc 0) m) (get_int (negsuc 1) m) (left m)
  from_cbor_reads = unfold from_cbor in cc (crv_left, x_left)

  -- A map reads as a key exactly when it holds that key's parts under their labels; other labels
  -- do not matter.
  pub from_cbor-Carries : (k : CoseKey) → (from_cbor (map m) ≡ ok k) ↔ Carries k m
  from_cbor-Carries k = (
    λ h. rw y_left at (arms_sound k _ _ _ (left m) (sym from_cbor_reads ∙ h)),
    λ h. from_cbor_reads ∙ arms_complete k _ _ _ (left m) (rw y_left h),
  )
