-- ===== src/Session/Keys/Agreement.antt =====
-- The keys that two parties derive (src/definitions/session.rs).
use isomdl.Prelude.{◌≡◌, refl, false, some, Option-cases, inl, inr, ok, returns, arith}
use isomdl.Cbor.{Bytes}
use isomdl.CoseKey.{CoseKey, ec2, p256, value}
use isomdl.CoseKey.Points.{Sec1, encoded_point}
use isomdl.Session.Keys.{Ecdh, create_p256_ephemeral_keys, get_shared_secret}

-- What the crates document: a key's bytes are the key, its coordinates are its public key, and
-- Diffie-Hellman agrees.
pub record IsEcdh {s : Sec1} (E : Ecdh s) : Type 0 where
  pub public_key : E.SecretKey → E.PublicKey
  pub restores :
      (k : E.SecretKey)
      → (f : s.FieldBytes) × (s.field_bytes (E.to_bytes k) ≡ some f) × (E.from_bytes f ≡ some k)
  pub decodes :
      (k : E.SecretKey) (x y : Bytes)
      → E.x_coordinate k ≡ some x
      → E.y_coordinate k ≡ some y
      → (f : s.FieldBytes) × (g : s.FieldBytes) × (s.field_bytes x ≡ some f)
        × (s.field_bytes y ≡ some g)
        × (E.from_encoded_point (s.from_affine_coordinates f g false) ≡ some (public_key k))
  pub agrees :
      (a b : E.SecretKey) → E.diffie_hellman a (public_key b) ≡ E.diffie_hellman b (public_key a)

module _ {s : Sec1} (E : Ecdh s) (law : IsEcdh E) where
  -- A party that is given the public half of a generated key computes the secret with that key.
  pub get_shared_secret-create :
      (a b : E.SecretKey) {k : CoseKey}
      → create_p256_ephemeral_keys E a ≡ ok (a, k)
      → get_shared_secret E k b ≡ returns (ok (E.diffie_hellman b (law.public_key a)))
  unfolding create_p256_ephemeral_keys get_shared_secret encoded_point
  get_shared_secret-create a b {k} h = elim (Option-cases (E.x_coordinate a)) [
    | inl e ↦ absurd (ground (arith, e))
    | inr (x, e) ↦ elim (Option-cases (E.y_coordinate a)) [
      | inl e' ↦ absurd (ground (arith, e, e'))
      | inr (y, e') ↦
          let (f, g, is_f, is_g, is_k) = law.decodes a x y e e' in
          let same : k ≡ ec2 p256 x (value y) = ground (arith, e, e') in
          rw (same, is_f, is_g, is_k) refl
    ]
  ]

  -- Two parties that generate keys and are given each other's public half share one secret.
  pub shared_secret_agrees :
      (a b : E.SecretKey) {ka kb : CoseKey}
      → create_p256_ephemeral_keys E a ≡ ok (a, ka)
      → create_p256_ephemeral_keys E b ≡ ok (b, kb)
      → get_shared_secret E ka b ≡ get_shared_secret E kb a
  shared_secret_agrees a b {ka} {kb} h g =
      rw (get_shared_secret-create a b h, get_shared_secret-create b a g, law.agrees b a) refl

-- The private half of a generated pair is the drawn key.
pub create-own :
    {s : Sec1} (E : Ecdh s) (drawn : E.SecretKey) {p : E.SecretKey × CoseKey}
    → create_p256_ephemeral_keys E drawn ≡ ok p
    → (create_p256_ephemeral_keys E drawn ≡ ok (drawn, p.1)) × (p.0 ≡ drawn)
unfolding create_p256_ephemeral_keys
create-own E drawn {p} h = elim (Option-cases (E.x_coordinate drawn)) [
  | inl e ↦ absurd (ground (arith, e))
  | inr (x, e) ↦ elim (Option-cases (E.y_coordinate drawn)) [
    | inl e' ↦ absurd (ground (arith, e, e'))
    | inr (y, e') ↦ (ground (arith, e, e'), ground (arith, e, e'))
  ]
]
