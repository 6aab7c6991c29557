-- ===== src/Examples/Codecs.antt =====
-- The encodings and counters of src/definitions at concrete values.
use isomdl.Prelude.{
  ℕ, ◌≡◌, refl, ◌↔◌, Bool, true, false, List, [], ◌∷◌, none, some, ok, panics, length, arith, ◌==◌,
  if◌then◌else◌,
}
use isomdl.Prelude.Text.{codes}
use isomdl.Cbor.{Bytes, map, end}
use isomdl.CoseKey.Jwk.{Jwk, octet, to_jwk, from_jwk, IsPublic, to_jwk_exact}
use isomdl.CoseKey.{CoseKey, okp, ed25519, from_cbor}
use isomdl.CoseKey.Points.{Sec1, IsGenericArray, encoded_point, IsUnfit, encoded_point_panics}
use isomdl.CoseKey.RoundTrip.{Carries, from_cbor-Carries}
use isomdl.Helpers.Tag24.{Tag24, Codec}
use isomdl.Session.{get_initialization_vector}
use isomdl.Session
use isomdl.Session.Nonces.{get_initialization_vector_injective}
use isomdl.Session.Stream.{run, encrypt_all, decrypt_all, decrypt_all-encrypt_all}
use isomdl.Examples.{plain_aead}

abbrev key : CoseKey
key = okp ed25519 (4 ∷ [])

from_cbor-Carries_example : (from_cbor (map end) ≡ ok key) ↔ Carries key end
from_cbor-Carries_example = from_cbor-Carries end key

-- arrays as their bytes, each of the length that its type names
abbrev sec1 : Sec1
sec1 = record {
  FieldBytes = Bytes;
  Point = Bytes;
  field_bytes = λ b. if length b == 32 then some b else none;
  eight_bytes = λ b. if length b == 8 then some b else none;
  from_affine_coordinates = λ x y _. x;
  from_bytes = λ b. some b;
}

sec1-IsGenericArray : IsGenericArray sec1
sec1-IsGenericArray = record {
  field_fits = λ b h. (b, ground (arith, h));
  field_unfit = λ b h. ground (arith, h);
  eight_unfit = λ b h. ground (arith, h);
}

encoded_point_panics_example : (encoded_point sec1 key ≡ panics) ↔ IsUnfit key
encoded_point_panics_example = encoded_point_panics sec1 sec1-IsGenericArray key

abbrev codec : Codec Bytes
codec = record { to_vec = λ b. some b; from_slice = λ b. some b }

abbrev tagged : Tag24 Bytes
tagged = record { inner = 5 ∷ []; inner_bytes = 5 ∷ [] }

get_initialization_vector_injective_example : (◌≡◌ {A = ℕ} 3 3) × (true ≡ true)
get_initialization_vector_injective_example =
    get_initialization_vector_injective 3 3 true true (omega arith) (omega arith) refl

abbrev two_messages : List Bytes
two_messages = (2 ∷ []) ∷ (3 ∷ []) ∷ []

decrypt_all-encrypt_all_example :
    decrypt_all plain_aead (1 ∷ []) true 6 two_messages
    ≡ ((encrypt_all plain_aead (1 ∷ []) true 6 two_messages).0, some two_messages)
unfolding run encrypt_all Session.encrypt
decrypt_all-encrypt_all_example =
    decrypt_all-encrypt_all plain_aead (λ k n p c h. cc) (1 ∷ []) true 6 two_messages
      {cs = two_messages} refl

abbrev web_key : Jwk Bool
web_key = record {
  params = octet (record { curve = codes "Ed25519"; public_key = 1 ∷ 2 ∷ []; private_key = none });
  use_of_key = false;
}

to_jwk_exact_example : (to_jwk false (okp ed25519 (1 ∷ 2 ∷ [])) ≡ ok web_key) ↔ (
    (from_jwk web_key ≡ ok (okp ed25519 (1 ∷ 2 ∷ [])))
    × IsPublic web_key.params
    × (web_key.use_of_key ≡ false))
to_jwk_exact_example = to_jwk_exact false (okp ed25519 (1 ∷ 2 ∷ [])) web_key
