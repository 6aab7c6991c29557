-- ===== src/Session.antt =====
-- src/definitions/session.rs: message counters, initialisation vectors and the encryption of a
-- session's messages. AES-256-GCM is a parameter.
pub mod Nonces
pub mod Stream
pub mod Keys
use isomdl.Prelude.{
  ℕ, ◌+◌, ◌/◌, ◌%◌, ◌^◌, ◌≡◌, Bool, true, false, List, [], ◌∷◌, ◌++◌, Option, none, some, Result,
  ok, err, ◌==◌, if◌then◌else◌,
}
use isomdl.Cbor.{Bytes}

pub data Status : Type 0 where
  session_encryption_error cbor_decoding_error session_termination : Status

unfoldable pub status_to_u64 : Status → ℕ
status_to_u64 session_encryption_error = 10
status_to_u64 cbor_decoding_error = 11
status_to_u64 session_termination = 20

-- The error is the code that its message shows.
unfoldable pub status_from_u64 : ℕ → Result ℕ Status
status_from_u64 n =
    if n == 10
    then ok session_encryption_error
    else if n == 11
    then ok cbor_decoding_error
    else if n == 20
    then ok session_termination
    else err n

pub record SessionData : Type 0 where
  pub payload : Option Bytes  -- the field `data`
  pub status : Option Status

-- `u32::to_be_bytes`
unfoldable pub to_be_bytes : ℕ → Bytes
to_be_bytes n = (n / 2 ^ 24 % 256) ∷ (n / 2 ^ 16 % 256) ∷ (n / 2 ^ 8 % 256) ∷ (n % 256) ∷ []

abbrev pub identifier : Bool → Bytes
identifier reader =
    if reader then 0 ∷ 0 ∷ 0 ∷ 0 ∷ 0 ∷ 0 ∷ 0 ∷ 0 ∷ [] else 0 ∷ 0 ∷ 0 ∷ 0 ∷ 0 ∷ 0 ∷ 0 ∷ 1 ∷ []

-- The counter is a `u32`; its addition wraps in a release build (a debug build panics there).
unfoldable pub get_initialization_vector : ℕ → Bool → ℕ × Bytes
unfolding to_be_bytes
get_initialization_vector message_count reader =
    let message_count' : ℕ = (message_count + 1) % 2 ^ 32 in
    (message_count', identifier reader ++ to_be_bytes message_count')

-- AES-256-GCM under a key and a nonce; `none` is an error.
pub record Aead : Type 0 where
  pub encrypt : Bytes → Bytes → Bytes → Option Bytes
  pub decrypt : Bytes → Bytes → Bytes → Option Bytes

-- What is encrypted is decrypted by the same key and nonce.
abbrev pub IsAead : Aead → Type 0
IsAead a = (k n p c : Bytes) → a.encrypt k n p ≡ some c → a.decrypt k n c ≡ some p

module _ (aead : Aead) where
  -- Each call returns the new counter with its result.
  unfoldable pub encrypt : Bytes → Bytes → ℕ → Bool → ℕ × Option Bytes
  encrypt session_key plaintext message_count reader =
      let (message_count', nonce) = get_initialization_vector message_count reader in
      (message_count', aead.encrypt session_key nonce plaintext)

  unfoldable pub decrypt : Bytes → Bytes → ℕ → Bool → ℕ × Option Bytes
  decrypt session_key ciphertext message_count reader =
      let (message_count', nonce) = get_initialization_vector message_count reader in
      (message_count', aead.decrypt session_key nonce ciphertext)

  unfoldable pub encrypt_device_data : Bytes → Bytes → ℕ → ℕ × Option Bytes
  unfolding encrypt
  encrypt_device_data sk_device plaintext message_count =
      encrypt sk_device plaintext message_count false

  unfoldable pub encrypt_reader_data : Bytes → Bytes → ℕ → ℕ × Option Bytes
  unfolding encrypt
  encrypt_reader_data sk_reader plaintext message_count =
      encrypt sk_reader plaintext message_count true

  unfoldable pub decrypt_device_data : Bytes → Bytes → ℕ → ℕ × Option Bytes
  unfolding decrypt
  decrypt_device_data sk_device ciphertext message_count =
      decrypt sk_device ciphertext message_count false

  unfoldable pub decrypt_reader_data : Bytes → Bytes → ℕ → ℕ × Option Bytes
  unfolding decrypt
  decrypt_reader_data sk_reader ciphertext message_count =
      decrypt sk_reader ciphertext message_count true
