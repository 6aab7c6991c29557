-- ===== src/Session/Stream.antt =====
-- A sequence of messages that one side encrypts and the other decrypts, each with its own counter
-- (src/definitions/session.rs).
use isomdl.Prelude.{ℕ, ◌≡◌, Bool, List, [], ◌∷◌, Option, none, some, Option-cases, inl, inr, arith}
use isomdl.Cbor.{Bytes}
use isomdl.Session.{Aead, IsAead, encrypt, decrypt}

abbrev also : Option Bytes → Option (List Bytes) → Option (List Bytes)
also (some b) (some bs) = some (b ∷ bs)
also _ _ = none

-- One call of `f` a message; the result is the last counter, and all outputs if every call gave one.
unfoldable pub run : (Bytes → ℕ → ℕ × Option Bytes) → ℕ → List Bytes → ℕ × Option (List Bytes)
run f count [] = (count, some [])
run f count (m ∷ ms) = let rest = run f (f m count).0 ms in (rest.0, also (f m count).1 rest.1)

unfoldable pub encrypt_all : Aead → Bytes → Bool → ℕ → List Bytes → ℕ × Option (List Bytes)
unfolding run
encrypt_all aead key reader = run (λ m count. encrypt aead key m count reader)

unfoldable pub decrypt_all : Aead → Bytes → Bool → ℕ → List Bytes → ℕ × Option (List Bytes)
unfolding run
decrypt_all aead key reader = run (λ m count. decrypt aead key m count reader)

module _ (aead : Aead) (law : IsAead aead) (key : Bytes) (reader : Bool) where
  decrypt-encrypt :
      (p c : Bytes) (count : ℕ)
      → (encrypt aead key p count reader).1 ≡ some c
      → decrypt aead key c count reader ≡ ((encrypt aead key p count reader).0, some p)
  unfolding encrypt decrypt
  decrypt-encrypt p c count h = cc (law _ _ p c h)

  -- If decryption undoes encryption and every message of a sequence is encrypted, then a peer that starts from the same counter
  -- decrypts the ciphertexts to the messages, in order, and ends at the sender's counter.
  pub decrypt_all-encrypt_all :
      (count : ℕ) (ms : List Bytes) {cs : List Bytes}
      → (encrypt_all aead key reader count ms).1 ≡ some cs
      → decrypt_all aead key reader count cs ≡ ((encrypt_all aead key reader count ms).0, some ms)
  unfolding encrypt_all decrypt_all
  decrypt_all-encrypt_all count [] {cs} h = ground arith
  decrypt_all-encrypt_all count (m ∷ ms) {cs} h =
      elim (Option-cases (encrypt aead key m count reader).1) [
        | inl e ↦ absurd (ground (arith, e))
        | inr (c, e) ↦
            elim (Option-cases
              (encrypt_all aead key reader (encrypt aead key m count reader).0 ms).1) [
                | inl e' ↦ absurd (ground (arith, e, e'))
                | inr (bs, e') ↦ ground (
                  arith,
                  e,
                  e',
                  decrypt-encrypt m c count e,
                  decrypt_all-encrypt_all (encrypt aead key m count reader).0 ms e',
                )
              ]
      ]
