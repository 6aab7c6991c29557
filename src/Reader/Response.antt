-- ===== src/Reader/Response.antt =====
-- `handle_response` of src/presentation/reader.rs: a device's response is decrypted and its items
-- are shown.
pub mod Presented
use isomdl.Prelude.{
  ℕ, ◌≡◌, refl, sym, ap, ◌∙◌, Bool, true, false, List, [], ◌∷◌, All, Option, none, some, Result, ok,
  err, ok_or, Outcome, returns, panics, and_then, unwrapped, if◌then◌else◌, arith, Result-cases,
  Option-cases, inl, inr,
}
use isomdl.Prelude.Int.{ℤ}
use isomdl.Prelude.Text.{Text, text_eq, codes}
use isomdl.Prelude.Map.{Map, get, insert, remove, text_ord}
use isomdl.Cbor.{Bytes}
use isomdl.Crates.{Crates}
use isomdl.Helpers.NonEmptyMap.{NonEmptyMap}
use isomdl.Helpers.NonEmptyVec.{NonEmptyVec}
use isomdl.Session.{Aead, IsAead, SessionData, encrypt_device_data, decrypt_device_data}
use isomdl.Session
use isomdl.Documents.{DeviceResponse, ResponseDocument, IssuerSignedItemBytes, IssuerNamespaces}
use isomdl.Reader.{SessionManager}
use isomdl.Reader.Json.{Json, parse_response}
use isomdl.Reader.Json

pub data Error : Type 0 where
  cbor_decoding_error holder_error decryption_error device_transmission_error : Error
  document_type_error no_mdl_data_transmission incorrect_namespace : Error

-- serde_cbor at the types that the reader reads, `none` an error, and serde_json's conversion of
-- an integer, `none` a panic
pub record Inbound (C : Crates) : Type 0 where
  pub session_data_from_slice : Bytes → Option SessionData
  pub response_from_slice : Bytes → Option (DeviceResponse C)
  pub to_value : ℤ → Option Json

abbrev pub Shown : Type 0
Shown = Map Text (Map Text Json)

-- `into_iter().find(|doc| doc.doc_type == ...)`
unfoldable pub find_doc :
    {C : Crates} → Text → List (ResponseDocument C) → Option (ResponseDocument C)
find_doc t [] = none
find_doc t (d ∷ ds) = let rest = find_doc t ds in if text_eq d.doc_type t then some d else rest

abbrev pub documents_of :
    {C : Crates}
    → Option (NonEmptyVec (ResponseDocument C))
    → Result Error (List (ResponseDocument C))
documents_of none = err device_transmission_error
documents_of (some v) = ok v.items

abbrev pub entries_of :
    Option IssuerNamespaces → Result Error (Map Text (NonEmptyVec IssuerSignedItemBytes))
entries_of none = err no_mdl_data_transmission
entries_of (some m) = ok m.entries

module _ (to_value : ℤ → Option Json) where
  -- an item whose value has no JSON form is left out
  abbrev pub insert_shown :
      Text → Outcome Json.Error Json → Map Text Json → Outcome Error (Map Text Json)
  insert_shown k panics m = panics
  insert_shown k (returns (err _)) m = returns (ok m)
  insert_shown k (returns (ok j)) m = returns (ok (insert k j m))

  unfoldable pub show_items :
      List IssuerSignedItemBytes → Map Text Json → Outcome Error (Map Text Json)
  show_items [] m = returns (ok m)
  show_items (item ∷ items) m =
      and_then
        (insert_shown item.inner.element_identifier
          (parse_response to_value item.inner.element_value) m)
        λ shown. show_items items shown

  abbrev pub show_aamva : Option (NonEmptyVec IssuerSignedItemBytes) → Shown → Outcome Error Shown
  show_aamva none parsed = returns (ok parsed)
  show_aamva (some v) parsed =
      and_then (show_items v.items [])
        λ aamva. returns (ok (insert (codes "org.iso.18013.5.1.aamva") aamva parsed))

  unfoldable pub show_response : {C : Crates} → DeviceResponse C → Outcome Error Shown
  unfolding show_items
  show_response response = unwrapped (documents_of response.documents) λ documents.
      unwrapped (ok_or (find_doc (codes "org.iso.18013.5.1.mDL") documents) document_type_error)
        λ doc. unwrapped (entries_of doc.issuer_signed.namespaces) λ namespaces.
          unwrapped (ok_or (get (codes "org.iso.18013.5.1") namespaces) incorrect_namespace) λ core.
            and_then (show_items core.items []) λ core_namespace.
              show_aamva
                (get (codes "org.iso.18013.5.1.aamva")
                  (remove (codes "org.iso.18013.5.1") namespaces))
                (insert (codes "org.iso.18013.5.1") core_namespace [])

module _ {C : Crates} {S : Type 0} (w : Inbound C) (aead : Aead) where
  abbrev decoded : Option Bytes → SessionManager S → SessionManager S × Outcome Error Shown
  decoded none m = (m, returns (err decryption_error))
  decoded (some plain) m = (
    m,
    unwrapped (ok_or (w.response_from_slice plain) cbor_decoding_error) (show_response w.to_value),
  )

  abbrev received : Option Bytes → SessionManager S → SessionManager S × Outcome Error Shown
  received none m = (m, returns (err holder_error))
  received (some r) m =
      let (count, plain) = decrypt_device_data aead m.sk_device r m.device_message_counter in
      decoded plain (record m { device_message_counter = count })

  unfoldable pub handle_response : Bytes → SessionManager S → SessionManager S × Outcome Error Shown
  handle_response response m = elim (w.session_data_from_slice response) [
    | none ↦ (m, returns (err cbor_decoding_error))
    | some session_data ↦ received session_data.payload m
  ]

  -- If decryption undoes encryption, then a reader that holds the device's key and counter
  -- shows the response that the device encrypted, and the counters agree again afterwards.
  pub handle_response-encrypt :
      IsAead aead
      → (m : SessionManager S) (message plain cipher : Bytes) (response : DeviceResponse C)
      → (encrypt_device_data aead m.sk_device plain m.device_message_counter).1 ≡ some cipher
      → w.session_data_from_slice message ≡ some (record { payload = some cipher; status = none })
      → w.response_from_slice plain ≡ some response
      → handle_response message m ≡ (
        record m {
          device_message_counter =
              (encrypt_device_data aead m.sk_device plain m.device_message_counter).0;
        },
        show_response w.to_value response,
      )
  unfolding handle_response encrypt_device_data decrypt_device_data Session.encrypt Session.decrypt
  handle_response-encrypt law m message plain cipher response h is_data is_response =
      rw (is_data, handle_response, law _ _ _ _ h, is_response) refl
