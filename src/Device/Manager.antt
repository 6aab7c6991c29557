-- ===== src/Device/Manager.antt =====
-- `SessionManager` of src/presentation/device.rs: a request comes in, a response is prepared,
-- signed, encrypted and handed out.
pub mod Loop
pub mod Errors
pub mod Steps
pub mod Phases
pub mod Sealed
pub mod Vectors
use isomdl.Prelude.{
  ℕ, Bool, true, false, not, List, [], ◌∷◌, Option, none, some, Result, ok, err, ◌>>=◌, ok_or, map,
  if◌then◌else◌,
}
use isomdl.Prelude.Text.{text_eq}
use isomdl.Cbor.{Bytes, Value}
use isomdl.Crates.{Crates}
use isomdl.Session.{
  Aead, SessionData, session_encryption_error, encrypt_device_data, decrypt_reader_data,
}
use isomdl.Documents.{
  DeviceRequest, DocRequest, DeviceResponse, ItemsRequest, general_error, cbor_decoding_error,
  cbor_validation_error,
}
use isomdl.Device.Filter.{RequestedItems, PermittedItems}
use isomdl.Device.Types.{
  PreparedDeviceResponse, State, awaiting_request, signing, ready_to_respond, SessionManager,
}
use isomdl.Device.Prepare.{Encoders}
use isomdl.Device.Prepare
use isomdl.Device.Signing

-- serde_cbor at the types that go over the wire; `none` is an error
pub record Wire (C : Crates) : Type 0 where
  pub value_from_slice : Bytes → Option Value
  pub request_from_value : Value → Option (DeviceRequest C)
  pub response_to_vec : DeviceResponse C → Option Bytes
  pub response_from_slice : Bytes → Option (DeviceResponse C)
  pub session_data_to_vec : SessionData → Option Bytes
  pub session_data_from_slice : Bytes → Option SessionData

pub data Error : Type 0 where
  no_data unable_to_decrypt bad_session_data bad_response : Error

module _ {C : Crates} where
  parsed :
      Option Value
      → (Value → Option (DeviceRequest C))
      → Result (PreparedDeviceResponse C) (DeviceRequest C)
  parsed none from_value = err (Signing.empty cbor_decoding_error)
  parsed (some v) from_value = ok_or (from_value v) (Signing.empty cbor_validation_error)

  unfoldable pub parse_request :
      Wire C → Bytes → Result (PreparedDeviceResponse C) (DeviceRequest C)
  unfolding parsed
  parse_request w request = parsed (w.value_from_slice request) w.request_from_value

  unfoldable pub validate_request :
      DeviceRequest C → Result (PreparedDeviceResponse C) (List ItemsRequest)
  validate_request request =
      if not (text_eq request.version Signing.version)
      then err (Signing.empty general_error)
      else ok (map (λ (r : DocRequest C). r.items_request.inner) request.doc_requests.items)

module _ {C : Crates} {S : Type 0} where
  unfoldable pub prepare_response :
      Encoders S → RequestedItems → PermittedItems → SessionManager C S → SessionManager C S
  prepare_response enc requests permitted m = record m {
    state =
        signing (Prepare.prepare_response enc m.documents m.session_transcript requests permitted);
  }

-- what is sent for a ciphertext, or for an encryption that failed
abbrev pub session_data_for : Option Bytes → SessionData
session_data_for none = record { payload = none; status = some session_encryption_error }
session_data_for (some c) = record { payload = some c; status = none }

module _ {C : Crates} {S : Type 0} (w : Wire C) (aead : Aead) where
  -- A request that cannot be parsed or validated becomes an error response to be signed.
  accepted :
      Result (PreparedDeviceResponse C) RequestedItems
      → SessionManager C S
      → SessionManager C S × Result Error RequestedItems
  accepted (ok request) m = (m, ok request)
  accepted (err e) m = (record m { state = signing e }, ok [])

  decrypted : Option Bytes → SessionManager C S → SessionManager C S × Result Error RequestedItems
  unfolding accepted
  decrypted none m = (m, err unable_to_decrypt)
  decrypted (some decrypted_request) m =
      accepted (parse_request w decrypted_request >>= validate_request) m

  received : Option Bytes → SessionManager C S → SessionManager C S × Result Error RequestedItems
  unfolding decrypted
  received none m = (m, err no_data)
  received (some data') m =
      let (count, plain) = decrypt_reader_data aead m.sk_reader data' m.reader_message_counter in
      decrypted plain (record m { reader_message_counter = count })

  unfoldable pub handle_decoded_request :
      SessionData → SessionManager C S → SessionManager C S × Result Error RequestedItems
  unfolding received
  handle_decoded_request request m = received request.payload m

  unfoldable pub handle_request :
      Bytes → SessionManager C S → SessionManager C S × Result Error RequestedItems
  unfolding handle_decoded_request
  handle_request request m = elim (w.session_data_from_slice request) [
    | none ↦ (m, err bad_session_data)
    | some session_data ↦ handle_decoded_request session_data m
  ]

  encoded : Option Bytes → SessionManager C S → SessionManager C S × Result Error (Unit {0})
  encoded none m = (m, err bad_response)
  encoded (some bytes) m = (record m { state = ready_to_respond bytes }, ok tt)

  encrypted : Option Bytes → SessionManager C S → SessionManager C S × Result Error (Unit {0})
  unfolding encoded
  encrypted none m = (m, err bad_response)
  encrypted (some response_bytes) m =
      let (count, c) =
        encrypt_device_data aead m.sk_device response_bytes m.device_message_counter in
      encoded (w.session_data_to_vec (session_data_for c))
        (record m { device_message_counter = count })

  -- `m` is the manager whose state `mem::take` has reset
  submitted :
      PreparedDeviceResponse C → SessionManager C S → SessionManager C S × Result Error (Unit {0})
  unfolding encrypted
  submitted p m =
      if Signing.is_complete p
      then encrypted (w.response_to_vec (Signing.finalize_response p)) m
      else (record m { state = signing p }, ok tt)

  unfoldable pub submit_next_signature :
      Bytes → SessionManager C S → SessionManager C S × Result Error (Unit {0})
  unfolding submitted
  submit_next_signature signature m = elim m.state [
    | signing p ↦
        submitted (Signing.submit_next_signature p signature)
          (record m { state = awaiting_request })
    | _ ↦ (m, ok tt)
  ]

module _ {C : Crates} {S : Type 0} where
  unfoldable pub get_next_signature_payload : SessionManager C S → Option (C.Uuid × Bytes)
  get_next_signature_payload m = elim m.state [
    | signing p ↦ Signing.get_next_signature_payload p
    | _ ↦ none
  ]

  unfoldable pub response_ready : SessionManager C S → Bool
  response_ready m = elim m.state [ ready_to_respond _ ↦ true | _ ↦ false ]

  unfoldable pub retrieve_response : SessionManager C S → SessionManager C S × Option Bytes
  retrieve_response m = elim m.state [
    | ready_to_respond r ↦ (record m { state = awaiting_request }, some r)
    | _ ↦ (m, none)
  ]
