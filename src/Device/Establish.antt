-- ===== src/Device/Establish.antt =====
-- `SessionManagerInit` and `SessionManagerEngaged` of src/presentation/device.rs: a device offers
-- an engagement and takes the session establishment of a reader.
pub mod Initialised
use isomdl.Prelude.{
  Bool, true, false, Option, none, some, List, Result, ok, err, ◌>>=◌, ok_or, Outcome, returns,
  panics, or_panic, and_then, unwrapped, map_err, or_err,
}
use isomdl.Prelude.Text.{Text, codes}
use isomdl.Cbor.{Bytes}
use isomdl.CoseKey.{CoseKey}
use isomdl.CoseKey.Points.{Sec1}
use isomdl.Crates.{Crates}
use isomdl.Helpers.NonEmptyVec.{NonEmptyVec}
use isomdl.Helpers.Tag24.{Tag24, Codec}
use isomdl.Helpers.Tag24
use isomdl.Engagement.Envelope.{DeviceEngagement, ServerRetrievalMethods}
use isomdl.Engagement.Method.{DeviceRetrievalMethod}
use isomdl.Engagement.Qr.{Base64, to_qr_code_uri}
use isomdl.Session.{Aead, SessionData}
use isomdl.Session.Keys.{
  Ecdh, Handover, qr, SessionTranscript, SessionEstablishment, create_p256_ephemeral_keys,
  get_shared_secret, derive_session_key, calculate_ble_ident,
}
use isomdl.Session.Keys
use isomdl.Device.Types.{Documents, SessionManager, awaiting_request}
use isomdl.Device.Filter.{RequestedItems}
use isomdl.Device.Manager.{Wire, handle_decoded_request}
use isomdl.Device.Manager

pub record SessionManagerInit (C : Crates) : Type 0 where
  pub documents : Documents C
  pub e_device_key : Bytes
  pub device_engagement : Tag24 DeviceEngagement

pub record SessionManagerEngaged (C : Crates) : Type 0 where
  pub documents : Documents C
  pub e_device_key : Bytes
  pub device_engagement : Tag24 DeviceEngagement
  pub handover : Handover

-- `Error`, and what `anyhow` carries of the other steps
pub data Error : Type 0 where
  e_key_generation key_derivation shared_secret_generation : Keys.Error → Error
  tag24_cbor_encoding : Tag24.Error → Error
  invalid_device_key : Error
  request_error : Manager.Error → Error

module _ {C : Crates} {s : Sec1} (E : Ecdh s) where
  unfoldable pub initialise :
      Codec CoseKey
      → Codec DeviceEngagement
      → E.SecretKey
      → Documents C
      → Option (NonEmptyVec DeviceRetrievalMethod)
      → Option ServerRetrievalMethods
      → Result Error (SessionManagerInit C)
  initialise key_codec codec drawn documents device_retrieval_methods server_retrieval_methods = do
    keys ← map_err e_key_generation (create_p256_ephemeral_keys E drawn)
    e_device_key_bytes ← map_err tag24_cbor_encoding (Tag24.new key_codec keys.1)
    device_engagement ← map_err tag24_cbor_encoding (
        Tag24.new codec (record {
          version = codes "1.0";
          security = record { cipher_suite = 1; key = e_device_key_bytes };
          device_retrieval_methods = device_retrieval_methods;
          server_retrieval_methods = server_retrieval_methods;
          protocol_info = none;
        }))
    ok (record {
      documents = documents;
      e_device_key = E.to_bytes keys.0;
      device_engagement = device_engagement;
    })

  unfoldable pub ble_ident : SessionManagerInit C → Option Bytes
  ble_ident m = calculate_ble_ident E m.device_engagement.inner.security.key

abbrev pub qr_engagement :
    {C : Crates} → Base64 → SessionManagerInit C → SessionManagerEngaged C × Text
qr_engagement base64 m = (
  record {
    documents = m.documents;
    e_device_key = m.e_device_key;
    device_engagement = m.device_engagement;
    handover = qr;
  },
  to_qr_code_uri base64 m.device_engagement,
)

-- A `?` drops the manager that was built.
abbrev pub finished :
    {A : Type 0} → A × Result Manager.Error RequestedItems → Result Error (A × RequestedItems)
finished (m, ok requested) = ok (m, requested)
finished (m, err e) = err (request_error e)

module _ {C : Crates} {s : Sec1} (E : Ecdh s) (w : Wire C) (aead : Aead) where
  unfoldable pub process_session_establishment :
      Codec SessionTranscript
      → SessionManagerEngaged C
      → SessionEstablishment
      → Outcome Error (SessionManager C SessionTranscript × RequestedItems)
  process_session_establishment codec m session_establishment =
      let e_reader_key = session_establishment.e_reader_key in
      let session_transcript : SessionTranscript = record {
        device_engagement = m.device_engagement;
        e_reader_key = e_reader_key;
        handover = m.handover;
      } in
      unwrapped (map_err tag24_cbor_encoding (Tag24.new codec session_transcript))
        λ transcript_bytes. or_panic (s.field_bytes m.e_device_key) λ field_bytes.
          unwrapped (ok_or (E.from_bytes field_bytes) invalid_device_key) λ e_device_key.
            and_then
              (or_err shared_secret_generation
                (get_shared_secret E e_reader_key.inner e_device_key))
              λ shared_secret.
                unwrapped
                  (map_err key_derivation
                    (derive_session_key E shared_secret transcript_bytes true))
                  λ sk_reader.
                    unwrapped
                      (map_err key_derivation
                        (derive_session_key E shared_secret transcript_bytes false))
                      λ sk_device. returns (
                        finished (
                          handle_decoded_request w aead
                            (record { payload = some session_establishment.payload; status = none })
                            (record {
                              documents = m.documents;
                              session_transcript = session_transcript;
                              sk_device = sk_device;
                              device_message_counter = 0;
                              sk_reader = sk_reader;
                              reader_message_counter = 0;
                              state = awaiting_request;
                            })))
