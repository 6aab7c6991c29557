-- ===== src/Reader/Establish.antt =====
-- `establish_session` of src/presentation/reader.rs: a reader takes the engagement from a QR code,
-- derives the session keys and sends its first request.
pub mod Inversion
pub mod Agreement
use isomdl.Prelude.{
  Bool, true, false, List, [], ◌∷◌, Option, none, some, Result, ok, err, ◌>>=◌, ok_or, Outcome,
  returns, panics, and_then, unwrapped, map_err, or_err,
}
use isomdl.Prelude.Text.{Text}
use isomdl.Cbor.{Bytes, Value}
use isomdl.CoseKey
use isomdl.CoseKey.{CoseKey}
use isomdl.CoseKey.Points.{Sec1}
use isomdl.Crates.{Crates}
use isomdl.Helpers.NonEmptyVec.{NonEmptyVec}
use isomdl.Helpers.Tag24.{Tag24, Codec}
use isomdl.Helpers.Tag24
use isomdl.Engagement.Envelope
use isomdl.Engagement.Envelope.{DeviceEngagement, Serde}
use isomdl.Engagement.Method.{DeviceRetrievalMethod, wifi, ble, nfc}
use isomdl.Engagement.Qr.{Base64, from_qr_code_uri}
use isomdl.Engagement.Qr
use isomdl.Session.{Aead}
use isomdl.Session.Keys.{
  Ecdh, qr, SessionTranscript, SessionEstablishment, create_p256_ephemeral_keys, get_shared_secret,
  derive_session_key, calculate_ble_ident,
}
use isomdl.Session.Keys
use isomdl.Reader.{SessionManager, Wire, Namespaces, build_request}
use isomdl.Reader

-- `Error`, and what `anyhow` carries of the other steps
pub data Error : Type 0 where
  invalid_qr_code : Qr.Error → Error
  key_error : Keys.Error → Error
  tag24_error : Tag24.Error → Error
  ble_ident_error cbor_error : Error
  request_error : Reader.Error → Error

-- serde_cbor at its own values and at the types with derived conversions that only this function
-- writes or reads, `none` an error
pub record Formats : Type 0 where
  pub values : Codec Value
  pub serde : Serde
  pub transcript : Codec SessionTranscript
  pub establishment_to_vec : SessionEstablishment → Option Bytes

-- Keys and engagements go through the repository's own conversions to and from values.
abbrev pub key_format : Formats → Codec CoseKey
key_format f = CoseKey.codec f.values

abbrev pub engagement_format : Formats → Codec DeviceEngagement
engagement_format f = Envelope.codec f.serde f.values

module _ {C : Crates} {s : Sec1} (E : Ecdh s) (w : Wire C) (aead : Aead) (f : Formats) where
  -- the manager, its first request and the session's identifier
  abbrev pub Session : Type 0
  Session = SessionManager SessionTranscript × Bytes × Bytes

  unfoldable pub requested :
      Tag24 CoseKey
      → Bytes
      → SessionManager SessionTranscript × Result Reader.Error Bytes
      → Result Error Session
  requested key ble_ident (m, built) = do
    request ← map_err request_error built
    session_request ←
        ok_or (f.establishment_to_vec (record { e_reader_key = key; payload = request })) cbor_error
    ok (m, session_request, ble_ident)

  unfoldable pub establish_session :
      Base64 → E.SecretKey → Text → Namespaces → Outcome Error Session
  unfolding requested
  establish_session base64 drawn qr_code namespaces =
      unwrapped (map_err invalid_qr_code (from_qr_code_uri base64 (engagement_format f) qr_code))
        λ device_engagement_bytes.
          unwrapped (map_err key_error (create_p256_ephemeral_keys E drawn)) λ key_pair.
            unwrapped (map_err tag24_error (Tag24.new (key_format f) key_pair.1))
              λ e_reader_key_public.
                let e_device_key = device_engagement_bytes.inner.security.key in
                unwrapped (ok_or (calculate_ble_ident E e_device_key) ble_ident_error) λ ble_ident.
                  and_then (or_err key_error (get_shared_secret E e_device_key.inner key_pair.0))
                    λ shared_secret.
                      let session_transcript : SessionTranscript = record {
                        device_engagement = device_engagement_bytes;
                        e_reader_key = e_reader_key_public;
                        handover = qr;
                      } in
                      unwrapped (map_err tag24_error (Tag24.new f.transcript session_transcript))
                        λ transcript_bytes.
                          unwrapped
                            (map_err key_error
                              (derive_session_key E shared_secret transcript_bytes true))
                            λ sk_reader.
                              unwrapped
                                (map_err key_error
                                  (derive_session_key E shared_secret transcript_bytes false))
                                λ sk_device. returns (
                                  requested e_reader_key_public ble_ident (
                                    build_request w aead namespaces (record {
                                      session_transcript = session_transcript;
                                      sk_device = sk_device;
                                      device_message_counter = 0;
                                      sk_reader = sk_reader;
                                      reader_message_counter = 0;
                                    })))

-- the arm of `filter_map`
abbrev central_client_uuid : DeviceRetrievalMethod → Option Bytes
central_client_uuid (ble o) = elim o.central_client_mode [ none ↦ none | some c ↦ some c.uuid ]
central_client_uuid _ = none

-- `filter_map` and `next`
unfoldable pub first_uuid : List DeviceRetrievalMethod → Option Bytes
first_uuid [] = none
first_uuid (m ∷ ms) =
    let rest = first_uuid ms in elim (central_client_uuid m) [ none ↦ rest | some uuid ↦ some uuid ]

abbrev uuid_of : Option (NonEmptyVec DeviceRetrievalMethod) → Option Bytes
uuid_of none = none
uuid_of (some ms) = first_uuid ms.items

unfoldable pub first_central_client_uuid : SessionManager SessionTranscript → Option Bytes
unfolding first_uuid
first_central_client_uuid m =
    uuid_of m.session_transcript.device_engagement.inner.device_retrieval_methods
