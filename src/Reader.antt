-- ===== src/Reader.antt =====
-- `SessionManager` of src/presentation/reader.rs: a request is built, encrypted and sent.
pub mod Json
pub mod Response
pub mod Built
pub mod Exchange
pub mod Establish
use isomdl.Prelude.{ℕ, Bool, Option, none, some, Result, ok, err, ok_or}
use isomdl.Prelude.Text.{Text, codes}
use isomdl.Cbor.{Bytes}
use isomdl.Crates.{Crates}
use isomdl.Helpers.NonEmptyMap.{NonEmptyMap}
use isomdl.Helpers.NonEmptyVec
use isomdl.Helpers.Tag24.{Tag24, Codec}
use isomdl.Helpers.Tag24
use isomdl.Session.{Aead, SessionData, encrypt_reader_data}
use isomdl.Documents.{ItemsRequest, DocRequest, DeviceRequest}

-- `S` is the session transcript's type.
pub record SessionManager (S : Type 0) : Type 0 where
  pub session_transcript : S
  pub sk_device : Bytes
  pub device_message_counter : ℕ
  pub sk_reader : Bytes
  pub reader_message_counter : ℕ

-- serde_cbor at the types that the reader writes; `none` is an error
pub record Wire (C : Crates) : Type 0 where
  pub items_request : Codec ItemsRequest
  pub request_to_vec : DeviceRequest C → Option Bytes
  pub session_data_to_vec : SessionData → Option Bytes

pub data Error : Type 0 where
  unable_to_encode unable_to_encrypt : Error

-- `device_request::Namespaces`
abbrev pub Namespaces : Type 0
Namespaces = NonEmptyMap Text (NonEmptyMap Text Bool)

abbrev pub request_for : Namespaces → ItemsRequest
request_for namespaces = record {
  doc_type = codes "org.iso.18013.5.1.mDL";
  namespaces = namespaces;
  request_info = none;
}

-- `DeviceRequest::VERSION`
abbrev pub version : Text
version = codes "1.0"

abbrev pub device_request : {C : Crates} → Tag24 ItemsRequest → DeviceRequest C
device_request items_request = record {
  version = version;
  doc_requests = NonEmptyVec.new (record { items_request = items_request; reader_auth = none });
}

module _ {C : Crates} {S : Type 0} (w : Wire C) (aead : Aead) where
  encrypted : Option Bytes → SessionManager S → SessionManager S × Result Error Bytes
  encrypted none m = (m, err unable_to_encode)
  encrypted (some device_request_bytes) m =
      let (count, c) =
        encrypt_reader_data aead m.sk_reader device_request_bytes m.reader_message_counter in
      (record m { reader_message_counter = count }, ok_or c unable_to_encrypt)

  unfoldable pub build_request :
      Namespaces → SessionManager S → SessionManager S × Result Error Bytes
  unfolding encrypted NonEmptyVec.new
  build_request namespaces m = elim (Tag24.new w.items_request (request_for namespaces)) [
    | err _ ↦ (m, err unable_to_encode)
    | ok items_request ↦ encrypted (w.request_to_vec (device_request items_request)) m
  ]

  sent : SessionManager S × Result Error Bytes → SessionManager S × Result Error Bytes
  sent (m, err e) = (m, err e)
  sent (m, ok request) = (
    m,
    ok_or (w.session_data_to_vec (record { payload = some request; status = none }))
        unable_to_encode,
  )

  unfoldable pub new_request : Namespaces → SessionManager S → SessionManager S × Result Error Bytes
  unfolding sent build_request
  new_request namespaces m = sent (build_request namespaces m)
