-- ===== src/Documents.antt =====
-- The data of src/definitions: requests, responses and issuer-signed documents.
pub mod Authorizations
pub mod Codes
pub mod DigestIds
pub mod Validity
use isomdl.Prelude.{ℕ, Bool, Option}
use isomdl.Prelude.Int.{ℤ}
use isomdl.Prelude.Text.{Text}
use isomdl.Prelude.Map.{Map}
use isomdl.Cbor.{Bytes, Value}
use isomdl.CoseKey.{CoseKey}
use isomdl.Crates.{Crates}
use isomdl.Helpers.NonEmptyVec.{NonEmptyVec}
use isomdl.Helpers.NonEmptyMap.{NonEmptyMap}
use isomdl.Helpers.Tag24.{Tag24}

-- mso.rs; a `DigestId` is its `i32`
pub data DigestAlgorithm : Type 0 where
  sha256 sha384 sha512 : DigestAlgorithm

-- device_key/mod.rs
pub record KeyAuthorizations : Type 0 where
  pub namespaces : Option (NonEmptyVec Text)
  pub data_elements : Option (NonEmptyMap Text (NonEmptyVec Text))

pub record DeviceKeyInfo : Type 0 where
  pub device_key : CoseKey
  pub key_authorizations : Option KeyAuthorizations
  pub key_info : Option (Map ℤ Value)

-- validity_info.rs
pub record ValidityInfo (C : Crates) : Type 0 where
  pub signed : C.OffsetDateTime
  pub valid_from : C.OffsetDateTime
  pub valid_until : C.OffsetDateTime
  pub expected_update : Option C.OffsetDateTime

-- mso.rs
pub record Mso (C : Crates) : Type 0 where
  pub version : Text
  pub digest_algorithm : DigestAlgorithm
  pub value_digests : Map Text (Map ℤ Bytes)
  pub device_key_info : DeviceKeyInfo
  pub doc_type : Text
  pub validity_info : ValidityInfo C

-- issuer_signed.rs
pub record IssuerSignedItem : Type 0 where
  pub digest_id : ℤ
  pub random : Bytes
  pub element_identifier : Text
  pub element_value : Value

abbrev pub IssuerSignedItemBytes : Type 0
IssuerSignedItemBytes = Tag24 IssuerSignedItem

abbrev pub IssuerNamespaces : Type 0
IssuerNamespaces = NonEmptyMap Text (NonEmptyVec IssuerSignedItemBytes)

pub record IssuerSigned (C : Crates) : Type 0 where
  pub namespaces : Option IssuerNamespaces
  pub issuer_auth : C.CoseSign1

-- device_signed.rs
abbrev pub DeviceNamespaces : Type 0
DeviceNamespaces = Map Text (NonEmptyMap Text Value)

abbrev pub DeviceNamespacesBytes : Type 0
DeviceNamespacesBytes = Tag24 DeviceNamespaces

pub data DeviceAuth (C : Crates) : Type 0 where
  signature : C.CoseSign1 → DeviceAuth C
  mac : Value → DeviceAuth C

pub record DeviceSigned (C : Crates) : Type 0 where
  pub namespaces : DeviceNamespacesBytes
  pub device_auth : DeviceAuth C

-- `DeviceAuthentication::new` puts the context string in front
pub record DeviceAuthentication (S : Type 0) : Type 0 where
  pub context : Text
  pub transcript : S
  pub doc_type : Text
  pub namespaces_bytes : DeviceNamespacesBytes

-- device_response.rs
pub data DocumentErrorCode : Type 0 where
  data_not_returned : DocumentErrorCode
  application_specific : ℤ → DocumentErrorCode

pub data Status : Type 0 where
  okay general_error cbor_decoding_error cbor_validation_error : Status

abbrev pub Errors : Type 0
Errors = NonEmptyMap Text (NonEmptyMap Text DocumentErrorCode)

abbrev pub DocumentError : Type 0
DocumentError = Map Text DocumentErrorCode

abbrev pub DocumentErrors : Type 0
DocumentErrors = NonEmptyVec DocumentError

pub record ResponseDocument (C : Crates) : Type 0 where
  pub doc_type : Text
  pub issuer_signed : IssuerSigned C
  pub device_signed : DeviceSigned C
  pub errors : Option Errors

pub record DeviceResponse (C : Crates) : Type 0 where
  pub version : Text
  pub documents : Option (NonEmptyVec (ResponseDocument C))
  pub document_errors : Option DocumentErrors
  pub status : Status

-- device_request.rs
pub record ItemsRequest : Type 0 where
  pub doc_type : Text
  pub namespaces : NonEmptyMap Text (NonEmptyMap Text Bool)
  pub request_info : Option (Map Text Value)

pub record DocRequest (C : Crates) : Type 0 where
  pub items_request : Tag24 ItemsRequest
  pub reader_auth : Option C.CoseSign1

pub record DeviceRequest (C : Crates) : Type 0 where
  pub version : Text
  pub doc_requests : NonEmptyVec (DocRequest C)
