-- ===== src/Device/Types.antt =====
-- The data of src/presentation/device.rs.
use isomdl.Prelude.{ℕ, Option, List}
use isomdl.Prelude.Text.{Text}
use isomdl.Cbor.{Bytes}
use isomdl.Crates.{Crates}
use isomdl.Helpers.NonEmptyMap.{NonEmptyMap}
use isomdl.Documents.{
  Mso, IssuerSigned, IssuerSignedItemBytes, DeviceNamespacesBytes, ResponseDocument, DocumentErrors,
  Errors, Status,
}

abbrev pub Namespaces : Type 0
Namespaces = NonEmptyMap Text (NonEmptyMap Text IssuerSignedItemBytes)

pub record Document (C : Crates) : Type 0 where
  pub id : C.Uuid
  pub issuer_auth : C.CoseSign1
  pub mso : Mso C
  pub namespaces : Namespaces

abbrev pub Documents : Crates → Type 0
Documents C = NonEmptyMap Text (Document C)

pub record PreparedDocument (C : Crates) : Type 0 where
  pub id : C.Uuid
  pub doc_type : Text
  pub issuer_signed : IssuerSigned C
  pub device_namespaces : DeviceNamespacesBytes
  pub prepared_cose_sign1 : C.PreparedCoseSign1
  pub errors : Option Errors

pub record PreparedDeviceResponse (C : Crates) : Type 0 where
  pub prepared_documents : List (PreparedDocument C)
  pub signed_documents : List (ResponseDocument C)
  pub document_errors : Option DocumentErrors
  pub status : Status

pub data State (C : Crates) : Type 0 where
  awaiting_request : State C
  signing : PreparedDeviceResponse C → State C
  ready_to_respond : Bytes → State C

-- `S` is the session transcript's type.
pub record SessionManager (C : Crates) (S : Type 0) : Type 0 where
  pub documents : Documents C
  pub session_transcript : S
  pub sk_device : Bytes
  pub device_message_counter : ℕ
  pub sk_reader : Bytes
  pub reader_message_counter : ℕ
  pub state : State C
