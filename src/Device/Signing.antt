-- ===== src/Device/Signing.antt =====
-- `PreparedDeviceResponse` and `PreparedDocument` of src/presentation/device.rs: documents wait for
-- their signatures, are signed from the last one on, and make up a response.
pub mod Order
use isomdl.Prelude.{
  ℕ, Bool, true, false, List, [], ◌∷◌, ◌++◌, Option, none, some, pop, if◌then◌else◌,
}
use isomdl.Prelude.Text.{Text, codes}
use isomdl.Cbor.{Bytes}
use isomdl.Crates.{Crates}
use isomdl.Helpers.NonEmptyVec
use isomdl.Documents.{DeviceResponse, ResponseDocument, Status, general_error, signature}
use isomdl.Device.Types.{PreparedDocument, PreparedDeviceResponse}

abbrev pub version : Text
version = codes "1.0"

module _ {C : Crates} where
  unfoldable pub empty : Status → PreparedDeviceResponse C
  empty status = record {
    prepared_documents = [];
    signed_documents = [];
    document_errors = none;
    status = status;
  }

  -- `is_empty` of the documents that wait
  unfoldable pub is_complete : PreparedDeviceResponse C → Bool
  is_complete p = elim p.prepared_documents [ [] ↦ true | _ ↦ false ]

  abbrev payload_of :
      Option (PreparedDocument C × List (PreparedDocument C)) → Option (C.Uuid × Bytes)
  payload_of none = none
  payload_of (some (doc, _)) = some (doc.id, C.signature_payload doc.prepared_cose_sign1)

  -- `last` is the element that `pop` gives
  unfoldable pub get_next_signature_payload : PreparedDeviceResponse C → Option (C.Uuid × Bytes)
  get_next_signature_payload p = payload_of (pop p.prepared_documents)

  -- `PreparedDocument::finalize`
  unfoldable pub finalize : PreparedDocument C → Bytes → ResponseDocument C
  finalize doc s = record {
    doc_type = doc.doc_type;
    issuer_signed = doc.issuer_signed;
    device_signed = record {
      namespaces = doc.device_namespaces;
      device_auth = signature (C.finalize doc.prepared_cose_sign1 s);
    };
    errors = doc.errors;
  }

  abbrev signed_with :
      PreparedDeviceResponse C
      → Bytes
      → Option (PreparedDocument C × List (PreparedDocument C))
      → PreparedDeviceResponse C
  signed_with p s none = p
  signed_with p s (some (doc, rest)) = record p {
    prepared_documents = rest;
    signed_documents = p.signed_documents ++ finalize doc s ∷ [];
  }

  unfoldable pub submit_next_signature : PreparedDeviceResponse C → Bytes → PreparedDeviceResponse C
  submit_next_signature p s = signed_with p s (pop p.prepared_documents)

  respond : PreparedDeviceResponse C → DeviceResponse C
  respond p = record {
    version = version;
    documents = NonEmptyVec.maybe_new p.signed_documents;
    document_errors = p.document_errors;
    status = p.status;
  }

  -- The source calls itself on the empty response, which is complete.
  unfoldable pub finalize_response : PreparedDeviceResponse C → DeviceResponse C
  unfolding respond is_complete empty
  finalize_response p = if is_complete p then respond p else respond (empty general_error)
