-- ===== src/Device/Prepare.antt =====
-- `DeviceSession::prepare_response` of src/presentation/device.rs.
pub mod Items
pub mod Disclosure
use isomdl.Prelude.{List, [], ◌∷◌, ◌++◌, Option, none, some, Result, ok, err, ◌>>=◌, ok_or}
use isomdl.Prelude.Text.{Text, codes}
use isomdl.Prelude.Map.{Map, text_ord, get, insert}
use isomdl.Cbor.{Bytes, Value}
use isomdl.CoseKey.{signature_algorithm}
use isomdl.Crates.{Crates}
use isomdl.Helpers.NonEmptyVec.{NonEmptyVec}
use isomdl.Helpers.NonEmptyVec
use isomdl.Helpers.NonEmptyMap.{NonEmptyMap}
use isomdl.Helpers.NonEmptyMap
use isomdl.Helpers.Tag24.{Codec}
use isomdl.Helpers.Tag24
use isomdl.Documents.{
  IssuerSignedItemBytes, DocumentErrorCode, data_not_returned, DocumentError, DeviceNamespaces,
  DeviceAuthentication, okay,
}
use isomdl.Device.Filter.{RequestedItems, Elements, PermittedItems, filter_permitted}
use isomdl.Device.Types.{Document, Documents, PreparedDocument, PreparedDeviceResponse}

-- serde_cbor at the types that are encoded here
pub record Encoders (S : Type 0) : Type 0 where
  pub device_namespaces : Codec DeviceNamespaces
  pub device_authentication : Codec (DeviceAuthentication S)
  pub value_to_vec : Value → Option Bytes

-- The two maps that the loop over a document's namespaces fills.
pub record Gathered : Type 0 where
  pub issuer_namespaces : Map Text (NonEmptyVec IssuerSignedItemBytes)
  pub errors : Map Text (NonEmptyMap Text DocumentErrorCode)

pub add_item : Text → IssuerSignedItemBytes → Gathered → Gathered
add_item ns item g = elim (get ns g.issuer_namespaces) [
  | some returned_items ↦ record g {
    issuer_namespaces = insert ns (NonEmptyVec.push returned_items item) g.issuer_namespaces;
  }
  | none ↦ record g { issuer_namespaces = insert ns (NonEmptyVec.new item) g.issuer_namespaces }
]

pub add_error : Text → Text → Gathered → Gathered
add_error ns element_identifier g = elim (get ns g.errors) [
  | some returned_errors ↦ record g {
    errors =
        insert ns (NonEmptyMap.insert returned_errors element_identifier data_not_returned)
          g.errors;
  }
  | none ↦ record g {
    errors = insert ns (NonEmptyMap.new element_identifier data_not_returned) g.errors;
  }
]

-- One element of a namespace that the document has.
pub gather_element : Text → NonEmptyMap Text IssuerSignedItemBytes → Text → Gathered → Gathered
unfolding add_item add_error
gather_element ns issuer_items e g = elim (get e issuer_items.entries) [
  | some item ↦ add_item ns item g
  | none ↦ add_error ns e g
]

-- `for element_identifier in elements`
pub each_element : (Text → Gathered → Gathered) → List Text → Gathered → Gathered
each_element f [] g = g
each_element f (e ∷ es) g = each_element f es (f e g)

pub gather_namespace :
    Option (NonEmptyMap Text IssuerSignedItemBytes) → Text → List Text → Gathered → Gathered
unfolding gather_element each_element
gather_namespace (some issuer_items) ns elements g =
    each_element (gather_element ns issuer_items) elements g
gather_namespace none ns elements g = each_element (add_error ns) elements g

module _ {C : Crates} where
  -- `for (namespace, elements) in namespaces`
  pub gather : Document C → Elements → Gathered → Gathered
  unfolding gather_namespace
  gather document [] g = g
  gather document ((ns, elements) ∷ m) g =
      gather document m (gather_namespace (get ns document.namespaces.entries) ns elements g)

  abbrev pub gather_all : Document C → Elements → Gathered
  gather_all document namespaces =
      gather document namespaces (record { issuer_namespaces = []; errors = [] })

pub not_returned : Text → DocumentError
not_returned doc_type = insert doc_type data_not_returned []

abbrev or_error : {E A : Type 0} → Result E A → DocumentError → Result DocumentError A
or_error (ok a) e = ok a
or_error (err _) e = err e

-- the two vectors that the loop pushes to
abbrev pub Pushed : Crates → Type 0
Pushed C = List (PreparedDocument C) × List DocumentError

module _ {C : Crates} where
  abbrev pub push_result : Result DocumentError (PreparedDocument C) → Pushed C → Pushed C
  push_result (ok doc) (prepared, errors) = (prepared ++ doc ∷ [], errors)
  push_result (err e) (prepared, errors) = (prepared, errors ++ e ∷ [])

module _ {C : Crates} {S : Type 0} (enc : Encoders S) (documents : Documents C)
    (transcript : S) where
  -- One turn of the loop over document types: `continue` with an error, or a prepared document.
  pub prepare_document : Text → Elements → Result DocumentError (PreparedDocument C)
  prepare_document doc_type namespaces = do
    let failed = not_returned doc_type
    document ← ok_or (get doc_type documents.entries) failed
    alg ← ok_or (signature_algorithm document.mso.device_key_info.device_key) failed
    let gathered = gather_all document namespaces
    device_namespaces ← or_error (Tag24.new enc.device_namespaces []) failed
    device_auth ←
        or_error
          (Tag24.new enc.device_authentication (record {
            context = codes "DeviceAuthentication";
            transcript = transcript;
            doc_type = doc_type;
            namespaces_bytes = device_namespaces;
          }))
          failed
    device_auth_bytes ← ok_or (enc.value_to_vec (Tag24.to_cbor device_auth)) failed
    prepared_cose_sign1 ← ok_or (C.prepare_detached device_auth_bytes alg) failed
    ok (record {
      id = document.id;
      doc_type = doc_type;
      issuer_signed = record {
        namespaces = NonEmptyMap.maybe_new gathered.issuer_namespaces;
        issuer_auth = document.issuer_auth;
      };
      device_namespaces = device_namespaces;
      prepared_cose_sign1 = prepared_cose_sign1;
      errors = NonEmptyMap.maybe_new gathered.errors;
    })

  pub prepare_documents : PermittedItems → Pushed C → Pushed C
  prepare_documents [] l = l
  prepare_documents ((doc_type, namespaces) ∷ rest) l =
      prepare_documents rest (push_result (prepare_document doc_type namespaces) l)

  unfoldable pub prepare_response : RequestedItems → PermittedItems → PreparedDeviceResponse C
  unfolding prepare_documents
  prepare_response requests permitted =
      let l = prepare_documents (filter_permitted requests permitted) ([], []) in
      record {
        prepared_documents = l.0;
        signed_documents = [];
        document_errors = NonEmptyVec.maybe_new l.1;
        status = okay;
      }
