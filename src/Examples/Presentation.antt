-- ===== src/Examples/Presentation.antt =====
-- The presentation of src/presentation/device.rs at a small credential.
use isomdl.Prelude.{
  ℕ, ◌≡◌, refl, ◌&&◌, not, true, false, List, [], ◌∷◌, none, some, All, filter_map, ok, arith,
}
use isomdl.Prelude.Text.{Text, member}
use isomdl.Prelude.Map.{text_ord}
use isomdl.Cbor.{Bytes}
use isomdl.Helpers.NonEmptyVec
use isomdl.Session.{
  encrypt_device_data, decrypt_reader_data, SessionData, get_initialization_vector,
}
use isomdl.Documents.{cbor_decoding_error}
use isomdl.Device.Filter.{filter_permitted}
use isomdl.Device.Filter.Exact.{IsMap, lists, requests, filter_permitted_exact}
use isomdl.Device.Types.{
  PreparedDocument, PreparedDeviceResponse, SessionManager, awaiting_request, signing,
}
use isomdl.Device.Prepare
use isomdl.Device.Prepare.{gather_all}
use isomdl.Device.Prepare.Items.{
  gather_all_exact, items_at, has_error, held_by, elements_at, is_some,
}
use isomdl.Device.Prepare.Disclosure.{IsFaithful, prepare_response-IsFaithful}
use isomdl.Device.Signing
use isomdl.Device.Signing.Order.{submit_all, submit_all_completes, signed_in_order, asked}
use isomdl.Device.Manager.{
  handle_decoded_request, get_next_signature_payload, response_ready, retrieve_response,
  parse_request,
}
use isomdl.Device.Manager.Errors.{refused_request_is_stuck}
use isomdl.Device.Manager.Loop.{sign_pending, sign_pending_responds}
use isomdl.Device.AgeAttestation.{Claim, nearest}
use isomdl.Device.AgeAttestation.Nearest.{IsNearest, nearest-IsNearest}
use isomdl.Examples.{
  family_item, age_item, crates, plain_aead, encoders, wire, document, documents, requested,
  permitted, mdl, iso, family, photo, age,
}

permitted-IsMap : IsMap permitted
permitted-IsMap = (((tt, tt), ((tt, tt), tt)))

filter_permitted_exact_example :
    lists (filter_permitted requested permitted) mdl iso age
    ≡ (lists permitted mdl iso age && requests requested mdl iso age)
filter_permitted_exact_example =
    filter_permitted_exact requested permitted mdl iso age permitted-IsMap

prepare_response-IsFaithful_example :
    All
      (IsFaithful documents requested permitted)
      (Prepare.prepare_response encoders documents (5 ∷ []) requested permitted).prepared_documents
prepare_response-IsFaithful_example =
    prepare_response-IsFaithful documents requested permitted encoders (5 ∷ []) permitted-IsMap

gather_all_exact_example :
    (items_at iso (gather_all document ((iso, family ∷ photo ∷ []) ∷ []))
      ≡ filter_map (held_by document iso) (elements_at iso ((iso, family ∷ photo ∷ []) ∷ [])))
    × ((x : Text)
        → has_error iso x (gather_all document ((iso, family ∷ photo ∷ []) ∷ [])) ≡ (
            member x (elements_at iso ((iso, family ∷ photo ∷ []) ∷ []))
            && not (is_some (held_by document iso x))))
gather_all_exact_example = gather_all_exact document ((iso, family ∷ photo ∷ []) ∷ []) iso

abbrev waiting : ℕ → PreparedDocument crates
waiting n = record {
  id = n;
  doc_type = mdl;
  issuer_signed = record { namespaces = none; issuer_auth = ([], []) };
  device_namespaces = record { inner = []; inner_bytes = 160 ∷ [] };
  prepared_cose_sign1 = n ∷ [];
  errors = none;
}

abbrev two_waiting : PreparedDeviceResponse crates
two_waiting = record {
  prepared_documents = waiting 1 ∷ waiting 2 ∷ [];
  signed_documents = [];
  document_errors = none;
  status = cbor_decoding_error;
}

abbrev answers : List (PreparedDocument crates × Bytes)
answers = (waiting 1, 9 ∷ []) ∷ (waiting 2, 8 ∷ []) ∷ []

submit_all_completes_example :
    (Signing.is_complete (submit_all two_waiting (asked answers)) ≡ true)
    × ((Signing.finalize_response (submit_all two_waiting (asked answers))).documents
        ≡ NonEmptyVec.maybe_new (signed_in_order answers))
    × ((Signing.finalize_response (submit_all two_waiting (asked answers))).document_errors ≡ none)
    × ((Signing.finalize_response (submit_all two_waiting (asked answers))).status
        ≡ cbor_decoding_error)
submit_all_completes_example = submit_all_completes two_waiting answers refl

abbrev idle : SessionManager crates Bytes
idle = record {
  documents = documents;
  session_transcript = 5 ∷ [];
  sk_device = 1 ∷ [];
  device_message_counter = 3;
  sk_reader = 2 ∷ [];
  reader_message_counter = 4;
  state = awaiting_request;
}

abbrev busy : SessionManager crates Bytes
busy = record idle { state = signing two_waiting }

sign_pending_responds_example :
    ((sign_pending wire plain_aead (λ b. b) 2 busy).1 ≡ ok tt)
    × (retrieve_response (sign_pending wire plain_aead (λ b. b) 2 busy).0 ≡ (
      record busy {
        device_message_counter = (get_initialization_vector 3 false).0;
        state = awaiting_request;
      },
      some (1 ∷ 2 ∷ []),
    ))
unfolding encrypt_device_data
sign_pending_responds_example =
    sign_pending_responds wire plain_aead (λ b. b) 2 busy two_waiting (1 ∷ 2 ∷ []) refl
      (omega arith) (omega arith)
      (record {
        response_bytes = 1 ∷ 2 ∷ [];
        cipher = 1 ∷ 2 ∷ [];
        encodes = refl;
        encrypts = refl;
        sends = refl;
      })

abbrev garbage : SessionData
garbage = record { payload = some (0 ∷ []); status = none }

refused_request_is_stuck_example :
    let m' = (handle_decoded_request wire plain_aead garbage idle).0 in
    ((handle_decoded_request wire plain_aead garbage idle).1 ≡ ok [])
    × (m'.state ≡ signing (Signing.empty cbor_decoding_error))
    × (get_next_signature_payload m' ≡ none)
    × (response_ready m' ≡ false)
    × (retrieve_response m' ≡ (m', none))
unfolding decrypt_reader_data parse_request
refused_request_is_stuck_example =
    refused_request_is_stuck wire plain_aead idle garbage (0 ∷ []) (0 ∷ []) cbor_decoding_error refl
      refl refl

abbrev ages : List Claim
ages = (18, age_item) ∷ (16, family_item) ∷ (21, age_item) ∷ []

nearest-IsNearest_example : IsNearest 19 ages (nearest 19 ages)
nearest-IsNearest_example = nearest-IsNearest 19 ages
