-- ===== src/Examples/Session.antt =====
-- A session from its establishment to the response at concrete values.
use isomdl.Prelude.{
  ℕ, ◌+◌, ◌≡◌, ◌↔◌, refl, List, [], ◌∷◌, All, Option, none, some, ok, returns, length, arith,
}
use isomdl.Prelude.Int.{ℤ, pos}
use isomdl.Prelude.Text.{Text, codes, text_eq, text_lt, strip_prefix}
use isomdl.Prelude.Map.{get, remove, insert, text_ord}
use isomdl.Cbor.{Bytes, Value, text, integer, array, cons, nil}
use isomdl.CoseKey
use isomdl.CoseKey.{CoseKey, ec2, p256, value}
use isomdl.Engagement.Envelope
use isomdl.Engagement.Envelope.{DeviceEngagement}
use isomdl.Engagement.Wifi
use isomdl.Engagement.Method
use isomdl.Engagement.Method.{DeviceRetrievalMethod}
use isomdl.Helpers.NonEmptyVec.{NonEmptyVec}
use isomdl.Device.Establish.Initialised.{engagement_of}
use isomdl.CoseKey.Points.{Sec1, encoded_point}
use isomdl.Helpers.Tag24.{Tag24}
use isomdl.Helpers.Tag24
use isomdl.Helpers.NonEmptyVec
use isomdl.Session.{encrypt_device_data, encrypt_reader_data, encrypt, get_initialization_vector}
use isomdl.Session.Keys.{
  Ecdh, SessionTranscript, SessionEstablishment, create_p256_ephemeral_keys, get_shared_secret,
  derive_session_key, calculate_ble_ident,
}
use isomdl.Session.Keys
use isomdl.Session.Keys.Agreement.{IsEcdh}
use isomdl.Engagement.Qr.{to_qr_code_uri, from_qr_code_uri}
use isomdl.Documents.{DeviceResponse, ResponseDocument, signature, okay}
use isomdl.Device.Types
use isomdl.Device.Types.{awaiting_request, signing, PreparedDeviceResponse}
use isomdl.Device.Manager.{submit_next_signature, retrieve_response, prepare_response}
use isomdl.Device.Manager.Phases.{Trace, events, collecting, phase_of, run, run_refines}
use isomdl.Device.Manager.Steps.{Call, prepare, retrieve, submit, after}
use isomdl.Device.Manager.Sealed.{AreApart, AreSealed}
use isomdl.Device.Manager.Vectors.{messages, sealed_vectors_apart}
use isomdl.Device.Signing
use isomdl.Device.Prepare
use isomdl.Device.Filter.{filter_permitted}
use isomdl.Device.Establish.{
  SessionManagerInit, initialise, qr_engagement, ble_ident, process_session_establishment,
}
use isomdl.Reader.{SessionManager, request_for, build_request}
use isomdl.Reader.Establish.{Formats, establish_session, requested}
use isomdl.Reader.Establish.Agreement.{IsAgreed, IsFormats, session_agrees}
use isomdl.Reader.Json.{Json, string, number, parse_response, HasJson, parse_response_returns}
use isomdl.Reader.Response.{
  Inbound, Shown, show_items, find_doc, handle_response, show_response, handle_response-encrypt,
}
use isomdl.Reader.Response.Presented.{IsPresented, show_response-IsPresented}
use isomdl.Examples.{crates, wire, plain_aead, encoders, documents, family_item, family}
use isomdl.Examples.Exchange.{
  reader_wire, device_wire, wires-IsRead, asked, asked-AreNamespaces, sent_message,
}
use isomdl.Examples.Values.{values, values-Reads, written}
use isomdl.Examples.Engagement.{base64, network, serde, read_each, serde-IsSerde}

-- a point is its first coordinate
abbrev sec1 : Sec1
sec1 = record {
  FieldBytes = Bytes;
  Point = Bytes;
  field_bytes = λ b. some b;
  eight_bytes = λ _. none;
  from_affine_coordinates = λ x _ _. x;
  from_bytes = λ _. none;
}

abbrev first : Bytes → Option ℕ
first (k ∷ []) = some k
first _ = none

-- keys are numbers, each its own public key, and a secret is a sum
abbrev sums : Ecdh sec1
sums = record {
  SecretKey = ℕ;
  PublicKey = ℕ;
  SharedSecret = ℕ;
  x_coordinate = λ k. some (k ∷ []);
  y_coordinate = λ _. some (0 ∷ []);
  to_bytes = λ k. k ∷ [];
  from_bytes = first;
  from_encoded_point = first;
  diffie_hellman = λ a b. a + b;
  digest = λ b. b;
  session_key = λ s salt info. s ∷ info;
  hkdf = λ b info. some b;
  to_vec = λ _. some (1 ∷ []);
}

sums-IsEcdh : IsEcdh sums
sums-IsEcdh = record {
  public_key = λ k. k;
  restores = λ k. (k ∷ [], refl, refl);
  decodes = λ k x y h g. (k ∷ [], 0 ∷ [], cc, cc, refl);
  agrees = λ a b. omega arith;
}

abbrev formats : Formats
formats = record {
  values = values;
  serde = serde (CoseKey.codec values);
  transcript = record { to_vec = λ _. some []; from_slice = λ _. none };
  establishment_to_vec = λ e. some e.payload;
}

formats-IsFormats : IsFormats formats
formats-IsFormats = record {
  keys = λ k. values-Reads (CoseKey.to_cbor k);
  engagements = λ d _. values-Reads (Envelope.to_cbor d);
  serde = serde-IsSerde (CoseKey.codec values);
}

-- the public key of a number, with the numbers of its value
abbrev public_key : ℕ → Tag24 CoseKey
public_key n = record {
  inner = ec2 p256 (n ∷ []) (value (0 ∷ []));
  inner_bytes = written (CoseKey.to_cbor (ec2 p256 (n ∷ []) (value (0 ∷ []))));
}

-- a device that is reached by Wi-Fi
abbrev methods : Option (NonEmptyVec DeviceRetrievalMethod)
methods = some (record { items = network ∷ [] })

abbrev offered : DeviceEngagement
offered = engagement_of (public_key 3) methods none

abbrev init : SessionManagerInit crates
init = record {
  documents = documents;
  e_device_key = 3 ∷ [];
  device_engagement = record { inner = offered; inner_bytes = written (Envelope.to_cbor offered) };
}

abbrev established : SessionManager SessionTranscript
established = record {
  session_transcript = record {
    device_engagement = init.device_engagement;
    e_reader_key = public_key 4;
    handover = Keys.qr;
  };
  sk_device = 7 ∷ codes "SKDevice";
  device_message_counter = 0;
  sk_reader = 7 ∷ codes "SKReader";
  reader_message_counter = 1;
}

session_agrees_example :
    (e : SessionEstablishment) × (device : Types.SessionManager crates SessionTranscript)
    × (formats.establishment_to_vec e ≡ some sent_message)
    × (process_session_establishment sums device_wire plain_aead formats.transcript
          (qr_engagement base64 init).0
          e
        ≡ returns (ok (device, request_for asked ∷ [])))
    × IsAgreed established device
    × (ble_ident sums init ≡ some (1 ∷ []))
unfolding initialise establish_session create_p256_ephemeral_keys get_shared_secret
    derive_session_key calculate_ble_ident encoded_point requested build_request encrypt_reader_data
    encrypt Tag24.new Tag24.from_bytes Tag24.to_cbor to_qr_code_uri from_qr_code_uri strip_prefix
    text_eq NonEmptyVec.new get_initialization_vector values CoseKey.to_cbor CoseKey.from_cbor
    Envelope.to_cbor Envelope.from_cbor Envelope.methods Method.to_cbor Wifi.to_cbor Tag24.from_cbor
    read_each Method.from_cbor Wifi.from_cbor
session_agrees_example =
    session_agrees sums sums-IsEcdh reader_wire device_wire wires-IsRead plain_aead
      (λ k n p c h. cc) base64 (λ b. refl) formats formats-IsFormats 3 4 documents methods none
      asked ((λ e. cc), ((omega arith, tt), tt)) tt asked-AreNamespaces {init = init}
      {m = established} {message = sent_message} {ident = 1 ∷ []} refl refl

-- one document to be signed
abbrev to_sign : PreparedDeviceResponse crates
to_sign = record {
  prepared_documents =
      (record {
        id = 7;
        doc_type = codes "mDL";
        issuer_signed = record { namespaces = none; issuer_auth = ([], []) };
        device_namespaces = record { inner = []; inner_bytes = [] };
        prepared_cose_sign1 = 5 ∷ [];
        errors = none;
      })
      ∷ [];
  signed_documents = [];
  document_errors = none;
  status = okay;
}

abbrev signing_device : Types.SessionManager crates Bytes
signing_device = record {
  documents = documents;
  session_transcript = 5 ∷ [];
  sk_device = 1 ∷ [];
  device_message_counter = 6;
  sk_reader = 2 ∷ [];
  reader_message_counter = 0;
  state = signing to_sign;
}

abbrev converted : ℤ → Option Json
converted i = some (number i)

abbrev pair : Value
pair = array (cons (text (codes "C")) (cons (integer (pos 3)) nil))

parse_response_returns_example :
    ((j : Json) × (parse_response converted pair ≡ returns (ok j))) ↔ HasJson converted pair
parse_response_returns_example = parse_response_returns converted pair

abbrev core : Text
core = codes "org.iso.18013.5.1"

abbrev mdl_document : ResponseDocument crates
mdl_document = record {
  doc_type = codes "org.iso.18013.5.1.mDL";
  issuer_signed = record {
    namespaces = some (record { entries = (core, record { items = family_item ∷ [] }) ∷ [] });
    issuer_auth = ([], []);
  };
  device_signed = record {
    namespaces = record { inner = []; inner_bytes = [] };
    device_auth = signature ([], []);
  };
  errors = none;
}

abbrev response : DeviceResponse crates
response = record {
  version = codes "1.0";
  documents = some (record { items = mdl_document ∷ [] });
  document_errors = none;
  status = okay;
}

abbrev inbound : Inbound crates
inbound = record {
  session_data_from_slice = λ b. some (record { payload = some b; status = none });
  response_from_slice = λ _. some response;
  to_value = converted;
}

handle_response-encrypt_example :
    handle_response inbound plain_aead (1 ∷ 2 ∷ []) established
    ≡ (record established { device_message_counter = 1 }, show_response converted response)
unfolding encrypt_device_data encrypt get_initialization_vector
handle_response-encrypt_example =
    handle_response-encrypt inbound plain_aead (λ k n p c h. cc) established (1 ∷ 2 ∷ [])
      (1 ∷ 2 ∷ []) (1 ∷ 2 ∷ []) response refl refl refl

abbrev shown : Shown
shown = (core, (family, string (codes "Doe")) ∷ []) ∷ []

show_response-IsPresented_example : All (IsPresented converted response) shown
unfolding show_response show_items parse_response find_doc get remove insert text_eq text_lt
show_response-IsPresented_example =
    show_response-IsPresented converted response {shown = shown} refl

-- the signature, and a response that is handed out once
abbrev calls : List (Call Bytes)
calls = submit (9 ∷ []) ∷ retrieve ∷ retrieve ∷ []

run_refines_example :
    Trace
      (events wire plain_aead calls signing_device)
      (collecting 1)
      (phase_of (run wire plain_aead calls signing_device).state)
run_refines_example = run_refines wire plain_aead calls signing_device

-- a response with one signature, and after it one without documents
abbrev two_responses : List (Call Bytes)
two_responses = submit (9 ∷ []) ∷ retrieve ∷ prepare encoders [] [] ∷ submit (8 ∷ []) ∷ []

sealed_vectors_apart_example :
    (vs : List Bytes) × AreApart vs
    × AreSealed wire plain_aead (1 ∷ []) vs (messages wire plain_aead two_responses signing_device)
sealed_vectors_apart_example =
    sealed_vectors_apart wire plain_aead two_responses signing_device (omega arith)

-- the calls seal two messages
two_sealed : length (messages wire plain_aead two_responses signing_device) ≡ 2
unfolding messages after submit_next_signature retrieve_response prepare_response
    Prepare.prepare_response filter_permitted NonEmptyVec.maybe_new Signing.submit_next_signature
    Signing.is_complete Signing.finalize_response encrypt_device_data encrypt
two_sealed = refl
