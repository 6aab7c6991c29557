-- ===== src/Examples/Exchange.antt =====
-- A request that goes from the reader to the device at concrete values. The types with derived
-- conversions are written as serde writes them, as maps of their fields.
use isomdl.Prelude.{
  ◌≡◌, ◌≢◌, ◌∙◌, refl, ap, sym, Bool, true, false, List, [], ◌∷◌, All, Option, none, some, ok,
  to_option, arith,
}
use isomdl.Prelude.Text.{Text, codes, text_lt}
use isomdl.Prelude.Map.{Map}
use isomdl.Cbor.{Bytes, Value, Items, Entries, nil, cons, end, entry, text, bool, map, array}
use isomdl.Helpers.NonEmptyMap.{NonEmptyMap}
use isomdl.Helpers.Tag24
use isomdl.Helpers.Tag24.{Tag24, Codec, through_value, converted}
use isomdl.Session.{SessionData, Status, encrypt_reader_data}
use isomdl.Session
use isomdl.Documents.{ItemsRequest, DocRequest, DeviceRequest}
use isomdl.Device.Types
use isomdl.Device.Types.{awaiting_request}
use isomdl.Device.Manager
use isomdl.Device.Manager.{handle_request}
use isomdl.Reader.{SessionManager, Wire, Namespaces, request_for, new_request, build_request}
use isomdl.Helpers.NonEmptyVec
use isomdl.Reader.Built.{IsRead, IsMap, AreNamespaces, IsKept}
use isomdl.Reader.Exchange.{handle_request-new_request}
use isomdl.Examples.{crates, plain_aead, documents}
use isomdl.Examples.Values.{values, values-Reads, written}

abbrev elements_to : Map Text Bool → Entries
elements_to [] = end
elements_to ((k, b) ∷ m) = entry (text k) (bool b) (elements_to m)

abbrev namespaces_to : Map Text (NonEmptyMap Text Bool) → Entries
namespaces_to [] = end
namespaces_to ((k, n) ∷ m) = entry (text k) (map (elements_to n.entries)) (namespaces_to m)

-- an entry in front of what was read, if that could be read and is not followed by an error
abbrev add : {A : Type 0} → A → Option (List A) → Option (List A)
add a none = none
add a (some as') = some (a ∷ as')

abbrev add_some : {A : Type 0} → Option A → Option (List A) → Option (List A)
add_some none rest = none
add_some (some a) rest = add a rest

abbrev elements_from : Entries → Option (Map Text Bool)
elements_from end = some []
elements_from (entry (text k) (bool b) m) = add (k, b) (elements_from m)
elements_from _ = none

-- a map with entries
abbrev filled : {V : Type 0} → Option (Map Text V) → Option (NonEmptyMap Text V)
filled (some (e ∷ m)) = some (record { entries = e ∷ m })
filled _ = none

abbrev named : Text → Option (NonEmptyMap Text Bool) → Option (Text × NonEmptyMap Text Bool)
named k none = none
named k (some n) = some (k, n)

abbrev namespaces_from : Entries → Option (Map Text (NonEmptyMap Text Bool))
namespaces_from end = some []
namespaces_from (entry (text k) (map n) m) =
    add_some (named k (filled (elements_from n))) (namespaces_from m)
namespaces_from _ = none

abbrev items_to : ItemsRequest → Value
items_to i = map (
    entry (text (codes "docType")) (text i.doc_type)
      (entry (text (codes "nameSpaces")) (map (namespaces_to i.namespaces.entries)) end))

abbrev items_of_type : Text → Option Namespaces → Option ItemsRequest
items_of_type t none = none
items_of_type t (some n) = some (record { doc_type = t; namespaces = n; request_info = none })

abbrev items_from : Value → Option ItemsRequest
items_from (map (entry (text _) (text t) (entry (text _) (map m) end))) =
    items_of_type t (filled (namespaces_from m))
items_from _ = none

abbrev items_codec : Codec ItemsRequest
items_codec = through_value values items_to items_from

abbrev docs_to : List (DocRequest crates) → Items
docs_to [] = nil
docs_to (d ∷ ds) =
    cons (map (entry (text (codes "itemsRequest")) (Tag24.to_cbor d.items_request) end))
      (docs_to ds)

abbrev doc_of : Option (Tag24 ItemsRequest) → Option (DocRequest crates)
doc_of none = none
doc_of (some t) = some (record { items_request = t; reader_auth = none })

abbrev docs_from : Items → Option (List (DocRequest crates))
docs_from nil = some []
docs_from (cons (map (entry (text _) v end)) ds) =
    add_some (doc_of (to_option (Tag24.from_cbor items_codec v))) (docs_from ds)
docs_from _ = none

abbrev request_to : DeviceRequest crates → Value
request_to q = map (
    entry (text (codes "version")) (text q.version)
      (entry (text (codes "docRequests")) (array (docs_to q.doc_requests.items)) end))

abbrev request_with : Text → Option (List (DocRequest crates)) → Option (DeviceRequest crates)
request_with v (some (d ∷ ds)) =
    some (record { version = v; doc_requests = record { items = d ∷ ds } })
request_with v _ = none

abbrev request_from : Value → Option (DeviceRequest crates)
request_from (map (entry (text _) (text v) (entry (text _) (array ds) end))) =
    request_with v (docs_from ds)
request_from _ = none

abbrev write_data : Option Status → Option Bytes → Option Bytes
write_data none b = b
write_data (some _) b = none

abbrev pub reader_wire : Wire crates
reader_wire = record {
  items_request = items_codec;
  request_to_vec = λ q. values.to_vec (request_to q);
  session_data_to_vec = λ s. write_data s.status s.payload;
}

abbrev pub device_wire : Manager.Wire crates
device_wire = record {
  value_from_slice = values.from_slice;
  request_from_value = request_from;
  response_to_vec = λ _. none;
  response_from_slice = λ _. none;
  session_data_to_vec = λ _. none;
  session_data_from_slice = λ b. some (record { payload = some b; status = none });
}

elements_read : (m : Map Text Bool) → elements_from (elements_to m) ≡ some m
elements_read [] = refl
elements_read ((k, b) ∷ m) = ap (add (k, b)) (elements_read m)

filled_entries :
    {V : Type 0} (es : Map Text V) → es ≢ [] → filled (some es) ≡ some (record { entries = es })
filled_entries [] h = absurd (h refl)
filled_entries (e ∷ es) h = refl

filled_read :
    {V : Type 0} (m : NonEmptyMap Text V) → m.entries ≢ [] → filled (some m.entries) ≡ some m
filled_read m h = filled_entries m.entries h

namespaces_read :
    (m : Map Text (NonEmptyMap Text Bool))
    → All (λ (e : Text × NonEmptyMap Text Bool). IsMap e.1) m
    → namespaces_from (namespaces_to m) ≡ some m
namespaces_read [] h = refl
namespaces_read ((k, n) ∷ m) (h, hs) =
    ap (λ x. add_some (named k (filled x)) (namespaces_from (namespaces_to m)))
      (elements_read n.entries)
    ∙ ap (λ x. add_some (named k x) (namespaces_from (namespaces_to m))) (filled_read n h.0)
    ∙ ap (add (k, n)) (namespaces_read m hs)

items_read :
    (t : Text) (n : Namespaces) (i : Option (Map Text Value))
    → AreNamespaces n
    → i ≡ none
    → items_from (items_to (record { doc_type = t; namespaces = n; request_info = i }))
      ≡ some (record { doc_type = t; namespaces = n; request_info = i })
items_read t n i h e =
    ap (λ x. items_of_type t (filled x)) (namespaces_read n.entries h.1)
    ∙ ap (items_of_type t) (filled_read n h.0.0)
    ∙ ap (λ x. some (record { doc_type = t; namespaces = n; request_info = x })) (sym e)

doc_read :
    (t : Tag24 ItemsRequest) (a : Option (Bytes × Bytes))
    → Tag24.from_cbor items_codec (Tag24.to_cbor t) ≡ ok t
    → a ≡ none
    → doc_of (to_option (Tag24.from_cbor items_codec (Tag24.to_cbor t)))
      ≡ some (record { items_request = t; reader_auth = a })
doc_read t a h e =
    ap (λ r. doc_of (to_option r)) h
    ∙ ap (λ x. some (record { items_request = t; reader_auth = x })) (sym e)

docs_read :
    (ds : List (DocRequest crates)) → All (IsKept reader_wire) ds → docs_from (docs_to ds) ≡ some ds
docs_read [] h = refl
docs_read (d ∷ ds) (h, hs) =
    ap (λ x. add_some x (docs_from (docs_to ds))) (doc_read d.items_request d.reader_auth h.0 h.1)
    ∙ ap (add d) (docs_read ds hs)

request_read :
    (v : Text) (ds : List (DocRequest crates))
    → ds ≢ []
    → request_with v (some ds) ≡ some (record { version = v; doc_requests = record { items = ds } })
request_read v [] h = absurd (h refl)
request_read v (d ∷ ds) h = refl

pub wires-IsRead : IsRead reader_wire device_wire
wires-IsRead = record {
  reads_items = λ i h e b w.
      ap (converted items_from) (values-Reads (items_to i) b w)
      ∙ items_read i.doc_type i.namespaces i.request_info h e;
  reads_session_data = λ s b h. ground arith;
  reads_request = λ q b n h w. (
    request_to q,
    values-Reads (request_to q) b w,
    ap (request_with q.version) (docs_read q.doc_requests.items h)
        ∙ request_read q.version q.doc_requests.items n,
  );
}

abbrev reader : SessionManager Bytes
reader = record {
  session_transcript = 5 ∷ [];
  sk_device = 1 ∷ [];
  device_message_counter = 0;
  sk_reader = 2 ∷ [];
  reader_message_counter = 0;
}

abbrev device : Types.SessionManager crates Bytes
device = record {
  documents = documents;
  session_transcript = 5 ∷ [];
  sk_device = 1 ∷ [];
  device_message_counter = 0;
  sk_reader = 2 ∷ [];
  reader_message_counter = 0;
  state = awaiting_request;
}

-- the family name and the age
abbrev pub asked : Namespaces
asked = record {
  entries =
      (
        codes "org.iso.18013.5.1",
        record { entries = (codes "age_over_18", false) ∷ (codes "family_name", true) ∷ [] },
      )
      ∷ [];
}

pub asked-AreNamespaces : AreNamespaces asked
unfolding text_lt
asked-AreNamespaces = (((λ e. cc), (tt, tt)), (((λ e. cc), ((refl, tt), (tt, tt))), tt))

-- the request's numbers, which the cipher leaves as they are
abbrev pub sent_message : Bytes
sent_message = written (
    request_to (record {
      version = codes "1.0";
      doc_requests = record {
        items =
            (record {
              items_request = record {
                inner = request_for asked;
                inner_bytes = written (items_to (request_for asked));
              };
              reader_auth = none;
            })
            ∷ [];
      };
    }))

handle_request-new_request_example :
    ((handle_request device_wire plain_aead sent_message device).1 ≡ ok (request_for asked ∷ []))
    × ((handle_request device_wire plain_aead sent_message device).0 ≡ record device {
      reader_message_counter =
          (new_request reader_wire plain_aead asked reader).0.reader_message_counter;
    })
unfolding new_request build_request encrypt_reader_data Session.encrypt NonEmptyVec.new Tag24.new
    Tag24.to_cbor values
handle_request-new_request_example =
    handle_request-new_request reader_wire device_wire wires-IsRead plain_aead (λ k n p c h. cc)
      reader device asked {message = sent_message} asked-AreNamespaces refl refl refl
