-- ===== src/Reader/Built.antt =====
-- A request that `build_request` (src/presentation/reader.rs) encrypts, and what a device
-- (src/presentation/device.rs) makes of it.
use isomdl.Prelude.{
  ℕ, ◌≡◌, ◌≢◌, All, Bool, refl, sym, ap, ◌∙◌, true, [], ◌∷◌, none, some, ok, arith, Result-cases,
  Option-cases, inl, inr, map,
}
use isomdl.Prelude.Text.{Text, text_eq}
use isomdl.Prelude.Map.{IsSorted, text_ord}
use isomdl.Cbor.{Bytes, Value}
use isomdl.Crates.{Crates}
use isomdl.Helpers.NonEmptyVec
use isomdl.Helpers.NonEmptyMap.{NonEmptyMap}
use isomdl.Helpers.NonEmptyVec.{IsNonEmpty}
use isomdl.Helpers.Tag24.{Tag24, Reads}
use isomdl.Helpers.Tag24
use isomdl.Session.{
  Aead, IsAead, SessionData, get_initialization_vector, encrypt_reader_data, decrypt_reader_data,
}
use isomdl.Session
use isomdl.Documents.{ItemsRequest, DocRequest, DeviceRequest}
use isomdl.Device.Types
use isomdl.Device.Manager
use isomdl.Device.Signing
use isomdl.Device.Manager.{handle_decoded_request, parse_request, validate_request}
use isomdl.Reader.{SessionManager, Wire, Namespaces, request_for, device_request, build_request}

-- a `NonEmptyMap` of the program: it has entries, in the order of their keys
abbrev pub IsMap : {V : Type 0} → NonEmptyMap Text V → Type 0
IsMap m = (m.entries ≢ []) × IsSorted m.entries

abbrev pub AreNamespaces : Namespaces → Type 0
AreNamespaces n = IsMap n × All (λ (e : Text × NonEmptyMap Text Bool). IsMap e.1) n.entries

-- a request for items that is read from its own bytes, without reader authentication
abbrev pub IsKept : {C : Crates} → Wire C → DocRequest C → Type 0
IsKept r x =
    (Tag24.from_cbor r.items_request (Tag24.to_cbor x.items_request) ≡ ok x.items_request)
    × (x.reader_auth ≡ none)

-- What derived conversions do: the device reads what the reader writes, where the values are of
-- their Rust types and the fields' own readers read back what stands in them.
pub record IsRead {C : Crates} (r : Wire C) (d : Manager.Wire C) : Type 0 where
  pub reads_items :
      (i : ItemsRequest)
      → AreNamespaces i.namespaces
      → i.request_info ≡ none
      → Reads r.items_request i
  pub reads_session_data :
      (s : SessionData) (b : Bytes)
      → r.session_data_to_vec s ≡ some b
      → d.session_data_from_slice b ≡ some s
  pub reads_request :
      (q : DeviceRequest C) (b : Bytes)
      → IsNonEmpty q.doc_requests
      → All (IsKept r) q.doc_requests.items
      → r.request_to_vec q ≡ some b
      → (v : Value) × (d.value_from_slice b ≡ some v) × (d.request_from_value v ≡ some q)

-- A ciphertext that decrypts to a request of the right version is accepted.
accepts :
    {C : Crates} {T : Type 0} (d : Manager.Wire C) (aead : Aead) (device : Types.SessionManager C T)
    (cipher plain : Bytes) (v : Value) (q : DeviceRequest C)
    → (decrypt_reader_data aead device.sk_reader cipher device.reader_message_counter).1
      ≡ some plain
    → d.value_from_slice plain ≡ some v
    → d.request_from_value v ≡ some q
    → text_eq q.version Signing.version ≡ true
    → handle_decoded_request d aead (record { payload = some cipher; status = none }) device ≡ (
      record device {
        reader_message_counter =
            (decrypt_reader_data aead device.sk_reader cipher device.reader_message_counter).0;
      },
      ok (map (λ (x : DocRequest C). x.items_request.inner) q.doc_requests.items),
    )
unfolding handle_decoded_request parse_request validate_request
accepts d aead device cipher plain v q b c e f = ground (arith, b, c, e, f)

-- What went into a ciphertext that `build_request` made.
record IsBuilt {C : Crates} {S : Type 0} (r : Wire C) (aead : Aead) (namespaces : Namespaces)
    (m : SessionManager S) (cipher : Bytes) : Type 0 where
  items_bytes : Bytes
  plain : Bytes
  writes_items : r.items_request.to_vec (request_for namespaces) ≡ some items_bytes
  writes_request :
      r.request_to_vec
        (device_request (record { inner = request_for namespaces; inner_bytes = items_bytes }))
      ≡ some plain
  encrypts : (encrypt_reader_data aead m.sk_reader plain m.reader_message_counter).1 ≡ some cipher
  counts :
      (build_request r aead namespaces m).0.reader_message_counter
      ≡ (encrypt_reader_data aead m.sk_reader plain m.reader_message_counter).0

build_request-IsBuilt :
    {C : Crates} {S : Type 0} (r : Wire C) (aead : Aead) (namespaces : Namespaces)
    (m : SessionManager S) {cipher : Bytes}
    → (build_request r aead namespaces m).1 ≡ ok cipher
    → IsBuilt r aead namespaces m cipher
unfolding build_request Tag24.new
build_request-IsBuilt r aead namespaces m {cipher} h =
    elim (Option-cases (r.items_request.to_vec (request_for namespaces))) [
      | inl e ↦ absurd (ground (arith, e))
      | inr (b, e) ↦
          let q = device_request (record { inner = request_for namespaces; inner_bytes = b }) in
          elim (Option-cases (r.request_to_vec q)) [
            | inl e' ↦ absurd (ground (arith, e, e'))
            | inr (p, e') ↦
                elim (Option-cases
                  (encrypt_reader_data aead m.sk_reader p m.reader_message_counter).1) [
                    | inl e'' ↦ absurd (ground (arith, e, e', e''))
                    | inr (c, e'') ↦ record {
                      items_bytes = b;
                      plain = p;
                      writes_items = e;
                      writes_request = e';
                      encrypts = ground (arith, e, e', e'');
                      counts = ground (arith, e, e', e'');
                    }
                  ]
          ]
    ]

module _ {C : Crates} {S T : Type 0} (r : Wire C) (d : Manager.Wire C) (reads : IsRead r d)
    (aead : Aead) (law : IsAead aead) (m : SessionManager S)
    (device : Types.SessionManager C T) where
  -- What a reader wraps is read from its own bytes.
  kept :
      (namespaces : Namespaces) {cipher : Bytes} (built : IsBuilt r aead namespaces m cipher)
      → AreNamespaces namespaces
      → Tag24.from_cbor r.items_request (
          Tag24.to_cbor
            (record { inner = request_for namespaces; inner_bytes = built.items_bytes }))
        ≡ ok (record { inner = request_for namespaces; inner_bytes = built.items_bytes })
  unfolding Tag24.new
  kept namespaces built valid =
      Tag24.from_cbor-new r.items_request (request_for namespaces)
        (reads.reads_items (request_for namespaces) valid refl) (rw built.writes_items refl)

  -- A device that holds the reader's key and counter takes the request that was encrypted.
  pub handle_decoded_request-build_request :
      (namespaces : Namespaces) {cipher : Bytes}
      → AreNamespaces namespaces
      → device.sk_reader ≡ m.sk_reader
      → device.reader_message_counter ≡ m.reader_message_counter
      → (build_request r aead namespaces m).1 ≡ ok cipher
      → handle_decoded_request d aead (record { payload = some cipher; status = none }) device ≡ (
        record device {
          reader_message_counter = (build_request r aead namespaces m).0.reader_message_counter;
        },
        ok (request_for namespaces ∷ []),
      )
  unfolding encrypt_reader_data decrypt_reader_data Session.encrypt Session.decrypt NonEmptyVec.new
      text_eq
  handle_decoded_request-build_request namespaces {cipher} valid key counter h =
      let built = build_request-IsBuilt r aead namespaces m h in
      let (v, is_v, is_q) =
        reads.reads_request _ built.plain (λ e. cc) ((kept namespaces built valid, refl), tt)
          built.writes_request in
      accepts d aead device cipher built.plain v _ (rw (key, counter) (law _ _ _ _ built.encrypts))
        is_v is_q refl
      ∙ ap
          (λ (n : ℕ).
            (record device { reader_message_counter = n }, ok (request_for namespaces ∷ [])))
          (rw counter refl ∙ sym built.counts)

-- `build_request` moves the counter of the reader's messages and nothing else.
pub build_request-keeps :
    {C : Crates} {S : Type 0} (r : Wire C) (aead : Aead) (namespaces : Namespaces)
    (m : SessionManager S)
    → (build_request r aead namespaces m).0 ≡ record m {
      reader_message_counter = (build_request r aead namespaces m).0.reader_message_counter;
    }
unfolding build_request
build_request-keeps r aead namespaces m =
    elim (Result-cases (Tag24.new r.items_request (request_for namespaces))) [
      | inl (x, e) ↦ rw (e, build_request) refl
      | inr (t, e) ↦ elim (Option-cases (r.request_to_vec (device_request t))) [
        | inl e' ↦ rw (e, build_request, e') refl
        | inr (b, e') ↦ rw (e, build_request, e') refl
      ]
    ]
