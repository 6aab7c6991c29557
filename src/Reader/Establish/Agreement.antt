-- ===== src/Reader/Establish/Agreement.antt =====
-- A session between a device (src/presentation/device.rs) and a reader
-- (src/presentation/reader.rs), from the QR code to the first request.
use isomdl.Prelude.{
  ◌≡◌, refl, sym, ap, ◌∙◌, true, false, [], ◌∷◌, Option, none, some, ok, returns, arith,
}
use isomdl.Cbor.{Bytes}
use isomdl.CoseKey
use isomdl.CoseKey.{CoseKey}
use isomdl.CoseKey.RoundTrip.{codec-Reads}
use isomdl.CoseKey.Points.{Sec1}
use isomdl.Crates.{Crates}
use isomdl.Helpers.NonEmptyVec.{NonEmptyVec}
use isomdl.Helpers.Tag24.{Tag24, Reads, Codec}
use isomdl.Helpers.Tag24
use isomdl.Engagement.Envelope
use isomdl.Engagement.Envelope.{DeviceEngagement, ServerRetrievalMethods}
use isomdl.Engagement.RoundTrip.{IsSerde, IsEngagement, AreMethods, AreServers}
use isomdl.Engagement.Method.{DeviceRetrievalMethod}
use isomdl.Engagement.Qr.{Base64, IsBase64, from_qr_code_uri-to_qr_code_uri}
use isomdl.Session.{Aead, IsAead}
use isomdl.Session.Keys.{
  Ecdh, create_p256_ephemeral_keys, SessionTranscript, SessionEstablishment, get_shared_secret,
  derive_session_key,
}
use isomdl.Session.Keys.Agreement.{IsEcdh, shared_secret_agrees, create-own}
use isomdl.Device.Types.{Documents, awaiting_request}
use isomdl.Device.Types
use isomdl.Device.Manager
use isomdl.Device.Manager.{handle_decoded_request}
use isomdl.Device.Establish.{
  SessionManagerInit, SessionManagerEngaged, initialise, qr_engagement, ble_ident,
  process_session_establishment, finished,
}
use isomdl.Device.Establish.Initialised.{engagement_of, initialise-IsInitialised, tag24_new-inner}
use isomdl.Reader.{SessionManager, Wire, Namespaces, request_for}
use isomdl.Reader.Built.{
  IsRead, AreNamespaces, handle_decoded_request-build_request, build_request-keeps,
}
use isomdl.Reader.Establish.{Formats, key_format, engagement_format, establish_session}
use isomdl.Reader.Establish.Inversion.{establish_session-IsEstablished, manager_of}

-- the manager that a device makes of its keys
abbrev device_of :
    {C : Crates}
    → SessionManagerEngaged C
    → Tag24 CoseKey
    → Bytes
    → Bytes
    → Types.SessionManager C SessionTranscript
device_of m key sk_reader sk_device = record {
  documents = m.documents;
  session_transcript = record {
    device_engagement = m.device_engagement;
    e_reader_key = key;
    handover = m.handover;
  };
  sk_device = sk_device;
  device_message_counter = 0;
  sk_reader = sk_reader;
  reader_message_counter = 0;
  state = awaiting_request;
}

-- The steps of a device, one after the other.
process_steps :
    {C : Crates} {s : Sec1} (E : Ecdh s) (w : Manager.Wire C) (aead : Aead)
    (codec : Codec SessionTranscript) (m : SessionManagerEngaged C) (e : SessionEstablishment)
    {t : Tag24 SessionTranscript} {f : s.FieldBytes} {k : E.SecretKey} {ss : E.SharedSecret}
    {skr skd : Bytes}
    → Tag24.new codec (device_of m e.e_reader_key skr skd).session_transcript ≡ ok t
    → s.field_bytes m.e_device_key ≡ some f
    → E.from_bytes f ≡ some k
    → get_shared_secret E e.e_reader_key.inner k ≡ returns (ok ss)
    → derive_session_key E ss t true ≡ ok skr
    → derive_session_key E ss t false ≡ ok skd
    → process_session_establishment E w aead codec m e
      ≡ returns (
          finished (
            handle_decoded_request w aead
              (record { payload = some e.payload; status = none })
              (device_of m e.e_reader_key skr skd)))
unfolding process_session_establishment
process_steps E w aead codec m e a b c d g h = rw (a, b, c, d, g, h) refl

-- What a reader and a device have in common once the device took the reader's first message.
pub record IsAgreed {C : Crates} {S : Type 0} (m : SessionManager S)
    (device : Types.SessionManager C S) : Type 0 where
  pub transcript : device.session_transcript ≡ m.session_transcript
  pub sk_reader : device.sk_reader ≡ m.sk_reader
  pub sk_device : device.sk_device ≡ m.sk_device
  pub reader_counter : device.reader_message_counter ≡ m.reader_message_counter
  pub device_counter : device.device_message_counter ≡ m.device_message_counter

-- The device computes the secret that the reader computed.
device_secret :
    {s : Sec1} (E : Ecdh s) (ecdh : IsEcdh E) (a b : E.SecretKey) {ka ka' kb kb' : CoseKey}
    {b' : E.SecretKey} {ss : E.SharedSecret}
    → create_p256_ephemeral_keys E a ≡ ok (a, ka)
    → create_p256_ephemeral_keys E b ≡ ok (b, kb)
    → ka' ≡ ka
    → kb' ≡ kb
    → b' ≡ b
    → get_shared_secret E ka' b' ≡ returns (ok ss)
    → get_shared_secret E kb' a ≡ returns (ok ss)
device_secret E ecdh a b h g is_a is_b is_own x =
    ap (λ k. get_shared_secret E k a) is_b
    ∙ sym (shared_secret_agrees E ecdh a b h g)
    ∙ sym (ap (λ k. get_shared_secret E k b) is_a)
    ∙ sym (ap (get_shared_secret E _) is_own)
    ∙ x

-- What is read back of what the formats write: the value of a key, and that of an engagement with
-- fields in their types' ranges; derived conversions read what the fields' own readers read back.
pub record IsFormats (f : Formats) : Type 0 where
  pub keys : (k : CoseKey) → Reads f.values (CoseKey.to_cbor k)
  pub engagements :
      (d : DeviceEngagement) → IsEngagement (key_format f) d → Reads f.values (Envelope.to_cbor d)
  pub serde : IsSerde (key_format f) f.serde

-- A device's engagement has fields in their types' ranges, and a key that is read from its bytes.
offered-IsEngagement :
    (f : Formats)
    → IsFormats f
    → (k : CoseKey) {t : Tag24 CoseKey} (methods : Option (NonEmptyVec DeviceRetrievalMethod))
      (servers : Option ServerRetrievalMethods)
    → Tag24.new (key_format f) k ≡ ok t
    → AreMethods methods
    → AreServers servers
    → IsEngagement (key_format f) (engagement_of t methods servers)
offered-IsEngagement f law k methods servers wraps are_methods are_servers = record {
  cipher_suite = omega arith;
  key = Tag24.from_cbor-new (key_format f) k (codec-Reads f.values k (law.keys k)) wraps;
  methods = are_methods;
  servers = are_servers;
}

module _ {C : Crates} {s : Sec1} (E : Ecdh s) (ecdh : IsEcdh E) (r : Wire C) (d : Manager.Wire C)
    (reads : IsRead r d) (aead : Aead) (law : IsAead aead) (base64 : Base64)
    (undoes : IsBase64 base64) (f : Formats) (formats : IsFormats f) where
  -- If decryption undoes encryption, Diffie-Hellman agrees and the values, the derived conversions
  -- and base64 are read back as they are written, then from a device that was initialised with
  -- methods in their types' ranges and a reader that took the device's QR code and returned a
  -- session with its first message for namespaces that are maps with entries, the message is one
  -- that the device takes: the device asks for the items that the reader named, both sides hold the
  -- same transcript, keys and counters, and the reader's identifier is the device's.
  pub session_agrees :
      (a b : E.SecretKey) (documents : Documents C)
      (methods : Option (NonEmptyVec DeviceRetrievalMethod))
      (servers : Option ServerRetrievalMethods) (namespaces : Namespaces)
      → AreMethods methods
      → AreServers servers
      → AreNamespaces namespaces
      → {init : SessionManagerInit C} {m : SessionManager SessionTranscript} {message ident : Bytes}
      → initialise E (key_format f) (engagement_format f) a documents methods servers ≡ ok init
      → establish_session E r aead f base64 b (qr_engagement base64 init).1 namespaces
        ≡ returns (ok (m, message, ident))
      → (e : SessionEstablishment) × (device : Types.SessionManager C SessionTranscript)
        × (f.establishment_to_vec e ≡ some message)
        × (process_session_establishment E d aead f.transcript (qr_engagement base64 init).0 e
            ≡ returns (ok (device, request_for namespaces ∷ [])))
        × IsAgreed m device
        × (ble_ident E init ≡ some ident)
  unfolding ble_ident
  session_agrees a b documents methods servers namespaces are_methods are_servers valid {init} {m}
        {message} {ident} h g =
      let i =
        initialise-IsInitialised E (key_format f) (engagement_format f) a documents methods servers
          h in
      let offers =
        offered-IsEngagement f formats i.key methods servers i.wraps_key are_methods are_servers in
      let scanned =
        (from_qr_code_uri-to_qr_code_uri base64 undoes (key_format f) f.serde formats.serde f.values
            (engagement_of i.key_bytes methods servers) offers
            (formats.engagements (engagement_of i.key_bytes methods servers) offers) i.wraps).1
          (refl, refl) in
      let x = establish_session-IsEstablished E r aead f base64 b _ namespaces scanned g in
      let (field, is_field, is_key) = ecdh.restores a in
      let engaged = (qr_engagement base64 init).0 in
      let device0 = device_of engaged x.key x.sk_reader x.sk_device in
      let taken =
        handle_decoded_request-build_request r d reads aead law
          (manager_of init.device_engagement x.key x.sk_reader x.sk_device) device0 namespaces valid
          refl refl (ap (λ z. z.1) x.builds) in
      let own = create-own E b x.creates in
      let secret =
        device_secret E ecdh a b i.creates own.0 i.offers
          (tag24_new-inner (key_format f) x.key_pair.1 x.wraps) own.1 x.shares in
      let e : SessionEstablishment = record { e_reader_key = x.key; payload = x.request } in
      let steps =
        process_steps E d aead f.transcript engaged e x.writes_transcript
          (ap s.field_bytes i.stores ∙ is_field) is_key secret x.derives_reader x.derives_device in
      let kept =
        sym (ap (λ z. z.0) x.builds)
        ∙ build_request-keeps r aead namespaces
            (manager_of init.device_engagement x.key x.sk_reader x.sk_device) in
      (
        e,
        _,
        x.writes,
        steps ∙ ap (λ z. returns (finished z)) taken,
        record {
          transcript = sym (ap (λ z. z.session_transcript) kept);
          sk_reader = sym (ap (λ z. z.sk_reader) kept);
          sk_device = sym (ap (λ z. z.sk_device) kept);
          reader_counter = sym (ap (λ z. z.reader_message_counter) kept);
          device_counter = sym (ap (λ z. z.device_message_counter) kept);
        },
        x.identifies,
      )
