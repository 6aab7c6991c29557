-- ===== src/Reader/Establish/Inversion.antt =====
-- What a session that `establish_session` (src/presentation/reader.rs) returned was made of.
use isomdl.Prelude.{
  ◌≡◌, sym, ap, subst, ◌∙◌, true, false, some, Option-cases, inl, inr, Result, ok, err, ok_or,
  ok_or-eq-ok, Outcome, returns, map_err, map_err-eq-ok, or_err, or_err-eq-ok, unwrapped-eq-ok,
  and_then-eq-ok, arith,
}
use isomdl.Prelude.Text.{Text}
use isomdl.Cbor.{Bytes}
use isomdl.CoseKey.{CoseKey}
use isomdl.CoseKey.Points.{Sec1}
use isomdl.Crates.{Crates}
use isomdl.Helpers.Tag24.{Tag24}
use isomdl.Helpers.Tag24
use isomdl.Engagement.Envelope.{DeviceEngagement}
use isomdl.Engagement.Qr.{Base64, from_qr_code_uri}
use isomdl.Session.{Aead}
use isomdl.Session.Keys.{
  Ecdh, qr, SessionTranscript, create_p256_ephemeral_keys, get_shared_secret, derive_session_key,
  calculate_ble_ident,
}
use isomdl.Session.Keys.Agreement.{create-own}
use isomdl.Reader.{SessionManager, Wire, Namespaces, build_request}
use isomdl.Reader
use isomdl.Reader.Establish.{
  Formats, key_format, engagement_format, establish_session, requested, invalid_qr_code, key_error,
  tag24_error, ble_ident_error,
}

-- the reader's side of the transcript
abbrev pub transcript_of : Tag24 DeviceEngagement → Tag24 CoseKey → SessionTranscript
transcript_of engagement key = record {
  device_engagement = engagement;
  e_reader_key = key;
  handover = qr;
}

abbrev pub manager_of :
    Tag24 DeviceEngagement → Tag24 CoseKey → Bytes → Bytes → SessionManager SessionTranscript
manager_of engagement key sk_reader sk_device = record {
  session_transcript = transcript_of engagement key;
  sk_device = sk_device;
  device_message_counter = 0;
  sk_reader = sk_reader;
  reader_message_counter = 0;
}

result_of : {E A : Type 0} {a b : A} → ◌≡◌ {A = Result E A} (ok a) (ok b) → a ≡ b
result_of h = cc

returned : {E A : Type 0} {a b : Result E A} → ◌≡◌ {A = Outcome E A} (returns a) (returns b) → a ≡ b
returned h = cc

module _ {C : Crates} {s : Sec1} (E : Ecdh s) (w : Wire C) (aead : Aead) (f : Formats) where
  -- the steps of `establish_session` and their results
  pub record IsEstablished (drawn : E.SecretKey) (engagement : Tag24 DeviceEngagement)
      (namespaces : Namespaces) (m : SessionManager SessionTranscript) (message ident : Bytes)
      : Type 0 where
    pub key_pair : E.SecretKey × CoseKey
    pub key : Tag24 CoseKey
    pub shared_secret : E.SharedSecret
    pub transcript_bytes : Tag24 SessionTranscript
    pub sk_reader : Bytes
    pub sk_device : Bytes
    pub request : Bytes
    pub creates : create_p256_ephemeral_keys E drawn ≡ ok key_pair
    pub keeps : key_pair.0 ≡ drawn
    pub wraps : Tag24.new (key_format f) key_pair.1 ≡ ok key
    pub identifies : calculate_ble_ident E engagement.inner.security.key ≡ some ident
    pub shares :
        get_shared_secret E engagement.inner.security.key.inner key_pair.0
        ≡ returns (ok shared_secret)
    pub writes_transcript :
        Tag24.new f.transcript (transcript_of engagement key) ≡ ok transcript_bytes
    pub derives_reader : derive_session_key E shared_secret transcript_bytes true ≡ ok sk_reader
    pub derives_device : derive_session_key E shared_secret transcript_bytes false ≡ ok sk_device
    pub builds :
        build_request w aead namespaces (manager_of engagement key sk_reader sk_device)
        ≡ (m, ok request)
    pub writes :
        f.establishment_to_vec (record { e_reader_key = key; payload = request }) ≡ some message

  record IsRequested (key : Tag24 CoseKey) (ident' : Bytes)
      (built : SessionManager SessionTranscript × Result Reader.Error Bytes)
      (m : SessionManager SessionTranscript) (message ident : Bytes) : Type 0 where
    request : Bytes
    builds : built ≡ (m, ok request)
    writes :
        f.establishment_to_vec (record { e_reader_key = key; payload = request }) ≡ some message
    identifies : ident' ≡ ident

  requested-IsRequested :
      (key : Tag24 CoseKey) (ident' : Bytes)
      (built : SessionManager SessionTranscript × Result Reader.Error Bytes)
      {m : SessionManager SessionTranscript} {message ident : Bytes}
      → requested E w aead f key ident' built ≡ ok (m, message, ident)
      → IsRequested key ident' built m message ident
  unfolding requested
  requested-IsRequested key ident' (m', err e) h = absurd (ground arith)
  requested-IsRequested key ident' (m', ok q) {m} {message} {ident} h =
      elim (Option-cases (f.establishment_to_vec (record { e_reader_key = key; payload = q }))) [
        | inl e ↦ absurd (ground (arith, e))
        | inr (b, e) ↦ record {
          request = q;
          builds = ground (arith, e);
          writes = ground (arith, e);
          identifies = ground (arith, e);
        }
      ]

  pub establish_session-IsEstablished :
      (base64 : Base64) (drawn : E.SecretKey) (qr_code : Text) (namespaces : Namespaces)
      {engagement : Tag24 DeviceEngagement} {m : SessionManager SessionTranscript}
      {message ident : Bytes}
      → from_qr_code_uri base64 (engagement_format f) qr_code ≡ ok engagement
      → establish_session E w aead f base64 drawn qr_code namespaces
        ≡ returns (ok (m, message, ident))
      → IsEstablished drawn engagement namespaces m message ident
  unfolding establish_session
  establish_session-IsEstablished base64 drawn qr_code namespaces {engagement} {m} {message} {ident}
        is h =
      let (de, a1, h1) =
        unwrapped-eq-ok
          (map_err invalid_qr_code (from_qr_code_uri base64 (engagement_format f) qr_code)) _ h in
      let (p, a2, h2) =
        unwrapped-eq-ok (map_err key_error (create_p256_ephemeral_keys E drawn)) _ h1 in
      let (key, a3, h3) =
        unwrapped-eq-ok (map_err tag24_error (Tag24.new (key_format f) p.1)) _ h2 in
      let (id, a4, h4) =
        unwrapped-eq-ok (ok_or (calculate_ble_ident E de.inner.security.key) ble_ident_error) _
          h3 in
      let (ss, a5, h5) =
        and_then-eq-ok (or_err key_error (get_shared_secret E de.inner.security.key.inner p.0)) _
          h4 in
      let (tb, a6, h6) =
        unwrapped-eq-ok (map_err tag24_error (Tag24.new f.transcript (transcript_of de key))) _
          h5 in
      let (skr, a7, h7) =
        unwrapped-eq-ok (map_err key_error (derive_session_key E ss tb true)) _ h6 in
      let (skd, a8, h8) =
        (unwrapped-eq-ok (map_err key_error (derive_session_key E ss tb false)) _ h7) in
      let r = requested-IsRequested key id _ (returned h8) in
      let same : de ≡ engagement = result_of (sym (map_err-eq-ok invalid_qr_code _ a1) ∙ is) in
      subst (λ x. IsEstablished drawn x namespaces m message ident) same
        (record {
          key_pair = p;
          key = key;
          shared_secret = ss;
          transcript_bytes = tb;
          sk_reader = skr;
          sk_device = skd;
          request = r.request;
          creates = map_err-eq-ok key_error _ a2;
          keeps = (create-own E drawn (map_err-eq-ok key_error _ a2)).1;
          wraps = map_err-eq-ok tag24_error _ a3;
          identifies = ok_or-eq-ok _ ble_ident_error a4 ∙ ap some r.identifies;
          shares = or_err-eq-ok key_error _ a5;
          writes_transcript = map_err-eq-ok tag24_error _ a6;
          derives_reader = map_err-eq-ok key_error _ a7;
          derives_device = map_err-eq-ok key_error _ a8;
          builds = r.builds;
          writes = r.writes;
        })
