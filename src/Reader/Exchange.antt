-- ===== src/Reader/Exchange.antt =====
-- A request of the reader (src/presentation/reader.rs) that the device (src/presentation/device.rs)
-- receives.
use isomdl.Prelude.{
  ◌≡◌, refl, sym, ap, ◌∙◌, [], ◌∷◌, none, some, ok, arith, Result-cases, Option-cases, inl, inr,
}
use isomdl.Cbor.{Bytes}
use isomdl.Crates.{Crates}
use isomdl.Session.{Aead, IsAead, SessionData}
use isomdl.Device.Types
use isomdl.Device.Manager
use isomdl.Device.Manager.{handle_request, handle_decoded_request}
use isomdl.Reader.{SessionManager, Wire, Namespaces, request_for, build_request, new_request}
use isomdl.Reader.Built.{IsRead, AreNamespaces, handle_decoded_request-build_request}

-- What went into a message that `new_request` made.
record IsSent {C : Crates} {S : Type 0} (r : Wire C) (aead : Aead) (namespaces : Namespaces)
    (m : SessionManager S) (message : Bytes) : Type 0 where
  cipher : Bytes
  builds : (build_request r aead namespaces m).1 ≡ ok cipher
  writes_message :
      r.session_data_to_vec (record { payload = some cipher; status = none }) ≡ some message
  keeps : (new_request r aead namespaces m).0 ≡ (build_request r aead namespaces m).0

new_request-IsSent :
    {C : Crates} {S : Type 0} (r : Wire C) (aead : Aead) (namespaces : Namespaces)
    (m : SessionManager S) {message : Bytes}
    → (new_request r aead namespaces m).1 ≡ ok message
    → IsSent r aead namespaces m message
unfolding new_request
new_request-IsSent r aead namespaces m {message} h =
    elim (Result-cases (build_request r aead namespaces m).1) [
      | inl (x, e) ↦ absurd (ground (arith, e))
      | inr (c, e) ↦ record {
        cipher = c;
        builds = e;
        writes_message =
            elim (Option-cases
              (r.session_data_to_vec (record { payload = some c; status = none }))) [
                | inl e' ↦ absurd (ground (arith, e, e'))
                | inr (x, e') ↦ ground (arith, e, e')
              ];
        keeps = ground (arith, e);
      }
    ]

takes :
    {C : Crates} {T : Type 0} (d : Manager.Wire C) (aead : Aead) (message : Bytes)
    (device : Types.SessionManager C T) {s : SessionData}
    → d.session_data_from_slice message ≡ some s
    → handle_request d aead message device ≡ handle_decoded_request d aead s device
unfolding handle_request
takes d aead message device h = rw (h, handle_request) refl

module _ {C : Crates} {S T : Type 0} (r : Wire C) (d : Manager.Wire C) (reads : IsRead r d)
    (aead : Aead) (law : IsAead aead) (m : SessionManager S)
    (device : Types.SessionManager C T) where
  -- If the derived conversions read back what they write and decryption undoes encryption, then a
  -- device that holds the reader's key and counter takes what `new_request` sends for namespaces
  -- that are maps with entries: the requested items are the ones that the reader asked for, and the
  -- counters agree again afterwards.
  pub handle_request-new_request :
      (namespaces : Namespaces) {message : Bytes}
      → AreNamespaces namespaces
      → device.sk_reader ≡ m.sk_reader
      → device.reader_message_counter ≡ m.reader_message_counter
      → (new_request r aead namespaces m).1 ≡ ok message
      → ((handle_request d aead message device).1 ≡ ok (request_for namespaces ∷ []))
        × ((handle_request d aead message device).0 ≡ record device {
          reader_message_counter = (new_request r aead namespaces m).0.reader_message_counter;
        })
  handle_request-new_request namespaces {message} valid key counter h =
      let sent = new_request-IsSent r aead namespaces m h in
      let taken =
        takes d aead message device (reads.reads_session_data _ message sent.writes_message)
        ∙ handle_decoded_request-build_request r d reads aead law m device namespaces valid key
            counter sent.builds in
      (
        ap (λ z. z.1) taken,
        ap (λ z. z.0) taken
            ∙ ap
                (λ (x : SessionManager S). record device {
                  reader_message_counter = x.reader_message_counter;
                })
                (sym sent.keeps),
      )
