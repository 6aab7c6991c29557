-- ===== src/Device/Manager/Loop.antt =====
-- A caller that signs every payload that the manager offers, then takes the response, as
-- tests/simulated_device_and_reader_state.rs does.
use mathlib.Core.List.{append_assoc, append-nil}
use isomdl.Prelude.{
  ℕ, zero, suc, ◌≡◌, refl, sym, ap, subst, ◌∙◌, ◌<◌, ◌≤◌, ◌⊎◌, false, List, [], ◌∷◌, ◌++◌, none,
  some, Result, ok, err, arith, inl, inr, length, length-append,
}
use isomdl.Cbor.{Bytes}
use isomdl.Crates.{Crates}
use isomdl.Session.{get_initialization_vector, Aead, encrypt_device_data}
use isomdl.Documents.{ResponseDocument}
use isomdl.Device.Types.{
  SessionManager, PreparedDocument, PreparedDeviceResponse, awaiting_request, signing,
  ready_to_respond,
}
use isomdl.Device.Signing
use isomdl.Device.Signing.Order.{submit_signs_payload}
use isomdl.Device.Manager.{
  Wire, Error, get_next_signature_payload, submit_next_signature, retrieve_response, submitted,
}

-- a turn goes on unless its submission failed
abbrev continue_with :
    {M : Type 0}
    → (M → M × Result Error (Unit {0}))
    → M × Result Error (Unit {0})
    → M × Result Error (Unit {0})
continue_with k (m, ok _) = k m
continue_with k (m, err e) = (m, err e)

unsnoc {ℓ} :
    {A : Type ℓ} (xs : List A) → (xs ≡ []) ⊎ ((rest : List A) × (x : A) × (xs ≡ rest ++ x ∷ []))
unsnoc [] = inl refl
unsnoc (x ∷ xs) = inr (elim (unsnoc xs) [
  | inl e ↦ ([], x, ap (λ l. x ∷ l) e)
  | inr (rest, y, e) ↦ (x ∷ rest, y, ap (λ l. x ∷ l) e)
])

module _ {C : Crates} (sign : Bytes → Bytes) where
  -- every document with the signature of its payload, the last one first
  pub signed_all : List (PreparedDocument C) → List (ResponseDocument C)
  signed_all [] = []
  signed_all (doc ∷ rest) =
      signed_all rest
      ++ Signing.finalize doc (sign (C.signature_payload doc.prepared_cose_sign1)) ∷ []

  abbrev pub all_signed : PreparedDeviceResponse C → PreparedDeviceResponse C
  all_signed p = record p {
    prepared_documents = [];
    signed_documents = p.signed_documents ++ signed_all p.prepared_documents;
  }

  signed_all-append :
      (rest : List (PreparedDocument C)) (doc : PreparedDocument C)
      → signed_all (rest ++ doc ∷ [])
        ≡ Signing.finalize doc (sign (C.signature_payload doc.prepared_cose_sign1))
          ∷ signed_all rest
  unfolding signed_all
  signed_all-append [] doc = refl
  signed_all-append (d ∷ rest) doc = rw (signed_all-append rest doc)

  -- what the turn leaves comes to the same response
  same_response :
      (p : PreparedDeviceResponse C) (rest : List (PreparedDocument C)) (doc : PreparedDocument C)
      → p.prepared_documents ≡ rest ++ doc ∷ []
      → all_signed (record p {
        prepared_documents = rest;
        signed_documents = p.signed_documents ++ signed_all (doc ∷ []);
      })
        ≡ all_signed p
  unfolding signed_all
  same_response p rest doc h =
      let step : (p.signed_documents ++ signed_all (doc ∷ [])) ++ signed_all rest
          ≡ p.signed_documents ++ signed_all p.prepared_documents =
        append_assoc p.signed_documents (signed_all (doc ∷ [])) (signed_all rest)
        ∙ ap (λ l. p.signed_documents ++ l)
            (sym (signed_all-append rest doc) ∙ ap (signed_all) (sym h)) in
      ap (λ l. record p { prepared_documents = []; signed_documents = l }) step

  nothing_left : (p : PreparedDeviceResponse C) → p.prepared_documents ≡ [] → all_signed p ≡ p
  unfolding signed_all
  nothing_left p h = ground (arith, append-nil p.signed_documents)

module _ {C : Crates} {S : Type 0} (w : Wire C) (aead : Aead) (sign : Bytes → Bytes) where
  -- the loop, with fuel for its turns
  pub sign_pending : ℕ → SessionManager C S → SessionManager C S × Result Error (Unit {0})
  sign_pending zero m = (m, ok tt)
  sign_pending (suc fuel) m = elim (get_next_signature_payload m) [
    | none ↦ (m, ok tt)
    | some (id, payload) ↦
        continue_with (sign_pending fuel) (submit_next_signature w aead (sign payload) m)
  ]

  ready_done :
      (fuel : ℕ) (m : SessionManager C S) (out : Bytes)
      → m.state ≡ ready_to_respond out
      → sign_pending fuel m ≡ (m, ok tt)
  unfolding sign_pending get_next_signature_payload
  ready_done zero m out h = refl
  ready_done (suc fuel) m out h = ground arith

  -- the response can be encoded, encrypted and encoded again
  pub record Sends (m : SessionManager C S) (p : PreparedDeviceResponse C) (out : Bytes)
      : Type 0 where
    pub response_bytes : Bytes
    pub cipher : Bytes
    pub encodes : w.response_to_vec (Signing.finalize_response p) ≡ some response_bytes
    pub encrypts :
        (encrypt_device_data aead m.sk_device response_bytes m.device_message_counter).1
        ≡ some cipher
    pub sends : w.session_data_to_vec (record { payload = some cipher; status = none }) ≡ some out

  abbrev pub after : SessionManager C S → PreparedDeviceResponse C → Bytes → SessionManager C S
  after m p out = record m {
    device_message_counter = (get_initialization_vector m.device_message_counter false).0;
    state = ready_to_respond out;
  }

  last_turn :
      (m : SessionManager C S) (p : PreparedDeviceResponse C) (out : Bytes)
      → p.prepared_documents ≡ []
      → Sends m p out
      → submitted w aead p (record m { state = awaiting_request }) ≡ (after m p out, ok tt)
  unfolding submitted Signing.is_complete encrypt_device_data
  last_turn m p out h s = ground (arith, s.encodes, s.encrypts, s.sends)

  -- one turn on a manager that waits for the signature of `doc`
  turn :
      (fuel : ℕ) (m : SessionManager C S) (p : PreparedDeviceResponse C)
      (rest : List (PreparedDocument C)) (doc : PreparedDocument C)
      → m.state ≡ signing p
      → p.prepared_documents ≡ rest ++ doc ∷ []
      → sign_pending (suc fuel) m
        ≡ continue_with (sign_pending fuel) (
            submitted w aead
              (record p {
                prepared_documents = rest;
                signed_documents = p.signed_documents ++ signed_all sign (doc ∷ []);
              })
              (record m { state = awaiting_request }))
  unfolding sign_pending get_next_signature_payload submit_next_signature signed_all
  turn fuel m p rest doc at h =
      let facts =
        submit_signs_payload p rest doc (sign (C.signature_payload doc.prepared_cose_sign1)) h in
      ground (arith, facts.0, facts.1)

  not_last :
      (m : SessionManager C S) (p : PreparedDeviceResponse C) (r : List (PreparedDocument C))
      (d : PreparedDocument C)
      → p.prepared_documents ≡ r ++ d ∷ []
      → submitted w aead p m ≡ (record m { state = signing p }, ok tt)
  unfolding submitted Signing.is_complete
  not_last m p [] d h = ground arith
  not_last m p (x ∷ r) d h = ground arith

  finished :
      (fuel : ℕ) (m : SessionManager C S) (p : PreparedDeviceResponse C) (out : Bytes)
      → p.prepared_documents ≡ []
      → Sends m (all_signed sign p) out
      → continue_with
          (sign_pending fuel)
          (submitted w aead p (record m { state = awaiting_request }))
        ≡ (after m p out, ok tt)
  finished fuel m p out h s =
      ap (continue_with (sign_pending fuel))
        (last_turn m p out h (subst (λ q. Sends m q out) (nothing_left sign p h) s))
      ∙ ready_done fuel (after m p out) out refl

  resend :
      (m : SessionManager C S) (p : PreparedDeviceResponse C) (out : Bytes)
      → Sends m (all_signed sign p) out
      → Sends (record m { state = signing p }) (all_signed sign p) out
  resend m p out s = record {
    response_bytes = s.response_bytes;
    cipher = s.cipher;
    encodes = s.encodes;
    encrypts = s.encrypts;
    sends = s.sends;
  }

  loop :
      (fuel : ℕ) (m : SessionManager C S) (p : PreparedDeviceResponse C)
      (rest : List (PreparedDocument C)) (doc : PreparedDocument C) (out : Bytes)
      → length rest < fuel
      → m.state ≡ signing p
      → p.prepared_documents ≡ rest ++ doc ∷ []
      → Sends m (all_signed sign p) out
      → sign_pending fuel m ≡ (after m p out, ok tt)
  loop zero m p rest doc out enough at h s = absurd (omega arith)
  loop (suc fuel) m p rest doc out enough at h s =
      let p' : PreparedDeviceResponse C = record p {
        prepared_documents = rest;
        signed_documents = p.signed_documents ++ signed_all sign (doc ∷ []);
      } in
      let s' : Sends m (all_signed sign p') out =
        subst (λ q. Sends m q out) (sym (same_response sign p rest doc h)) s in
      turn fuel m p rest doc at h ∙ elim (unsnoc rest) [
        | inl e ↦ finished fuel m p' out e s'
        | inr (r, d, e) ↦
            ap (continue_with (sign_pending fuel))
              (not_last (record m { state = awaiting_request }) p' r d e)
            ∙ loop fuel (record m { state = signing p' }) p' r d out
                (omega (arith, ap length e, length-append r (d ∷ []))) refl e (resend m p' out s')
      ]

  -- With at least one document to sign and enough turns for all of them, the loop ends without an
  -- error and the response is there to be taken: it is the encoded ciphertext of the response in
  -- which every document stands with the signature of its own payload, under the next
  -- initialisation vector of the device, provided that encoding and encryption succeed. Taking it
  -- puts the manager back to awaiting a request.
  pub sign_pending_responds :
      (fuel : ℕ) (m : SessionManager C S) (p : PreparedDeviceResponse C) (out : Bytes)
      → m.state ≡ signing p
      → 0 < length p.prepared_documents
      → length p.prepared_documents ≤ fuel
      → Sends m (all_signed sign p) out
      → ((sign_pending fuel m).1 ≡ ok tt)
        × (retrieve_response (sign_pending fuel m).0 ≡ (
          record m {
            device_message_counter = (get_initialization_vector m.device_message_counter false).0;
            state = awaiting_request;
          },
          some out,
        ))
  unfolding retrieve_response
  sign_pending_responds fuel m p out at some_left enough s = elim (unsnoc p.prepared_documents) [
    | inl e ↦ absurd (omega (arith, ap length e))
    | inr (rest, doc, e) ↦
        let done : sign_pending fuel m ≡ (after m p out, ok tt) =
          loop fuel m p rest doc out (omega (arith, ap length e, length-append rest (doc ∷ []))) at
            e s in
        (rw done, rw done)
  ]
