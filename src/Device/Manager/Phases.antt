-- ===== src/Device/Manager/Phases.antt =====
-- The protocol that the calls of a holder follow, apart from what is in the messages: the phases of
-- the `SessionManager` of src/presentation/device.rs, with the documents left to sign.
use isomdl.Prelude.{
  ℕ, suc, ◌-◌, ◌<◌, ◌≤◌, ◌==◌, ◌≡◌, subst, sym, refl, List, [], ◌∷◌, Bool, true, false, length, pop,
  Option, none, some, Option-cases, Result-cases, ◌>>=◌, err, Bool-cases, inl, inr, arith,
}
use isomdl.Cbor.{Bytes}
use isomdl.Crates.{Crates}
use isomdl.Session.{Aead, SessionData, encrypt_device_data, decrypt_reader_data}
use isomdl.Device.Types.{
  PreparedDeviceResponse, State, awaiting_request, signing, ready_to_respond, SessionManager,
}
use isomdl.Device.Signing
use isomdl.Device.Manager.{
  Wire, handle_request, handle_decoded_request, session_data_for, parse_request, validate_request,
  prepare_response, submit_next_signature, retrieve_response,
}
use isomdl.Device.Manager.Steps.{Call, request, prepare, submit, retrieve, after}

-- what the holder's application can tell of the manager
pub data Phase : Type 0 where
  idle : Phase
  collecting : ℕ → Phase
  sealed : Phase

-- what happened at a call; `handed_out` says whether bytes came back
pub data Event : Type 0 where
  requested planned signed : Event
  handed_out : Bool → Event

abbrev pub is_collecting : Phase → Bool
is_collecting (collecting _) = true
is_collecting _ = false

abbrev pub is_sealed : Phase → Bool
is_sealed sealed = true
is_sealed _ = false

-- The protocol. A request is answered later, or becomes an error response without documents; a
-- signature counts down, and with the last document the response is sealed or, if it cannot be
-- encoded, given up; a sealed response is handed out once.
pub data Step : Event → Phase → Phase → Type 0 where
  accept : (p : Phase) → Step requested p p
  reject : (p : Phase) → Step requested p (collecting 0)
  plan : (p : Phase) (documents : ℕ) → Step planned p (collecting documents)
  count_down : (left : ℕ) → 1 < left → Step signed (collecting left) (collecting (left - 1))
  seal_last : (left : ℕ) → left ≤ 1 → Step signed (collecting left) sealed
  give_up : (left : ℕ) → left ≤ 1 → Step signed (collecting left) idle
  not_asked : (p : Phase) → is_collecting p ≡ false → Step signed p p
  hand_out : Step (handed_out true) sealed idle
  nothing_yet : (p : Phase) → is_sealed p ≡ false → Step (handed_out false) p p

moved : {e : Event} {p q r : Phase} → Step e p q → r ≡ q → Step e p r
moved {e} {p} st h = subst (λ x. Step e p x) (sym h) st

labelled : {d e : Event} {p q : Phase} → Step e p q → d ≡ e → Step d p q
labelled {p = p} {q = q} st h = subst (λ x. Step x p q) (sym h) st

-- any number of events, in their order
pub data Trace : List Event → Phase → Phase → Type 0 where
  rest : (p : Phase) → Trace [] p p
  then_on :
      {e : Event} {es : List Event} {p q r : Phase} → Step e p q → Trace es q r → Trace (e ∷ es) p r

abbrev pub phase_of : {C : Crates} → State C → Phase
phase_of awaiting_request = idle
phase_of (signing p) = collecting (length p.prepared_documents)
phase_of (ready_to_respond _) = sealed

abbrev is_some {ℓ} : {A : Type ℓ} → Option A → Bool
is_some none = false
is_some (some _) = true

length-pop-none {ℓ} : {A : Type ℓ} (xs : List A) → pop xs ≡ none → length xs ≡ 0
length-pop-none [] h = refl
length-pop-none (x ∷ xs) h = elim (Option-cases (pop xs)) [
  | inl e ↦ ground (arith, h, e)
  | inr (ys, e) ↦ ground (arith, h, e)
]

length-pop {ℓ} :
    {A : Type ℓ} (xs : List A) {ys : A × List A} → pop xs ≡ some ys → length xs ≡ suc (length ys.1)
length-pop [] h = cc
length-pop (x ∷ xs) h = elim (Option-cases (pop xs)) [
  | inl e ↦ ground (arith, h, e, length-pop-none xs e)
  | inr (ys, e) ↦ ground (arith, h, e, length-pop xs e)
]

module _ {C : Crates} where
  left-submit :
      (p : PreparedDeviceResponse C) (signature : Bytes)
      → length (Signing.submit_next_signature p signature).prepared_documents
        ≡ length p.prepared_documents - 1
  unfolding Signing.submit_next_signature
  left-submit p signature = elim (Option-cases (pop p.prepared_documents)) [
    | inl e ↦ ground (arith, e, length-pop-none p.prepared_documents e)
    | inr (ys, e) ↦ ground (arith, e, length-pop p.prepared_documents e)
  ]

  is_complete-left :
      (p : PreparedDeviceResponse C) → Signing.is_complete p ≡ (length p.prepared_documents == 0)
  unfolding Signing.is_complete
  is_complete-left p = ground arith

  -- an error response has no document to sign
  refused-documents :
      (w : Wire C) (plain : Bytes) {p : PreparedDeviceResponse C}
      → (parse_request w plain >>= validate_request) ≡ err p
      → length p.prepared_documents ≡ 0
  unfolding parse_request validate_request Signing.empty
  refused-documents w plain h = ground arith

module _ {C : Crates} {S : Type 0} (w : Wire C) (aead : Aead) where
  unfoldable pub event : Call S → SessionManager C S → Event
  event (request message) m = requested
  event (prepare enc requests permitted) m = planned
  event (submit signature) m = signed
  event retrieve m = handed_out (is_some (retrieve_response m).1)

  submit_steps :
      (m : SessionManager C S) (signature : Bytes) (state : State C)
      → m.state ≡ state
      → Step signed (phase_of state) (phase_of (after w aead (submit signature) m).state)
  unfolding after submit_next_signature
  submit_steps m signature (signing p) h =
      let q = Signing.submit_next_signature p signature in
      elim (Bool-cases (Signing.is_complete q)) [
        | inr e ↦
            let more : 1 < length p.prepared_documents =
              ground (arith, e, is_complete-left q, left-submit p signature) in
            moved (count_down (length p.prepared_documents) more)
              (ground (arith, h, e, left-submit p signature))
        | inl e ↦
            let last : length p.prepared_documents ≤ 1 =
              ground (arith, e, is_complete-left q, left-submit p signature) in
            elim (Option-cases (w.response_to_vec (Signing.finalize_response q))) [
              | inl e' ↦
                  moved (give_up (length p.prepared_documents) last) (ground (arith, h, e, e'))
              | inr (b, e') ↦
                  let sent = encrypt_device_data aead m.sk_device b m.device_message_counter in
                  elim (Option-cases (w.session_data_to_vec (session_data_for sent.1))) [
                    | inl e'' ↦
                        moved (give_up (length p.prepared_documents) last)
                          (ground (arith, h, e, e', e''))
                    | inr (b', e'') ↦
                        moved (seal_last (length p.prepared_documents) last)
                          (ground (arith, h, e, e', e''))
                  ]
            ]
      ]
  submit_steps m signature awaiting_request h = moved (not_asked idle refl) (ground (arith, h))
  submit_steps m signature (ready_to_respond r) h =
      moved (not_asked sealed refl) (ground (arith, h))

  decoded_steps :
      (d : SessionData) (m : SessionManager C S)
      → Step requested (phase_of m.state) (phase_of (handle_decoded_request w aead d m).0.state)
  unfolding handle_decoded_request Signing.empty
  decoded_steps d m = elim (Option-cases d.payload) [
    | inl e ↦ moved (accept _) (ground (arith, e))
    | inr (b, e) ↦
        elim (Option-cases (decrypt_reader_data aead m.sk_reader b m.reader_message_counter).1) [
          | inl e' ↦ moved (accept _) (ground (arith, e, e'))
          | inr (plain, e') ↦ elim (Result-cases (parse_request w plain >>= validate_request)) [
            | inl (x, e'') ↦
                let bare = refused-documents w plain e'' in
                moved (reject _) (ground (arith, e, e', e'', bare))
            | inr (x, e'') ↦ moved (accept _) (ground (arith, e, e', e''))
          ]
        ]
  ]

  retrieve_steps :
      (m : SessionManager C S) (state : State C)
      → m.state ≡ state
      → Step (event retrieve m) (phase_of state) (phase_of (after w aead retrieve m).state)
  unfolding after event retrieve_response
  retrieve_steps m (ready_to_respond r) h =
      moved (labelled hand_out (ground (arith, h))) (ground (arith, h))
  retrieve_steps m awaiting_request h =
      moved (labelled (nothing_yet idle refl) (ground (arith, h))) (ground (arith, h))
  retrieve_steps m (signing p) h =
      moved
        (labelled (nothing_yet (collecting (length p.prepared_documents)) refl) (ground (arith, h)))
        (ground (arith, h))

  after_steps :
      (c : Call S) (m : SessionManager C S)
      → Step (event c m) (phase_of m.state) (phase_of (after w aead c m).state)
  unfolding after event handle_request prepare_response
  after_steps (request message) m = elim (Option-cases (w.session_data_from_slice message)) [
    | inl e ↦ moved (accept _) (ground (arith, e))
    | inr (d, e) ↦ moved (decoded_steps d m) (ground (arith, e))
  ]
  after_steps (prepare enc requests permitted) m = plan _ _
  after_steps (submit signature) m = submit_steps m signature m.state refl
  after_steps retrieve m = retrieve_steps m m.state refl

  unfoldable pub run : List (Call S) → SessionManager C S → SessionManager C S
  unfolding after
  run [] m = m
  run (c ∷ cs) m = run cs (after w aead c m)

  unfoldable pub events : List (Call S) → SessionManager C S → List Event
  unfolding after event
  events [] m = []
  events (c ∷ cs) m = event c m ∷ events cs (after w aead c m)

  -- Whatever calls are made in whatever order, and whatever is in the messages, the phases and what
  -- is handed out follow the protocol.
  pub run_refines :
      (cs : List (Call S)) (m : SessionManager C S)
      → Trace (events cs m) (phase_of m.state) (phase_of (run cs m).state)
  unfolding run events
  run_refines [] m = rest _
  run_refines (c ∷ cs) m = then_on (after_steps c m) (run_refines cs (after w aead c m))
