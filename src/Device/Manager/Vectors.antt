-- ===== src/Device/Manager/Vectors.antt =====
-- The messages that a `SessionManager` (src/presentation/device.rs) encrypts over any calls, and the
-- initialisation vectors that they are encrypted under.
use isomdl.Prelude.{
  ℕ, ◌+◌, ◌%◌, ◌^◌, ◌<◌, ◌≡◌, ◌⊎◌, refl, sym, subst, List, [], ◌∷◌, ◌++◌, map, Option-cases,
  Result-cases, ◌>>=◌, Bool-cases, inl, inr, arith,
}
use isomdl.Cbor.{Bytes}
use isomdl.Crates.{Crates}
use isomdl.Session.{
  Aead, SessionData, get_initialization_vector, encrypt_device_data, encrypt, decrypt_reader_data,
}
use isomdl.Device.Types.{State, signing, ready_to_respond, SessionManager}
use isomdl.Device.Signing
use isomdl.Device.Manager.{
  Wire, handle_request, handle_decoded_request, session_data_for, parse_request, validate_request,
  prepare_response, submit_next_signature, retrieve_response,
}
use isomdl.Device.Manager.Sealed.{
  AreApart, vector, IsSealed, AreSealed, IsSpread, IsSpread-from, IsSpread-on,
}
use isomdl.Device.Manager.Steps.{Call, request, prepare, submit, retrieve, after}

-- the message that a state holds after a signature was submitted in another
abbrev sealed : {C : Crates} → State C → State C → List Bytes
sealed (signing _) (ready_to_respond message) = message ∷ []
sealed _ _ = []

-- the calls that may encrypt
abbrev weight : {S : Type 0} → Call S → ℕ
weight (submit _) = 1
weight _ = 0

abbrev pub submissions : {S : Type 0} → List (Call S) → ℕ
submissions [] = 0
submissions (c ∷ cs) = weight c + submissions cs

module _ {C : Crates} {S : Type 0} (w : Wire C) (aead : Aead) where
  -- the messages that the calls seal, in their order, as the manager holds them for sending
  unfoldable pub messages : List (Call S) → SessionManager C S → List Bytes
  unfolding after
  messages [] m = []
  messages (submit signature ∷ cs) m =
      let m' = after w aead (submit signature) m in sealed m.state m'.state ++ messages cs m'
  messages (c ∷ cs) m = messages cs (after w aead c m)

  abbrev sent_by : Call S → SessionManager C S → List Bytes
  sent_by (submit signature) m = sealed m.state (after w aead (submit signature) m).state
  sent_by _ m = []

  messages_step :
      (c : Call S) (cs : List (Call S)) (m : SessionManager C S)
      → messages (c ∷ cs) m ≡ sent_by c m ++ messages cs (after w aead c m)
  unfolding messages
  messages_step (submit _) cs m = refl
  messages_step (request _) cs m = refl
  messages_step (prepare _ _ _) cs m = refl
  messages_step retrieve cs m = refl

  -- A call moves the counter if it encrypts, and seals at most one message.
  record IsCounted (c : Call S) (m : SessionManager C S) : Type 0 where
    same_key : (after w aead c m).sk_device ≡ m.sk_device
    counted :
        ((sent_by c m ≡ [])
          × ((after w aead c m).device_message_counter ≡ m.device_message_counter))
        ⊎ ((weight c ≡ 1)
            × ((after w aead c m).device_message_counter ≡ (m.device_message_counter + 1) % 2 ^ 32)
            × ((sent_by c m ≡ [])
                ⊎ ((b : Bytes) × (sent_by c m ≡ b ∷ [])
                    × IsSealed w aead m.sk_device (vector m.device_message_counter) b)))

  request_keeps :
      (d : SessionData) (m : SessionManager C S)
      → ((handle_decoded_request w aead d m).0.sk_device ≡ m.sk_device)
        × ((handle_decoded_request w aead d m).0.device_message_counter ≡ m.device_message_counter)
  unfolding handle_decoded_request
  request_keeps d m = elim (Option-cases d.payload) [
    | inl e ↦ (ground (arith, e), ground (arith, e))
    | inr (b, e) ↦
        elim (Option-cases (decrypt_reader_data aead m.sk_reader b m.reader_message_counter).1) [
          | inl e' ↦ (ground (arith, e, e'), ground (arith, e, e'))
          | inr (plain, e') ↦ elim (Result-cases (parse_request w plain >>= validate_request)) [
            | inl (x, e'') ↦ (ground (arith, e, e', e''), ground (arith, e, e', e''))
            | inr (x, e'') ↦ (ground (arith, e, e', e''), ground (arith, e, e', e''))
          ]
        ]
  ]

  submit_counts :
      (m : SessionManager C S) (signature : Bytes) (state : State C)
      → m.state ≡ state
      → IsCounted (submit signature) m
  unfolding after submit_next_signature encrypt_device_data encrypt get_initialization_vector
  submit_counts m signature (signing p) h =
      let q = Signing.submit_next_signature p signature in
      let response = Signing.finalize_response q in
      elim (Bool-cases (Signing.is_complete q)) [
        | inr e ↦ record {
          same_key = ground (arith, h, e);
          counted = inl (ground (arith, h, e), ground (arith, h, e));
        }
        | inl e ↦ elim (Option-cases (w.response_to_vec response)) [
          | inl e' ↦ record {
            same_key = ground (arith, h, e, e');
            counted = inl (ground (arith, h, e, e'), ground (arith, h, e, e'));
          }
          | inr (b, e') ↦
              let sent = encrypt_device_data aead m.sk_device b m.device_message_counter in
              elim (Option-cases (w.session_data_to_vec (session_data_for sent.1))) [
                | inl e'' ↦ record {
                  same_key = ground (arith, h, e, e', e'');
                  counted =
                      inr
                        (refl, ground (arith, h, e, e', e''), inl (ground (arith, h, e, e', e'')));
                }
                | inr (b', e'') ↦ record {
                  same_key = ground (arith, h, e, e', e'');
                  counted = inr (
                    refl,
                    ground (arith, h, e, e', e''),
                    inr (b', ground (arith, h, e, e', e''), (response, b, e', e'')),
                  );
                }
              ]
        ]
      ]
  submit_counts m signature _ h = record {
    same_key = ground (arith, h);
    counted = inl (ground (arith, h), ground (arith, h));
  }

  retrieved_counts :
      (m : SessionManager C S) (state : State C) → m.state ≡ state → IsCounted retrieve m
  unfolding after retrieve_response
  retrieved_counts m (ready_to_respond r) h = record {
    same_key = ground (arith, h);
    counted = inl (refl, ground (arith, h));
  }
  retrieved_counts m _ h = record {
    same_key = ground (arith, h);
    counted = inl (refl, ground (arith, h));
  }

  after-IsCounted : (c : Call S) (m : SessionManager C S) → IsCounted c m
  unfolding after handle_request prepare_response
  after-IsCounted (request message) m = elim (Option-cases (w.session_data_from_slice message)) [
    | inl e ↦ record { same_key = ground (arith, e); counted = inl (refl, ground (arith, e)) }
    | inr (d, e) ↦
        let (k, c) = request_keeps d m in
        record { same_key = ground (arith, e, k); counted = inl (refl, ground (arith, e, c)) }
  ]
  after-IsCounted (prepare enc requests permitted) m = record {
    same_key = refl;
    counted = inl (refl, refl);
  }
  after-IsCounted (submit signature) m = submit_counts m signature m.state refl
  after-IsCounted retrieve m = retrieved_counts m m.state refl

  spreads :
      (cs : List (Call S)) (m : SessionManager C S)
      → m.device_message_counter + submissions cs < 2 ^ 32
      → IsSpread w aead m.sk_device m.device_message_counter (messages cs m)
  unfolding messages
  spreads [] m h = record {
    counts = [];
    above_first = tt;
    in_range = tt;
    apart = tt;
    are_sealed = tt;
  }
  spreads (c ∷ cs) m h =
      let i = after-IsCounted c m in
      let m' = after w aead c m in
      let rest = spreads cs m' in
      let key = m.sk_device in
      let first = m.device_message_counter in
      subst (IsSpread w aead key first) (sym (messages_step c cs m)) (elim i.counted [
        | inl (e, is) ↦
            subst (λ x. IsSpread w aead key first (x ++ messages cs m')) (sym e)
              (subst (λ x. IsSpread w aead x first (messages cs m')) i.same_key
                (subst (λ x. IsSpread w aead m'.sk_device x (messages cs m')) is
                  (rest (omega (arith, is, h)))))
        | inr (one, moved, sent) ↦
            let next : m'.device_message_counter ≡ first + 1 = omega (arith, moved, one, h) in
            let later : IsSpread w aead key (first + 1) (messages cs m') =
              subst (λ x. IsSpread w aead x (first + 1) (messages cs m')) i.same_key
                (subst (λ x. IsSpread w aead m'.sk_device x (messages cs m')) next
                  (rest (omega (arith, next, one, h)))) in
            elim sent [
              | inl e ↦
                  subst (λ x. IsSpread w aead key first (x ++ messages cs m')) (sym e)
                    (IsSpread-from w aead key first (first + 1) (messages cs m') (omega arith)
                      later)
              | inr (b, e, x) ↦
                  subst (λ x. IsSpread w aead key first (x ++ messages cs m')) (sym e)
                    (IsSpread-on w aead key first b (messages cs m') (omega (arith, one, h)) x
                      later)
            ]
      ])

  -- Whatever calls a holder makes of a manager and in whatever order, as long as the counter and the
  -- submitted signatures together stay below 2^32, every message that the manager seals is a
  -- response encrypted under the key that the manager started with, or the status for an
  -- encryption that failed, and no two of the messages went to AES with the same initialisation
  -- vector.
  pub sealed_vectors_apart :
      (cs : List (Call S)) (m : SessionManager C S)
      → m.device_message_counter + submissions cs < 2 ^ 32
      → (vs : List Bytes) × AreApart vs × AreSealed w aead m.sk_device vs (messages cs m)
  sealed_vectors_apart cs m h =
      let k = spreads cs m h in (map vector k.counts, k.apart, k.are_sealed)
