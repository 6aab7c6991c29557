-- ===== src/Device/Signing/Order.antt =====
-- Which document gets which signature, and what the finished response holds.
use mathlib.Core.List.{append_assoc, append-nil}
use isomdl.Prelude.{◌≡◌, refl, sym, ap, ◌∙◌, true, List, [], ◌∷◌, ◌++◌, some, pop-append, arith}
use isomdl.Cbor.{Bytes}
use isomdl.Crates.{Crates}
use isomdl.Helpers.NonEmptyVec
use isomdl.Documents.{ResponseDocument}
use isomdl.Device.Types.{PreparedDocument, PreparedDeviceResponse}
use isomdl.Device.Signing.{
  is_complete, get_next_signature_payload, finalize, submit_next_signature, finalize_response,
}

module _ {C : Crates} where
  -- The next payload is that of the last document that waits, and the signature that is submitted
  -- next completes that document, behind those completed before.
  pub submit_signs_payload :
      (p : PreparedDeviceResponse C) (rest : List (PreparedDocument C)) (doc : PreparedDocument C)
      (s : Bytes)
      → p.prepared_documents ≡ rest ++ doc ∷ []
      → (get_next_signature_payload p ≡ some (doc.id, C.signature_payload doc.prepared_cose_sign1))
        × (submit_next_signature p s ≡ record p {
          prepared_documents = rest;
          signed_documents = p.signed_documents ++ finalize doc s ∷ [];
        })
  unfolding get_next_signature_payload submit_next_signature
  submit_signs_payload p rest doc s h = (rw (h, pop-append), rw (h, pop-append))

  -- one submission for each signature, in order
  pub submit_all : PreparedDeviceResponse C → List Bytes → PreparedDeviceResponse C
  submit_all p [] = p
  submit_all p (s ∷ ss) = submit_all (submit_next_signature p s) ss

  -- the documents, last one first, each with its signature
  pub signed_in_order : List (PreparedDocument C × Bytes) → List (ResponseDocument C)
  signed_in_order [] = []
  signed_in_order ((doc, s) ∷ r) = signed_in_order r ++ finalize doc s ∷ []

  abbrev pub docs : List (PreparedDocument C × Bytes) → List (PreparedDocument C)
  docs [] = []
  docs ((doc, s) ∷ r) = doc ∷ docs r

  -- the signatures in the order in which they are asked for
  abbrev pub asked : List (PreparedDocument C × Bytes) → List Bytes
  asked [] = []
  asked ((doc, s) ∷ r) = asked r ++ s ∷ []

  submit_all-append :
      (p : PreparedDeviceResponse C) (ss ts : List Bytes)
      → submit_all p (ss ++ ts) ≡ submit_all (submit_all p ss) ts
  unfolding submit_all
  submit_all-append p [] ts = refl
  submit_all-append p (s ∷ ss) ts = submit_all-append (submit_next_signature p s) ss ts

  submit_behind :
      (p : PreparedDeviceResponse C) (front : List (PreparedDocument C))
      (ps : List (PreparedDocument C × Bytes))
      → p.prepared_documents ≡ front ++ docs ps
      → submit_all p (asked ps) ≡ record p {
        prepared_documents = front;
        signed_documents = p.signed_documents ++ signed_in_order ps;
      }
  unfolding submit_all signed_in_order
  submit_behind p front [] h = ground (arith, append-nil front, append-nil p.signed_documents)
  submit_behind p front ((doc, s) ∷ r) h =
      submit_all-append p (asked r) (s ∷ [])
      ∙ ap (λ q. submit_next_signature q s)
          (submit_behind p (front ++ doc ∷ []) r (h ∙ sym (append_assoc front (doc ∷ []) (docs r))))
      ∙ (submit_signs_payload _ front doc s refl).1
      ∙ ap (λ l. record p { prepared_documents = front; signed_documents = l })
          (append_assoc p.signed_documents (signed_in_order r) (finalize doc s ∷ []))

  -- Signatures submitted for all documents, in the order in which their payloads are offered,
  -- complete the response: it holds, behind the documents that were signed before, every waiting
  -- document with its own signature, and the document errors and status of the start.
  pub submit_all_completes :
      (p : PreparedDeviceResponse C) (ps : List (PreparedDocument C × Bytes))
      → p.prepared_documents ≡ docs ps
      → let q = submit_all p (asked ps) in
        (is_complete q ≡ true)
        × ((finalize_response q).documents
            ≡ NonEmptyVec.maybe_new (p.signed_documents ++ signed_in_order ps))
        × ((finalize_response q).document_errors ≡ p.document_errors)
        × ((finalize_response q).status ≡ p.status)
  unfolding is_complete finalize_response
  submit_all_completes p ps h = rw (submit_behind p [] ps h) (refl, refl, refl, refl)
