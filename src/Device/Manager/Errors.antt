-- ===== src/Device/Manager/Errors.antt =====
-- What becomes of a request that the device cannot read.
use isomdl.Prelude.{◌≡◌, false, [], none, some, ok, err, ◌>>=◌, arith}
use isomdl.Cbor.{Bytes}
use isomdl.Crates.{Crates}
use isomdl.Session.{Aead, SessionData, decrypt_reader_data}
use isomdl.Documents.{Status}
use isomdl.Device.Types.{SessionManager, signing}
use isomdl.Device.Signing
use isomdl.Device.Manager.{
  Wire, parse_request, validate_request, handle_decoded_request, get_next_signature_payload,
  response_ready, retrieve_response,
}

module _ {C : Crates} {S : Type 0} (w : Wire C) (aead : Aead) (m : SessionManager C S) where
  -- When the decrypted request is refused, the caller gets no requested items and no error, and
  -- the manager waits for signatures with nothing to sign: it offers no payload, is not ready and
  -- hands out no response, so that a caller that signs while there is a payload never sends the
  -- error response.
  pub refused_request_is_stuck :
      (request : SessionData) (data' plain : Bytes) (status : Status)
      → request.payload ≡ some data'
      → (decrypt_reader_data aead m.sk_reader data' m.reader_message_counter).1 ≡ some plain
      → (parse_request w plain >>= validate_request) ≡ err (Signing.empty status)
      → let m' = (handle_decoded_request w aead request m).0 in
        ((handle_decoded_request w aead request m).1 ≡ ok [])
        × (m'.state ≡ signing (Signing.empty status))
        × (get_next_signature_payload m' ≡ none)
        × (response_ready m' ≡ false)
        × (retrieve_response m' ≡ (m', none))
  unfolding handle_decoded_request get_next_signature_payload response_ready retrieve_response
      Signing.empty Signing.get_next_signature_payload
  refused_request_is_stuck request data' plain status hp hd hr = ground arith
