-- ===== src/Documents/Codes.antt =====
-- The numbers of statuses, of src/definitions/device_response.rs and src/definitions/session.rs.
use isomdl.Prelude.{ℕ, ◌≡◌, ◌≢◌, refl, ◌↔◌, Result, ok, err, ◌==◌, if◌then◌else◌, arith}
use isomdl.Prelude.Int.{ℤ, pos, negsuc}
use isomdl.Documents.{
  DocumentErrorCode, data_not_returned, application_specific, Status, okay, general_error,
  cbor_decoding_error, cbor_validation_error,
}
use isomdl.Session

pub status_to_u64 : Status → ℕ
status_to_u64 okay = 0
status_to_u64 general_error = 10
status_to_u64 cbor_decoding_error = 11
status_to_u64 cbor_validation_error = 12

-- The error is the code that its message shows.
pub status_from_u64 : ℕ → Result ℕ Status
status_from_u64 n =
    if n == 0
    then ok okay
    else if n == 10
    then ok general_error
    else if n == 11
    then ok cbor_decoding_error
    else if n == 12
    then ok cbor_validation_error
    else err n

pub error_code_to_i128 : DocumentErrorCode → ℤ
error_code_to_i128 data_not_returned = pos 0
error_code_to_i128 (application_specific i) = i

pub error_code_from_i128 : ℤ → Result ℤ DocumentErrorCode
error_code_from_i128 (pos n) = if n == 0 then ok data_not_returned else err (pos n)
error_code_from_i128 (negsuc n) = ok (application_specific (negsuc n))

-- A number is read as a response status exactly when it is the number of that status, and
-- likewise for the status of session data.
pub status_codes :
    (n : ℕ)
    → ((s : Status) → (status_from_u64 n ≡ ok s) ↔ (n ≡ status_to_u64 s))
      × ((s : Session.Status) → (Session.status_from_u64 n ≡ ok s) ↔ (n ≡ Session.status_to_u64 s))
unfolding status_from_u64 status_to_u64 Session.status_from_u64 Session.status_to_u64
status_codes n = (λ s. ground arith, λ s. ground arith)

-- A number that is read as a document error code is written back as the same number, and a code
-- is read back from its number exactly when it is `data_not_returned` or its number is negative.
pub error_codes :
    ((i : ℤ) (c : DocumentErrorCode) → error_code_from_i128 i ≡ ok c → error_code_to_i128 c ≡ i)
    × ((n : ℕ)
        → (error_code_from_i128 (error_code_to_i128 (application_specific (negsuc n)))
            ≡ ok (application_specific (negsuc n)))
          × (error_code_from_i128 (error_code_to_i128 (application_specific (pos n)))
              ≢ ok (application_specific (pos n))))
    × (error_code_from_i128 (error_code_to_i128 data_not_returned) ≡ ok data_not_returned)
unfolding error_code_from_i128 error_code_to_i128
error_codes = (λ i c h. ground arith, λ n. (refl, λ h. ground arith), refl)
