-- ===== src/Engagement/Nfc/ResponseDataLength.antt =====
-- `ResponseDataLength` of src/definitions/device_engagement/nfc_options.rs.
use isomdl.Prelude.{
  ℕ, ◌≤◌, ◌≡◌, ◌&&◌, Option, none, some, Result, ok, err, ok_or, leb, if◌then◌else◌, arith,
}
use isomdl.Prelude.Int.{ℤ, pos, negsuc}
use isomdl.Prelude.Map.{bind}
use isomdl.Cbor.{Value, integer}
use isomdl.Engagement.{Error, unsigned, invalid_nfc_options, invalid_nfc_response_data_length_error}

abbrev pub min : ℕ
min = 256

abbrev pub max : ℕ
max = 65_536

unfoldable pub new : ℕ → Option ℕ
new v = if leb min v && leb v max then some v else none

unfoldable pub try_from : ℤ → Result Error ℕ
unfolding new
try_from v = ok_or (bind (unsigned 32 v) new) invalid_nfc_response_data_length_error

unfoldable pub from_cbor : Value → Result Error ℕ
unfolding try_from
from_cbor (integer i) = try_from i
from_cbor _ = err invalid_nfc_options

abbrev pub to_cbor : ℕ → Value
to_cbor n = integer (pos n)

-- the values of the type
abbrev pub IsLength : ℕ → Type 0
IsLength n = (min ≤ n) × (n ≤ max)

-- What is read is a length of the type.
pub from_cbor-IsLength : (v : Value) {n : ℕ} → from_cbor v ≡ ok n → IsLength n
unfolding from_cbor
from_cbor-IsLength (integer (pos m)) h = ground arith
from_cbor-IsLength (integer (negsuc m)) h = ground arith
from_cbor-IsLength v h = absurd (ground arith)

-- A length is read back.
pub from_cbor-to_cbor : (n : ℕ) → IsLength n → from_cbor (to_cbor n) ≡ ok n
unfolding from_cbor
from_cbor-to_cbor n h = ground (arith, h.0, h.1)
