-- ===== src/Engagement/Nfc.antt =====
-- `NfcOptions` of src/definitions/device_engagement/nfc_options.rs.
use isomdl.Prelude.{
  ℕ, ◌≤◌, ◌≡◌, refl, subst, Bool, true, false, Option, none, some, Result, ok, err, ◌>>=◌,
  >>=_succeeds, ok_or, arith,
}
use isomdl.Prelude.Int.{ℤ, pos, negsuc}
use isomdl.Cbor.{
  Value, Entries, null, bool, integer, float, bytes, text, array, map, tag, end, get_int,
  insert_int,
}
use isomdl.Engagement.{Error, invalid_nfc_options}
use isomdl.Engagement.Nfc.CommandDataLength
use isomdl.Engagement.Nfc.ResponseDataLength
pub mod CommandDataLength
pub mod ResponseDataLength

pub record NfcOptions : Type 0 where
  pub max_len_command_data_field : ℕ
  pub max_len_response_data_field : ℕ

abbrev options_from : Entries → Result Error NfcOptions
options_from m = do
  command ← ok_or (get_int (pos 0) m) invalid_nfc_options
  max_len_command ← CommandDataLength.from_cbor command
  response ← ok_or (get_int (pos 1) m) invalid_nfc_options
  max_len_response ← ResponseDataLength.from_cbor response
  ok (record {
    max_len_command_data_field = max_len_command;
    max_len_response_data_field = max_len_response;
  })

unfoldable pub from_cbor : Value → Result Error NfcOptions
unfolding get_int
from_cbor (map m) = options_from m
from_cbor _ = err invalid_nfc_options

unfoldable pub to_cbor : NfcOptions → Value
unfolding insert_int
to_cbor o =
    let m = insert_int (pos 0) (CommandDataLength.to_cbor o.max_len_command_data_field) end in
    map (insert_int (pos 1) (ResponseDataLength.to_cbor o.max_len_response_data_field) m)

-- both lengths are values of their types
pub record IsInRange (o : NfcOptions) : Type 0 where
  pub command : CommandDataLength.IsLength o.max_len_command_data_field
  pub response : ResponseDataLength.IsLength o.max_len_response_data_field

-- a predicate of a result, on what the result says
parts :
    (c r : ℕ) {o : NfcOptions}
    → CommandDataLength.IsLength c
    → ResponseDataLength.IsLength r
    → ◌≡◌ {A = Result Error NfcOptions}
        (ok (record { max_len_command_data_field = c; max_len_response_data_field = r }))
        (ok o)
    → IsInRange o
parts c r {o} hc hr h =
    let e : ◌≡◌ {A = NfcOptions}
        (record { max_len_command_data_field = c; max_len_response_data_field = r }) o =
      cc in
    subst IsInRange e (record { command = hc; response = hr })

-- Whatever value NFC options are read from, both lengths lie in their ranges.
pub from_cbor-IsInRange : (v : Value) {o : NfcOptions} → from_cbor v ≡ ok o → IsInRange o
unfolding from_cbor
from_cbor-IsInRange (map m) {o} h =
    let (c, at, h1) = >>=_succeeds (ok_or (get_int (pos 0) m) invalid_nfc_options) _ h in
    let (cl, read, h2) = >>=_succeeds (CommandDataLength.from_cbor c) _ h1 in
    let (r, at', h3) = >>=_succeeds (ok_or (get_int (pos 1) m) invalid_nfc_options) _ h2 in
    let (rl, read', h4) = >>=_succeeds (ResponseDataLength.from_cbor r) _ h3 in
    let c_range = CommandDataLength.from_cbor-IsLength c read in
    let r_range = ResponseDataLength.from_cbor-IsLength r read' in parts cl rl c_range r_range h4
from_cbor-IsInRange v h = absurd (ground arith)

-- Options in their ranges are read back from what is written for them.
pub from_cbor-to_cbor : (o : NfcOptions) → IsInRange o → from_cbor (to_cbor o) ≡ ok o
unfolding from_cbor to_cbor
from_cbor-to_cbor o h =
    let c = CommandDataLength.from_cbor-to_cbor o.max_len_command_data_field h.command in
    let r = ResponseDataLength.from_cbor-to_cbor o.max_len_response_data_field h.response in
    rw (c, r)
