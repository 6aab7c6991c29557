-- ===== src/Engagement.antt =====
-- src/definitions/device_engagement.rs and the files below it: what a device offers a reader.
use isomdl.Prelude.{ℕ, ◌^◌, Option, none, some, if◌then◌else◌, ltb}
use isomdl.Prelude.Int.{ℤ, pos, negsuc}
pub mod Nfc
pub mod Wifi
pub mod Ble
pub mod Method
pub mod Envelope
pub mod RoundTrip
pub mod Qr

pub data Error : Type 0 where
  unsupported_version unsupported_drm unimplemented invalid_device_engagement : Error
  invalid_wifi_options invalid_nfc_options malformed cose_key_error tag24_error : Error
  serde_cbor_error invalid_nfc_command_data_length_error : Error
  invalid_nfc_response_data_length_error : Error

-- `u16::try_from`, `u32::try_from`, `u64::try_from` of an integer
abbrev pub unsigned : ℕ → ℤ → Option ℕ
unsigned bits (pos n) = if ltb n (2 ^ bits) then some n else none
unsigned bits (negsuc n) = none
