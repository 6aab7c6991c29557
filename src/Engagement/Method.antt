-- ===== src/Engagement/Method.antt =====
-- `DeviceRetrievalMethod` of src/definitions/device_engagement.rs: a method and its CBOR form.
use isomdl.Prelude.{ℕ, ◌≡◌, refl, Result, ok, err, ◌>>=◌, if◌then◌else◌}
use isomdl.Prelude.Int.{ℤ, pos, eq_ℤ}
use isomdl.Cbor.{Value, nil, cons, is_int, integer, array}
use isomdl.Engagement.{Error, malformed, unsupported_drm}
use isomdl.Engagement.Nfc
use isomdl.Engagement.Nfc.{NfcOptions, IsInRange}
use isomdl.Engagement.Wifi
use isomdl.Engagement.Wifi.{WifiOptions, IsU64}
use isomdl.Engagement.Ble
use isomdl.Engagement.Ble.{BleOptions, HasUuids}

pub data DeviceRetrievalMethod : Type 0 where
  wifi : WifiOptions → DeviceRetrievalMethod
  ble : BleOptions → DeviceRetrievalMethod
  nfc : NfcOptions → DeviceRetrievalMethod

abbrev pub version : DeviceRetrievalMethod → ℕ
version m = 1

unfoldable pub transport_type : DeviceRetrievalMethod → ℕ
transport_type (nfc _) = 1
transport_type (ble _) = 2
transport_type (wifi _) = 3

abbrev as_nfc : Value → Result Error DeviceRetrievalMethod
as_nfc v = do o ← Nfc.from_cbor v; ok (nfc o)

abbrev as_ble : Value → Result Error DeviceRetrievalMethod
as_ble v = do o ← Ble.from_cbor v; ok (ble o)

abbrev as_wifi : Value → Result Error DeviceRetrievalMethod
as_wifi v = do o ← Wifi.from_cbor v; ok (wifi o)

-- the arms for `Integer(1)`, `Integer(2)` and `Integer(3)` in front, with version 1
abbrev by_type : ℤ → Value → Result Error DeviceRetrievalMethod
by_type t v =
    if eq_ℤ t (pos 1)
    then as_nfc v
    else if eq_ℤ t (pos 2)
    then as_ble v
    else if eq_ℤ t (pos 3)
    then as_wifi v
    else err unsupported_drm

-- the match on the three values of the array
abbrev matched : Value → Value → Value → Result Error DeviceRetrievalMethod
matched (integer t) v o = if is_int (pos 1) v then by_type t o else err unsupported_drm
matched _ _ _ = err malformed

unfoldable pub from_cbor : Value → Result Error DeviceRetrievalMethod
from_cbor (array (cons a (cons b (cons c nil)))) = matched a b c
from_cbor _ = err malformed

abbrev options : DeviceRetrievalMethod → Value
options (nfc o) = Nfc.to_cbor o
options (ble o) = Ble.to_cbor o
options (wifi o) = Wifi.to_cbor o

unfoldable pub to_cbor : DeviceRetrievalMethod → Value
unfolding transport_type
to_cbor m = array (
    cons (integer (pos (transport_type m)))
      (cons (integer (pos (version m))) (cons (options m) nil)))

-- the values of the options' Rust types
abbrev pub IsMethod : DeviceRetrievalMethod → Type 0
IsMethod (nfc o) = IsInRange o
IsMethod (ble o) = HasUuids o.central_client_mode o.peripheral_server_mode
IsMethod (wifi o) = IsU64 o.channel_info_operating_class × IsU64 o.channel_info_channel_number

-- A method is read back from what is written for it.
pub method_from_cbor-to_cbor :
    (m : DeviceRetrievalMethod) → IsMethod m → from_cbor (to_cbor m) ≡ ok m
unfolding from_cbor to_cbor
method_from_cbor-to_cbor (nfc o) h = rw (Nfc.from_cbor-to_cbor o h) refl
method_from_cbor-to_cbor (ble o) h = rw (Ble.from_cbor-to_cbor o h) refl
method_from_cbor-to_cbor (wifi o) h = rw (Wifi.from_cbor-to_cbor o h.0 h.1) refl
