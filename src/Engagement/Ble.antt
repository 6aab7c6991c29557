-- ===== src/Engagement/Ble.antt =====
-- `BleOptions` of src/definitions/device_engagement.rs. A `Uuid` is its 16 bytes.
use isomdl.Prelude.{
  ◌≡◌, refl, true, false, Option, none, some, Result, ok, err, ◌>>=◌, length, ◌==◌, if◌then◌else◌,
  arith,
}
use isomdl.Prelude.Int.{pos}
use isomdl.Cbor.{
  Bytes, Value, Entries, bool, bytes, map, end, get_int, without_int, remove_int, insert_int,
}
use isomdl.Engagement.{Error, malformed}

pub record PeripheralServerMode : Type 0 where
  pub uuid : Bytes
  pub ble_device_address : Option Bytes

pub record CentralClientMode : Type 0 where
  pub uuid : Bytes

pub record BleOptions : Type 0 where
  pub peripheral_server_mode : Option PeripheralServerMode
  pub central_client_mode : Option CentralClientMode

-- `<[u8; 16]>::try_from`
abbrev uuid_bytes : Bytes → Result Error Bytes
uuid_bytes b = if length b == 16 then ok b else err malformed

abbrev central : Option Value → Option Value → Result Error (Option CentralClientMode)
central (some (bool true)) (some (bytes uuid)) = do
  u ← uuid_bytes uuid
  ok (some (record { uuid = u }))
central (some (bool false)) _ = ok none
central _ _ = err malformed

abbrev address : Option Value → Result Error (Option Bytes)
address none = ok none
address (some (bytes b)) = ok (some b)
address (some _) = err malformed

abbrev peripheral :
    Option Value → Option Value → Option Value → Result Error (Option PeripheralServerMode)
peripheral (some (bool true)) (some (bytes uuid)) ble_device_address = do
  u ← uuid_bytes uuid
  a ← address ble_device_address
  ok (some (record { uuid = u; ble_device_address = a }))
peripheral (some (bool false)) _ _ = ok none
peripheral _ _ _ = err malformed

abbrev options_from : Entries → Result Error BleOptions
options_from m0 =
    let (supports_central, m1) = remove_int (pos 1) m0 in
    let (central_uuid, m2) = remove_int (pos 11) m1 in
    let (supports_peripheral, m3) = remove_int (pos 0) m2 in
    let (peripheral_uuid, m4) = remove_int (pos 10) m3 in
    let ble_device_address = get_int (pos 20) m4 in
    (do
      central_client_mode ← central supports_central central_uuid
      peripheral_server_mode ← peripheral supports_peripheral peripheral_uuid ble_device_address
      ok (record {
        peripheral_server_mode = peripheral_server_mode;
        central_client_mode = central_client_mode;
      }))

unfoldable pub from_cbor : Value → Result Error BleOptions
unfolding get_int without_int
from_cbor (map m) = options_from m
from_cbor _ = err malformed

abbrev insert_central : Option CentralClientMode → Entries → Entries
insert_central (some c) m = insert_int (pos 11) (bytes c.uuid) (insert_int (pos 1) (bool true) m)
insert_central none m = insert_int (pos 1) (bool false) m

abbrev insert_address : Option Bytes → Entries → Entries
insert_address none m = m
insert_address (some a) m = insert_int (pos 20) (bytes a) m

abbrev insert_peripheral : Option PeripheralServerMode → Entries → Entries
insert_peripheral (some p) m =
    insert_address p.ble_device_address
      (insert_int (pos 10) (bytes p.uuid) (insert_int (pos 0) (bool true) m))
insert_peripheral none m = insert_int (pos 0) (bool false) m

unfoldable pub to_cbor : BleOptions → Value
unfolding insert_int
to_cbor o =
    map (insert_peripheral o.peripheral_server_mode (insert_central o.central_client_mode end))

-- the identifiers have 16 bytes
abbrev pub HasUuids : Option CentralClientMode → Option PeripheralServerMode → Type 0
HasUuids none none = Unit
HasUuids (some c) none = length c.uuid ≡ 16
HasUuids none (some p) = length p.uuid ≡ 16
HasUuids (some c) (some p) = (length c.uuid ≡ 16) × (length p.uuid ≡ 16)

parts :
    (c : Option CentralClientMode) (p : Option PeripheralServerMode)
    → HasUuids c p
    → from_cbor (to_cbor (record { peripheral_server_mode = p; central_client_mode = c }))
      ≡ ok (record { peripheral_server_mode = p; central_client_mode = c })
unfolding from_cbor to_cbor
parts none none h = refl
parts (some c) none h = ground (arith, h)
parts none (some p) h = ground (arith, h)
parts (some c) (some p) h = ground (arith, h.0, h.1)

-- Options are read back from what is written for them.
pub from_cbor-to_cbor :
    (o : BleOptions)
    → HasUuids o.central_client_mode o.peripheral_server_mode
    → from_cbor (to_cbor o) ≡ ok o
from_cbor-to_cbor o h = parts o.central_client_mode o.peripheral_server_mode h
