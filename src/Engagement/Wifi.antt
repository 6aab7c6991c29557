-- ===== src/Engagement/Wifi.antt =====
-- `WifiOptions` of src/definitions/device_engagement.rs.
use isomdl.Prelude.{ℕ, ◌^◌, ◌<◌, ◌≡◌, Option, none, some, Result, ok, err, ◌>>=◌, arith}
use isomdl.Prelude.Int.{ℤ, pos}
use isomdl.Prelude.Text.{Text}
use isomdl.Cbor.{Bytes, Value, Entries, integer, bytes, text, map, end, get_int, insert_int}
use isomdl.Engagement.{Error, invalid_wifi_options, unsigned}

-- a `ByteStr` is its bytes
pub record WifiOptions : Type 0 where
  pub pass_phrase : Option Text
  pub channel_info_operating_class : Option ℕ
  pub channel_info_channel_number : Option ℕ
  pub band_info : Option Bytes

abbrev opt_string : Option Value → Result Error (Option Text)
opt_string none = ok none
opt_string (some (text t)) = ok (some t)
opt_string (some _) = err invalid_wifi_options

abbrev as_some {ℓ} : {A : Type ℓ} → Option A → Result Error (Option A)
as_some none = err invalid_wifi_options
as_some (some n) = ok (some n)

abbrev opt_u64 : Option Value → Result Error (Option ℕ)
opt_u64 none = ok none
opt_u64 (some (integer i)) = as_some (unsigned 64 i)
opt_u64 (some _) = err invalid_wifi_options

abbrev opt_bytestr : Option Value → Result Error (Option Bytes)
opt_bytestr none = ok none
opt_bytestr (some (bytes b)) = ok (some b)
opt_bytestr (some _) = err invalid_wifi_options

abbrev options_from : Entries → Result Error WifiOptions
options_from m = do
  pass_phrase ← opt_string (get_int (pos 0) m)
  operating_class ← opt_u64 (get_int (pos 1) m)
  channel_number ← opt_u64 (get_int (pos 2) m)
  band_info ← opt_bytestr (get_int (pos 3) m)
  ok (record {
    pass_phrase = pass_phrase;
    channel_info_operating_class = operating_class;
    channel_info_channel_number = channel_number;
    band_info = band_info;
  })

unfoldable pub from_cbor : Value → Result Error WifiOptions
unfolding get_int
from_cbor (map m) = options_from m
from_cbor _ = err invalid_wifi_options

-- `if let Some(v) = o { map.insert(k, v.into()) }`
abbrev insert_some : {A : Type 0} → (A → Value) → ℤ → Option A → Entries → Entries
insert_some f k none m = m
insert_some f k (some a) m = insert_int k (f a) m

abbrev number : ℕ → Value
number n = integer (pos n)

unfoldable pub to_cbor : WifiOptions → Value
unfolding insert_int
to_cbor o =
    let m = insert_some text (pos 0) o.pass_phrase end in
    let m = insert_some number (pos 1) o.channel_info_operating_class m in
    let m = insert_some number (pos 2) o.channel_info_channel_number m in
    map (insert_some bytes (pos 3) o.band_info m)

-- the values of an optional `u64`
abbrev pub IsU64 : Option ℕ → Type 0
IsU64 none = Unit
IsU64 (some n) = n < 2 ^ 64

parts :
    (p : Option Text) (c n : Option ℕ) (b : Option Bytes)
    → IsU64 c
    → IsU64 n
    → from_cbor (
        to_cbor (record {
          pass_phrase = p;
          channel_info_operating_class = c;
          channel_info_channel_number = n;
          band_info = b;
        }))
      ≡ ok (record {
        pass_phrase = p;
        channel_info_operating_class = c;
        channel_info_channel_number = n;
        band_info = b;
      })
unfolding from_cbor to_cbor
parts p c n b hc hn = ground arith

-- Options are read back from what is written for them.
pub from_cbor-to_cbor :
    (o : WifiOptions)
    → IsU64 o.channel_info_operating_class
    → IsU64 o.channel_info_channel_number
    → from_cbor (to_cbor o) ≡ ok o
from_cbor-to_cbor o h g =
    parts o.pass_phrase o.channel_info_operating_class o.channel_info_channel_number o.band_info h g
