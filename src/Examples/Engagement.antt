-- ===== src/Examples/Engagement.antt =====
-- A device engagement at concrete values.
use isomdl.Prelude.{
  ℕ, ◌≡◌, ◌≢◌, ◌↔◌, refl, List, [], ◌∷◌, All, Option, none, some, Result, ok, err, arith,
  if◌then◌else◌,
}
use isomdl.Prelude.Int.{pos}
use isomdl.Prelude.Text.{codes, text_eq}
use isomdl.Cbor.{Bytes, Value, Items, integer, text, array, map, nil, cons, end, entry, get_int}
use isomdl.CoseKey.{CoseKey, ec2, p256, value}
use isomdl.Helpers.NonEmptyVec.{NonEmptyVec}
use isomdl.Helpers.Tag24
use isomdl.Helpers.Tag24.{Tag24, Codec}
use isomdl.Engagement.{Error}
use isomdl.Engagement.Nfc
use isomdl.Engagement.Nfc.{NfcOptions, IsInRange, from_cbor-IsInRange}
use isomdl.Engagement.Nfc.CommandDataLength
use isomdl.Engagement.Nfc.ResponseDataLength
use isomdl.Engagement.Method
use isomdl.Engagement.Method.{DeviceRetrievalMethod, wifi, IsMethod, method_from_cbor-to_cbor}
use isomdl.Engagement.Envelope
use isomdl.Engagement.Envelope.{
  Security, Server, ServerRetrievalMethods, DeviceEngagement, Serde, servers, methods,
  security_value,
}
use isomdl.Engagement.RoundTrip.{IsSerde, IsEngagement, IsReadBack, engagement_read_back}
use isomdl.Examples.Values.{values, values-Reads, written}
use isomdl.Engagement.Qr.{Base64, to_qr_code_uri, from_qr_code_uri, from_qr_code_uri-to_qr_code_uri}

abbrev nfc_value : Value
nfc_value =
    map (
      entry (integer (pos 0)) (integer (pos 300)) (entry (integer (pos 1)) (integer (pos 400)) end))

abbrev lengths : NfcOptions
lengths = record { max_len_command_data_field = 300; max_len_response_data_field = 400 }

from_cbor-IsInRange_example : IsInRange lengths
unfolding Nfc.from_cbor CommandDataLength.from_cbor ResponseDataLength.from_cbor
    CommandDataLength.try_from ResponseDataLength.try_from CommandDataLength.new
    ResponseDataLength.new get_int
from_cbor-IsInRange_example = from_cbor-IsInRange nfc_value {o = lengths} refl

abbrev pub network : DeviceRetrievalMethod
network = wifi (record {
  pass_phrase = some (codes "open");
  channel_info_operating_class = some 81;
  channel_info_channel_number = none;
  band_info = some (1 ∷ []);
})

method_from_cbor-to_cbor_example : Method.from_cbor (Method.to_cbor network) ≡ ok network
method_from_cbor-to_cbor_example = method_from_cbor-to_cbor network (omega arith, tt)

-- A P-256 key with coordinates of one byte is written as nothing beside its bytes.
abbrev key_codec : Codec CoseKey
key_codec = record {
  to_vec = λ _. some [];
  from_slice = λ _. some (ec2 p256 (3 ∷ []) (value (0 ∷ [])));
}

abbrev device_key : Tag24 CoseKey
device_key = record { inner = ec2 p256 (3 ∷ []) (value (0 ∷ [])); inner_bytes = [] }

abbrev security_of : ℕ → Result Tag24.Error (Tag24 CoseKey) → Option Security
security_of n (ok k) = some (record { cipher_suite = n; key = k })
security_of n (err _) = none

abbrev read_security : Codec CoseKey → Value → Option Security
read_security keys (array (cons (integer (pos n)) (cons v nil))) =
    security_of n (Tag24.from_cbor keys v)
read_security keys _ = none

abbrev add_method :
    Result Error DeviceRetrievalMethod
    → Option (List DeviceRetrievalMethod)
    → Option (List DeviceRetrievalMethod)
add_method (ok m) (some ms) = some (m ∷ ms)
add_method _ _ = none

unfoldable pub read_each : Items → Option (List DeviceRetrievalMethod)
read_each nil = some []
read_each (cons v vs) = add_method (Method.from_cbor v) (read_each vs)

abbrev as_methods : List DeviceRetrievalMethod → Option (NonEmptyVec DeviceRetrievalMethod)
as_methods [] = none
as_methods (m ∷ ms) = some (record { items = m ∷ ms })

abbrev read_methods :
    Option (List DeviceRetrievalMethod) → Option (NonEmptyVec DeviceRetrievalMethod)
read_methods none = none
read_methods (some ms) = as_methods ms

abbrev methods_in : Value → Option (NonEmptyVec DeviceRetrievalMethod)
methods_in (array vs) = read_methods (read_each vs)
methods_in _ = none

abbrev read_server : Value → Option Server
read_server (array (cons (integer (pos n)) (cons (text u) (cons (text t) nil)))) =
    some (record { version = n; url = u; token = t })
read_server _ = none

abbrev read_servers : Value → Option ServerRetrievalMethods
read_servers (map end) = some (record { web_api = none; oidc = none })
read_servers (map (entry (text k) v end)) =
    if text_eq k (codes "oidc")
    then some (record { web_api = none; oidc = read_server v })
    else some (record { web_api = read_server v; oidc = none })
read_servers (map (entry (text _) v (entry (text _) w end))) =
    some (record { web_api = read_server v; oidc = read_server w })
read_servers _ = none

abbrev pub serde : Codec CoseKey → Serde
serde keys = record { security = read_security keys; methods = methods_in; servers = read_servers }

reads_each :
    (ms : List DeviceRetrievalMethod) → All IsReadBack ms → read_each (methods ms) ≡ some ms
unfolding read_each methods
reads_each [] h = refl
reads_each (m ∷ ms) (h, hs) = rw (h, reads_each ms hs) refl

reads_methods :
    (ms : List DeviceRetrievalMethod)
    → ms ≢ []
    → All IsReadBack ms
    → methods_in (array (methods ms)) ≡ some (record { items = ms })
reads_methods [] n h = absurd (n refl)
reads_methods (m ∷ ms) n h = rw (reads_each (m ∷ ms) h) refl

reads_servers :
    (w o : Option Server)
    → read_servers (servers (record { web_api = w; oidc = o }))
      ≡ some (record { web_api = w; oidc = o })
unfolding servers text_eq
reads_servers none none = refl
reads_servers none (some _) = refl
reads_servers (some _) none = refl
reads_servers (some _) (some _) = refl

pub serde-IsSerde : (keys : Codec CoseKey) → IsSerde keys (serde keys)
serde-IsSerde keys = record {
  security = λ s h k. rw k refl;
  methods = λ v n h. reads_methods v.items n h;
  servers = λ m h k. reads_servers m.web_api m.oidc;
}

-- a device that is reached by Wi-Fi
abbrev engagement : DeviceEngagement
engagement = record {
  version = codes "1.0";
  security = record { cipher_suite = 1; key = device_key };
  device_retrieval_methods = some (record { items = network ∷ [] });
  server_retrieval_methods = none;
  protocol_info = none;
}

engagement-IsEngagement : IsEngagement key_codec engagement
unfolding Tag24.from_cbor Tag24.to_cbor Tag24.from_bytes
engagement-IsEngagement = record {
  cipher_suite = omega arith;
  key = refl;
  methods = ((λ e. cc), ((omega arith, tt), tt));
  servers = tt;
}

engagement_read_back_example :
    (Envelope.from_cbor (serde key_codec) (Envelope.to_cbor engagement) ≡ ok engagement)
    ↔ ((engagement.version ≡ codes "1.0") × (engagement.protocol_info ≡ none))
engagement_read_back_example =
    engagement_read_back key_codec (serde key_codec) (serde-IsSerde key_codec) engagement
      engagement-IsEngagement

-- a text of the bytes themselves
abbrev pub base64 : Base64
base64 = record { encode = λ b. b; decode = λ t. some t }

-- the numbers of the engagement's value
abbrev bytes_of : DeviceEngagement → Bytes
bytes_of d = written (Envelope.to_cbor d)

from_qr_code_uri-to_qr_code_uri_example :
    (from_qr_code_uri base64
        (Envelope.codec (serde key_codec) values)
        (to_qr_code_uri base64 (record { inner = engagement; inner_bytes = bytes_of engagement }))
      ≡ ok (record { inner = engagement; inner_bytes = bytes_of engagement }))
    ↔ ((engagement.version ≡ codes "1.0") × (engagement.protocol_info ≡ none))
unfolding Tag24.new values
from_qr_code_uri-to_qr_code_uri_example =
    from_qr_code_uri-to_qr_code_uri base64 (λ b. refl) key_codec (serde key_codec)
      (serde-IsSerde key_codec) values engagement engagement-IsEngagement (values-Reads _)
      {t = record { inner = engagement; inner_bytes = bytes_of engagement }} refl
