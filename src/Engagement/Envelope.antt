-- ===== src/Engagement/Envelope.antt =====
-- `DeviceEngagement` of src/definitions/device_engagement.rs and its CBOR form. The derived
-- `Deserialize` of its parts, reached by `serde_cbor::value::from_value`, is a parameter.
use isomdl.Prelude.{
  ℕ, List, [], ◌∷◌, Option, none, some, Result, ok, err, to_option, ◌>>=◌, ok_or, if◌then◌else◌,
}
use isomdl.Prelude.Int.{pos}
use isomdl.Prelude.Text.{Text, text_eq, codes}
use isomdl.Cbor.{
  Value, Items, Entries, nil, cons, integer, text, array, map, end, entry, get_int, without_int,
  remove_int, insert_int,
}
use isomdl.CoseKey.{CoseKey}
use isomdl.Helpers.NonEmptyVec.{NonEmptyVec}
use isomdl.Helpers.Tag24
use isomdl.Helpers.Tag24.{Tag24, Codec, through_value}
use isomdl.Engagement.{Error, malformed, unsupported_version, invalid_device_engagement}
use isomdl.Engagement.Method
use isomdl.Engagement.Method.{DeviceRetrievalMethod}

-- `Security`: the identifier of the cipher suite and the device's ephemeral key
pub record Security : Type 0 where
  pub cipher_suite : ℕ
  pub key : Tag24 CoseKey

-- `WebApi` and `Oidc`, of which both are (u64, String, String)
pub record Server : Type 0 where
  pub version : ℕ
  pub url : Text
  pub token : Text

pub record ServerRetrievalMethods : Type 0 where
  pub web_api : Option Server
  pub oidc : Option Server

pub record DeviceEngagement : Type 0 where
  pub version : Text
  pub security : Security
  pub device_retrieval_methods : Option (NonEmptyVec DeviceRetrievalMethod)
  pub server_retrieval_methods : Option ServerRetrievalMethods
  pub protocol_info : Option Value

abbrev server : Server → Value
server s = array (cons (integer (pos s.version)) (cons (text s.url) (cons (text s.token) nil)))

-- in front of the entries inserted after it
abbrev insert_server : Text → Option Server → Entries → Entries
insert_server k none m = m
insert_server k (some s) m = entry (text k) (server s) m

-- `From<ServerRetrievalMethods> for CborValue`
unfoldable pub servers : ServerRetrievalMethods → Value
servers m = map (insert_server (codes "webApi") m.web_api (insert_server (codes "oidc") m.oidc end))

unfoldable pub methods : List DeviceRetrievalMethod → Items
methods [] = nil
methods (m ∷ ms) = cons (Method.to_cbor m) (methods ms)

abbrev pub security_value : Security → Value
security_value s = array (cons (integer (pos s.cipher_suite)) (cons (Tag24.to_cbor s.key) nil))

abbrev insert_methods : Option (NonEmptyVec DeviceRetrievalMethod) → Entries → Entries
insert_methods none m = m
insert_methods (some v) m = insert_int (pos 2) (array (methods v.items)) m

abbrev insert_servers : Option ServerRetrievalMethods → Entries → Entries
insert_servers none m = m
insert_servers (some s) m = insert_int (pos 3) (servers s) m

-- `From<DeviceEngagement> for CborValue`
unfoldable pub to_cbor : DeviceEngagement → Value
unfolding insert_int
to_cbor d =
    let m = insert_int (pos 0) (text d.version) end in
    let m = insert_int (pos 1) (security_value d.security) m in
    let m = insert_methods d.device_retrieval_methods m in
    map (insert_servers d.server_retrieval_methods m)

-- `from_value` at the three types that derive `Deserialize`, `none` an error
pub record Serde : Type 0 where
  pub security : Value → Option Security
  pub methods : Value → Option (NonEmptyVec DeviceRetrievalMethod)
  pub servers : Value → Option ServerRetrievalMethods

-- `.map(from_value).transpose()`
abbrev transposed : {A : Type 0} → (Value → Option A) → Option Value → Result Error (Option A)
transposed f none = ok none
transposed f (some v) = do a ← ok_or (f v) malformed; ok (some a)

abbrev check_version : Option Value → Result Error (Unit {0})
check_version (some (text v)) = if text_eq v (codes "1.0") then ok tt else err unsupported_version
check_version _ = err malformed

module _ (S : Serde) where
  abbrev engagement_from : Entries → Result Error DeviceEngagement
  engagement_from m0 =
      let (device_engagement_version, m1) = remove_int (pos 0) m0 in
      let (device_engagement_security, m2) = remove_int (pos 1) m1 in
      let (device_methods, m3) = remove_int (pos 2) m2 in
      let (server_methods, m4) = remove_int (pos 3) m3 in
      let (protocol_info, m5) = remove_int (pos 4) m4 in
      (do
        _ ← check_version device_engagement_version
        value ← ok_or device_engagement_security malformed
        security ← ok_or (S.security value) malformed
        device_retrieval_methods ← transposed S.methods device_methods
        server_retrieval_methods ← transposed S.servers server_methods
        ok (record {
          version = codes "1.0";
          security = security;
          device_retrieval_methods = device_retrieval_methods;
          server_retrieval_methods = server_retrieval_methods;
          protocol_info = protocol_info;
        }))

  -- `TryFrom<CborValue> for DeviceEngagement`
  unfoldable pub from_cbor : Value → Result Error DeviceEngagement
  unfolding get_int without_int
  from_cbor (map m) = engagement_from m
  from_cbor _ = err invalid_device_engagement

  -- how serde writes and reads an engagement
  abbrev pub codec : Codec Value → Codec DeviceEngagement
  codec values = through_value values to_cbor λ v. to_option (from_cbor v)
