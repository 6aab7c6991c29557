-- ===== src/Engagement/RoundTrip.antt =====
-- The CBOR form of a device engagement, written and read.
use isomdl.Prelude.{
  ◌^◌, ◌<◌, ◌≡◌, ◌↔◌, refl, sym, ap, ◌∙◌, Bool-cases, inl, inr, List, [], ◌∷◌, Option, none, some,
  Result, ok, err, if◌then◌else◌, All, arith,
}
use isomdl.Prelude.Text.{Text, text_eq, text_eq_iff, codes}
use isomdl.Cbor.{Value, array}
use isomdl.CoseKey.{CoseKey}
use isomdl.Helpers.NonEmptyVec.{NonEmptyVec, IsNonEmpty}
use isomdl.Helpers.Tag24
use isomdl.Helpers.Tag24.{Tag24, Codec}
use isomdl.Engagement.{Error, unsupported_version}
use isomdl.Engagement.Method
use isomdl.Engagement.Method.{DeviceRetrievalMethod, IsMethod, method_from_cbor-to_cbor}
use isomdl.Engagement.Envelope.{
  Security, Server, ServerRetrievalMethods, DeviceEngagement, security_value, methods, servers,
  Serde, to_cbor, from_cbor,
}

-- a key whose bytes are read as the key
abbrev pub IsKey : Codec CoseKey → Tag24 CoseKey → Type 0
IsKey c k = Tag24.from_cbor c (Tag24.to_cbor k) ≡ ok k

abbrev pub IsServer : Option Server → Type 0
IsServer none = Unit
IsServer (some s) = s.version < 2 ^ 64

abbrev pub IsReadBack : DeviceRetrievalMethod → Type 0
IsReadBack m = Method.from_cbor (Method.to_cbor m) ≡ ok m

-- What derived deserializers do: they read what the fields' own readers read back.
pub record IsSerde (c : Codec CoseKey) (S : Serde) : Type 0 where
  pub security :
      (s : Security)
      → s.cipher_suite < 2 ^ 64
      → IsKey c s.key
      → S.security (security_value s) ≡ some s
  pub methods :
      (v : NonEmptyVec DeviceRetrievalMethod)
      → IsNonEmpty v
      → All IsReadBack v.items
      → S.methods (array (methods v.items)) ≡ some v
  pub servers :
      (m : ServerRetrievalMethods)
      → IsServer m.web_api
      → IsServer m.oidc
      → S.servers (servers m) ≡ some m

abbrev pub AreMethods : Option (NonEmptyVec DeviceRetrievalMethod) → Type 0
AreMethods none = Unit
AreMethods (some v) = IsNonEmpty v × All IsMethod v.items

abbrev pub AreServers : Option ServerRetrievalMethods → Type 0
AreServers none = Unit
AreServers (some m) = IsServer m.web_api × IsServer m.oidc

-- the values of the fields' Rust types
pub record IsEngagement (c : Codec CoseKey) (d : DeviceEngagement) : Type 0 where
  pub cipher_suite : d.security.cipher_suite < 2 ^ 64
  pub key : IsKey c d.security.key
  pub methods : AreMethods d.device_retrieval_methods
  pub servers : AreServers d.server_retrieval_methods

read_back : (ms : List DeviceRetrievalMethod) → All IsMethod ms → All IsReadBack ms
read_back [] h = h
read_back (m ∷ ms) (h, hs) = (method_from_cbor-to_cbor m h, read_back ms hs)

-- what is read of a written engagement
abbrev read_as : Text → DeviceEngagement → Result Error DeviceEngagement
read_as v d =
    if text_eq v (codes "1.0")
    then ok (record {
      version = codes "1.0";
      security = d.security;
      device_retrieval_methods = d.device_retrieval_methods;
      server_retrieval_methods = d.server_retrieval_methods;
      protocol_info = none;
    })
    else err unsupported_version

abbrev info_of : Result Error DeviceEngagement → Option Value
info_of (ok d) = d.protocol_info
info_of (err e) = none

read_as_same :
    (v : Text) (d : DeviceEngagement)
    → read_as v d ≡ ok d
    → (v ≡ codes "1.0") × (d.protocol_info ≡ none)
read_as_same v d h = elim (Bool-cases (text_eq v (codes "1.0"))) [
  | inl e ↦ ((text_eq_iff v (codes "1.0")).0 e, sym (ap info_of (rw e at h)))
  | inr e ↦ absurd (ground (arith, h, e))
]

parts_of :
    (v : Text) (s : Security) (ms : Option (NonEmptyVec DeviceRetrievalMethod))
    (ss : Option ServerRetrievalMethods) (i : Option Value)
    → v ≡ codes "1.0"
    → i ≡ none
    → let d : DeviceEngagement = record {
      version = v;
      security = s;
      device_retrieval_methods = ms;
      server_retrieval_methods = ss;
      protocol_info = i;
    } in
      read_as v d ≡ ok d
unfolding text_eq
parts_of v s ms ss i hv hi = rw (hv, hi) refl

module _ (c : Codec CoseKey) (S : Serde) (law : IsSerde c S) where
  parts :
      (v : Text) (s : Security) (ms : Option (NonEmptyVec DeviceRetrievalMethod))
      (ss : Option ServerRetrievalMethods) (i : Option Value)
      → s.cipher_suite < 2 ^ 64
      → IsKey c s.key
      → AreMethods ms
      → AreServers ss
      → let d : DeviceEngagement = record {
        version = v;
        security = s;
        device_retrieval_methods = ms;
        server_retrieval_methods = ss;
        protocol_info = i;
      } in
        from_cbor S (to_cbor d) ≡ read_as v d
  unfolding from_cbor to_cbor
  parts v s none none i h k m n = ground (arith, law.security s h k)
  parts v s (some ms) none i h k m n =
      ground (arith, law.security s h k, law.methods ms m.0 (read_back ms.items m.1))
  parts v s none (some ss) i h k m n = ground (arith, law.security s h k, law.servers ss n.0 n.1)
  parts v s (some ms) (some ss) i h k m n = ground (
    arith,
    law.security s h k,
    law.servers ss n.0 n.1,
    law.methods ms m.0 (read_back ms.items m.1),
  )

  -- A device engagement is read back exactly if its version is "1.0" and it has no protocol
  -- information.
  pub engagement_read_back :
      (d : DeviceEngagement)
      → IsEngagement c d
      → (from_cbor S (to_cbor d) ≡ ok d) ↔ ((d.version ≡ codes "1.0") × (d.protocol_info ≡ none))
  engagement_read_back d h =
      let read =
        parts d.version d.security d.device_retrieval_methods d.server_retrieval_methods
          d.protocol_info h.cipher_suite h.key h.methods h.servers in
      (
        (λ e. read_as_same d.version d (sym read ∙ e)),
        (λ e.
            read
            ∙ parts_of d.version d.security d.device_retrieval_methods d.server_retrieval_methods
                d.protocol_info e.0 e.1),
      )
