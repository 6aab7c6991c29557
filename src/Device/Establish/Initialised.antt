-- ===== src/Device/Establish/Initialised.antt =====
-- What `SessionManagerInit::initialise` (src/presentation/device.rs) puts together.
use isomdl.Prelude.{
  ◌≡◌, ◌∙◌, refl, none, Option, Option-cases, inl, inr, ap, subst, ok, >>=_succeeds, map_err,
  map_err-eq-ok, arith,
}
use isomdl.Prelude.Text.{codes}
use isomdl.CoseKey.{CoseKey}
use isomdl.CoseKey.Points.{Sec1}
use isomdl.Crates.{Crates}
use isomdl.Helpers.NonEmptyVec.{NonEmptyVec}
use isomdl.Helpers.Tag24.{Tag24, Codec}
use isomdl.Helpers.Tag24
use isomdl.Engagement.Envelope.{DeviceEngagement, ServerRetrievalMethods}
use isomdl.Engagement.Method.{DeviceRetrievalMethod}
use isomdl.Session.Keys.{Ecdh, create_p256_ephemeral_keys}
use isomdl.Session.Keys.Agreement.{create-own}
use isomdl.Device.Types.{Documents}
use isomdl.Device.Establish.{SessionManagerInit, initialise, e_key_generation, tag24_cbor_encoding}

pub tag24_new-inner :
    {A : Type 0} (c : Codec A) (a : A) {t : Tag24 A} → Tag24.new c a ≡ ok t → t.inner ≡ a
unfolding Tag24.new
tag24_new-inner c a {t} h = elim (Option-cases (c.to_vec a)) [
  | inl e ↦ absurd (ground (arith, e))
  | inr (b, e) ↦ ground (arith, e)
]

-- the engagement that a device makes
abbrev pub engagement_of :
    Tag24 CoseKey
    → Option (NonEmptyVec DeviceRetrievalMethod)
    → Option ServerRetrievalMethods
    → DeviceEngagement
engagement_of key methods servers = record {
  version = codes "1.0";
  security = record { cipher_suite = 1; key = key };
  device_retrieval_methods = methods;
  server_retrieval_methods = servers;
  protocol_info = none;
}

module _ {C : Crates} {s : Sec1} (E : Ecdh s) (key_codec : Codec CoseKey)
    (codec : Codec DeviceEngagement) where
  pub record IsInitialised (drawn : E.SecretKey) (documents : Documents C)
      (methods : Option (NonEmptyVec DeviceRetrievalMethod))
      (servers : Option ServerRetrievalMethods) (m : SessionManagerInit C) : Type 0 where
    pub key : CoseKey
    pub key_bytes : Tag24 CoseKey
    pub wraps_key : Tag24.new key_codec key ≡ ok key_bytes
    pub creates : create_p256_ephemeral_keys E drawn ≡ ok (drawn, key)
    pub stores : m.e_device_key ≡ E.to_bytes drawn
    pub wraps : Tag24.new codec (engagement_of key_bytes methods servers) ≡ ok m.device_engagement
    pub offers : m.device_engagement.inner.security.key.inner ≡ key
    pub holds : m.documents ≡ documents

  pub initialise-IsInitialised :
      (drawn : E.SecretKey) (documents : Documents C)
      (methods : Option (NonEmptyVec DeviceRetrievalMethod))
      (servers : Option ServerRetrievalMethods) {m : SessionManagerInit C}
      → initialise E key_codec codec drawn documents methods servers ≡ ok m
      → IsInitialised drawn documents methods servers m
  unfolding initialise
  initialise-IsInitialised drawn documents methods servers {m} h =
      let (p, a1, h1) =
        >>=_succeeds (map_err e_key_generation (create_p256_ephemeral_keys E drawn)) _ h in
      let (t, a2, h2) = >>=_succeeds (map_err tag24_cbor_encoding (Tag24.new key_codec p.1)) _ h1 in
      let d = engagement_of t methods servers in
      let (de, a3, h3) = >>=_succeeds (map_err tag24_cbor_encoding (Tag24.new codec d)) _ h2 in
      let (created, own) = create-own E drawn (map_err-eq-ok e_key_generation _ a1) in
      let wrapped = map_err-eq-ok tag24_cbor_encoding (Tag24.new codec d) a3 in
      let same : ◌≡◌ {A = SessionManagerInit C}
          (record { documents = documents; e_device_key = E.to_bytes p.0; device_engagement = de })
          m =
        cc in
      subst (IsInitialised drawn documents methods servers) same (record {
        key = p.1;
        key_bytes = t;
        wraps_key = map_err-eq-ok tag24_cbor_encoding (Tag24.new key_codec p.1) a2;
        creates = created;
        stores = ap E.to_bytes own;
        wraps = wrapped;
        offers =
            ap (λ x. x.security.key.inner) (tag24_new-inner codec d wrapped)
            ∙ tag24_new-inner key_codec p.1 (map_err-eq-ok tag24_cbor_encoding _ a2);
        holds = refl;
      })
