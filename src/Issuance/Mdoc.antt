-- ===== src/Issuance/Mdoc.antt =====
-- `Mdoc::prepare`, `Mdoc::issue` and `PreparedMdoc` of src/issuance/mdoc.rs. The encoders, the hash
-- functions, the random numbers and the COSE builder are parameters.
pub mod Attests
use isomdl.Prelude.{
  ℕ, Bool, true, false, List, [], ◌∷◌, Option, none, some, Result, ok, err, ◌>>=◌, ok_or,
}
use isomdl.Prelude.Int.{ℤ}
use isomdl.Prelude.Text.{Text, codes}
use isomdl.Prelude.Map.{Map}
use isomdl.Cbor.{Bytes, Value}
use isomdl.CoseKey.{Algorithm}
use isomdl.Crates.{Crates}
use isomdl.Helpers.Tag24.{Tag24, Codec}
use isomdl.Helpers.Tag24
use isomdl.Documents.{
  DigestAlgorithm, KeyAuthorizations, DeviceKeyInfo, ValidityInfo, Mso, IssuerSignedItem,
  IssuerNamespaces,
}
use isomdl.Documents.Authorizations.{validate}
use isomdl.Documents.Authorizations
use isomdl.Issuance.Random.{
  Rng, Error, invalid_authorizations, unable_to_encode, unable_to_prepare, unable_to_sign,
}
use isomdl.Issuance.X5Chain.{Chain, into_cbor, x5chain_header_label}
use isomdl.Issuance.Items.{Namespaces, to_issuer_namespaces}
use isomdl.Issuance.Digests.{Hashes, digest_namespaces}

pub record Mdoc (C : Crates) : Type 0 where
  pub doc_type : Text
  pub mso : Mso C
  pub namespaces : IssuerNamespaces
  pub issuer_auth : C.CoseSign1

pub record PreparedMdoc (C : Crates) : Type 0 where
  pub doc_type : Text
  pub mso : Mso C
  pub namespaces : IssuerNamespaces
  pub prepared_sig : C.PreparedCoseSign1

-- What an issuer is given: random numbers and how many draws an id may take, the encoders, and from
-- cose-rs `CoseSign1::builder().payload(p).signature_algorithm(a).prepare()` and
-- `unprotected_mut().insert_i(label, value)`.
pub record Issuer (C : Crates) : Type 1 where
  pub rng : Rng
  pub draws : ℕ
  pub hashes : Hashes
  pub items : Codec IssuerSignedItem
  pub msos : Codec (Mso C)
  pub prepare_cose : Bytes → Algorithm → Option C.PreparedCoseSign1
  pub insert_i : ℤ → Value → C.CoseSign1 → C.CoseSign1

-- a signer's algorithm, and `try_sign` with the signature's bytes
pub record Signer : Type 0 where
  pub algorithm : Algorithm
  pub try_sign : Bytes → Option Bytes

abbrev authorized : Result Authorizations.Error (Unit {0}) → Result Error (Unit {0})
authorized (ok u) = ok u
authorized (err _) = err invalid_authorizations

abbrev check_authorizations : Option KeyAuthorizations → Result Error (Unit {0})
check_authorizations none = ok tt
check_authorizations (some a) = authorized (validate a)

abbrev encoded : {C : Crates} → Result Tag24.Error (Tag24 (Mso C)) → Result Error (Tag24 (Mso C))
encoded (ok t) = ok t
encoded (err _) = err unable_to_encode

-- the MSO's version, and what it is made of
abbrev pub mso_of :
    {C : Crates}
    → DigestAlgorithm
    → Map Text (Map ℤ Bytes)
    → DeviceKeyInfo
    → Text
    → ValidityInfo C
    → Mso C
mso_of digest_algorithm value_digests device_key_info doc_type validity_info = record {
  version = codes "1.0";
  digest_algorithm = digest_algorithm;
  value_digests = value_digests;
  device_key_info = device_key_info;
  doc_type = doc_type;
  validity_info = validity_info;
}

module _ {C : Crates} (I : Issuer C) where
  unfoldable pub prepare :
      Text
      → Namespaces
      → ValidityInfo C
      → DigestAlgorithm
      → DeviceKeyInfo
      → Algorithm
      → Bool
      → I.rng.State
      → Result Error (PreparedMdoc C × I.rng.State)
  unfolding to_issuer_namespaces digest_namespaces validate Tag24.new Tag24.to_cbor
  prepare doc_type namespaces validity_info digest_algorithm device_key_info signature_algorithm
        enable_decoy_digests s =
      do
        _ ← check_authorizations device_key_info.key_authorizations
        (issuer_namespaces, s1) ← to_issuer_namespaces I.rng I.items I.draws namespaces s
        (value_digests, s2) ←
            digest_namespaces I.hashes digest_algorithm I.rng I.draws issuer_namespaces.entries
              enable_decoy_digests s1
        let mso = mso_of digest_algorithm value_digests device_key_info doc_type validity_info
        tagged ← encoded (Tag24.new I.msos mso)
        mso_bytes ← ok_or (I.hashes.value_to_vec (Tag24.to_cbor tagged)) unable_to_encode
        prepared_sig ← ok_or (I.prepare_cose mso_bytes signature_algorithm) unable_to_prepare
        ok (
          record {
            doc_type = doc_type;
            mso = mso;
            namespaces = issuer_namespaces;
            prepared_sig = prepared_sig;
          },
          s2,
        )

  unfoldable pub signature_payload : PreparedMdoc C → Bytes
  signature_payload p = C.signature_payload p.prepared_sig

  unfoldable pub complete : PreparedMdoc C → Chain → Bytes → Mdoc C
  unfolding into_cbor
  complete p x5chain signature = record {
    doc_type = p.doc_type;
    mso = p.mso;
    namespaces = p.namespaces;
    issuer_auth =
        I.insert_i x5chain_header_label (into_cbor x5chain) (C.finalize p.prepared_sig signature);
  }

  unfoldable pub issue :
      Text
      → Namespaces
      → ValidityInfo C
      → DigestAlgorithm
      → DeviceKeyInfo
      → Chain
      → Bool
      → Signer
      → I.rng.State
      → Result Error (Mdoc C × I.rng.State)
  unfolding prepare signature_payload complete
  issue doc_type namespaces validity_info digest_algorithm device_key_info x5chain
        enable_decoy_digests signer s =
      do
        (prepared_mdoc, s') ←
            prepare doc_type namespaces validity_info digest_algorithm device_key_info
              signer.algorithm enable_decoy_digests s
        signature ← ok_or (signer.try_sign (signature_payload prepared_mdoc)) unable_to_sign
        ok (complete prepared_mdoc x5chain signature, s')
