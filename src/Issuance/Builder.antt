-- ===== src/Issuance/Builder.antt =====
-- `Builder` of src/issuance/mdoc.rs.
pub mod Paths
use isomdl.Prelude.{Bool, true, false, Option, none, some, Result, ok, err, ◌>>=◌, ok_or}
use isomdl.Prelude.Text.{Text}
use isomdl.CoseKey.{Algorithm}
use isomdl.Crates.{Crates}
use isomdl.Documents.{DigestAlgorithm, DeviceKeyInfo, ValidityInfo}
use isomdl.Issuance.Random.{
  Error, missing_doc_type, missing_namespaces, missing_validity_info, missing_digest_algorithm,
  missing_device_key_info,
}
use isomdl.Issuance.X5Chain.{Chain}
use isomdl.Issuance.Items.{Namespaces}
use isomdl.Issuance.Mdoc
use isomdl.Issuance.Mdoc.{Issuer, Signer, PreparedMdoc}

pub record Builder (C : Crates) : Type 0 where
  pub doc_type : Option Text
  pub namespaces : Option Namespaces
  pub validity_info : Option (ValidityInfo C)
  pub digest_algorithm : Option DigestAlgorithm
  pub device_key_info : Option DeviceKeyInfo
  pub enable_decoy_digests : Option Bool

abbrev unwrap_or : Option Bool → Bool → Bool
unwrap_or none b = b
unwrap_or (some a) b = a

module _ {C : Crates} where
  -- `Mdoc::builder`
  abbrev pub builder : Builder C
  builder = record {
    doc_type = none;
    namespaces = none;
    validity_info = none;
    digest_algorithm = none;
    device_key_info = none;
    enable_decoy_digests = none;
  }

  abbrev pub doc_type : Builder C → Text → Builder C
  doc_type b x = record b { doc_type = some x }

  abbrev pub namespaces : Builder C → Namespaces → Builder C
  namespaces b x = record b { namespaces = some x }

  abbrev pub validity_info : Builder C → ValidityInfo C → Builder C
  validity_info b x = record b { validity_info = some x }

  abbrev pub digest_algorithm : Builder C → DigestAlgorithm → Builder C
  digest_algorithm b x = record b { digest_algorithm = some x }

  abbrev pub device_key_info : Builder C → DeviceKeyInfo → Builder C
  device_key_info b x = record b { device_key_info = some x }

  abbrev pub enable_decoy_digests : Builder C → Bool → Builder C
  enable_decoy_digests b x = record b { enable_decoy_digests = some x }

module _ {C : Crates} (I : Issuer C) where
  unfoldable pub prepare :
      Builder C → Algorithm → I.rng.State → Result Error (PreparedMdoc C × I.rng.State)
  prepare b signature_algorithm s = do
    doc_type' ← ok_or b.doc_type missing_doc_type
    namespaces' ← ok_or b.namespaces missing_namespaces
    validity_info' ← ok_or b.validity_info missing_validity_info
    digest_algorithm' ← ok_or b.digest_algorithm missing_digest_algorithm
    device_key_info' ← ok_or b.device_key_info missing_device_key_info
    Mdoc.prepare I doc_type' namespaces' validity_info' digest_algorithm' device_key_info'
        signature_algorithm (unwrap_or b.enable_decoy_digests true) s

  unfoldable pub issue :
      Builder C → Chain → Signer → I.rng.State → Result Error (Mdoc.Mdoc C × I.rng.State)
  issue b x5chain signer s = do
    doc_type' ← ok_or b.doc_type missing_doc_type
    namespaces' ← ok_or b.namespaces missing_namespaces
    validity_info' ← ok_or b.validity_info missing_validity_info
    digest_algorithm' ← ok_or b.digest_algorithm missing_digest_algorithm
    device_key_info' ← ok_or b.device_key_info missing_device_key_info
    Mdoc.issue I doc_type' namespaces' validity_info' digest_algorithm' device_key_info' x5chain
        (unwrap_or b.enable_decoy_digests true) signer s
