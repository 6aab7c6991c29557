-- ===== src/Examples.antt =====
-- Tests of the library: the parameters by concrete functions, a small credential, and the theorems
-- at these values.
pub mod Presentation
pub mod Authorizations
pub mod Codecs
pub mod Exchange
pub mod Issuance
pub mod Elements
pub mod Engagement
pub mod Session
pub mod Values
pub mod Namespaces
use isomdl.Prelude.{ℕ, Bool, true, List, [], ◌∷◌, Option, none, some}
use isomdl.Prelude.Text.{Text, codes}
use isomdl.Cbor.{Bytes, text, bool}
use isomdl.Prelude.Int.{pos}
use isomdl.CoseKey.{ec2, p256, value}
use isomdl.Crates.{Crates}
use isomdl.Helpers.NonEmptyMap.{NonEmptyMap}
use isomdl.Helpers.NonEmptyVec.{NonEmptyVec}
use isomdl.Session.{Aead}
use isomdl.Documents.{
  Mso, sha256, IssuerSignedItemBytes, DeviceNamespaces, DeviceAuthentication, ItemsRequest,
}
use isomdl.Device.Filter.{RequestedItems, PermittedItems}
use isomdl.Device.Types.{Document, Documents}
use isomdl.Device.Prepare.{Encoders}
use isomdl.Device.Manager.{Wire}

-- a signature keeps its payload
abbrev pub crates : Crates
crates = record {
  CoseSign1 = Bytes × Bytes;
  PreparedCoseSign1 = Bytes;
  OffsetDateTime = ℕ;
  Uuid = ℕ;
  prepare_detached = λ p _. some p;
  signature_payload = λ p. p;
  finalize = λ p s. (p, s);
}

-- a cipher that puts nothing in the way
abbrev pub plain_aead : Aead
plain_aead = record { encrypt = λ _ _ p. some p; decrypt = λ _ _ c. some c }

abbrev pub encoders : Encoders Bytes
encoders = record {
  device_namespaces = record { to_vec = λ _. some (160 ∷ []); from_slice = λ _. some [] };
  device_authentication = record { to_vec = λ a. some a.transcript; from_slice = λ _. none };
  value_to_vec = λ _. some (216 ∷ 24 ∷ []);
}

abbrev pub wire : Wire crates
wire = record {
  value_from_slice = λ _. none;
  request_from_value = λ _. none;
  response_to_vec = λ r. some (1 ∷ 2 ∷ []);
  response_from_slice = λ _. none;
  session_data_to_vec = λ d. d.payload;
  session_data_from_slice = λ b. some (record { payload = some b; status = none });
}

abbrev pub mdl : Text
mdl = codes "mDL"

abbrev pub iso : Text
iso = codes "iso"

abbrev pub family : Text
family = codes "family_name"

abbrev pub age : Text
age = codes "age_over_18"

abbrev pub photo : Text
photo = codes "portrait"

abbrev pub family_item : IssuerSignedItemBytes
family_item = record {
  inner = record {
    digest_id = pos 1;
    random = 9 ∷ [];
    element_identifier = family;
    element_value = text (codes "Doe");
  };
  inner_bytes = 1 ∷ 1 ∷ [];
}

abbrev pub age_item : IssuerSignedItemBytes
age_item = record family_item {
  inner = record {
    digest_id = pos 2;
    random = 8 ∷ [];
    element_identifier = age;
    element_value = bool true;
  };
}

abbrev pub mso : Mso crates
mso = record {
  version = codes "1.0";
  digest_algorithm = sha256;
  value_digests = [];
  device_key_info = record {
    device_key = ec2 p256 (1 ∷ []) (value (2 ∷ []));
    key_authorizations = none;
    key_info = none;
  };
  doc_type = mdl;
  validity_info = record { signed = 0; valid_from = 0; valid_until = 9; expected_update = none };
}

abbrev pub document : Document crates
document = record {
  id = 7;
  issuer_auth = ([], []);
  mso = mso;
  namespaces = record { entries = (iso, record { entries = (family, family_item) ∷ [] }) ∷ [] };
}

abbrev pub documents : Documents crates
documents = record { entries = (mdl, document) ∷ [] }

-- the reader asks for the name and the portrait
abbrev pub requested : RequestedItems
requested =
    (record {
      doc_type = mdl;
      namespaces = record {
        entries = (iso, record { entries = (family, true) ∷ (photo, true) ∷ [] }) ∷ [];
      };
      request_info = none;
    })
    ∷ []

-- the holder permits the name, the portrait and the age
abbrev pub permitted : PermittedItems
permitted = (mdl, (iso, family ∷ photo ∷ age ∷ []) ∷ []) ∷ []
