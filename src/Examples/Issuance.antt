-- ===== src/Examples/Issuance.antt =====
-- A credential that is issued and presented at concrete values.
use isomdl.Prelude.{
  ℕ, Option, suc, ◌^◌, ◌-◌, ◌/◌, ◌≡◌, ◌≢◌, ◌↔◌, refl, false, List, [], ◌∷◌, All, none, some, ok,
  arith,
}
use isomdl.Prelude.Int.{ℤ, pos, negsuc}
use isomdl.Prelude.Text.{Text, codes, text_eq}
use isomdl.Cbor.{text}
use isomdl.CoseKey.{es256}
use isomdl.Helpers.NonEmptyMap.{NonEmptyMap}
use isomdl.Helpers.NonEmptyVec.{NonEmptyVec}
use isomdl.Helpers.NonEmptyVec
use isomdl.Helpers.NonEmptyMap
use isomdl.Helpers.Tag24
use isomdl.Documents.{Mso, ValidityInfo, sha256, IssuerSignedItemBytes}
use isomdl.Documents.DigestIds.{IsDigestId, digest_id, digest_id_bounds}
use isomdl.Documents.Validity.{Time}
use isomdl.Issuance.Random.{Rng, used, generate_digest_id, generate_digest_id_ends}
use isomdl.Issuance.X5Chain.{Chain}
use isomdl.Prelude.Map.{get, collect, insert, text_ord, int_ord}
use isomdl.Issuance.Items.{
  Namespaces, to_issuer_namespaces, to_issuer_signed_items, issue_items, each_namespace,
}
use isomdl.Issuance.Items.Each.{IssuesAll}
use isomdl.Issuance.Digests.{
  Hashes, digest_namespaces, digest_namespace, digest_each, item_digests, decoy_digests,
}
use isomdl.Issuance.Mdoc.{Mdoc, PreparedMdoc, Issuer, Signer, prepare}
use isomdl.Issuance.Mdoc.Attests.{AttestsAll, prepare-Attests}
use isomdl.Issuance.Builder.{Builder}
use isomdl.Device.Types.{Document, Documents}
use isomdl.Device.Prepare.{prepare_response}
use isomdl.Device.FromMdoc.{from_mdoc}
use isomdl.Device.FromMdoc.Presented.{IsIssued, IsBacked, prepare_response-IsBacked}
use isomdl.Examples.{crates, mso, mdl, iso, family, encoders, requested, permitted}

digest_id_bounds_example : IsDigestId (digest_id (negsuc 4)) ↔ (negsuc 4 ≢ negsuc (2 ^ 31 - 1))
digest_id_bounds_example = digest_id_bounds (negsuc 4) (omega arith)

-- every draw is the number of the draw
abbrev counting : Rng
counting = record {
  State = ℕ;
  gen_i32 = λ s. (pos s, suc s);
  gen_salt = λ s. (s ∷ [], suc s);
  gen_decoy = λ s. (s ∷ s ∷ [], suc s);
  gen_count = λ s. (5, suc s);
}

-- the ids 3 and 4 are in use
generate_digest_id_ends_example :
    (r : ℤ × List ℤ × ℕ) × (generate_digest_id counting 3 (pos 3 ∷ pos 4 ∷ []) 3 ≡ ok r)
unfolding used digest_id
generate_digest_id_ends_example =
    generate_digest_id_ends counting 3 2 (pos 3 ∷ pos 4 ∷ []) 3 (omega arith) refl

abbrev chain : Chain
chain = record { items = (1 ∷ []) ∷ (2 ∷ 3 ∷ []) ∷ [] }

-- a hash that is the algorithm's input
abbrev hashes : Hashes
hashes = record { value_to_vec = λ _. some (216 ∷ 24 ∷ []); digest = λ _ b. b }

abbrev issuer : Issuer crates
issuer = record {
  rng = counting;
  draws = 3;
  hashes = hashes;
  items = record { to_vec = λ i. some i.random; from_slice = λ _. none };
  msos = record { to_vec = λ _. some (1 ∷ []); from_slice = λ _. none };
  prepare_cose = λ b _. some b;
  insert_i = λ _ _ c. c;
}

abbrev elements : Namespaces
elements = (iso, (family, text (codes "Doe")) ∷ []) ∷ []

abbrev issued_item : IssuerSignedItemBytes
issued_item = record {
  inner = record {
    digest_id = pos 3;
    random = 4 ∷ [];
    element_identifier = family;
    element_value = text (codes "Doe");
  };
  inner_bytes = 4 ∷ [];
}

abbrev issued_mso : Mso crates
issued_mso = record mso { value_digests = (iso, (pos 3, 216 ∷ 24 ∷ []) ∷ []) ∷ [] }

abbrev prepared_mdoc : PreparedMdoc crates
prepared_mdoc = record {
  doc_type = mdl;
  mso = issued_mso;
  namespaces = record { entries = (iso, record { items = issued_item ∷ [] }) ∷ [] };
  prepared_sig = 216 ∷ 24 ∷ [];
}

prepare-Attests_example :
    IssuesAll issuer.items prepared_mdoc.namespaces elements
    × AttestsAll hashes prepared_mdoc.mso prepared_mdoc.namespaces
unfolding prepare to_issuer_namespaces to_issuer_signed_items issue_items each_namespace
    digest_namespaces digest_namespace digest_each generate_digest_id used digest_id Tag24.new
    Tag24.to_cbor collect insert NonEmptyVec.try_from NonEmptyMap.try_from item_digests
    decoy_digests
prepare-Attests_example =
    prepare-Attests issuer mdl elements mso.validity_info sha256 mso.device_key_info es256 false 3
      {r = (prepared_mdoc, 5)} (tt, tt) refl

abbrev signer : Signer
signer = record { algorithm = es256; try_sign = λ b. some b }

abbrev filled : Builder crates
filled = record {
  doc_type = some mdl;
  namespaces = some elements;
  validity_info = some mso.validity_info;
  digest_algorithm = some sha256;
  device_key_info = some mso.device_key_info;
  enable_decoy_digests = some false;
}

abbrev mdoc : Mdoc crates
mdoc = record {
  doc_type = mdl;
  mso = issued_mso;
  namespaces = prepared_mdoc.namespaces;
  issuer_auth = (216 ∷ 24 ∷ [], 7 ∷ []);
}

abbrev presented : Document crates
presented = record {
  id = 7;
  issuer_auth = mdoc.issuer_auth;
  mso = issued_mso;
  namespaces = record { entries = (iso, record { entries = (family, issued_item) ∷ [] }) ∷ [] };
}

abbrev wallet : Documents crates
wallet = record { entries = (mdl, presented) ∷ [] }

presented-IsIssued : IsIssued hashes presented
unfolding from_mdoc get text_eq
presented-IsIssued =
    (7, mdoc, ((((pos 3, 216 ∷ 24 ∷ []) ∷ [], refl, ((216 ∷ 24 ∷ [], refl, refl), tt))), tt), refl)

prepare_response-IsBacked_example :
    All
      (IsBacked hashes wallet)
      (prepare_response encoders wallet (5 ∷ []) requested permitted).prepared_documents
prepare_response-IsBacked_example =
    prepare_response-IsBacked hashes wallet requested permitted encoders (5 ∷ [])
      ((tt, tt), ((tt, tt), tt)) (presented-IsIssued, tt)

abbrev first_of : Text → Option ℕ
first_of (n ∷ []) = some n
first_of _ = none

-- a date is a number of halves of seconds, written as one character
abbrev halves : Time crates
halves = record {
  replace_millisecond = λ n. some (n / 2);
  to_utc = λ n. some n;
  format = λ n. some (n ∷ []);
  parse = first_of;
}

abbrev days : ValidityInfo crates
days = record { signed = 3; valid_from = 4; valid_until = 9; expected_update = some 5 }
