-- ===== src/Issuance/Digests.antt =====
-- `digest_namespace` and `digest_namespaces` of src/issuance/mdoc.rs: the digests of the issued items
-- by their ids, among decoys. The hash functions of sha2 are a parameter.
pub mod Attests
use isomdl.Prelude.{
  ℕ, zero, suc, Bool, true, false, List, [], ◌∷◌, ◌++◌, map, Option, none, some, Result, ok, err,
  ◌>>=◌, ok_or, if◌then◌else◌,
}
use isomdl.Prelude.Int.{ℤ}
use isomdl.Prelude.Text.{Text}
use isomdl.Prelude.Map.{Map, text_ord, int_ord, collect}
use isomdl.Cbor.{Bytes, Value}
use isomdl.Helpers.NonEmptyVec.{NonEmptyVec}
use isomdl.Helpers.Tag24
use isomdl.Documents.{DigestAlgorithm, IssuerSignedItemBytes}
use isomdl.Issuance.Random.{Rng, Error, unable_to_encode, generate_digest_id}

-- `serde_cbor::to_vec` of a value, and the hash functions
pub record Hashes : Type 0 where
  pub value_to_vec : Value → Option Bytes
  pub digest : DigestAlgorithm → Bytes → Bytes

abbrev pub DigestIds : Type 0
DigestIds = Map ℤ Bytes

abbrev pub ids_of : List IssuerSignedItemBytes → List ℤ
ids_of = map (λ (t : IssuerSignedItemBytes). t.inner.digest_id)

module _ (h : Hashes) (alg : DigestAlgorithm) where
  abbrev pub item_digest : IssuerSignedItemBytes → Option Bytes → Result Error (ℤ × Bytes)
  item_digest t none = err unable_to_encode
  item_digest t (some b) = ok (t.inner.digest_id, h.digest alg b)

  -- the digests of the items
  unfoldable pub item_digests : List IssuerSignedItemBytes → Result Error (List (ℤ × Bytes))
  item_digests [] = ok []
  item_digests (t ∷ ts) = do
    d ← item_digest t (h.value_to_vec (Tag24.to_cbor t))
    ds ← item_digests ts
    ok (d ∷ ds)

  module _ (g : Rng) (draws : ℕ) where
    -- so many random ids with the digests of random bytes
    unfoldable pub decoy_digests : ℕ → List ℤ → g.State → Result Error (List (ℤ × Bytes) × g.State)
    decoy_digests zero used_ids s = ok ([], s)
    decoy_digests (suc n) used_ids s = do
      (digest_id, used_ids', s1) ← generate_digest_id g draws used_ids s
      let filled = g.gen_decoy s1
      (rest, s2) ← decoy_digests n used_ids' filled.1
      ok ((digest_id, h.digest alg filled.0) ∷ rest, s2)

    abbrev pub count_of : Bool → g.State → ℕ × g.State
    count_of enable_decoy_digests s = if enable_decoy_digests then g.gen_count s else (0, s)

    unfoldable pub digest_namespace :
        List IssuerSignedItemBytes → Bool → g.State → Result Error (DigestIds × g.State)
    unfolding item_digests decoy_digests collect
    digest_namespace elements enable_decoy_digests s = do
      let counted = count_of enable_decoy_digests s
      digests ← item_digests elements
      (random_digests, s') ← decoy_digests counted.0 (ids_of elements) counted.1
      ok (collect (digests ++ random_digests), s')

    unfoldable pub digest_each :
        List (Text × NonEmptyVec IssuerSignedItemBytes)
        → Bool
        → g.State
        → Result Error (List (Text × DigestIds) × g.State)
    unfolding digest_namespace
    digest_each [] enable_decoy_digests s = ok ([], s)
    digest_each ((name, elements) ∷ namespaces) enable_decoy_digests s = do
      (digests, s1) ← digest_namespace elements.items enable_decoy_digests s
      (rest, s2) ← digest_each namespaces enable_decoy_digests s1
      ok ((name, digests) ∷ rest, s2)

    unfoldable pub digest_namespaces :
        Map Text (NonEmptyVec IssuerSignedItemBytes)
        → Bool
        → g.State
        → Result Error (Map Text DigestIds × g.State)
    unfolding digest_each collect
    digest_namespaces namespaces enable_decoy_digests s = do
      (entries, s') ← digest_each namespaces enable_decoy_digests s
      ok (collect entries, s')
