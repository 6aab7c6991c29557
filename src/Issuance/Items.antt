-- ===== src/Issuance/Items.antt =====
-- `to_issuer_signed_items` and `to_issuer_namespaces` of src/issuance/mdoc.rs: each element gets a
-- digest id of its own in its namespace, and random bytes.
pub mod Ids
pub mod Each
use isomdl.Prelude.{
  ℕ, ◌≡◌, refl, sym, ap, ◌∙◌, Bool, true, false, ◌||◌, List, [], ◌∷◌, ◌++◌, map, All, Result, ok,
  err, ◌>>=◌, ok_or, arith,
}
use isomdl.Prelude.Int.{ℤ}
use isomdl.Prelude.Text.{Text}
use isomdl.Prelude.Map.{Map, text_ord, collect}
use isomdl.Cbor.{Bytes, Value}
use isomdl.Helpers.NonEmptyVec.{NonEmptyVec}
use isomdl.Helpers.NonEmptyVec
use isomdl.Helpers.NonEmptyMap.{NonEmptyMap}
use isomdl.Helpers.NonEmptyMap
use isomdl.Helpers.Tag24.{Tag24, Codec}
use isomdl.Helpers.Tag24
use isomdl.Documents.{IssuerSignedItem, IssuerSignedItemBytes, IssuerNamespaces}
use isomdl.Issuance.Random.{
  Rng, Error, unable_to_encode, no_element, no_namespace, generate_digest_id, used,
}

-- `mdoc::Namespaces`
abbrev pub Namespaces : Type 0
Namespaces = Map Text (Map Text Value)

abbrev encoded : Result Tag24.Error IssuerSignedItemBytes → Result Error IssuerSignedItemBytes
encoded (ok t) = ok t
encoded (err _) = err unable_to_encode

abbrev non_empty {ℓ} :
    {A : Type ℓ} → Result NonEmptyVec.Error (NonEmptyVec A) → Result Error (NonEmptyVec A)
non_empty (ok v) = ok v
non_empty (err _) = err no_element

abbrev non_empty_map {ℓ κ} :
    {K : Type ℓ} {V : Type κ}
    → Result NonEmptyMap.Error (NonEmptyMap K V)
    → Result Error (NonEmptyMap K V)
non_empty_map (ok v) = ok v
non_empty_map (err _) = err no_namespace

module _ (g : Rng) (items : Codec IssuerSignedItem) (draws : ℕ) where
  -- The elements of a namespace in turn, each encoded, with the ids in use so far.
  unfoldable pub issue_items :
      List ℤ → Map Text Value → g.State → Result Error (List IssuerSignedItemBytes × g.State)
  issue_items used_ids [] s = ok ([], s)
  issue_items used_ids ((key, value) ∷ elements) s = do
    (digest_id, used_ids', s1) ← generate_digest_id g draws used_ids s
    let salted = g.gen_salt s1
    item ← encoded (
        Tag24.new items (record {
          digest_id = digest_id;
          random = salted.0;
          element_identifier = key;
          element_value = value;
        }))
    (rest, s2) ← issue_items used_ids' elements salted.1
    ok (item ∷ rest, s2)

  unfoldable pub to_issuer_signed_items :
      Map Text Value → g.State → Result Error (NonEmptyVec IssuerSignedItemBytes × g.State)
  unfolding issue_items NonEmptyVec.try_from
  to_issuer_signed_items elements s = do
    (issued, s') ← issue_items [] elements s
    v ← non_empty (NonEmptyVec.try_from issued)
    ok (v, s')

  unfoldable pub each_namespace :
      Namespaces
      → g.State
      → Result Error (List (Text × NonEmptyVec IssuerSignedItemBytes) × g.State)
  unfolding to_issuer_signed_items
  each_namespace [] s = ok ([], s)
  each_namespace ((name, elements) ∷ namespaces) s = do
    (elems, s1) ← to_issuer_signed_items elements s
    (rest, s2) ← each_namespace namespaces s1
    ok ((name, elems) ∷ rest, s2)

  unfoldable pub to_issuer_namespaces :
      Namespaces → g.State → Result Error (IssuerNamespaces × g.State)
  unfolding each_namespace collect NonEmptyMap.try_from
  to_issuer_namespaces namespaces s = do
    (entries, s') ← each_namespace namespaces s
    m ← non_empty_map (NonEmptyMap.try_from (collect entries))
    ok (m, s')
