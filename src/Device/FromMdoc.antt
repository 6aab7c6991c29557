-- ===== src/Device/FromMdoc.antt =====
-- `From<Mdoc> for Document` of src/presentation/device.rs: an issued credential as the device keeps
-- it. `Uuid::now_v1` is a parameter.
pub mod Presented
pub mod Returns
use isomdl.Prelude.{List, [], ◌∷◌, ◌++◌, map, Option, none, some}
use isomdl.Prelude.Text.{Text}
use isomdl.Prelude.Map.{Map, text_ord, collect, bind}
use isomdl.Crates.{Crates}
use isomdl.Helpers.NonEmptyVec.{NonEmptyVec}
use isomdl.Helpers.NonEmptyMap.{NonEmptyMap}
use isomdl.Helpers.NonEmptyMap
use isomdl.Documents.{IssuerSignedItemBytes}
use isomdl.Issuance.Mdoc.{Mdoc}
use isomdl.Device.Types.{Document}

abbrev pub by_identifier : IssuerSignedItemBytes → Text × IssuerSignedItemBytes
by_identifier i = (i.inner.element_identifier, i)

-- `none` is the panic of `unwrap`
unfoldable pub extract :
    NonEmptyVec IssuerSignedItemBytes → Option (NonEmptyMap Text IssuerSignedItemBytes)
unfolding collect NonEmptyMap.maybe_new
extract v = NonEmptyMap.maybe_new (collect (map by_identifier v.items))

unfoldable pub extract_each :
    List (Text × NonEmptyVec IssuerSignedItemBytes)
    → Option (List (Text × NonEmptyMap Text IssuerSignedItemBytes))
unfolding extract
extract_each [] = some []
extract_each ((ns, v) ∷ namespaces) =
    bind (extract v) λ m. bind (extract_each namespaces) λ rest. some ((ns, m) ∷ rest)

module _ {C : Crates} where
  unfoldable pub from_mdoc : C.Uuid → Mdoc C → Option (Document C)
  unfolding extract_each collect NonEmptyMap.maybe_new
  from_mdoc id mdoc = bind (extract_each mdoc.namespaces.entries) λ entries.
      bind (NonEmptyMap.maybe_new (collect entries)) λ namespaces. some (record {
        id = id;
        issuer_auth = mdoc.issuer_auth;
        mso = mdoc.mso;
        namespaces = namespaces;
      })
