-- ===== src/Device/FromMdoc/Returns.antt =====
-- The two `unwrap`s of `From<Mdoc> for Document` (src/presentation/device.rs) do not panic.
use isomdl.Prelude.{◌≡◌, ◌≢◌, refl, List, [], ◌∷◌, map, All, some, arith}
use isomdl.Prelude.Text.{Text}
use isomdl.Prelude.Map.{text_ord, collect}
use isomdl.Prelude.Map.Collect.{collect-nonempty}
use isomdl.Crates.{Crates}
use isomdl.Helpers.NonEmptyVec.{NonEmptyVec, IsNonEmpty}
use isomdl.Helpers.NonEmptyMap.{NonEmptyMap}
use isomdl.Helpers.NonEmptyMap
use isomdl.Documents.{IssuerSignedItemBytes}
use isomdl.Issuance.Mdoc.{Mdoc}
use isomdl.Device.Types.{Document}
use isomdl.Device.FromMdoc.{by_identifier, extract, extract_each, from_mdoc}

maybe_new_returns :
    {V : Type 0} (e : Text × V) (es : List (Text × V))
    → (m : NonEmptyMap Text V) × (NonEmptyMap.maybe_new (collect (e ∷ es)) ≡ some m)
unfolding NonEmptyMap.maybe_new
maybe_new_returns e es =
    let (d, r, h) = collect-nonempty e es in (record { entries = d ∷ r }, ground (arith, h))

extract_returns :
    (v : NonEmptyVec IssuerSignedItemBytes)
    → IsNonEmpty v
    → (m : NonEmptyMap Text IssuerSignedItemBytes) × (extract v ≡ some m)
extract_returns v h = from_list v.items h
  where
    from_list :
        (ts : List IssuerSignedItemBytes)
        → ts ≢ []
        → (m : NonEmptyMap Text IssuerSignedItemBytes) × (extract (record { items = ts }) ≡ some m)
    from_list [] h = absurd (h refl)
    from_list (t ∷ ts) h =
        unfold extract in maybe_new_returns (by_identifier t) (map by_identifier ts)

-- as many entries as there were
extract_each_returns :
    (es : List (Text × NonEmptyVec IssuerSignedItemBytes))
    → All (λ (e : Text × NonEmptyVec IssuerSignedItemBytes). IsNonEmpty e.1) es
    → es ≢ []
    → (x : Text × NonEmptyMap Text IssuerSignedItemBytes) × (ms : List
        (Text × NonEmptyMap Text IssuerSignedItemBytes))
      × (extract_each es ≡ some (x ∷ ms))
unfolding extract_each
extract_each_returns [] h n = absurd (n refl)
extract_each_returns ((ns, v) ∷ []) h n =
    let (m, e) = extract_returns v h.0 in ((ns, m), [], ground (arith, e))
extract_each_returns ((ns, v) ∷ w ∷ es) h n =
    let (m, e) = extract_returns v h.0 in
    let (x, ms, e') = extract_each_returns (w ∷ es) h.1 (λ k. cc) in
    ((ns, m), x ∷ ms, ground (arith, e, e'))

-- A credential with a namespace, and an item in each namespace, becomes a document with its MSO and
-- its signature.
pub from_mdoc_returns :
    {C : Crates} (id : C.Uuid) (m : Mdoc C)
    → All (λ (e : Text × NonEmptyVec IssuerSignedItemBytes). IsNonEmpty e.1) m.namespaces.entries
    → m.namespaces.entries ≢ []
    → (d : Document C) × (from_mdoc id m ≡ some d)
      × (d.id ≡ id)
      × (d.mso ≡ m.mso)
      × (d.issuer_auth ≡ m.issuer_auth)
unfolding from_mdoc
from_mdoc_returns id m h n =
    let (x, ms, e) = extract_each_returns m.namespaces.entries h n in
    let (w, e') = maybe_new_returns x ms in
    (
      record { id = id; issuer_auth = m.issuer_auth; mso = m.mso; namespaces = w },
      ground (arith, e, e'),
      refl,
      refl,
      refl,
    )
