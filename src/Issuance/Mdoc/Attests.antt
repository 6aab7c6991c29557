-- ===== src/Issuance/Mdoc/Attests.antt =====
-- What a prepared credential holds: the given elements as items, and a digest for each.
use isomdl.Prelude.{
  ℕ, ◌≡◌, refl, sym, ap, subst, ◌∙◌, Bool, List, [], ◌∷◌, All, some, ok, >>=_succeeds, ok_or, arith,
}
use isomdl.Prelude.Text.{Text, text_eq}
use isomdl.Prelude.Map.{Map, text_ord, int_ord, get, collect, IsSorted}
use isomdl.Prelude.Map.Collect.{Lacks, IsApart, IsSorted-IsApart, Found, collect-IsApart}
use isomdl.CoseKey.{Algorithm}
use isomdl.Crates.{Crates}
use isomdl.Helpers.NonEmptyVec.{NonEmptyVec}
use isomdl.Helpers.Tag24.{Tag24, Codec}
use isomdl.Helpers.Tag24
use isomdl.Documents.{
  DigestAlgorithm, DeviceKeyInfo, ValidityInfo, Mso, IssuerSignedItemBytes, IssuerNamespaces,
}
use isomdl.Issuance.Random.{Rng, unable_to_encode, unable_to_prepare}
use isomdl.Issuance.Items.{Namespaces, to_issuer_namespaces}
use isomdl.Issuance.Items.Each.{IssuesAll, to_issuer_namespaces-Issues}
use isomdl.Issuance.Digests.{Hashes, DigestIds, digest_namespace, digest_each, digest_namespaces}
use isomdl.Issuance.Digests.Attests.{HasApartIds, IsAttested, digest_namespace-IsAttested}
use isomdl.Issuance.Mdoc.{Issuer, PreparedMdoc, prepare, check_authorizations, encoded, mso_of}

-- Each item of a namespace is attested by the namespace's digests in the MSO.
abbrev pub AttestsAll : {C : Crates} → Hashes → Mso C → IssuerNamespaces → Type 0
AttestsAll h mso m =
    All
      (λ (e : Text × NonEmptyVec IssuerSignedItemBytes).
        (digests : DigestIds) × (get e.0 mso.value_digests ≡ some digests)
        × All (IsAttested h mso.digest_algorithm digests) e.1.items)
      m.entries

module _ (h : Hashes) (alg : DigestAlgorithm) where
  -- digests for the namespaces in turn
  abbrev AttestsEach :
      List (Text × NonEmptyVec IssuerSignedItemBytes) → List (Text × DigestIds) → Type 0
  AttestsEach [] [] = Unit
  AttestsEach [] (d ∷ ds) = ⊥
  AttestsEach (e ∷ es) [] = ⊥
  AttestsEach ((name, v) ∷ es) ((name', digests) ∷ ds) =
      (name ≡ name') × All (IsAttested h alg digests) v.items × AttestsEach es ds

  same-Lacks :
      (k : Text) (es : List (Text × NonEmptyVec IssuerSignedItemBytes))
      (ds : List (Text × DigestIds))
      → AttestsEach es ds
      → Lacks k es
      → Lacks k ds
  same-Lacks k es [] a l = tt
  same-Lacks k [] (d ∷ ds) a l = absurd a
  same-Lacks k ((name, v) ∷ es) ((name', digests) ∷ ds) (same, own, a) l =
      (ap (λ x. text_eq x k) (sym same) ∙ l.0, same-Lacks k es ds a l.1)

  same-IsApart :
      (es : List (Text × NonEmptyVec IssuerSignedItemBytes)) (ds : List (Text × DigestIds))
      → AttestsEach es ds
      → IsApart es
      → IsApart ds
  same-IsApart es [] a l = tt
  same-IsApart [] (d ∷ ds) a l = absurd a
  same-IsApart ((name, v) ∷ es) ((name', digests) ∷ ds) (same, own, a) l =
      (same-Lacks name' es ds a (subst (λ x. Lacks x es) same l.0), same-IsApart es ds a l.1)

  Found-All :
      (m : Map Text DigestIds) (es : List (Text × NonEmptyVec IssuerSignedItemBytes))
      (ds : List (Text × DigestIds))
      → AttestsEach es ds
      → Found m ds
      → All
          (λ (e : Text × NonEmptyVec IssuerSignedItemBytes).
            (digests : DigestIds) × (get e.0 m ≡ some digests)
            × All (IsAttested h alg digests) e.1.items)
          es
  Found-All m [] ds a f = tt
  Found-All m (e ∷ es) [] a f = absurd a
  Found-All m ((name, v) ∷ es) ((name', digests) ∷ ds) (same, own, a) f =
      ((digests, ap (λ x. get x m) same ∙ f.0, own), Found-All m es ds a f.1)

  module _ (g : Rng) (draws : ℕ) where
    digest_each-AttestsEach :
        (es : List (Text × NonEmptyVec IssuerSignedItemBytes)) (enable : Bool) (s : g.State)
        {r : List (Text × DigestIds) × g.State}
        → All (λ (e : Text × NonEmptyVec IssuerSignedItemBytes). HasApartIds e.1.items) es
        → digest_each h alg g draws es enable s ≡ ok r
        → AttestsEach es r.0
    unfolding digest_each
    digest_each-AttestsEach [] enable s {r} a e =
        let nothing : [] ≡ r.0 = ground (arith, e) in subst (λ l. AttestsEach [] l) nothing tt
    digest_each-AttestsEach ((name, v) ∷ es) enable s {r} a e =
        let (x, made, e1) = >>=_succeeds (digest_namespace h alg g draws v.items enable s) _ e in
        let (y, later, e2) = >>=_succeeds (digest_each h alg g draws es enable x.1) _ e1 in
        let all : ((name, x.0) ∷ y.0) ≡ r.0 = ground (arith, e2) in
        subst (λ l. AttestsEach ((name, v) ∷ es) l) all
          (
            refl,
            digest_namespace-IsAttested h alg g draws v.items enable s a.0 made,
            digest_each-AttestsEach es enable x.1 a.1 later,
          )

    digest_namespaces-Attests :
        (m : Map Text (NonEmptyVec IssuerSignedItemBytes)) (enable : Bool) (s : g.State)
        {r : Map Text DigestIds × g.State}
        → IsSorted m
        → All (λ (e : Text × NonEmptyVec IssuerSignedItemBytes). HasApartIds e.1.items) m
        → digest_namespaces h alg g draws m enable s ≡ ok r
        → All
            (λ (e : Text × NonEmptyVec IssuerSignedItemBytes).
              (digests : DigestIds) × (get e.0 r.0 ≡ some digests)
              × All (IsAttested h alg digests) e.1.items)
            m
    unfolding digest_namespaces
    digest_namespaces-Attests m enable s {r} sorted a e =
        let (x, made, e1) = >>=_succeeds (digest_each h alg g draws m enable s) _ e in
        let same : collect x.0 ≡ r.0 = ground (arith, e1) in
        let each = digest_each-AttestsEach m enable s a made in
        let found = collect-IsApart x.0 (same-IsApart m x.0 each (IsSorted-IsApart m sorted)) in
        Found-All r.0 m x.0 each (subst (λ l. Found l x.0) same found)

-- A credential that is prepared from namespaces in the order of a map holds every given element as
-- an item, in its namespace, with digest ids that differ within the namespace, and its MSO holds
-- for every item of the credential the digest of the item's CBOR form under the item's id.
pub prepare-Attests :
    {C : Crates} (I : Issuer C) (doc_type : Text) (namespaces : Namespaces)
    (validity_info : ValidityInfo C) (alg : DigestAlgorithm) (device_key_info : DeviceKeyInfo)
    (signature_algorithm : Algorithm) (enable_decoy_digests : Bool) (s : I.rng.State)
    {r : PreparedMdoc C × I.rng.State}
    → IsSorted namespaces
    → prepare I doc_type namespaces validity_info alg device_key_info signature_algorithm
        enable_decoy_digests s
      ≡ ok r
    → IssuesAll I.items r.0.namespaces namespaces × AttestsAll I.hashes r.0.mso r.0.namespaces
unfolding prepare
prepare-Attests {C} I doc_type namespaces validity_info alg device_key_info signature_algorithm
      enable s {r} sorted h =
    let (u, valid, h1) =
      >>=_succeeds (check_authorizations device_key_info.key_authorizations) _ h in
    let (x, made, h2) =
      >>=_succeeds (to_issuer_namespaces I.rng I.items I.draws namespaces s) _ h1 in
    let (y, digested, h3) =
      >>=_succeeds (digest_namespaces I.hashes alg I.rng I.draws x.0.entries enable x.1) _ h2 in
    let mso = mso_of alg y.0 device_key_info doc_type validity_info in
    let (t, wrapped, h4) = >>=_succeeds (encoded (Tag24.new I.msos mso)) _ h3 in
    let (b, written, h5) =
      >>=_succeeds (ok_or (I.hashes.value_to_vec (Tag24.to_cbor t)) unable_to_encode) _ h4 in
    let (p, prepared, h6) =
      >>=_succeeds (ok_or (I.prepare_cose b signature_algorithm) unable_to_prepare) _ h5 in
    let issued = to_issuer_namespaces-Issues I.items I.rng I.draws namespaces s sorted made in
    let made_of : PreparedMdoc C = record {
      doc_type = doc_type;
      mso = mso;
      namespaces = x.0;
      prepared_sig = p;
    } in
    let same : made_of ≡ r.0 = ground (arith, h6) in
    subst (λ q. IssuesAll I.items q.namespaces namespaces × AttestsAll I.hashes q.mso q.namespaces)
      same
      (
        issued.2,
        digest_namespaces-Attests I.hashes alg I.rng I.draws x.0.entries enable x.1 issued.0
            issued.1 digested,
      )
