-- ===== src/Issuance/Items/Each.antt =====
-- What `to_issuer_namespaces` makes of the given namespaces.
use isomdl.Prelude.{
  ℕ, ◌≡◌, refl, sym, ap, subst, ◌∙◌, true, false, List, [], ◌∷◌, All, some, ok, >>=_succeeds, arith,
}
use isomdl.Prelude.Int.{ℤ, eq_ℤ_iff}
use isomdl.Prelude.Text.{Text, text_eq}
use isomdl.Prelude.Map.{Map, text_ord, int_ord, get, collect, collect-IsSorted, IsSorted}
use isomdl.Prelude.Map.Collect.{
  Lacks, IsApart, IsSorted-IsApart, Found, collect-IsApart, collect-All,
}
use isomdl.Cbor.{Value}
use isomdl.Helpers.NonEmptyVec.{NonEmptyVec}
use isomdl.Helpers.NonEmptyVec
use isomdl.Helpers.NonEmptyMap.{NonEmptyMap}
use isomdl.Helpers.NonEmptyMap
use isomdl.Helpers.Tag24.{Codec}
use isomdl.Documents.{IssuerSignedItem, IssuerSignedItemBytes, IssuerNamespaces}
use isomdl.Issuance.Random.{Rng, used}
use isomdl.Issuance.Items.{
  Namespaces, issue_items, to_issuer_signed_items, each_namespace, to_issuer_namespaces, non_empty,
  non_empty_map,
}
use isomdl.Issuance.Items.Ids.{Issues, issue_items-Issues}
use isomdl.Issuance.Digests.{ids_of}
use isomdl.Issuance.Digests.Attests.{HasApartIds}

module _ (items : Codec IssuerSignedItem) where
  Issues-avoid :
      (used_ids : List ℤ) (ts : List IssuerSignedItemBytes) (es : Map Text Value)
      → Issues items used_ids ts es
      → (i : ℤ) → used i used_ids ≡ true
      → used i (ids_of ts) ≡ false
  unfolding used
  Issues-avoid used_ids [] es h i u = refl
  Issues-avoid used_ids (t ∷ ts) [] h i u = absurd h
  Issues-avoid used_ids (t ∷ ts) ((k, v) ∷ es) (a, b, c, d, later) i u = ground (
    arith,
    c,
    u,
    eq_ℤ_iff t.inner.digest_id i,
    Issues-avoid (t.inner.digest_id ∷ used_ids) ts es later i (ground (arith, u)),
  )

  Issues-HasApartIds :
      (used_ids : List ℤ) (ts : List IssuerSignedItemBytes) (es : Map Text Value)
      → Issues items used_ids ts es
      → HasApartIds ts
  unfolding used
  Issues-HasApartIds used_ids [] es h = tt
  Issues-HasApartIds used_ids (t ∷ ts) [] h = absurd h
  Issues-HasApartIds used_ids (t ∷ ts) ((k, v) ∷ es) (a, b, c, d, later) = (
    Issues-avoid (t.inner.digest_id ∷ used_ids) ts es later t.inner.digest_id
        (ground (arith, eq_ℤ_iff t.inner.digest_id t.inner.digest_id)),
    Issues-HasApartIds (t.inner.digest_id ∷ used_ids) ts es later,
  )

  -- the namespaces in turn, each with its items
  abbrev IssuesEach : List (Text × NonEmptyVec IssuerSignedItemBytes) → Namespaces → Type 0
  IssuesEach [] [] = Unit
  IssuesEach [] (n ∷ ns) = ⊥
  IssuesEach (e ∷ es) [] = ⊥
  IssuesEach ((name, v) ∷ es) ((name', elements) ∷ ns) =
      (name ≡ name') × Issues items [] v.items elements × IssuesEach es ns

  -- every given namespace is there, with items for its elements
  abbrev pub IssuesAll : IssuerNamespaces → Namespaces → Type 0
  IssuesAll m [] = Unit
  IssuesAll m ((name, elements) ∷ ns) =
      ((v : NonEmptyVec IssuerSignedItemBytes) × (get name m.entries ≡ some v)
        × Issues items [] v.items elements)
      × IssuesAll m ns

  non_empty_items :
      (l : List IssuerSignedItemBytes) {v : NonEmptyVec IssuerSignedItemBytes}
      → non_empty (NonEmptyVec.try_from l) ≡ ok v
      → l ≡ v.items
  unfolding NonEmptyVec.try_from
  non_empty_items [] h = absurd (cc)
  non_empty_items (t ∷ l) h = ground (arith, h)

  same-Lacks :
      (k : Text) (es : List (Text × NonEmptyVec IssuerSignedItemBytes)) (ns : Namespaces)
      → IssuesEach es ns
      → Lacks k ns
      → Lacks k es
  same-Lacks k [] ns h l = tt
  same-Lacks k (e ∷ es) [] h l = absurd h
  same-Lacks k ((name, v) ∷ es) ((name', elements) ∷ ns) (same, own, h) l =
      (ap (λ x. text_eq x k) same ∙ l.0, same-Lacks k es ns h l.1)

  same-IsApart :
      (es : List (Text × NonEmptyVec IssuerSignedItemBytes)) (ns : Namespaces)
      → IssuesEach es ns
      → IsApart ns
      → IsApart es
  same-IsApart [] ns h a = tt
  same-IsApart (e ∷ es) [] h a = absurd h
  same-IsApart ((name, v) ∷ es) ((name', elements) ∷ ns) (same, own, h) a =
      (same-Lacks name es ns h (subst (λ x. Lacks x ns) (sym same) a.0), same-IsApart es ns h a.1)

  each-HasApartIds :
      (es : List (Text × NonEmptyVec IssuerSignedItemBytes)) (ns : Namespaces)
      → IssuesEach es ns
      → All (λ (e : Text × NonEmptyVec IssuerSignedItemBytes). HasApartIds e.1.items) es
  each-HasApartIds [] ns h = tt
  each-HasApartIds (e ∷ es) [] h = absurd h
  each-HasApartIds ((name, v) ∷ es) ((name', elements) ∷ ns) (same, own, h) =
      (Issues-HasApartIds [] v.items elements own, each-HasApartIds es ns h)

  Found-IssuesAll :
      (m : IssuerNamespaces) (es : List (Text × NonEmptyVec IssuerSignedItemBytes))
      (ns : Namespaces)
      → IssuesEach es ns
      → Found m.entries es
      → IssuesAll m ns
  Found-IssuesAll m [] [] h f = tt
  Found-IssuesAll m [] (n ∷ ns) h f = absurd h
  Found-IssuesAll m (e ∷ es) [] h f = absurd h
  Found-IssuesAll m ((name, v) ∷ es) ((name', elements) ∷ ns) (same, own, h) f =
      ((v, ap (λ x. get x m.entries) (sym same) ∙ f.0, own), Found-IssuesAll m es ns h f.1)

  non_empty_entries :
      (l : Map Text (NonEmptyVec IssuerSignedItemBytes)) {m : IssuerNamespaces}
      → non_empty_map (NonEmptyMap.try_from l) ≡ ok m
      → l ≡ m.entries
  unfolding NonEmptyMap.try_from
  non_empty_entries [] h = absurd (cc)
  non_empty_entries (e ∷ l) h = ground (arith, h)

  module _ (g : Rng) (draws : ℕ) where
    signed_items-Issues :
        (elements : Map Text Value) (s : g.State) {r : NonEmptyVec IssuerSignedItemBytes × g.State}
        → to_issuer_signed_items g items draws elements s ≡ ok r
        → Issues items [] r.0.items elements
    unfolding to_issuer_signed_items
    signed_items-Issues elements s {r} h =
        let (x, made, h1) = >>=_succeeds (issue_items g items draws [] elements s) _ h in
        let (v, full, h2) = >>=_succeeds (non_empty (NonEmptyVec.try_from x.0)) _ h1 in
        let same : v ≡ r.0 = ground (arith, h2) in
        subst (λ l. Issues items [] l elements) (non_empty_items x.0 full ∙ ap (λ w. w.items) same)
          (issue_items-Issues items g draws [] elements s made)

    each_namespace-IssuesEach :
        (ns : Namespaces) (s : g.State)
        {r : List (Text × NonEmptyVec IssuerSignedItemBytes) × g.State}
        → each_namespace g items draws ns s ≡ ok r
        → IssuesEach r.0 ns
    unfolding each_namespace
    each_namespace-IssuesEach [] s {r} h =
        let nothing : [] ≡ r.0 = ground (arith, h) in subst (λ l. IssuesEach l []) nothing tt
    each_namespace-IssuesEach ((name, elements) ∷ ns) s {r} h =
        let (x, made, h1) = >>=_succeeds (to_issuer_signed_items g items draws elements s) _ h in
        let (y, later, h2) = >>=_succeeds (each_namespace g items draws ns x.1) _ h1 in
        let all : ((name, x.0) ∷ y.0) ≡ r.0 = ground (arith, h2) in
        subst (λ l. IssuesEach l ((name, elements) ∷ ns)) all
          (refl, signed_items-Issues elements s made, each_namespace-IssuesEach ns x.1 later)

    -- The namespaces of a result are the given ones, each with items for its elements, and its
    -- entries are in order.
    pub to_issuer_namespaces-Issues :
        (ns : Namespaces) (s : g.State) {r : IssuerNamespaces × g.State}
        → IsSorted ns
        → to_issuer_namespaces g items draws ns s ≡ ok r
        → IsSorted r.0.entries
          × All
              (λ (e : Text × NonEmptyVec IssuerSignedItemBytes). HasApartIds e.1.items)
              r.0.entries
          × IssuesAll r.0 ns
    unfolding to_issuer_namespaces
    to_issuer_namespaces-Issues ns s {r} sorted h =
        let (x, made, h1) = >>=_succeeds (each_namespace g items draws ns s) _ h in
        let (m, full, h2) =
          >>=_succeeds (non_empty_map (NonEmptyMap.try_from (collect x.0))) _ h1 in
        let same : m ≡ r.0 = ground (arith, h2) in
        let entries : collect x.0 ≡ r.0.entries =
          non_empty_entries (collect x.0) full ∙ ap (λ w. w.entries) same in
        let each = each_namespace-IssuesEach ns s made in
        let found = collect-IsApart x.0 (same-IsApart x.0 ns each (IsSorted-IsApart ns sorted)) in
        (
          subst (λ l. IsSorted l) entries (collect-IsSorted x.0),
          subst
              (λ l. All (λ (e : Text × NonEmptyVec IssuerSignedItemBytes). HasApartIds e.1.items) l)
              entries (collect-All _ x.0 (each-HasApartIds x.0 ns each)),
          Found-IssuesAll r.0 x.0 ns each (subst (λ l. Found l x.0) entries found),
        )
