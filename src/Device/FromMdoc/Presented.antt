-- ===== src/Device/FromMdoc/Presented.antt =====
-- The items that a device presents have digests in the MSO that the issuer signed.
use mathlib.Core.List.{Memᴰ}
use isomdl.Prelude.{
  ◌≡◌, refl, subst, ◌∙◌, List, [], ◌∷◌, map, All, some, Option-cases, inl, inr, arith,
}
use isomdl.Prelude.Text.{Text}
use isomdl.Prelude.Map.{Map, text_ord, int_ord, get, collect}
use isomdl.Prelude.Map.Collect.{collect-All, get-All}
use isomdl.Crates.{Crates}
use isomdl.Helpers.NonEmptyVec.{NonEmptyVec}
use isomdl.Helpers.NonEmptyMap.{NonEmptyMap}
use isomdl.Helpers.NonEmptyMap
use isomdl.Documents.{Mso, IssuerSignedItemBytes}
use isomdl.Issuance.Digests.{Hashes, DigestIds}
use isomdl.Issuance.Digests.Attests.{IsAttested}
use isomdl.Issuance.Mdoc.{Mdoc}
use isomdl.Issuance.Mdoc.Attests.{AttestsAll}
use isomdl.Device.Types.{Document, Documents, PreparedDocument}
use isomdl.Device.Filter.{RequestedItems, PermittedItems}
use isomdl.Device.Filter.Exact.{IsMap}
use isomdl.Device.Prepare.{Encoders, prepare_response}
use isomdl.Device.Prepare.Items.{held_by}
use isomdl.Device.Prepare.Disclosure.{returned, IsFaithful, prepare_response-IsFaithful}
use isomdl.Device.FromMdoc.{by_identifier, extract, extract_each, from_mdoc}

maybe_new-entries :
    {V : Type 0} (l : Map Text V) {m : NonEmptyMap Text V}
    → NonEmptyMap.maybe_new l ≡ some m
    → l ≡ m.entries
unfolding NonEmptyMap.maybe_new
maybe_new-entries [] h = absurd (cc)
maybe_new-entries (e ∷ l) h = ground (arith, h)

by_identifier-All :
    (P : IssuerSignedItemBytes → Type 0) (ts : List IssuerSignedItemBytes)
    → All P ts
    → All (λ (e : Text × IssuerSignedItemBytes). P e.1) (map by_identifier ts)
by_identifier-All P [] h = tt
by_identifier-All P (t ∷ ts) h = (h.0, by_identifier-All P ts h.1)

module _ (P : Text → IssuerSignedItemBytes → Type 0) where
  extract-All :
      (n : Text) (v : NonEmptyVec IssuerSignedItemBytes)
      {m : NonEmptyMap Text IssuerSignedItemBytes}
      → All (P n) v.items
      → extract v ≡ some m
      → All (λ (e : Text × IssuerSignedItemBytes). P n e.1) m.entries
  unfolding extract
  extract-All n v h e =
      subst (λ l. All (λ (x : Text × IssuerSignedItemBytes). P n x.1) l)
        (maybe_new-entries (collect (map by_identifier v.items)) e)
        (collect-All _ (map by_identifier v.items) (by_identifier-All (P n) v.items h))

  extract_each-All :
      (es : List (Text × NonEmptyVec IssuerSignedItemBytes))
      {ms : List (Text × NonEmptyMap Text IssuerSignedItemBytes)}
      → All (λ (e : Text × NonEmptyVec IssuerSignedItemBytes). All (P e.0) e.1.items) es
      → extract_each es ≡ some ms
      → All
          (λ (e : Text × NonEmptyMap Text IssuerSignedItemBytes).
            All (λ (x : Text × IssuerSignedItemBytes). P e.0 x.1) e.1.entries)
          ms
  unfolding extract_each
  extract_each-All [] {ms} h e =
      let nothing : [] ≡ ms = ground (arith, e) in
      subst
        (λ l.
          All
            (λ (e : Text × NonEmptyMap Text IssuerSignedItemBytes).
              All (λ (x : Text × IssuerSignedItemBytes). P e.0 x.1) e.1.entries)
            l)
        nothing tt
  extract_each-All ((n, v) ∷ es) {ms} h e = elim (Option-cases (extract v)) [
    | inl gone ↦ absurd (ground (arith, gone, e))
    | inr (m, got) ↦ elim (Option-cases (extract_each es)) [
      | inl gone ↦ absurd (ground (arith, got, gone, e))
      | inr (rest, got') ↦
          let all : ((n, m) ∷ rest) ≡ ms = ground (arith, got, got', e) in
          subst
            (λ l.
              All
                (λ (e : Text × NonEmptyMap Text IssuerSignedItemBytes).
                  All (λ (x : Text × IssuerSignedItemBytes). P e.0 x.1) e.1.entries)
                l)
            all (extract-All n v h.0 got, extract_each-All es h.1 got')
    ]
  ]

-- An item of a namespace with its digest in an MSO.
abbrev pub HasDigest : {C : Crates} → Hashes → Mso C → Text → IssuerSignedItemBytes → Type 0
HasDigest h mso n item =
    (digests : DigestIds) × (get n mso.value_digests ≡ some digests)
    × IsAttested h mso.digest_algorithm digests item

-- A document made from a credential whose items are attested.
abbrev pub IsIssued : {C : Crates} → Hashes → Document C → Type 0
IsIssued {C} h d =
    (id : C.Uuid) × (m : Mdoc C) × AttestsAll h m.mso m.namespaces × (from_mdoc id m ≡ some d)

-- what holds of every item of every namespace
abbrev Everywhere :
    (Text → IssuerSignedItemBytes → Type 0)
    → List (Text × NonEmptyMap Text IssuerSignedItemBytes)
    → Type 0
Everywhere P ms =
    All
      (λ (e : Text × NonEmptyMap Text IssuerSignedItemBytes).
        All (λ (x : Text × IssuerSignedItemBytes). P e.0 x.1) e.1.entries)
      ms

module _ {C : Crates} (h : Hashes) where
  each_attested :
      (digests : DigestIds) (mso : Mso C) (n : Text)
      → get n mso.value_digests ≡ some digests
      → (ts : List IssuerSignedItemBytes) → All (IsAttested h mso.digest_algorithm digests) ts
      → All (HasDigest h mso n) ts
  each_attested digests mso n at [] a = tt
  each_attested digests mso n at (t ∷ ts) a =
      ((digests, at, a.0), each_attested digests mso n at ts a.1)

  All-attested :
      (mso : Mso C) (es : List (Text × NonEmptyVec IssuerSignedItemBytes))
      → All
          (λ (e : Text × NonEmptyVec IssuerSignedItemBytes).
            (digests : DigestIds) × (get e.0 mso.value_digests ≡ some digests)
            × All (IsAttested h mso.digest_algorithm digests) e.1.items)
          es
      → All
          (λ (e : Text × NonEmptyVec IssuerSignedItemBytes). All (HasDigest h mso e.0) e.1.items)
          es
  All-attested mso [] a = tt
  All-attested mso ((n, v) ∷ es) ((digests, at, own), a) =
      (each_attested digests mso n at v.items own, All-attested mso es a)

  document-Everywhere :
      (d : Document C) → IsIssued h d → Everywhere (HasDigest h d.mso) d.namespaces.entries
  unfolding from_mdoc
  document-Everywhere d (id, m, attests, made) =
      elim (Option-cases (extract_each m.namespaces.entries)) [
        | inl gone ↦ absurd (ground (arith, gone, made))
        | inr (ms, got) ↦ elim (Option-cases (NonEmptyMap.maybe_new (collect ms))) [
          | inl gone ↦ absurd (ground (arith, got, gone, made))
          | inr (w, full) ↦
              let same_mso : m.mso ≡ d.mso = ground (arith, got, full, made) in
              let same : collect ms ≡ d.namespaces.entries =
                maybe_new-entries (collect ms) full ∙ ground (arith, got, full, made) in
              subst (λ mso. Everywhere (HasDigest h mso) d.namespaces.entries) same_mso
                (subst (λ l. Everywhere (HasDigest h m.mso) l) same
                  (collect-All _ ms (
                    extract_each-All (HasDigest h m.mso) m.namespaces.entries
                      (All-attested m.mso m.namespaces.entries attests) got)))
        ]
      ]

  -- an item that the device holds has its digest in the credential's MSO
  held-HasDigest :
      (d : Document C) (n e : Text) {item : IssuerSignedItemBytes}
      → IsIssued h d
      → held_by d n e ≡ some item
      → HasDigest h d.mso n item
  held-HasDigest d n e {item} issued held = elim (Option-cases (get n d.namespaces.entries)) [
    | inl gone ↦ absurd (ground (arith, gone, held))
    | inr (items, at) ↦
        let own = get-All _ n d.namespaces.entries (document-Everywhere d issued) at in
        get-All (λ (x : Text × IssuerSignedItemBytes). HasDigest h d.mso n x.1) e items.entries own
          (ground (arith, at, held))
  ]

-- what holds of every member
from_members : {A : Type 0} (P : A → Type 0) (xs : List A) → ((x : A) → Memᴰ x xs → P x) → All P xs
from_members P [] f = tt
from_members P (x ∷ xs) f = (f x (Memᴰ.head refl), from_members P xs (λ y m. f y (Memᴰ.tail m)))

All-map :
    {A : Type 0} (P Q : A → Type 0) → ((x : A) → P x → Q x) → (xs : List A) → All P xs → All Q xs
All-map P Q f [] h = tt
All-map P Q f (x ∷ xs) h = (f x h.0, All-map P Q f xs h.1)

-- A prepared document returns only items with digests in the MSO of the holder's document for its
-- document type.
abbrev pub IsBacked : {C : Crates} → Hashes → Documents C → PreparedDocument C → Type 0
IsBacked {C} h docs doc =
    (document : Document C) × (get doc.doc_type docs.entries ≡ some document)
    × ((n : Text) → All (HasDigest h document.mso n) (returned doc n))

-- If every document of the holder was made from a credential whose MSO has the digests of its
-- items, then every item in a prepared response, whatever is requested and permitted, has its
-- digest under its id in the MSO of the credential that it is presented with.
pub prepare_response-IsBacked :
    {C : Crates} {S : Type 0} (h : Hashes) (docs : Documents C) (r : RequestedItems)
    (p : PermittedItems) (enc : Encoders S) (transcript : S)
    → IsMap p
    → All (λ (e : Text × Document C). IsIssued h e.1) docs.entries
    → All (IsBacked h docs) (prepare_response enc docs transcript r p).prepared_documents
prepare_response-IsBacked {C} h docs r p enc transcript sorted issued =
    All-map (IsFaithful docs r p) (IsBacked h docs)
      (λ doc faithful. (
        faithful.document,
        faithful.owned,
        λ n. from_members (HasDigest h faithful.document.mso n) (returned doc n) (λ item m.
            let (e, allowed, held) = faithful.sound n item m in
            held-HasDigest h faithful.document n e
              (get-All _ doc.doc_type docs.entries issued faithful.owned) held),
      ))
      (prepare_response enc docs transcript r p).prepared_documents
      (prepare_response-IsFaithful docs r p enc transcript sorted)
