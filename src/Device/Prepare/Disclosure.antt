-- ===== src/Device/Prepare/Disclosure.antt =====
-- What `prepare_response` of src/presentation/device.rs discloses.
use mathlib.Core.List.{Memᴰ}
use isomdl.Prelude.{
  ◌≡◌, refl, ap, sym, subst, ◌∙◌, Bool, true, not, ◌&&◌, List, [], ◌∷◌, ◌++◌, Option, none, some,
  Option-cases, Bool-cases, ◌⊎◌, inl, inr, All, filter_map, add_some, Result, ok, err, arith, find,
}
use isomdl.Prelude.Text.{Text, text_eq, text_eq_iff, member, member-append}
use isomdl.Prelude.Map.{
  Map, text_ord, get, bind, IsSorted, Below-get, collect, collect-IsSorted, filter_values,
  get-collect-filter_values, Entries, Entries-self,
}
use isomdl.Crates.{Crates}
use isomdl.Documents.{IssuerSignedItemBytes, ItemsRequest, DocumentError}
use isomdl.Device.Filter.{
  RequestedItems, Elements, PermittedItems, filter_elements, filter_namespaces, filter_permitted,
}
use isomdl.Device.Filter.Exact.{IsMap, lists, requests, listed_in, filter_permitted_exact}
use isomdl.Device.Types.{Document, Documents, PreparedDocument}
use isomdl.Helpers.NonEmptyMap
use isomdl.Device.Prepare.{
  Encoders, gather_all, prepare_document, prepare_documents, prepare_response, Pushed, push_result,
}
use isomdl.Device.Prepare.Items.{
  elements_at, vec_items, error_of, is_some, held_by, gather_all_exact,
}

-- `elements_at` of a map reads its one entry
elements_at-IsSorted :
    (n e : Text) (m : Elements) → IsSorted m → member e (elements_at n m) ≡ listed_in e (get n m)
unfolding elements_at get
elements_at-IsSorted n e [] h = refl
elements_at-IsSorted n e ((k, es) ∷ m) h = elim (Bool-cases (text_eq k n)) [
  | inl same ↦
      let gone : get n m ≡ none =
        subst (λ x. get x m ≡ none) ((text_eq_iff k n).0 same) (Below-get k m h.0) in
      ground
        (arith, same, gone, elements_at-IsSorted n e m h.1, member-append e es (elements_at n m))
  | inr other ↦ ground (arith, other, elements_at-IsSorted n e m h.1)
]

namespaces-IsSorted :
    (r : RequestedItems) (d : Text) (m : Elements) {m' : Elements}
    → filter_namespaces r d m ≡ some m'
    → IsSorted m'
unfolding filter_namespaces
namespaces-IsSorted r d m {m'} h =
    elim (Option-cases (find (λ (item : ItemsRequest). text_eq item.doc_type d) r)) [
      | inl missing ↦ absurd (ground (arith, missing))
      | inr (item, found) ↦
          let made : collect (filter_values (filter_elements item) m) ≡ m' =
            ground (arith, found) in
          subst (λ x. IsSorted x) made (collect-IsSorted (filter_values (filter_elements item) m))
    ]

-- permitted, and requested
abbrev pub allowed : RequestedItems → PermittedItems → Text → Text → Text → Bool
allowed r p d n e = lists p d n e && requests r d n e

module _ (r : RequestedItems) (p : PermittedItems) (h : IsMap p) where
  entry-IsSorted : (d : Text) (m : Elements) → get d (filter_permitted r p) ≡ some m → IsSorted m
  unfolding filter_permitted
  entry-IsSorted d m at = elim (Option-cases (get d p)) [
    | inl missing ↦
        absurd (ground (arith, missing, get-collect-filter_values (filter_namespaces r) d p h.0))
    | inr (all, found) ↦
        namespaces-IsSorted r d all
          (ground (arith, found, get-collect-filter_values (filter_namespaces r) d p h.0))
  ]

  entry_exact :
      (d : Text) (m : Elements)
      → get d (filter_permitted r p) ≡ some m
      → (n e : Text) → member e (elements_at n m) ≡ allowed r p d n e
  entry_exact d m at n e =
      elements_at-IsSorted n e m (entry-IsSorted d m at)
      ∙ rw at at (filter_permitted_exact r p d n e h)

-- Membership in the outputs of a `filter_map` over texts.
module _ {B : Type 0} (f : Text → Option B) where
  from_add :
      (o : Option B) (ys : List B) (b : B) → Memᴰ b (add_some o ys) → (o ≡ some b) ⊎ Memᴰ b ys
  from_add none ys b m = inr m
  from_add (some y) ys b (Memᴰ.head e) = inl (ap some (sym e))
  from_add (some y) ys b (Memᴰ.tail m) = inr m

  to_add : (o : Option B) (ys : List B) (b : B) → (o ≡ some b) ⊎ Memᴰ b ys → Memᴰ b (add_some o ys)
  to_add none ys b (inl e) = absurd (cc)
  to_add none ys b (inr m) = m
  to_add (some y) ys b (inl e) = Memᴰ.head (ground arith)
  to_add (some y) ys b (inr m) = Memᴰ.tail m

  from_filter_map :
      (xs : List Text) (b : B)
      → Memᴰ b (filter_map f xs)
      → (e : Text) × (member e xs ≡ true) × (f e ≡ some b)
  from_filter_map [] b m = elim m [ ]
  from_filter_map (x ∷ xs) b m = elim (from_add (f x) (filter_map f xs) b m) [
    | inl e ↦ (x, ground (arith, text_eq_iff x x), e)
    | inr later ↦ let (e, there, at) = from_filter_map xs b later in (e, ground (arith, there), at)
  ]

  to_filter_map :
      (xs : List Text) (e : Text) (b : B)
      → member e xs ≡ true
      → f e ≡ some b
      → Memᴰ b (filter_map f xs)
  to_filter_map [] e b h k = absurd (cc)
  to_filter_map (x ∷ xs) e b h k =
      to_add (f x) (filter_map f xs) b (elim (Bool-cases (text_eq x e)) [
        | inl same ↦ inl (ap f ((text_eq_iff x e).0 same) ∙ k)
        | inr other ↦ inr (to_filter_map xs e b (ground (arith, other)) k)
      ])

get-maybe_new {ℓ} :
    {V : Type ℓ} (n : Text) (v : Map Text V)
    → bind (NonEmptyMap.maybe_new v) (λ m. get n m.entries) ≡ get n v
unfolding NonEmptyMap.maybe_new get
get-maybe_new n [] = refl
get-maybe_new n (e ∷ v) = refl

module _ {C : Crates} where
  -- the items returned for a namespace, and whether an element has an error
  abbrev pub returned : PreparedDocument C → Text → List IssuerSignedItemBytes
  returned doc n = vec_items (bind doc.issuer_signed.namespaces (λ m. get n m.entries))

  abbrev pub reported : PreparedDocument C → Text → Text → Bool
  reported doc n e = error_of e (bind doc.errors (λ m. get n m.entries))

module _ {C : Crates} (docs : Documents C) (r : RequestedItems) (p : PermittedItems) where
  -- A prepared document stands for a document of the holder. It returns the items of exactly the
  -- elements that are permitted, requested and held, and reports exactly those that are permitted
  -- and requested but not held.
  pub record IsFaithful (doc : PreparedDocument C) : Type 0 where
    pub document : Document C
    pub owned : get doc.doc_type docs.entries ≡ some document
    pub same_auth : doc.issuer_signed.issuer_auth ≡ document.issuer_auth
    pub sound :
        (n : Text) (item : IssuerSignedItemBytes)
        → Memᴰ item (returned doc n)
        → (e : Text) × (allowed r p doc.doc_type n e ≡ true) × (held_by document n e ≡ some item)
    pub complete :
        (n e : Text) (item : IssuerSignedItemBytes)
        → allowed r p doc.doc_type n e ≡ true
        → held_by document n e ≡ some item
        → Memᴰ item (returned doc n)
    pub errors_exact :
        (n e : Text)
        → reported doc n e ≡ (allowed r p doc.doc_type n e && not (is_some (held_by document n e)))

  module _ {S : Type 0} (enc : Encoders S) (transcript : S) where
    -- what a prepared document is made of
    made_of :
        (d : Text) (m : Elements) (doc : PreparedDocument C)
        → prepare_document enc docs transcript d m ≡ ok doc
        → (document : Document C) × (get d docs.entries ≡ some document)
          × (doc.doc_type ≡ d)
          × (doc.issuer_signed.issuer_auth ≡ document.issuer_auth)
          × (doc.issuer_signed.namespaces
              ≡ NonEmptyMap.maybe_new (gather_all document m).issuer_namespaces)
          × (doc.errors ≡ NonEmptyMap.maybe_new (gather_all document m).errors)
    unfolding prepare_document
    made_of d m doc h = elim (Option-cases (get d docs.entries)) [
      | inl missing ↦ absurd (ground (arith, missing))
      | inr (document, found) ↦ (
        document,
        found,
        ground (arith, found),
        ground (arith, found),
        ground (arith, found),
        ground (arith, found),
      )
    ]

    module _ (h : IsMap p) where
      prepare_document-IsFaithful :
          (d : Text) (m : Elements) (doc : PreparedDocument C)
          → get d (filter_permitted r p) ≡ some m
          → prepare_document enc docs transcript d m ≡ ok doc
          → IsFaithful doc
      prepare_document-IsFaithful d m doc at made =
          let (document, owned, type, auth, nss, errs) = made_of d m doc made in
          let items : ((n : Text)
              → returned doc n ≡ filter_map (held_by document n) (elements_at n m)) =
            λ n.
              ap (λ o. vec_items (bind o (λ v. get n v.entries))) nss
              ∙ ap vec_items (get-maybe_new n (gather_all document m).issuer_namespaces)
              ∙ (gather_all_exact document m n).0 in
          let exact : ((n e : Text) → member e (elements_at n m) ≡ allowed r p doc.doc_type n e) =
            λ n e. entry_exact r p h d m at n e ∙ ap (λ t. allowed r p t n e) (sym type) in
          record {
            document = document;
            owned = ap (λ t. get t docs.entries) type ∙ owned;
            same_auth = auth;
            sound = λ n item there.
                let (e, named, held) =
                  from_filter_map (held_by document n) (elements_at n m) item
                    (subst (λ l. Memᴰ item l) (items n) there) in
                (e, sym (exact n e) ∙ named, held);
            complete = λ n e item named held.
                subst (λ l. Memᴰ item l) (sym (items n))
                  (to_filter_map (held_by document n) (elements_at n m) e item (exact n e ∙ named)
                    held);
            errors_exact = λ n e.
                ap (λ o. error_of e (bind o (λ v. get n v.entries))) errs
                ∙ ap (error_of e) (get-maybe_new n (gather_all document m).errors)
                ∙ (gather_all_exact document m n).1 e
                ∙ ap (λ b. b && not (is_some (held_by document n e))) (exact n e);
          }

      All-append :
          (xs : List (PreparedDocument C)) (doc : PreparedDocument C)
          → All IsFaithful xs
          → IsFaithful doc
          → All IsFaithful (xs ++ doc ∷ [])
      All-append [] doc hs hd = (hd, tt)
      All-append (x ∷ xs) doc hs hd = (hs.0, All-append xs doc hs.1 hd)

      turn-IsFaithful :
          (d : Text) (m : Elements) (l : Pushed C)
          → get d (filter_permitted r p) ≡ some m
          → All IsFaithful l.0
          → (x : Result DocumentError (PreparedDocument C))
          → prepare_document enc docs transcript d m ≡ x
          → All IsFaithful (push_result x l).0
      turn-IsFaithful d m (prepared, errors) at done (ok doc) e =
          All-append prepared doc done (prepare_document-IsFaithful d m doc at e)
      turn-IsFaithful d m (prepared, errors) at done (err _) e = done

      loop-IsFaithful :
          (entries : PermittedItems) (l : Pushed C)
          → Entries (filter_permitted r p) entries
          → All IsFaithful l.0
          → All IsFaithful (prepare_documents enc docs transcript entries l).0
      unfolding prepare_documents
      loop-IsFaithful [] l hs done = done
      loop-IsFaithful ((d, m) ∷ rest) l hs done =
          loop-IsFaithful rest (push_result (prepare_document enc docs transcript d m) l) hs.1
            (turn-IsFaithful d m l hs.0 done _ refl)

      filtered-IsSorted : IsSorted (filter_permitted r p)
      unfolding filter_permitted
      filtered-IsSorted = collect-IsSorted (filter_values (filter_namespaces r) p)

      -- With the permitted items in the order of a map, every document that `prepare_response`
      -- prepares is one of the holder's, and returns the
      -- items of exactly the elements that are permitted, requested and held, with an error for
      -- exactly those that are permitted and requested but not held.
      pub prepare_response-IsFaithful :
          All IsFaithful (prepare_response enc docs transcript r p).prepared_documents
      unfolding prepare_response
      prepare_response-IsFaithful =
          loop-IsFaithful (filter_permitted r p) ([], []) (Entries-self _ filtered-IsSorted) tt
