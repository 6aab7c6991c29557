-- ===== src/Reader/Response/Presented.antt =====
-- Where the elements that `handle_response` (src/presentation/reader.rs) shows come from.
use isomdl.Prelude.{
  ◌≡◌, ◌≢◌, ◌⊎◌, Bool-cases, refl, sym, subst, Option-cases, ◌∙◌, List, [], ◌∷◌, All, Option, some,
  ok, err, ok_or, ok_or-eq-ok, Outcome, returns, panics, and_then-eq-ok, unwrapped-eq-ok, arith,
  inl, inr,
}
use isomdl.Prelude.Int.{ℤ}
use isomdl.Prelude.Text.{Text, codes, text_eq, text_eq_iff}
use isomdl.Prelude.Map.{Map, get, insert, remove, get-remove, text_ord}
use isomdl.Prelude.Map.Collect.{insert-All}
use isomdl.Crates.{Crates}
use isomdl.Helpers.NonEmptyVec.{NonEmptyVec}
use isomdl.Documents.{DeviceResponse, ResponseDocument, IssuerSignedItemBytes}
use isomdl.Reader.Json.{Json, parse_response}
use isomdl.Reader.Json
use isomdl.Reader.Response.{
  Shown, insert_shown, show_items, show_aamva, show_response, find_doc, documents_of, entries_of,
  document_type_error, incorrect_namespace,
}

returned :
    {E A : Type 0} {a b : A} → ◌≡◌ {A = Outcome E A} (returns (ok a)) (returns (ok b)) → a ≡ b
returned h = cc

-- the first document of the type
abbrev pub IsFirst : {C : Crates} → Text → List (ResponseDocument C) → ResponseDocument C → Type 0
IsFirst t [] doc = ⊥
IsFirst t (d ∷ ds) doc = ((d.doc_type ≡ t) × (d ≡ doc)) ⊎ ((d.doc_type ≢ t) × IsFirst t ds doc)

find_doc-IsFirst :
    {C : Crates} (t : Text) (ds : List (ResponseDocument C)) {doc : ResponseDocument C}
    → find_doc t ds ≡ some doc
    → IsFirst t ds doc
unfolding find_doc
find_doc-IsFirst t [] h = cc
find_doc-IsFirst t (d ∷ ds) h = elim (Bool-cases (text_eq d.doc_type t)) [
  | inl e ↦ inl ((text_eq_iff d.doc_type t).0 e, ground (arith, h, e))
  | inr e ↦ inr (
    (λ same. absurd (ground (arith, (text_eq_iff d.doc_type t).1 same, e))),
    find_doc-IsFirst t ds (rw e at h),
  )
]

module _ (to_value : ℤ → Option Json) where
  -- one of the items has the identifier and the value
  pub IsValueOf : List IssuerSignedItemBytes → Text × Json → Type 0
  IsValueOf [] e = ⊥
  IsValueOf (item ∷ items) (k, j) =
      ((item.inner.element_identifier ≡ k)
        × (parse_response to_value item.inner.element_value ≡ returns (ok j)))
      ⊎ IsValueOf items (k, j)

  -- a predicate that the items' values have under their identifiers
  abbrev Gives : (Text × Json → Type 0) → List IssuerSignedItemBytes → Type 0
  Gives Q [] = Unit
  Gives Q (item ∷ items) =
      ((j : Json)
        → parse_response to_value item.inner.element_value ≡ returns (ok j)
        → Q (item.inner.element_identifier, j))
      × Gives Q items

  Gives-map :
      (P Q : Text × Json → Type 0) (items : List IssuerSignedItemBytes)
      → ((e : Text × Json) → P e → Q e)
      → Gives P items
      → Gives Q items
  Gives-map P Q [] f h = tt
  Gives-map P Q (item ∷ items) f h = ((λ j e. f _ (h.0 j e)), Gives-map P Q items f h.1)

  Gives-IsValueOf : (items : List IssuerSignedItemBytes) → Gives (IsValueOf items) items
  unfolding IsValueOf
  Gives-IsValueOf [] = tt
  Gives-IsValueOf (item ∷ items) = (
    (λ j e. inl (refl, e)),
    Gives-map (IsValueOf items) (IsValueOf (item ∷ items)) items (λ e h. inr h)
        (Gives-IsValueOf items),
  )

  insert_shown-All :
      (Q : Text × Json → Type 0) (k : Text) (o : Outcome Json.Error Json) (m : Map Text Json)
      {m' : Map Text Json}
      → ((j : Json) → o ≡ returns (ok j) → Q (k, j))
      → All Q m
      → insert_shown to_value k o m ≡ returns (ok m')
      → All Q m'
  insert_shown-All Q k panics m f h g = absurd (ground (arith, g))
  insert_shown-All Q k (returns (err e)) m f h g = subst (All Q) (returned g) h
  insert_shown-All Q k (returns (ok j)) m f h g =
      subst (All Q) (returned g) (insert-All Q k j m (f j refl) h)

  show_items-All :
      (Q : Text × Json → Type 0) (items : List IssuerSignedItemBytes) (m : Map Text Json)
      {shown : Map Text Json}
      → Gives Q items
      → All Q m
      → show_items to_value items m ≡ returns (ok shown)
      → All Q shown
  unfolding show_items
  show_items-All Q [] m f h g = subst (All Q) (returned g) h
  show_items-All Q (item ∷ items) m f h g =
      let parsed = parse_response to_value item.inner.element_value in
      let (m', e, g') =
        and_then-eq-ok (insert_shown to_value item.inner.element_identifier parsed m) _ g in
      show_items-All Q items m' f.1
        (insert_shown-All Q item.inner.element_identifier parsed m f.0 h e) g'

  -- The elements that are shown for a namespace are the response's: the document is its first
  -- one for the mobile driving licence, and each element has the identifier and the value of an
  -- item of that namespace.
  pub record IsPresented {C : Crates} (response : DeviceResponse C) (shown : Text × Map Text Json)
      : Type 0 where
    pub documents : List (ResponseDocument C)
    pub doc : ResponseDocument C
    pub namespaces : Map Text (NonEmptyVec IssuerSignedItemBytes)
    pub items : NonEmptyVec IssuerSignedItemBytes
    pub has_documents : documents_of response.documents ≡ ok documents
    pub is_first : IsFirst (codes "org.iso.18013.5.1.mDL") documents doc
    pub has_namespaces : entries_of doc.issuer_signed.namespaces ≡ ok namespaces
    pub has_items : get shown.0 namespaces ≡ some items
    pub values : All (IsValueOf items.items) shown.1

  shown_aamva :
      (P : Text × Map Text Json → Type 0) (core : Text)
      (namespaces : Map Text (NonEmptyVec IssuerSignedItemBytes)) (parsed : Shown) {shown : Shown}
      → ((v : NonEmptyVec IssuerSignedItemBytes) (m : Map Text Json)
          → get (codes "org.iso.18013.5.1.aamva") (remove core namespaces) ≡ some v
          → All (IsValueOf v.items) m
          → P (codes "org.iso.18013.5.1.aamva", m))
      → All P parsed
      → show_aamva to_value (get (codes "org.iso.18013.5.1.aamva") (remove core namespaces)) parsed
        ≡ returns (ok shown)
      → All P shown
  shown_aamva P core namespaces parsed {shown} f h g =
      elim (Option-cases (get (codes "org.iso.18013.5.1.aamva") (remove core namespaces))) [
        | inl e ↦ subst (All P) (returned (rw e at g)) h
        | inr (v, e) ↦
            let g' : show_aamva to_value (some v) parsed ≡ returns (ok shown) = rw e at g in
            let (m, is_m, g'') = and_then-eq-ok (show_items to_value v.items []) _ g' in
            subst (All P) (returned g'') (
              insert-All P (codes "org.iso.18013.5.1.aamva") m parsed
                (f v m e
                  (show_items-All (IsValueOf v.items) v.items [] (Gives-IsValueOf v.items) tt is_m))
                h)
      ]

  -- Whatever response is shown, every namespace of it is one of the response's first document of the
  -- type org.iso.18013.5.1.mDL, and every element has the identifier and the value of one of the
  -- namespace's items.
  pub show_response-IsPresented :
      {C : Crates} (response : DeviceResponse C) {shown : Shown}
      → show_response to_value response ≡ returns (ok shown)
      → All (IsPresented response) shown
  unfolding show_response get text_eq insert
  show_response-IsPresented response {shown} h =
      let (ds, e1, h1) = unwrapped-eq-ok (documents_of response.documents) _ h in
      let (doc, e2, h2) =
        unwrapped-eq-ok (ok_or (find_doc (codes "org.iso.18013.5.1.mDL") ds) document_type_error) _
          h1 in
      let (ns, e3, h3) = unwrapped-eq-ok (entries_of doc.issuer_signed.namespaces) _ h2 in
      let (v, e4, h4) =
        unwrapped-eq-ok (ok_or (get (codes "org.iso.18013.5.1") ns) incorrect_namespace) _ h3 in
      let (m, e5, h5) = and_then-eq-ok (show_items to_value v.items []) _ h4 in
      let core = show_items-All (IsValueOf v.items) v.items [] (Gives-IsValueOf v.items) tt e5 in
      let present : (k : Text) (u : NonEmptyVec IssuerSignedItemBytes) (x : Map Text Json)
          → get k ns ≡ some u
          → All (IsValueOf u.items) x
          → IsPresented response (k, x) =
        λ k u x got vs. record {
          documents = ds;
          doc = doc;
          namespaces = ns;
          items = u;
          has_documents = e1;
          is_first =
              find_doc-IsFirst (codes "org.iso.18013.5.1.mDL") ds
                (ok_or-eq-ok _ document_type_error e2);
          has_namespaces = e3;
          has_items = got;
          values = vs;
        } in
      shown_aamva (IsPresented response) (codes "org.iso.18013.5.1") ns _
        (λ u x got vs.
          present (codes "org.iso.18013.5.1.aamva") u x
            (sym (get-remove (codes "org.iso.18013.5.1") (codes "org.iso.18013.5.1.aamva") ns)
              ∙ got)
            vs)
        (present (codes "org.iso.18013.5.1") v m (ok_or-eq-ok _ incorrect_namespace e4) core, tt) h5
