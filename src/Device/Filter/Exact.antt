-- ===== src/Device/Filter/Exact.antt =====
-- What `filter_permitted` lets through.
use isomdl.Prelude.{
  ◌≡◌, refl, ap, Bool, false, ◌&&◌, List, [], ◌∷◌, Option, none, some, All, keep, find, arith,
  Option-cases, Bool-cases, subst, inl, inr,
}
use isomdl.Prelude.Text.{Text, member, text_eq, text_eq_iff}
use isomdl.Prelude.Map.{text_ord, get, IsSorted, bind, get-collect-filter_values}
use isomdl.Helpers.NonEmptyMap.{NonEmptyMap}
use isomdl.Documents.{ItemsRequest}
use isomdl.Device.Filter.{
  RequestedItems, Elements, PermittedItems, contains_key, filter_elements, filter_namespaces,
  filter_permitted,
}

abbrev pub listed_in : Text → Option (List Text) → Bool
listed_in e none = false
listed_in e (some elems) = member e elems

abbrev key_of : Text → Option (NonEmptyMap Text Bool) → Bool
key_of e none = false
key_of e (some req) = contains_key req e

abbrev named_in : Text → Text → Option ItemsRequest → Bool
named_in ns e none = false
named_in ns e (some item) = key_of e (get ns item.namespaces.entries)

-- Element `e` of namespace `ns` is listed for a document type.
abbrev pub lists : PermittedItems → Text → Text → Text → Bool
lists p doc_type ns e = listed_in e (bind (get doc_type p) (get ns))

-- The first request for the document type names the element.
abbrev pub requests : RequestedItems → Text → Text → Text → Bool
requests r doc_type ns e =
    named_in ns e (find (λ (item : ItemsRequest). text_eq item.doc_type doc_type) r)

-- Both levels of maps have their keys in order, as a `BTreeMap` has.
abbrev pub IsMap : PermittedItems → Type 0
IsMap p = IsSorted p × All (λ (e : Text × Elements). IsSorted e.1) p

member-keep :
    (q : Text → Bool) (e : Text) (xs : List Text) → member e (keep q xs) ≡ (member e xs && q e)
member-keep q e [] = refl
member-keep q e (x ∷ xs) = elim (Bool-cases (text_eq x e)) [
  | inl same ↦
      let at : q x ≡ q e = ap q ((text_eq_iff x e).0 same) in
      ground (arith, same, at, member-keep q e xs)
  | inr other ↦ ground (arith, other, member-keep q e xs)
]

IsMap-get :
    (d : Text) (p : PermittedItems) {ns : Elements}
    → All (λ (e : Text × Elements). IsSorted e.1) p
    → get d p ≡ some ns
    → IsSorted ns
unfolding get
IsMap-get d [] h e = cc
IsMap-get d ((j, v) ∷ p) {ns} h e = elim (Bool-cases (text_eq j d)) [
  | inl same ↦ let found : v ≡ ns = ground (arith, same, e) in subst (λ x. IsSorted x) found h.0
  | inr other ↦ IsMap-get d p h.1 (ground (arith, other, e))
]

module _ (r : RequestedItems) (d ns e : Text) where
  elements_exact :
      (item : ItemsRequest) (elems : List Text)
      → listed_in e (filter_elements item ns elems) ≡ (member e elems && named_in ns e (some item))
  unfolding filter_elements
  elements_exact item elems = elim (Option-cases (get ns item.namespaces.entries)) [
    | inl no_ns ↦ ground (arith, no_ns)
    | inr (req, at) ↦ rw at (member-keep (contains_key req) e elems)
  ]

  namespaces_exact :
      (namespaces : Elements)
      → IsSorted namespaces
      → listed_in e (bind (filter_namespaces r d namespaces) (get ns))
        ≡ (listed_in e (get ns namespaces) && requests r d ns e)
  unfolding filter_namespaces
  namespaces_exact namespaces h =
      elim (Option-cases (find (λ (item : ItemsRequest). text_eq item.doc_type d) r)) [
        | inl missing ↦ ground (arith, missing)
        | inr (item, found) ↦ rw found (
            rw (get-collect-filter_values (filter_elements item) ns namespaces h)
              (elim (Option-cases (get ns namespaces)) [
                | inl no_ns ↦ ground (arith, no_ns)
                | inr (elems, at) ↦ rw at (elements_exact item elems)
              ]))
      ]

-- With the permitted items in the order of a map, an element is listed after the filter exactly when it was permitted and the first request for
-- its document type names it in that namespace.
pub filter_permitted_exact :
    (r : RequestedItems) (p : PermittedItems) (doc_type ns e : Text)
    → IsMap p
    → lists (filter_permitted r p) doc_type ns e
      ≡ (lists p doc_type ns e && requests r doc_type ns e)
unfolding filter_permitted
filter_permitted_exact r p doc_type ns e h =
    rw (get-collect-filter_values (filter_namespaces r) doc_type p h.0)
      (elim (Option-cases (get doc_type p)) [
        | inl no_doc ↦ ground (arith, no_doc)
        | inr (namespaces, at) ↦
            rw at (namespaces_exact r doc_type ns e namespaces (IsMap-get doc_type p h.1 at))
      ])
