-- ===== src/Device/Prepare/Items.antt =====
-- What the loop over a document's namespaces in `prepare_response` gathers.
use mathlib.Core.List.{append-nil, append_assoc}
use isomdl.Prelude.{
  ◌≡◌, refl, ap, sym, subst, ◌∙◌, Bool, true, false, not, ◌&&◌, ◌||◌, List, [], ◌∷◌, ◌++◌, Option,
  none, some, Option-cases, Bool-cases, inl, inr, filter_map, add_some, filter_map-append,
  if◌then◌else◌, arith,
}
use isomdl.Prelude.Text.{Text, text_eq, text_eq_iff, member, member-append}
use isomdl.Prelude.Map.{Map, text_ord, get, get-insert, bind}
use isomdl.Crates.{Crates}
use isomdl.Helpers.NonEmptyVec.{NonEmptyVec}
use isomdl.Helpers.NonEmptyVec
use isomdl.Helpers.NonEmptyMap.{NonEmptyMap}
use isomdl.Helpers.NonEmptyMap
use isomdl.Documents.{IssuerSignedItemBytes, DocumentErrorCode, data_not_returned}
use isomdl.Device.Filter.{Elements}
use isomdl.Device.Types.{Document}
use isomdl.Device.Prepare.{
  Gathered, add_item, add_error, gather_element, each_element, gather_namespace, gather, gather_all,
}

abbrev pub vec_items : Option (NonEmptyVec IssuerSignedItemBytes) → List IssuerSignedItemBytes
vec_items none = []
vec_items (some v) = v.items

abbrev pub is_some {ℓ} : {A : Type ℓ} → Option A → Bool
is_some none = false
is_some (some _) = true

-- the items gathered for a namespace, and whether an error is for one of its elements
abbrev pub items_at : Text → Gathered → List IssuerSignedItemBytes
items_at n g = vec_items (get n g.issuer_namespaces)

abbrev pub error_of : Text → Option (NonEmptyMap Text DocumentErrorCode) → Bool
error_of x none = false
error_of x (some m) = is_some (get x m.entries)

abbrev pub has_error : Text → Text → Gathered → Bool
has_error n x g = error_of x (get n g.errors)

module _ (n ns : Text) (g : Gathered) where
  items_at-add_item :
      (item : IssuerSignedItemBytes)
      → items_at n (add_item ns item g) ≡ items_at n g ++ (if text_eq ns n then item ∷ [] else [])
  unfolding add_item NonEmptyVec.new NonEmptyVec.push
  items_at-add_item item = elim (Option-cases (get ns m)) [
    | inl e ↦ ground (
      arith,
      e,
      get-insert ns n (NonEmptyVec.new item) m,
      text_eq_iff ns n,
      append-nil (items_at n g),
    )
    | inr (v, e) ↦ ground (
      arith,
      e,
      get-insert ns n (NonEmptyVec.push v item) m,
      text_eq_iff ns n,
      append-nil (items_at n g),
    )
  ]
    where
      m : Map Text (NonEmptyVec IssuerSignedItemBytes)
      m = g.issuer_namespaces

  items_at-add_error : (e : Text) → items_at n (add_error ns e g) ≡ items_at n g
  unfolding add_error
  items_at-add_error e = ground arith

  has_error-add_item :
      (x : Text) (item : IssuerSignedItemBytes)
      → has_error n x (add_item ns item g) ≡ has_error n x g
  unfolding add_item
  has_error-add_item x item = ground arith

  has_error-add_error :
      (x e : Text)
      → has_error n x (add_error ns e g) ≡ (has_error n x g || (text_eq ns n && text_eq e x))
  unfolding add_error NonEmptyMap.new NonEmptyMap.insert get
  has_error-add_error x e = elim (Option-cases (get ns g.errors)) [
    | inl none_yet ↦ ground (
      arith,
      none_yet,
      get-insert ns n (NonEmptyMap.new e data_not_returned) g.errors,
      text_eq_iff ns n,
      get-insert e x data_not_returned [],
    )
    | inr (v, found) ↦ ground (
      arith,
      found,
      get-insert ns n (NonEmptyMap.insert v e data_not_returned) g.errors,
      text_eq_iff ns n,
      get-insert e x data_not_returned v.entries,
    )
  ]

-- what a document holds for an element
abbrev pub held :
    Option (NonEmptyMap Text IssuerSignedItemBytes) → Text → Option IssuerSignedItemBytes
held items e = bind items (λ m. get e m.entries)

abbrev turn : Option (NonEmptyMap Text IssuerSignedItemBytes) → Text → Text → Gathered → Gathered
turn (some issuer_items) ns e g = gather_element ns issuer_items e g
turn none ns e g = add_error ns e g

abbrev pub listing {ℓ} : {A : Type ℓ} → Option A → List A
listing none = []
listing (some a) = a ∷ []

append-listing {ℓ} :
    {A : Type ℓ} (xs : List A) (o : Option A) (ys : List A)
    → (xs ++ listing o) ++ ys ≡ xs ++ add_some o ys
append-listing xs none ys = rw append-nil
append-listing xs (some a) ys = append_assoc xs (a ∷ []) ys

module _ (n ns : Text) where
  turn_items :
      (d : Option (NonEmptyMap Text IssuerSignedItemBytes)) (e : Text) (g : Gathered)
      → items_at n (turn d ns e g)
        ≡ items_at n g ++ (if text_eq ns n then listing (held d e) else [])
  unfolding gather_element
  turn_items none e g = ground (arith, items_at-add_error n ns g e, append-nil (items_at n g))
  turn_items (some m) e g = elim (Option-cases (get e m.entries)) [
    | inl missing ↦ ground (arith, missing, items_at-add_error n ns g e, append-nil (items_at n g))
    | inr (item, found) ↦ ground (arith, found, items_at-add_item n ns g item)
  ]

  turn_errors :
      (d : Option (NonEmptyMap Text IssuerSignedItemBytes)) (x e : Text) (g : Gathered)
      → has_error n x (turn d ns e g)
        ≡ (has_error n x g || (text_eq ns n && (text_eq e x && not (is_some (held d x)))))
  unfolding gather_element
  turn_errors none x e g = ground (arith, has_error-add_error n ns g x e)
  turn_errors (some m) x e g = elim (Option-cases (get e m.entries)) [
    | inl missing ↦ ground (arith, missing, has_error-add_error n ns g x e, text_eq_iff e x)
    | inr (item, found) ↦ ground (arith, found, has_error-add_item n ns g x item, text_eq_iff e x)
  ]

  gather_namespace_turns :
      (d : Option (NonEmptyMap Text IssuerSignedItemBytes)) (es : List Text) (g : Gathered)
      → gather_namespace d ns es g ≡ each_element (turn d ns) es g
  unfolding gather_namespace
  gather_namespace_turns none es g = refl
  gather_namespace_turns (some m) es g = refl

  module _ (d : Option (NonEmptyMap Text IssuerSignedItemBytes)) where
    namespace_items :
        (es : List Text) (g : Gathered)
        → items_at n (each_element (turn d ns) es g)
          ≡ items_at n g ++ (if text_eq ns n then filter_map (held d) es else [])
    unfolding each_element
    namespace_items [] g = ground (arith, append-nil (items_at n g))
    namespace_items (e ∷ es) g = elim (Bool-cases (text_eq ns n)) [
      | inl same ↦ ground (
        arith,
        same,
        namespace_items es (turn d ns e g),
        turn_items d e g,
        append-listing (items_at n g) (held d e) (filter_map (held d) es),
      )
      | inr other ↦ ground (
        arith,
        other,
        namespace_items es (turn d ns e g),
        turn_items d e g,
        append-nil (items_at n g),
      )
    ]

    namespace_errors :
        (x : Text) (es : List Text) (g : Gathered)
        → has_error n x (each_element (turn d ns) es g)
          ≡ (has_error n x g || (text_eq ns n && (member x es && not (is_some (held d x)))))
    unfolding each_element
    namespace_errors x [] g = ground arith
    namespace_errors x (e ∷ es) g =
        ground (arith, namespace_errors x es (turn d ns e g), turn_errors d x e g)

-- the elements that a list of namespaces names in one of them
unfoldable pub elements_at : Text → Elements → List Text
elements_at n [] = []
elements_at n ((ns, es) ∷ m) =
    let rest = elements_at n m in if text_eq ns n then es ++ rest else rest

module _ {C : Crates} (document : Document C) where
  abbrev pub held_by : Text → Text → Option IssuerSignedItemBytes
  held_by n e = held (get n document.namespaces.entries) e

  abbrev gather_at : Text → List Text → Gathered → Gathered
  gather_at ns es g = gather_namespace (get ns document.namespaces.entries) ns es g

  at_own :
      (n ns : Text) (es : List Text) (g : Gathered)
      → items_at n (gather_at ns es g)
        ≡ items_at n g ++ (if text_eq ns n then filter_map (held_by ns) es else [])
  at_own n ns es g =
      let d : Option (NonEmptyMap Text IssuerSignedItemBytes) =
        get ns document.namespaces.entries in
      ap (items_at n) (gather_namespace_turns n ns d es g) ∙ namespace_items n ns d es g

  step_items :
      (n ns : Text) (es : List Text) (g : Gathered)
      → items_at n (gather_at ns es g)
        ≡ items_at n g ++ (if text_eq ns n then filter_map (held_by n) es else [])
  step_items n ns es g = elim (Bool-cases (text_eq ns n)) [
    | inl same ↦
        subst
          (λ x.
            items_at x (gather_at ns es g)
            ≡ items_at x g ++ (if text_eq ns x then filter_map (held_by x) es else []))
          ((text_eq_iff ns n).0 same) (at_own ns ns es g)
    | inr other ↦ ground (arith, other, at_own n ns es g)
  ]

  step_errors :
      (n x ns : Text) (es : List Text) (g : Gathered)
      → has_error n x (gather_at ns es g)
        ≡ (has_error n x g || (text_eq ns n && (member x es && not (is_some (held_by n x)))))
  step_errors n x ns es g =
      let d : Option (NonEmptyMap Text IssuerSignedItemBytes) =
        get ns document.namespaces.entries in
      ground (
        arith,
        ap (has_error n x) (gather_namespace_turns n ns d es g),
        namespace_errors n ns d x es g,
        text_eq_iff ns n,
      )

  gather_items :
      (n : Text) (m : Elements) (g : Gathered)
      → items_at n (gather document m g) ≡ items_at n g ++ filter_map (held_by n) (elements_at n m)
  unfolding gather elements_at
  gather_items n [] g = sym (append-nil (items_at n g))
  gather_items n ((ns, es) ∷ m) g = ground (
    arith,
    gather_items n m (gather_at ns es g),
    step_items n ns es g,
    append_assoc (items_at n g) (filter_map (held_by n) es)
        (filter_map (held_by n) (elements_at n m)),
    filter_map-append (held_by n) es (elements_at n m),
    append-nil (items_at n g),
  )

  gather_errors :
      (n x : Text) (m : Elements) (g : Gathered)
      → has_error n x (gather document m g)
        ≡ (has_error n x g || (member x (elements_at n m) && not (is_some (held_by n x))))
  unfolding gather elements_at
  gather_errors n x [] g = ground arith
  gather_errors n x ((ns, es) ∷ m) g = ground (
    arith,
    gather_errors n x m (gather_at ns es g),
    step_errors n x ns es g,
    member-append x es (elements_at n m),
  )

  -- For every namespace, the loop returns the document's items for the named elements that it
  -- holds, in the order in which they are named, and an error for exactly the named elements that
  -- it does not hold.
  pub gather_all_exact :
      (m : Elements) (n : Text)
      → (items_at n (gather_all document m) ≡ filter_map (held_by n) (elements_at n m))
        × ((x : Text)
            → has_error n x (gather_all document m)
              ≡ (member x (elements_at n m) && not (is_some (held_by n x))))
  unfolding get
  gather_all_exact m n = (
    gather_items n m (record { issuer_namespaces = []; errors = [] }),
    λ x. gather_errors n x m (record { issuer_namespaces = []; errors = [] }),
  )
