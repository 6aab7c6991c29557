-- ===== src/Documents/Authorizations.antt =====
-- `KeyAuthorizations` of src/definitions/device_key/mod.rs: the elements that a device key may sign.
use isomdl.Prelude.{
  ◌≡◌, refl, ◌↔◌, Bool, true, false, not, ◌&&◌, ◌||◌, List, [], ◌∷◌, All, Option, none, some,
  Result, ok, err, ◌>>=◌, Option-cases, inl, inr, arith,
}
use isomdl.Prelude.Text.{Text, member}
use isomdl.Prelude.Map.{text_ord, get}
use isomdl.Helpers.NonEmptyVec.{NonEmptyVec}
use isomdl.Helpers.NonEmptyMap.{NonEmptyMap}
use isomdl.Documents.{KeyAuthorizations}

pub data Error : Type 0 where
  double_authorized : Text → Error

abbrev refuse : Option (NonEmptyVec Text) → Text → Result Error (Unit {0})
refuse none namespace = ok tt
refuse (some _) namespace = err (double_authorized namespace)

-- `try_for_each`
each_apart : NonEmptyMap Text (NonEmptyVec Text) → List Text → Result Error (Unit {0})
each_apart authorized_data_elements [] = ok tt
each_apart authorized_data_elements (namespace ∷ rest) = do
  _ ← refuse (get namespace authorized_data_elements.entries) namespace
  each_apart authorized_data_elements rest

abbrev apart :
    Option (NonEmptyMap Text (NonEmptyVec Text))
    → Option (NonEmptyVec Text)
    → Result Error (Unit {0})
apart none namespaces = ok tt
apart (some data_elements) none = ok tt
apart (some data_elements) (some namespaces) = each_apart data_elements namespaces.items

unfoldable pub validate : KeyAuthorizations → Result Error (Unit {0})
unfolding each_apart
validate k = apart k.data_elements k.namespaces

abbrev contains : Option (NonEmptyVec Text) → Text → Bool
contains none e = false
contains (some v) e = member e v.items

abbrev in_namespace : Option (NonEmptyMap Text (NonEmptyVec Text)) → Text → Text → Bool
in_namespace none namespace element_identifier = false
in_namespace (some data_elements) namespace element_identifier =
    contains (get namespace data_elements.entries) element_identifier

-- authorized namespaces decide alone
abbrev decide :
    Option (NonEmptyVec Text) → Option (NonEmptyMap Text (NonEmptyVec Text)) → Text → Text → Bool
decide (some namespaces) data_elements namespace element_identifier =
    member namespace namespaces.items
decide none data_elements namespace element_identifier =
    in_namespace data_elements namespace element_identifier

unfoldable pub permitted : KeyAuthorizations → Text → Text → Bool
permitted k namespace element_identifier =
    decide k.namespaces k.data_elements namespace element_identifier

-- the whole namespace is authorized, or the element is
abbrev pub is_authorized : KeyAuthorizations → Text → Text → Bool
is_authorized k n e = contains k.namespaces n || in_namespace k.data_elements n e

-- the element is authorized by itself, beside authorized namespaces that do not have its own
abbrev pub is_shadowed : KeyAuthorizations → Text → Text → Bool
is_shadowed k n e =
    elim k.namespaces [ none ↦ false | some _ ↦ true ]
    && not (contains k.namespaces n)
    && in_namespace k.data_elements n e

-- A key is said to be permitted to sign an element exactly when the element or its namespace is
-- authorized, except for an element that is authorized by itself while other namespaces are: the
-- key is said not to be permitted to sign that one.
pub permitted_exact :
    (k : KeyAuthorizations) (n e : Text)
    → permitted k n e ≡ (is_authorized k n e && not (is_shadowed k n e))
unfolding permitted
permitted_exact k n e = elim (Option-cases k.namespaces) [
  | inl h ↦ ground (arith, h)
  | inr (v, h) ↦ ground (arith, h)
]

each_apart_iff :
    (d : NonEmptyMap Text (NonEmptyVec Text)) (ns : List Text)
    → (each_apart d ns ≡ ok tt) ↔ All (λ (n : Text). get n d.entries ≡ none) ns
unfolding each_apart
each_apart_iff d [] = (λ h. tt, λ h. refl)
each_apart_iff d (n ∷ ns) = elim (Option-cases (get n d.entries)) [
  | inl e ↦ (
    λ h. (e, (each_apart_iff d ns).0 (ground (arith, e, h))),
    λ h. ground (arith, e, (each_apart_iff d ns).1 h.1),
  )
  | inr (v, e) ↦ (λ h. absurd (ground (arith, e, h)), λ h. absurd (ground (arith, e, h.0)))
]

-- the namespaces that are authorized as a whole, and the map of elements that are by themselves
abbrev pub named : Option (NonEmptyVec Text) → List Text
named none = []
named (some v) = v.items

abbrev pub has_elements :
    Option (NonEmptyMap Text (NonEmptyVec Text)) → Text → Option (NonEmptyVec Text)
has_elements none n = none
has_elements (some d) n = get n d.entries

nothing_listed :
    (ns : List Text) → All (λ (n : Text). ◌≡◌ {A = Option (NonEmptyVec Text)} none none) ns
nothing_listed [] = tt
nothing_listed (n ∷ ns) = (refl, nothing_listed ns)

-- Key authorizations are valid exactly when no namespace that is authorized as a whole has
-- elements that are authorized by themselves.
pub validate_exact :
    (k : KeyAuthorizations)
    → (validate k ≡ ok tt)
      ↔ All (λ (n : Text). has_elements k.data_elements n ≡ none) (named k.namespaces)
unfolding validate
validate_exact k = apart_exact k.data_elements k.namespaces
  where
    apart_exact :
        (d : Option (NonEmptyMap Text (NonEmptyVec Text))) (v : Option (NonEmptyVec Text))
        → (apart d v ≡ ok tt) ↔ All (λ (n : Text). has_elements d n ≡ none) (named v)
    apart_exact none v = (λ h. nothing_listed (named v), λ h. refl)
    apart_exact (some d) none = (λ h. tt, λ h. refl)
    apart_exact (some d) (some v) = each_apart_iff d v.items
