-- ===== src/Examples/Authorizations.antt =====
-- Key authorizations of src/definitions/device_key/mod.rs at a key with both kinds.
use isomdl.Prelude.{◌≡◌, ◌↔◌, not, ◌&&◌, [], ◌∷◌, none, some, All, ok}
use isomdl.Prelude.Text.{Text}
use isomdl.Documents.{KeyAuthorizations}
use isomdl.Documents.Authorizations.{
  validate, permitted, is_authorized, is_shadowed, permitted_exact, has_elements, named,
  validate_exact,
}
use isomdl.Examples.{iso, mdl, family}

-- one namespace as a whole, and one element of another
abbrev both : KeyAuthorizations
both = record {
  namespaces = some (record { items = mdl ∷ [] });
  data_elements = some (record { entries = (iso, record { items = family ∷ [] }) ∷ [] });
}

permitted_exact_example :
    permitted both iso family ≡ (is_authorized both iso family && not (is_shadowed both iso family))
permitted_exact_example = permitted_exact both iso family

validate_exact_example :
    (validate both ≡ ok tt)
    ↔ All (λ (n : Text). has_elements both.data_elements n ≡ none) (named both.namespaces)
validate_exact_example = validate_exact both
