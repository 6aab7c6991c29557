-- ===== src/Device/Filter.antt =====
-- `filter_permitted` of src/presentation/device.rs: the items that may be returned, cut down to
-- those that the reader requested.
pub mod Exact
use isomdl.Prelude.{Bool, true, false, List, Option, none, some, keep, find}
use isomdl.Prelude.Text.{Text, text_eq}
use isomdl.Prelude.Map.{Map, text_ord, get, collect, filter_values, bind}
use isomdl.Helpers.NonEmptyMap.{NonEmptyMap}
use isomdl.Documents.{ItemsRequest}

abbrev pub RequestedItems : Type 0
RequestedItems = List ItemsRequest

abbrev pub Elements : Type 0
Elements = Map Text (List Text)

abbrev pub PermittedItems : Type 0
PermittedItems = Map Text Elements

abbrev is_some {ℓ} : {A : Type ℓ} → Option A → Bool
is_some none = false
is_some (some _) = true

-- `contains_key`
abbrev pub contains_key : NonEmptyMap Text Bool → Text → Bool
contains_key m e = is_some (get e m.entries)

-- the innermost closures: the permitted elements of a namespace that the request names too
unfoldable pub filter_elements : ItemsRequest → Text → List Text → Option (List Text)
filter_elements item ns elems =
    bind (get ns item.namespaces.entries) λ req_elems. some (keep (contains_key req_elems) elems)

unfoldable pub filter_namespaces : RequestedItems → Text → Elements → Option Elements
filter_namespaces request doc_type namespaces =
    bind (find (λ (item : ItemsRequest). text_eq item.doc_type doc_type) request)
      λ item. some (collect (filter_values (filter_elements item) namespaces))

unfoldable pub filter_permitted : RequestedItems → PermittedItems → PermittedItems
unfolding filter_namespaces filter_elements collect filter_values
filter_permitted request permitted = collect (filter_values (filter_namespaces request) permitted)
