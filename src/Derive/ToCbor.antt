-- ===== src/Derive/ToCbor.antt =====
-- The code that src/macros/src/to_cbor.rs generates for a struct with named fields.
use isomdl.Prelude.{◌≡◌, refl, List, [], ◌∷◌, Option, none, some, if◌then◌else◌, arith}
use isomdl.Prelude.Text.{Text, text_eq}
use isomdl.Prelude.Map.{
  Map, get, insert, collect_into, last, or_else, get-insert, get-collect_into, text_ord,
}
use isomdl.Cbor.{Value, text, Entries, end, entry}
use isomdl.Cbor

-- What is done for a field, by its attributes and its type.
pub data Insertion : Type 0 where
  always : Text → Value → Insertion
  if_some : Text → Option Value → Insertion
  many : Map Text Value → Insertion

unfoldable pub insert_field : Insertion → Map Text Value → Map Text Value
unfolding collect_into insert
insert_field (always field_str v) map = insert field_str v map
insert_field (if_some field_str (some v)) map = insert field_str v map
insert_field (if_some field_str none) map = map
insert_field (many fs) map = collect_into map fs

unfoldable pub insert_fields : List Insertion → Map Text Value → Map Text Value
unfolding insert_field
insert_fields [] map = map
insert_fields (i ∷ is) map = insert_fields is (insert_field i map)

unfoldable pub to_ns_map : List Insertion → Map Text Value
unfolding insert_fields
to_ns_map is = insert_fields is []

text_keys : Map Text Value → Entries
text_keys [] = end
text_keys ((k, v) ∷ m) = entry (text k) v (text_keys m)

unfoldable pub to_cbor : List Insertion → Value
unfolding to_ns_map text_keys
to_cbor is = Cbor.map (text_keys (to_ns_map is))

-- what a field's conversion writes under a name
abbrev pub written : Text → Insertion → Option Value
written k (always field_str v) = if text_eq field_str k then some v else none
written k (if_some field_str o) = if text_eq field_str k then o else none
written k (many fs) = last k fs

-- what the last of the fields writes that writes under the name
abbrev pub last_written : Text → List Insertion → Option Value
last_written k [] = none
last_written k (i ∷ is) = or_else (last_written k is) (written k i)

get-insert_field :
    (k : Text) (i : Insertion) (map : Map Text Value)
    → get k (insert_field i map) ≡ or_else (written k i) (get k map)
unfolding insert_field
get-insert_field k (always field_str v) map = ground (arith, get-insert field_str k v map)
get-insert_field k (if_some field_str none) map = ground arith
get-insert_field k (if_some field_str (some v)) map = ground (arith, get-insert field_str k v map)
get-insert_field k (many fs) map = get-collect_into k map fs

get-insert_fields :
    (k : Text) (is : List Insertion) (map : Map Text Value)
    → get k (insert_fields is map) ≡ or_else (last_written k is) (get k map)
unfolding insert_fields
get-insert_fields k [] map = refl
get-insert_fields k (i ∷ is) map =
    ground (arith, get-insert_fields k is (insert_field i map), get-insert_field k i map)

-- The map of a struct has under every name what the last field wrote that writes under it, and
-- nothing else.
pub get-to_ns_map : (k : Text) (is : List Insertion) → get k (to_ns_map is) ≡ last_written k is
unfolding to_ns_map get
get-to_ns_map k is = ground (arith, get-insert_fields k is [])
