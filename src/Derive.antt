-- ===== src/Derive.antt =====
-- The derive macros of src/macros: what `lib.rs` reads from the attributes and the type of a field.
-- The data are those of syn, by what the code matches on. What the generated code does is in the
-- modules below.
pub mod FromJson
pub mod ToCbor
use isomdl.Prelude.{
  Bool, true, false, ◌||◌, List, [], ◌∷◌, Option, none, some, filter_map, ◌≡◌, Option-cases, inl,
  inr, arith, if◌then◌else◌,
}
use isomdl.Prelude.Text.{Text, codes, text_eq}

-- a path by its segments
abbrev pub Segments : Type 0
Segments = List Text

pub data Lit : Type 0 where
  str : Text → Lit
  other_literal : Lit

mutual
  pub data Meta : Type 0 where
    word : Segments → Meta
    list : Segments → NestedMetas → Meta
    name_value : Segments → Lit → Meta

  pub data NestedMeta : Type 0 where
    meta : Meta → NestedMeta
    literal : Lit → NestedMeta

  pub data NestedMetas : Type 0 where
    no_more : NestedMetas
    also : NestedMeta → NestedMetas → NestedMetas

-- an attribute, as what `parse_meta().ok()` gives
abbrev pub Attribute : Type 0
Attribute = Option Meta

pub data FieldType : Type 0 where
  path : Segments → FieldType
  other_type : FieldType

-- `syn::Field` with its name
pub record Field : Type 0 where
  pub ident : Text
  pub ty : FieldType
  pub attrs : List Attribute

unfoldable pub is_ident : Segments → Text → Bool
is_ident (s ∷ []) name = text_eq s name
is_ident _ name = false

nested : NestedMetas → List NestedMeta
nested no_more = []
nested (also m ms) = m ∷ nested ms

unfoldable pub get_isomdl_attributes : Attribute → Option (List NestedMeta)
unfolding is_ident nested
get_isomdl_attributes (some (list p ms)) =
    if is_ident p (codes "isomdl") then some (nested ms) else none
get_isomdl_attributes _ = none

meta_path : Meta → Segments
meta_path (word p) = p
meta_path (list p _) = p
meta_path (name_value p _) = p

-- `any` of an iterator
abbrev pub any {ℓ} : {A : Type ℓ} → (A → Bool) → List A → Bool
any p [] = false
any p (x ∷ xs) = p x || any p xs

abbrev any_in : (NestedMeta → Bool) → Option (List NestedMeta) → Bool
any_in p none = false
any_in p (some ms) = any p ms

names_dynamic_parse : NestedMeta → Bool
unfolding meta_path is_ident
names_dynamic_parse (meta m) =
    is_ident (meta_path m) (codes "dynamic_parse") || is_ident (meta_path m) (codes "many")
names_dynamic_parse _ = false

unfoldable pub is_dynamic_parse : Attribute → Bool
unfolding get_isomdl_attributes names_dynamic_parse
is_dynamic_parse attr = any_in names_dynamic_parse (get_isomdl_attributes attr)

names_many : NestedMeta → Bool
unfolding meta_path is_ident
names_many (meta m) = is_ident (meta_path m) (codes "many")
names_many _ = false

unfoldable pub is_many : Attribute → Bool
unfolding get_isomdl_attributes names_many
is_many attr = any_in names_many (get_isomdl_attributes attr)

last_is_option : Segments → Bool
last_is_option [] = false
last_is_option (s ∷ []) = text_eq s (codes "Option")
last_is_option (s ∷ t ∷ ts) = last_is_option (t ∷ ts)

unfoldable pub is_optional : FieldType → Bool
unfolding last_is_option
is_optional (path p) = last_is_option p
is_optional other_type = false

renamed_to : NestedMeta → Option Text
unfolding is_ident
renamed_to (meta (name_value p (str s))) = if is_ident p (codes "rename") then some s else none
renamed_to _ = none

abbrev first {ℓ} : {A : Type ℓ} → List A → Option A
first [] = none
first (x ∷ xs) = some x

abbrev first_name : Option (List NestedMeta) → Option Text
unfolding renamed_to
first_name none = none
first_name (some ms) = first (filter_map renamed_to ms)

unfoldable pub rename : Attribute → Option Text
unfolding get_isomdl_attributes renamed_to
rename attr = first_name (get_isomdl_attributes attr)

abbrev or_ident : Option Text → Text → Text
or_ident none ident = ident
or_ident (some name) ident = name

-- `field_str` of both macros
unfoldable pub field_str : Field → Text
unfolding rename
field_str f = or_ident (first (filter_map rename f.attrs)) f.ident

any_imp {ℓ} :
    {A : Type ℓ} (p q : A → Bool) (xs : List A)
    → ((x : A) → p x ≡ true → q x ≡ true)
    → any p xs ≡ true
    → any q xs ≡ true
any_imp p q [] g h = h
any_imp p q (x ∷ xs) g h = ground (arith, g x, any_imp p q xs g)

names_both : (m : NestedMeta) → names_many m ≡ true → names_dynamic_parse m ≡ true
unfolding names_many names_dynamic_parse
names_both (meta m) h = ground (arith, h)
names_both (literal l) h = cc

-- A field that is written as many elements of the namespace is read from the whole object: the two
-- macros agree on the attribute.
pub is_many-is_dynamic_parse :
    (attr : Attribute) → is_many attr ≡ true → is_dynamic_parse attr ≡ true
unfolding is_many is_dynamic_parse
is_many-is_dynamic_parse attr h = elim (Option-cases (get_isomdl_attributes attr)) [
  | inl e ↦ absurd (ground (arith, h, e))
  | inr (ms, e) ↦ rw e (any_imp names_many names_dynamic_parse ms names_both (rw e at h))
]
