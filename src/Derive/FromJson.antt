-- ===== src/Derive/FromJson.antt =====
-- The code that src/macros/src/from_json.rs generates for a struct with named fields.
pub mod Exact
use isomdl.Prelude.{
  ◌≡◌, refl, ◌⊎◌, inl, inr, List, [], ◌∷◌, ◌++◌, Option, none, some, Result, ok, err, Outcome,
  returns, panics, arith, Result-cases,
}
use isomdl.Prelude.Text.{Text, codes}
use isomdl.Prelude.Map.{get, text_ord, bind}
use isomdl.FromJson.{
  Json, Object, Reading, FromJson, FromJsonError, Errors, no_error, an_error, multiple,
  with_context, null, object, unexpected, entries,
}

-- The conversions of the fields, the first field innermost, with the struct to be built of them.
pub data Conversions : Type 0 → Type 1 where
  struct : {A : Type 0} → A → Conversions A
  then_field : {A B : Type 0} → Conversions (B → A) → Text → (Object → Reading B) → Conversions A

-- the conversions up to a field, the field's name and its reader
infixl 5 ◌▷◌
abbrev pub ◌▷◌ : {A B : Type 0} → Conversions (B → A) → Text × (Object → Reading B) → Conversions A
cs ▷ (field_str, read) = then_field cs field_str read

-- a field without an attribute
abbrev pub plain : {B : Type 0} → FromJson B → Text → Object → Reading B
plain t field_str map = t.from_json_opt (get field_str map)

-- the fields so far, to be unwrapped, and the errors so far
abbrev pub Collected : Type 0 → Type 0
Collected A = Option A × List FromJsonError

abbrev pub with_value : {A B : Type 0} → Option (B → A) → B → Option A
with_value none b = none
with_value (some f) b = some (f b)

-- the `match` on one conversion; `none` is a panic
abbrev pub pushed :
    {A B : Type 0} → Text → Outcome FromJsonError B → Collected (B → A) → Option (Collected A)
pushed field_str (returns (ok b)) (f, errors) = some (with_value f b, errors)
pushed field_str (returns (err e)) (f, errors) =
    some (none, errors ++ with_context field_str e ∷ [])
pushed field_str panics (f, errors) = none

unfoldable pub convert :
    {A : Type 0} → Conversions A → Object → List FromJsonError → Option (Collected A)
convert (struct a) map errors = some (some a, errors)
convert (then_field cs field_str read) map errors =
    bind (convert cs map errors) (pushed field_str (read map))

abbrev pub error_list : List FromJsonError → Errors
error_list [] = no_error
error_list (e ∷ es) = an_error e (error_list es)

-- one error as it is, or all of them
abbrev pub summed : FromJsonError → List FromJsonError → FromJsonError
summed e [] = e
summed e (d ∷ es) = multiple (error_list (e ∷ d ∷ es))

-- the `match` on the number of errors, with the unwraps of the fields
unfoldable pub concluded : {A : Type 0} → Option (Collected A) → Outcome FromJsonError A
concluded none = panics
concluded (some (none, [])) = panics
concluded (some (some a, [])) = returns (ok a)
concluded (some (_, e ∷ es)) = returns (err (summed e es))

unfoldable pub from_object : {A : Type 0} → Conversions A → Object → Outcome FromJsonError A
unfolding convert concluded
from_object cs map = concluded (convert cs map [])

unfoldable pub from_json : {A : Type 0} → Conversions A → Json → Outcome FromJsonError A
unfolding from_object entries
from_json cs (object m) = from_object cs (entries m)
from_json cs v = returns (unexpected v (codes "object"))
