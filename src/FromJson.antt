-- ===== src/FromJson.antt =====
-- The trait `FromJson` of src/definitions/traits/from_json.rs and its implementations for the
-- standard library's types and for those of src/definitions/helpers.
use isomdl.Prelude.{
  ℕ, ◌^◌, Bool, List, [], ◌∷◌, Option, none, some, Result, ok, err, ◌>>=◌, ok_or, map_err, Outcome,
  returns, and_then, unwrapped, ltb, if◌then◌else◌,
}
use isomdl.Prelude.Text.{Text, codes}
use isomdl.Prelude.Map.{Map, collect, text_ord}
use isomdl.Cbor.{Bytes}
use isomdl.Helpers.NonEmptyVec
use isomdl.Helpers.NonEmptyVec.{NonEmptyVec}

-- `serde_json::Value`; of a number, what `as_u64` gives
mutual
  pub data Json : Type 0 where
    null : Json
    boolean : Bool → Json
    number : Option ℕ → Json
    string : Text → Json
    array : Elements → Json
    object : Fields → Json

  pub data Elements : Type 0 where
    nil : Elements
    cons : Json → Elements → Elements

  pub data Fields : Type 0 where
    end : Fields
    field : Text → Json → Fields → Fields

-- `serde_json::Map`, as its entries
abbrev pub Object : Type 0
Object = Map Text Json

unfoldable pub entries : Fields → Object
entries end = []
entries (field k v m) = (k, v) ∷ entries m

-- the error that an `anyhow::Error` of a parser was made of
pub data ParseError : Type 0 where
  empty_vec : ParseError
  bad_base64 : ParseError
  unrecognized_text : Text → ParseError
  unrecognized_number : ℕ → ParseError
  non_latin1 : List ℕ → ParseError
  text_too_long : ℕ → ParseError
  invalid_character : ℕ → ParseError
  county_too_short county_too_long : ParseError
  country_mismatch : ParseError
  not_full_date : ParseError
  not_rfc3339 : ParseError
  not_a_date : ParseError

mutual
  pub data FromJsonError : Type 0 where
    expected_positive_integer integer_too_large missing : FromJsonError
    multiple : Errors → FromJsonError
    parsing : ParseError → FromJsonError
    unexpected_type : Text → Text → FromJsonError
    with_context : Text → FromJsonError → FromJsonError

  pub data Errors : Type 0 where
    no_error : Errors
    an_error : FromJsonError → Errors → Errors

-- Reading can panic, as a date does that is out of range.
abbrev pub Reading : Type 0 → Type 0
Reading A = Outcome FromJsonError A

-- The trait. `from_json_opt` has a default, which `Option` alone replaces.
pub record FromJson (A : Type 0) : Type 0 where
  pub from_json : Json → Reading A
  pub from_json_opt : Option Json → Reading A

abbrev pub implement : {A : Type 0} → (Json → Reading A) → FromJson A
implement from_json = record {
  from_json = from_json;
  from_json_opt = λ o. unwrapped (ok_or o missing) from_json;
}

-- the words of the errors for a value of another kind
abbrev pub kind : Json → Text
kind null = codes "null"
kind (boolean _) = codes "boolean"
kind (number _) = codes "number"
kind (string _) = codes "string"
kind (array _) = codes "array"
kind (object _) = codes "object"

abbrev pub unexpected {ℓ} : {A : Type ℓ} → Json → Text → Result FromJsonError A
unexpected v expected = err (unexpected_type (kind v) expected)

unfoldable pub bool_from_json : Json → Result FromJsonError Bool
bool_from_json (boolean b) = ok b
bool_from_json v = unexpected v (codes "boolean")

unfoldable pub u32_from_json : Json → Result FromJsonError ℕ
u32_from_json (number n) = ok_or n expected_positive_integer >>= λ u.
    if ltb u (2 ^ 32) then ok u else err integer_too_large
u32_from_json v = unexpected v (codes "number")

unfoldable pub string_from_json : Json → Result FromJsonError Text
string_from_json (string s) = ok s
string_from_json v = unexpected v (codes "string")

-- `ByteStr`; `decode` is `base64::decode`
unfoldable pub byte_str_from_json : (Text → Option Bytes) → Json → Result FromJsonError Bytes
unfolding string_from_json
byte_str_from_json decode v = do
  encoded ← string_from_json v
  ok_or (decode encoded) (parsing bad_base64)

-- an implementation that does not panic
abbrev pub safely : {A : Type 0} → (Json → Result FromJsonError A) → FromJson A
safely from_json = implement (λ v. returns (from_json v))

module _ {A : Type 0} (t : FromJson A) where
  -- `collect` into a result: the first error decides
  unfoldable pub each_element : Elements → Reading (List A)
  each_element nil = returns (ok [])
  each_element (cons v vs) =
      and_then (t.from_json v) λ a. and_then (each_element vs) λ items. returns (ok (a ∷ items))

  unfoldable pub vec_from_json : Json → Reading (List A)
  unfolding each_element
  vec_from_json (array vs) = each_element vs
  vec_from_json v = returns (unexpected v (codes "array"))

  unfoldable pub non_empty_vec_from_json : Json → Reading (NonEmptyVec A)
  unfolding vec_from_json NonEmptyVec.try_from
  non_empty_vec_from_json v =
      and_then (vec_from_json v)
        λ items. returns (map_err (λ _. parsing empty_vec) (NonEmptyVec.try_from items))

  unfoldable pub each_entry : Object → Reading (List (Text × A))
  each_entry [] = returns (ok [])
  each_entry ((k, v) ∷ m) =
      and_then (t.from_json v) λ a. and_then (each_entry m) λ es. returns (ok ((k, a) ∷ es))

  -- `from_map` of `BTreeMap`
  unfoldable pub map_from_map : Object → Reading (Map Text A)
  unfolding each_entry
  map_from_map m = and_then (each_entry m) λ es. returns (ok (collect es))

  unfoldable pub map_from_json : Json → Reading (Map Text A)
  unfolding map_from_map entries
  map_from_json (object m) = map_from_map (entries m)
  map_from_json v = returns (unexpected v (codes "object"))

  unfoldable pub option_from_json : Json → Reading (Option A)
  option_from_json null = returns (ok none)
  option_from_json v = and_then (t.from_json v) λ a. returns (ok (some a))

  unfoldable pub option_from_json_opt : Option Json → Reading (Option A)
  option_from_json_opt none = returns (ok none)
  option_from_json_opt (some null) = returns (ok none)
  option_from_json_opt (some v) = and_then (t.from_json v) λ a. returns (ok (some a))

  abbrev pub optional : FromJson (Option A)
  optional = record { from_json = option_from_json; from_json_opt = option_from_json_opt }

abbrev missing_as_none : {A : Type 0} → Result FromJsonError A → Result FromJsonError (Option A)
missing_as_none (ok a) = ok (some a)
missing_as_none (err missing) = ok none
missing_as_none (err e) = err e

-- `from_map` of `Option`
unfoldable pub option_from_map :
    {A : Type 0} → (Object → Result FromJsonError A) → Object → Result FromJsonError (Option A)
option_from_map from_map m = missing_as_none (from_map m)

-- `String::from_json(v)?.parse().map_err(Into::into).map_err(FromJsonError::Parsing)`
abbrev pub parsed {κ} :
    {E : Type κ} {A : Type 0}
    → (E → ParseError)
    → (Text → Result E A)
    → Json
    → Result FromJsonError A
parsed into from_str v = do s ← string_from_json v; map_err (λ e. parsing (into e)) (from_str s)

-- `u32::from_json(v)?.try_into().map_err(Into::into).map_err(FromJsonError::Parsing)`
abbrev pub converted {κ} :
    {E : Type κ} {A : Type 0} → (E → ParseError) → (ℕ → Result E A) → Json → Result FromJsonError A
converted into try_from v = do u ← u32_from_json v; map_err (λ e. parsing (into e)) (try_from u)
