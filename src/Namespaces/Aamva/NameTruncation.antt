-- ===== src/Namespaces/Aamva/NameTruncation.antt =====
-- src/definitions/namespaces/org_iso_18013_5_1_aamva/name_truncation.rs
use isomdl.Prelude.{◌≡◌, ◌↔◌, refl, true, [], ◌∷◌, some, Result, ok, ok_or}
use isomdl.Prelude.Text.{Text, codes, text_eq}
use isomdl.Cbor.{Value, text}
use isomdl.FromJson.{Json, string, FromJsonError, ParseError, unrecognized_text, parsed}
use isomdl.Namespaces.Arms.{Arms, first_arm, every_arm}
use isomdl.Namespaces.Named.{IsNamed, parsed-IsNamed}

pub data NameTruncation : Type 0 where
  truncated : NameTruncation
  not_truncated : NameTruncation
  unknown : NameTruncation

pub data Error : Type 0 where
  unrecognized : Text → Error

unfoldable pub to_str : NameTruncation → Text
to_str truncated = codes "T"
to_str not_truncated = codes "N"
to_str unknown = codes "U"

unfoldable pub to_cbor : NameTruncation → Value
unfolding to_str
to_cbor x = text (to_str x)

-- the arms of the `match`, in order
unfoldable pub arms : Arms NameTruncation
arms = (codes "T", truncated) ∷ (codes "N", not_truncated) ∷ (codes "U", unknown) ∷ []

unfoldable pub from_str : Text → Result Error NameTruncation
unfolding arms first_arm
from_str x = ok_or (first_arm arms x) (unrecognized x)

-- into an `anyhow::Error`
any_error : Error → ParseError
any_error (unrecognized x) = unrecognized_text x

unfoldable pub from_json : Json → Result FromJsonError NameTruncation
unfolding from_str any_error
from_json = parsed any_error from_str

arms_agree : every_arm to_str arms ≡ true
unfolding arms to_str every_arm text_eq
arms_agree = refl

own_arm : (x : NameTruncation) → first_arm arms (to_str x) ≡ some x
unfolding arms to_str first_arm text_eq
own_arm truncated = refl
own_arm not_truncated = refl
own_arm unknown = refl

Table-IsNamed : IsNamed to_str arms
Table-IsNamed = record { agree = arms_agree; found = own_arm }

-- The constants are read from their own texts, and from no other value.
pub from_json_exact :
    (v : Json) (x : NameTruncation) → (from_json v ≡ ok x) ↔ (v ≡ string (to_str x))
from_json_exact v x =
    unfold from_json in unfold from_str in parsed-IsNamed any_error unrecognized Table-IsNamed v x
