-- ===== src/Namespaces/EyeColour.antt =====
-- src/definitions/namespaces/org_iso_18013_5_1/eye_colour.rs
use isomdl.Prelude.{◌≡◌, ◌↔◌, refl, true, [], ◌∷◌, some, Result, ok, ok_or}
use isomdl.Prelude.Text.{Text, codes, text_eq}
use isomdl.Cbor.{Value, text}
use isomdl.FromJson.{Json, string, FromJsonError, ParseError, unrecognized_text, parsed}
use isomdl.Namespaces.Arms.{Arms, first_arm, every_arm}
use isomdl.Namespaces.Named.{IsNamed, parsed-IsNamed}

pub data EyeColour : Type 0 where
  black : EyeColour
  blue : EyeColour
  brown : EyeColour
  dichromatic : EyeColour
  grey : EyeColour
  green : EyeColour
  hazel : EyeColour
  maroon : EyeColour
  pink : EyeColour
  unknown : EyeColour

pub data Error : Type 0 where
  unrecognized : Text → Error

unfoldable pub to_str : EyeColour → Text
to_str black = codes "black"
to_str blue = codes "blue"
to_str brown = codes "brown"
to_str dichromatic = codes "dichromatic"
to_str grey = codes "grey"
to_str green = codes "green"
to_str hazel = codes "hazel"
to_str maroon = codes "maroon"
to_str pink = codes "pink"
to_str unknown = codes "unknown"

unfoldable pub to_cbor : EyeColour → Value
unfolding to_str
to_cbor x = text (to_str x)

-- the arms of the `match`, in order
unfoldable pub arms : Arms EyeColour
arms =
    (codes "black", black)
    ∷ (codes "blue", blue)
    ∷ (codes "brown", brown)
    ∷ (codes "dichromatic", dichromatic)
    ∷ (codes "grey", grey)
    ∷ (codes "green", green)
    ∷ (codes "hazel", hazel)
    ∷ (codes "maroon", maroon)
    ∷ (codes "pink", pink)
    ∷ (codes "unknown", unknown)
    ∷ []

unfoldable pub from_str : Text → Result Error EyeColour
unfolding arms first_arm
from_str x = ok_or (first_arm arms x) (unrecognized x)

-- into an `anyhow::Error`
any_error : Error → ParseError
any_error (unrecognized x) = unrecognized_text x

unfoldable pub from_json : Json → Result FromJsonError EyeColour
unfolding from_str any_error
from_json = parsed any_error from_str

arms_agree : every_arm to_str arms ≡ true
unfolding arms to_str every_arm text_eq
arms_agree = refl

own_arm : (x : EyeColour) → first_arm arms (to_str x) ≡ some x
unfolding arms to_str first_arm text_eq
own_arm black = refl
own_arm blue = refl
own_arm brown = refl
own_arm dichromatic = refl
own_arm grey = refl
own_arm green = refl
own_arm hazel = refl
own_arm maroon = refl
own_arm pink = refl
own_arm unknown = refl

Table-IsNamed : IsNamed to_str arms
Table-IsNamed = record { agree = arms_agree; found = own_arm }

-- The constants are read from their own texts, and from no other value.
pub from_json_exact : (v : Json) (x : EyeColour) → (from_json v ≡ ok x) ↔ (v ≡ string (to_str x))
from_json_exact v x =
    unfold from_json in unfold from_str in parsed-IsNamed any_error unrecognized Table-IsNamed v x
