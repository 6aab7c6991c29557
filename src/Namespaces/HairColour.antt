-- ===== src/Namespaces/HairColour.antt =====
-- src/definitions/namespaces/org_iso_18013_5_1/hair_colour.rs
use isomdl.Prelude.{◌≡◌, ◌↔◌, refl, true, [], ◌∷◌, some, Result, ok, ok_or}
use isomdl.Prelude.Text.{Text, codes, text_eq}
use isomdl.Cbor.{Value, text}
use isomdl.FromJson.{Json, string, FromJsonError, ParseError, unrecognized_text, parsed}
use isomdl.Namespaces.Arms.{Arms, first_arm, every_arm}
use isomdl.Namespaces.Named.{IsNamed, parsed-IsNamed}

pub data HairColour : Type 0 where
  bald : HairColour
  black : HairColour
  blond : HairColour
  brown : HairColour
  grey : HairColour
  red : HairColour
  auburn : HairColour
  sandy : HairColour
  white : HairColour
  unknown : HairColour

pub data Error : Type 0 where
  unrecognized : Text → Error

unfoldable pub to_str : HairColour → Text
to_str bald = codes "bald"
to_str black = codes "black"
to_str blond = codes "blond"
to_str brown = codes "brown"
to_str grey = codes "grey"
to_str red = codes "red"
to_str auburn = codes "auburn"
to_str sandy = codes "sandy"
to_str white = codes "white"
to_str unknown = codes "unknown"

unfoldable pub to_cbor : HairColour → Value
unfolding to_str
to_cbor x = text (to_str x)

-- the arms of the `match`, in order
unfoldable pub arms : Arms HairColour
arms =
    (codes "bald", bald)
    ∷ (codes "black", black)
    ∷ (codes "blond", blond)
    ∷ (codes "brown", brown)
    ∷ (codes "grey", grey)
    ∷ (codes "red", red)
    ∷ (codes "auburn", auburn)
    ∷ (codes "sandy", sandy)
    ∷ (codes "white", white)
    ∷ (codes "unknown", unknown)
    ∷ []

unfoldable pub from_str : Text → Result Error HairColour
unfolding arms first_arm
from_str x = ok_or (first_arm arms x) (unrecognized x)

-- into an `anyhow::Error`
any_error : Error → ParseError
any_error (unrecognized x) = unrecognized_text x

unfoldable pub from_json : Json → Result FromJsonError HairColour
unfolding from_str any_error
from_json = parsed any_error from_str

arms_agree : every_arm to_str arms ≡ true
unfolding arms to_str every_arm text_eq
arms_agree = refl

own_arm : (x : HairColour) → first_arm arms (to_str x) ≡ some x
unfolding arms to_str first_arm text_eq
own_arm bald = refl
own_arm black = refl
own_arm blond = refl
own_arm brown = refl
own_arm grey = refl
own_arm red = refl
own_arm auburn = refl
own_arm sandy = refl
own_arm white = refl
own_arm unknown = refl

Table-IsNamed : IsNamed to_str arms
Table-IsNamed = record { agree = arms_agree; found = own_arm }

-- The constants are read from their own texts, and from no other value.
pub from_json_exact : (v : Json) (x : HairColour) → (from_json v ≡ ok x) ↔ (v ≡ string (to_str x))
from_json_exact v x =
    unfold from_json in unfold from_str in parsed-IsNamed any_error unrecognized Table-IsNamed v x
