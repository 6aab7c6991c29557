-- ===== src/Namespaces/Aamva/RaceAndEthnicity.antt =====
-- src/definitions/namespaces/org_iso_18013_5_1_aamva/race_and_ethnicity.rs
use isomdl.Prelude.{◌≡◌, ◌↔◌, refl, true, [], ◌∷◌, some, Result, ok, ok_or}
use isomdl.Prelude.Text.{Text, codes, text_eq}
use isomdl.Cbor.{Value, text}
use isomdl.FromJson.{Json, string, FromJsonError, ParseError, unrecognized_text, parsed}
use isomdl.Namespaces.Arms.{Arms, first_arm, every_arm}
use isomdl.Namespaces.Named.{IsNamed, parsed-IsNamed}

pub data RaceAndEthnicity : Type 0 where
  code_ai : RaceAndEthnicity
  code_ap : RaceAndEthnicity
  code_bk : RaceAndEthnicity
  code_h : RaceAndEthnicity
  code_o : RaceAndEthnicity
  code_u : RaceAndEthnicity
  code_w : RaceAndEthnicity

pub data Error : Type 0 where
  unrecognized : Text → Error

unfoldable pub to_str : RaceAndEthnicity → Text
to_str code_ai = codes "AI"
to_str code_ap = codes "AP"
to_str code_bk = codes "BK"
to_str code_h = codes "H"
to_str code_o = codes "O"
to_str code_u = codes "U"
to_str code_w = codes "W"

unfoldable pub to_cbor : RaceAndEthnicity → Value
unfolding to_str
to_cbor x = text (to_str x)

-- the arms of the `match`, in order
unfoldable pub arms : Arms RaceAndEthnicity
arms =
    (codes "AI", code_ai)
    ∷ (codes "AP", code_ap)
    ∷ (codes "BK", code_bk)
    ∷ (codes "H", code_h)
    ∷ (codes "O", code_o)
    ∷ (codes "U", code_u)
    ∷ (codes "W", code_w)
    ∷ []

unfoldable pub from_str : Text → Result Error RaceAndEthnicity
unfolding arms first_arm
from_str x = ok_or (first_arm arms x) (unrecognized x)

-- into an `anyhow::Error`
any_error : Error → ParseError
any_error (unrecognized x) = unrecognized_text x

unfoldable pub from_json : Json → Result FromJsonError RaceAndEthnicity
unfolding from_str any_error
from_json = parsed any_error from_str

arms_agree : every_arm to_str arms ≡ true
unfolding arms to_str every_arm text_eq
arms_agree = refl

own_arm : (x : RaceAndEthnicity) → first_arm arms (to_str x) ≡ some x
unfolding arms to_str first_arm text_eq
own_arm code_ai = refl
own_arm code_ap = refl
own_arm code_bk = refl
own_arm code_h = refl
own_arm code_o = refl
own_arm code_u = refl
own_arm code_w = refl

Table-IsNamed : IsNamed to_str arms
Table-IsNamed = record { agree = arms_agree; found = own_arm }

-- The constants are read from their own texts, and from no other value.
pub from_json_exact :
    (v : Json) (x : RaceAndEthnicity) → (from_json v ≡ ok x) ↔ (v ≡ string (to_str x))
from_json_exact v x =
    unfold from_json in unfold from_str in parsed-IsNamed any_error unrecognized Table-IsNamed v x
