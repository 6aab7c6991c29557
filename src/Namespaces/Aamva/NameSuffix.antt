-- ===== src/Namespaces/Aamva/NameSuffix.antt =====
-- src/definitions/namespaces/org_iso_18013_5_1_aamva/name_suffix.rs
use isomdl.Prelude.{◌≡◌, ◌↔◌, refl, true, [], ◌∷◌, some, Result, ok, ok_or}
use isomdl.Prelude.Text.{Text, codes, text_eq}
use isomdl.Cbor.{Value, text}
use isomdl.FromJson.{Json, string, FromJsonError, ParseError, unrecognized_text, parsed}
use isomdl.Namespaces.Arms.{Arms, first_arm, every_arm}
use isomdl.Namespaces.Named.{IsNamed, parsed-IsNamed}

pub data NameSuffix : Type 0 where
  junior : NameSuffix
  senior : NameSuffix
  first : NameSuffix
  first_numeral : NameSuffix
  second : NameSuffix
  second_numeral : NameSuffix
  third : NameSuffix
  third_numeral : NameSuffix
  fourth : NameSuffix
  fourth_numeral : NameSuffix
  fifth : NameSuffix
  fifth_numeral : NameSuffix
  sixth : NameSuffix
  sixth_numeral : NameSuffix
  seventh : NameSuffix
  seventh_numeral : NameSuffix
  eighth : NameSuffix
  eighth_numeral : NameSuffix
  ninth : NameSuffix
  ninth_numeral : NameSuffix

pub data Error : Type 0 where
  unrecognized : Text → Error

unfoldable pub to_str : NameSuffix → Text
to_str junior = codes "JR"
to_str senior = codes "SR"
to_str first = codes "1ST"
to_str first_numeral = codes "I"
to_str second = codes "2ND"
to_str second_numeral = codes "II"
to_str third = codes "3RD"
to_str third_numeral = codes "III"
to_str fourth = codes "4TH"
to_str fourth_numeral = codes "IV"
to_str fifth = codes "5TH"
to_str fifth_numeral = codes "V"
to_str sixth = codes "6TH"
to_str sixth_numeral = codes "VI"
to_str seventh = codes "7TH"
to_str seventh_numeral = codes "VII"
to_str eighth = codes "8TH"
to_str eighth_numeral = codes "VIII"
to_str ninth = codes "9TH"
to_str ninth_numeral = codes "IX"

unfoldable pub to_cbor : NameSuffix → Value
unfolding to_str
to_cbor x = text (to_str x)

-- the arms of the `match`, in order
unfoldable pub arms : Arms NameSuffix
arms =
    (codes "JR", junior)
    ∷ (codes "SR", senior)
    ∷ (codes "1ST", first)
    ∷ (codes "I", first_numeral)
    ∷ (codes "2ND", second)
    ∷ (codes "II", second_numeral)
    ∷ (codes "3RD", third)
    ∷ (codes "III", third_numeral)
    ∷ (codes "4TH", fourth)
    ∷ (codes "IV", fourth_numeral)
    ∷ (codes "5TH", fifth)
    ∷ (codes "V", fifth_numeral)
    ∷ (codes "6TH", sixth)
    ∷ (codes "VI", sixth_numeral)
    ∷ (codes "7TH", seventh)
    ∷ (codes "VII", seventh_numeral)
    ∷ (codes "8TH", eighth)
    ∷ (codes "VIII", eighth_numeral)
    ∷ (codes "9TH", ninth)
    ∷ (codes "IX", ninth_numeral)
    ∷ []

unfoldable pub from_str : Text → Result Error NameSuffix
unfolding arms first_arm
from_str x = ok_or (first_arm arms x) (unrecognized x)

-- into an `anyhow::Error`
any_error : Error → ParseError
any_error (unrecognized x) = unrecognized_text x

unfoldable pub from_json : Json → Result FromJsonError NameSuffix
unfolding from_str any_error
from_json = parsed any_error from_str

arms_agree : every_arm to_str arms ≡ true
unfolding arms to_str every_arm text_eq
arms_agree = refl

own_arm : (x : NameSuffix) → first_arm arms (to_str x) ≡ some x
unfolding arms to_str first_arm text_eq
own_arm junior = refl
own_arm senior = refl
own_arm first = refl
own_arm first_numeral = refl
own_arm second = refl
own_arm second_numeral = refl
own_arm third = refl
own_arm third_numeral = refl
own_arm fourth = refl
own_arm fourth_numeral = refl
own_arm fifth = refl
own_arm fifth_numeral = refl
own_arm sixth = refl
own_arm sixth_numeral = refl
own_arm seventh = refl
own_arm seventh_numeral = refl
own_arm eighth = refl
own_arm eighth_numeral = refl
own_arm ninth = refl
own_arm ninth_numeral = refl

Table-IsNamed : IsNamed to_str arms
Table-IsNamed = record { agree = arms_agree; found = own_arm }

-- The constants are read from their own texts, and from no other value.
pub from_json_exact : (v : Json) (x : NameSuffix) → (from_json v ≡ ok x) ↔ (v ≡ string (to_str x))
from_json_exact v x =
    unfold from_json in unfold from_str in parsed-IsNamed any_error unrecognized Table-IsNamed v x
