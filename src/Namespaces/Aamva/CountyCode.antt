-- ===== src/Namespaces/Aamva/CountyCode.antt =====
-- src/definitions/namespaces/org_iso_18013_5_1_aamva/county_code.rs
use isomdl.Prelude.{
  ℕ, ◌≡◌, ◌↔◌, ap, ◌∙◌, Bool, true, ◌&&◌, [], ◌∷◌, Result, ok, err, ◌>>=◌, >>=_succeeds,
  map_err-eq-ok, if◌then◌else◌, arith,
}
use isomdl.Prelude.Text.{Text}
use isomdl.Cbor.{Value, text}
use isomdl.FromJson.{
  Json, string, FromJsonError, ParseError, county_too_short, county_too_long, string_from_json,
  parsed,
}
use isomdl.FromJson
use isomdl.Namespaces.Digits.{is_digit}
use isomdl.Namespaces.Named.{string_from_json_exact}

pub record CountyCode : Type 0 where
  pub first : ℕ
  pub second : ℕ
  pub third : ℕ

pub data Error : Type 0 where
  invalid_character : ℕ → Error
  too_short too_long : Error

-- the `match` on the next character, with the rest of the characters
next_digit : Text → Result Error (ℕ × Text)
next_digit [] = err too_short
next_digit (c ∷ chars) = if is_digit c then ok (c, chars) else err (invalid_character c)

abbrev at_end : CountyCode → Text → Result Error CountyCode
at_end c [] = ok c
at_end c (_ ∷ _) = err too_long

unfoldable pub to_treble_digits : Text → Result Error CountyCode
unfolding next_digit
to_treble_digits s = next_digit s >>= λ a. next_digit a.1 >>= λ b.
    next_digit b.1 >>= λ c. at_end (record { first = a.0; second = b.0; third = c.0 }) c.1

-- into an `anyhow::Error`
any_error : Error → ParseError
any_error (invalid_character c) = FromJson.ParseError.invalid_character c
any_error too_short = county_too_short
any_error too_long = county_too_long

unfoldable pub from_json : Json → Result FromJsonError CountyCode
unfolding to_treble_digits any_error
from_json = parsed any_error to_treble_digits

unfoldable pub to_string : CountyCode → Text
to_string c = c.first ∷ c.second ∷ c.third ∷ []

unfoldable pub to_cbor : CountyCode → Value
unfolding to_string
to_cbor c = text (to_string c)

-- three digits, as every county code has that the code makes
abbrev pub is_county_code : CountyCode → Bool
is_county_code c = is_digit c.first && is_digit c.second && is_digit c.third

treble_digits :
    (s : Text) (c : CountyCode)
    → to_treble_digits s ≡ ok c
    → (is_county_code c ≡ true) × (s ≡ to_string c)
unfolding to_treble_digits to_string
treble_digits [] c h = absurd (cc)
treble_digits (x ∷ []) c h = absurd (ground (arith, h))
treble_digits (x ∷ y ∷ []) c h = absurd (ground (arith, h))
treble_digits (x ∷ y ∷ z ∷ []) c h = ground (arith, h)
treble_digits (x ∷ y ∷ z ∷ w ∷ s) c h = absurd (ground (arith, h))

digits_treble : (c : CountyCode) → is_county_code c ≡ true → to_treble_digits (to_string c) ≡ ok c
unfolding to_treble_digits to_string
digits_treble c h = ground (arith, h)

-- A county code is read from a string of exactly three digits, and kept as it is.
pub from_json_exact :
    (v : Json) (c : CountyCode)
    → (from_json v ≡ ok c) ↔ ((is_county_code c ≡ true) × (v ≡ string (to_string c)))
unfolding from_json
from_json_exact v c = (
  (λ h.
      let (s, is, got) = >>=_succeeds (string_from_json v) _ h in
      let (digits, same) = treble_digits s c (map_err-eq-ok _ (to_treble_digits s) got) in
      (digits, string_from_json_exact v s is ∙ ap string same)),
  (λ h. rw h.1 (unfold string_from_json in ground (arith, digits_treble c h.0))),
)
