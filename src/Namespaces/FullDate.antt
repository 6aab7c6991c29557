-- ===== src/Namespaces/FullDate.antt =====
-- src/definitions/namespaces/fulldate.rs. The dates of the crate time are a parameter.
use isomdl.Prelude.{
  ℕ, suc, ◌/◌, ◌%◌, ◌<◌, ◌≤◌, ◌≡◌, ◌↔◌, sym, true, Bool-cases, inl, inr, [], ◌∷◌, ◌++◌, Option,
  Result, ok_or, ltb, length, length-append, ap, ◌∙◌, arith,
}
use isomdl.Prelude.Int.{ℤ, pos, negsuc}
use isomdl.Prelude.Text.{Text, codes}
use isomdl.Cbor.{Value, text, tag}
use isomdl.FromJson.{Json, FromJsonError, not_full_date, parsed}
use isomdl.Namespaces.Digits.{digit, digits, decimal, two_wide}

-- `time::Date`; `parse` is that of the format `[year]-[month]-[day]`
pub record Dates : Type 1 where
  pub Date : Type 0
  pub year : Date → ℤ
  pub month : Date → ℕ
  pub day : Date → ℕ
  pub parse : Text → Option Date

ltb→lt : (a b : ℕ) → ltb a b ≡ true → a < b
ltb→lt a b h = ground arith

-- `{}` of an i32
unfoldable pub signed_decimal : ℤ → Text
unfolding decimal
signed_decimal (pos n) = decimal n
signed_decimal (negsuc n) = b'-' ∷ decimal (suc n)

module _ (dates : Dates) where
  open dates use {Date, year, month, day, parse}

  unfoldable pub month_and_day : Date → Text
  month_and_day d = codes "-" ++ (two_wide (month d) ++ (codes "-" ++ two_wide (day d)))

  -- `FullDate` is a `Date`.
  unfoldable pub to_string : Date → Text
  unfolding signed_decimal month_and_day
  to_string d = signed_decimal (year d) ++ month_and_day d

  unfoldable pub from_str : Text → Result (Unit {0}) Date
  from_str s = ok_or (parse s) tt

  unfoldable pub from_json : Json → Result FromJsonError Date
  unfolding from_str
  from_json = parsed (λ _. not_full_date) from_str

  unfoldable pub to_cbor : Date → Value
  unfolding to_string
  to_cbor d = tag 1004 (text (to_string d))

  -- the year of a `full-date` of RFC 3339, which has four digits
  abbrev pub four_wide : ℕ → Text
  four_wide y = digit (y / 1000) ∷ digit (y / 100 % 10) ∷ digit (y / 10 % 10) ∷ digit (y % 10) ∷ []

  decimal-four : (y : ℕ) → 1000 ≤ y → y < 10000 → decimal y ≡ four_wide y
  unfolding decimal digits
  decimal-four y h k = ground arith

  length-decimal : (y : ℕ) → y < 1000 → length (decimal y) < 4
  unfolding decimal digits
  length-decimal y h = ground arith

  to_string_lem : (d : Date) (y : ℕ) → year d ≡ pos y → to_string d ≡ decimal y ++ month_and_day d
  to_string_lem d y e =
      unfold to_string in unfold signed_decimal in ap (λ x. signed_decimal x ++ month_and_day d) e

  -- A date of the years 0 to 9999 is printed with a year of four digits, as RFC 3339 wants it,
  -- exactly when the year is at least 1000.
  pub to_string-four_wide :
      (d : Date) (y : ℕ)
      → year d ≡ pos y
      → y < 10000
      → (to_string d ≡ four_wide y ++ month_and_day d) ↔ (1000 ≤ y)
  to_string-four_wide d y e h = (
    (λ same.
        let lengths = ap length (sym (to_string_lem d y e) ∙ same) in
        elim (Bool-cases (ltb y 1000)) [
          | inl small ↦ absurd (
              omega (
                arith,
                lengths,
                length-append (decimal y) (month_and_day d),
                length-decimal y (ltb→lt y 1000 small),
              ))
          | inr large ↦ ground (arith, large)
        ]),
    (λ k. to_string_lem d y e ∙ ap (λ x. x ++ month_and_day d) (decimal-four y k h)),
  )
