-- ===== src/Namespaces/Dates.antt =====
-- src/definitions/namespaces/org_iso_18013_5_1/tdate.rs. The date-times of the crate time are a
-- parameter.
use isomdl.Prelude.{
  ◌≡◌, ◌≢◌, ◌∙◌, refl, ap, Bool, true, false, ltb, Option, none, some, Result, ok, err, ok_or,
  returns, panics, or_panic, unwrapped, ◌↔◌, arith, Result-cases, Option-cases, Bool-cases, inl,
  inr,
}
use isomdl.Prelude.Int.{ℤ, pos, negsuc}
use isomdl.Prelude.Text.{Text}
use isomdl.Cbor.{Value, text, tag}
use isomdl.FromJson.{
  Json, Reading, FromJsonError, parsing, not_rfc3339, not_a_date, string_from_json,
}
use isomdl.Namespaces.FullDate.{Dates}
use isomdl.Namespaces.FullDate

-- `time::OffsetDateTime`; of `to_offset(UtcOffset::UTC)` and of what the code unwraps, `none` is a
-- panic
pub record DateTimes : Type 1 where
  pub OffsetDateTime : Type 0
  pub parse : Text → Option OffsetDateTime
  pub to_utc : OffsetDateTime → Option OffsetDateTime
  pub without_milliseconds : OffsetDateTime → Option OffsetDateTime
  pub format : OffsetDateTime → Option Text

pub record TDate : Type 0 where
  pub inner : Text

pub data TDateOrFullDate (dates : Dates) : Type 0 where
  tdate : TDate → TDateOrFullDate dates
  full_date : dates.Date → TDateOrFullDate dates

module _ (times : DateTimes) where
  open times use {OffsetDateTime, parse, to_utc, without_milliseconds, format}

  -- the date-time as the code writes it
  unfoldable pub normal_form : OffsetDateTime → Reading TDate
  normal_form t = or_panic (to_utc t) λ utc.
      or_panic (without_milliseconds utc)
        λ seconds. or_panic (format seconds) λ s. returns (ok (record { inner = s }))

  unfoldable pub from_json : Json → Reading TDate
  unfolding normal_form
  from_json v =
      unwrapped (string_from_json v)
        λ date_str. unwrapped (ok_or (parse date_str) (parsing not_rfc3339)) normal_form

  abbrev full_date_or :
      {dates : Dates} → Result FromJsonError dates.Date → Reading (TDateOrFullDate dates)
  full_date_or (ok d) = returns (ok (full_date d))
  full_date_or (err e) = returns (err (parsing not_a_date))

  abbrev tdate_or :
      {dates : Dates}
      → Reading TDate
      → Result FromJsonError dates.Date
      → Reading (TDateOrFullDate dates)
  tdate_or (returns (ok t)) d = returns (ok (tdate t))
  tdate_or {dates} (returns (err e)) d = full_date_or {dates = dates} d
  tdate_or panics d = panics

  unfoldable pub either_from_json : (dates : Dates) → Json → Reading (TDateOrFullDate dates)
  unfolding from_json FullDate.from_json
  either_from_json dates v = tdate_or {dates = dates} (from_json v) (FullDate.from_json dates v)

unfoldable pub to_cbor : TDate → Value
to_cbor t = tag 0 (text t.inner)

unfoldable pub either_to_cbor : (dates : Dates) → TDateOrFullDate dates → Value
unfolding to_cbor FullDate.to_cbor
either_to_cbor dates (tdate t) = to_cbor t
either_to_cbor dates (full_date d) = FullDate.to_cbor dates d

-- the years that RFC 3339 can write
abbrev pub four_digits : ℤ → Bool
four_digits (pos year) = ltb year 10000
four_digits (negsuc _) = false

-- What the crate documents: each conversion keeps the instant; an instant whose year in UTC has at
-- most four digits can be moved to UTC, the milliseconds can always be dropped, and a date-time in
-- UTC is formatted exactly if its year has at most four digits.
pub record IsCalendar (times : DateTimes) : Type 0 where
  pub utc_year : times.OffsetDateTime → ℤ
  pub is_utc : times.OffsetDateTime → Bool
  pub moves :
      (t u : times.OffsetDateTime)
      → times.to_utc t ≡ some u
      → (utc_year u ≡ utc_year t) × (is_utc u ≡ true)
  pub fits :
      (t : times.OffsetDateTime)
      → four_digits (utc_year t) ≡ true
      → (u : times.OffsetDateTime) × (times.to_utc t ≡ some u)
  pub trims :
      (t : times.OffsetDateTime)
      → (u : times.OffsetDateTime) × (times.without_milliseconds t ≡ some u)
        × (utc_year u ≡ utc_year t)
        × (is_utc u ≡ is_utc t)
  pub formats :
      (t : times.OffsetDateTime)
      → is_utc t ≡ true
      → four_digits (utc_year t) ≡ true
      → (s : Text) × (times.format t ≡ some s)
  pub refuses :
      (t : times.OffsetDateTime)
      → is_utc t ≡ true
      → four_digits (utc_year t) ≡ false
      → times.format t ≡ none

module _ (times : DateTimes) (calendar : IsCalendar times) where
  open times use {OffsetDateTime, parse, to_utc}

  written :
      (t : OffsetDateTime) → four_digits (calendar.utc_year t) ≡ true → normal_form times t ≢ panics
  unfolding normal_form
  written t h =
      let (u, moved) = calendar.fits t h in
      let (same, utc) = calendar.moves t u moved in
      let (x, trimmed, same', utc') = calendar.trims u in
      let (s, is) = calendar.formats x (utc' ∙ utc) (ap four_digits (same' ∙ same) ∙ h) in
      λ e. absurd (ground (arith, moved, trimmed, is, e))

  not_written :
      (t : OffsetDateTime)
      → four_digits (calendar.utc_year t) ≡ false
      → normal_form times t ≡ panics
  unfolding normal_form
  not_written t h = elim (Option-cases (to_utc t)) [
    | inl e ↦ rw e refl
    | inr (u, moved) ↦
        let (same, utc) = calendar.moves t u moved in
        let (x, trimmed, same', utc') = calendar.trims u in
        let is = calendar.refuses x (utc' ∙ utc) (ap four_digits (same' ∙ same) ∙ h) in
        rw (moved, trimmed, is) refl
  ]

module _ (times : DateTimes) (calendar : IsCalendar times) (dates : Dates) where
  open times use {OffsetDateTime, parse}

  -- a JSON string that is a date-time which falls outside the years 0 to 9999 in UTC
  abbrev pub IsLate : Json → Type 0
  IsLate v =
      (s : Text) × (t : OffsetDateTime) × (string_from_json v ≡ ok s)
      × (parse s ≡ some t)
      × (four_digits (calendar.utc_year t) ≡ false)

  settled :
      (r : Reading TDate) (d : Result FromJsonError dates.Date)
      → tdate_or times {dates = dates} r d ≡ panics
      → r ≡ panics
  settled (returns (ok t)) d h = cc
  settled (returns (err e)) (ok d) h = cc
  settled (returns (err e)) (err x) h = cc
  settled panics d h = refl

  failure : (v : Json) → from_json times v ≡ panics → IsLate v
  unfolding from_json
  failure v h = elim (Result-cases (string_from_json v)) [
    | inl (e, is) ↦ absurd (ground (arith, h, is))
    | inr (s, is) ↦ elim (Option-cases (parse s)) [
      | inl no_date ↦ absurd (ground (arith, h, is, no_date))
      | inr (t, read) ↦ elim (Bool-cases (four_digits (calendar.utc_year t))) [
        | inl fits ↦ absurd (written times calendar t fits (rw (is, read) at h))
        | inr late ↦ (s, t, is, read, late)
      ]
    ]
  ]

  -- If the crate time does what it documents, reading a date-time or a date panics exactly on a
  -- string that is a date-time of RFC 3339 whose year, in UTC, is not one of 0 to 9999: a date-time
  -- of those years, a date without a time, and no date at all never panic.
  pub either_from_json_panics : (v : Json) → (either_from_json times dates v ≡ panics) ↔ IsLate v
  unfolding either_from_json from_json
  either_from_json_panics v = (
    (λ h. failure v (settled (from_json times v) (FullDate.from_json dates v) h)),
    (λ f.
        let (s, t, is, read, late) = f in
        ground (arith, is, read, not_written times calendar t late)),
  )
