-- ===== src/Documents/Validity.antt =====
-- The CBOR form of `ValidityInfo` (src/definitions/validity_info.rs). The crate time is a parameter.
use isomdl.Prelude.{
  ◌≡◌, refl, sym, ap, subst, ◌∙◌, ◌==◌, Bool, false, Option, none, some, Option-cases, inl, inr,
  Result, ok, err, ◌>>=◌, Outcome, returns, and_then, unwrapped, or_panic, and_then-eq-ok, ok_or,
  if◌then◌else◌, arith,
}
use isomdl.Prelude.Text.{Text, codes, text_eq}
use isomdl.Cbor.{Value, Entries, text, map, tag, end, entry}
use isomdl.Crates.{Crates}
use isomdl.Documents.{ValidityInfo}

pub data Error : Type 0 where
  missing_field : Text → Error
  not_a_map not_a_text_string not_a_tag : Value → Error
  out_of_range unable_to_format_date unable_to_parse_date : Error

-- `replace_millisecond(0)` and RFC 3339 dates, of which `none` is an error, and
-- `to_offset(UtcOffset::UTC)`, of which `none` is a panic
pub record Time (C : Crates) : Type 0 where
  pub replace_millisecond : C.OffsetDateTime → Option C.OffsetDateTime
  pub to_utc : C.OffsetDateTime → Option C.OffsetDateTime
  pub format : C.OffsetDateTime → Option Text
  pub parse : Text → Option C.OffsetDateTime

abbrev is_key : Text → Value → Bool
is_key k (text t) = text_eq t k
is_key k _ = false

-- `map.remove(&CborValue::Text(k))`: the value, and the map without it
unfoldable value_at : Text → Entries → Option Value
value_at k end = none
value_at k (entry j v m) = if is_key k j then some v else value_at k m

unfoldable without : Text → Entries → Entries
without k end = end
without k (entry j v m) = let rest = without k m in if is_key k j then rest else entry j v rest

-- `map.insert(CborValue::Text(k), v)`
unfoldable inserted : Text → Value → Entries → Entries
inserted k v end = entry (text k) v end
inserted k v (entry j w m) =
    let rest = inserted k v m in if is_key k j then entry j v m else entry j w rest

abbrev validity :
    {C : Crates}
    → C.OffsetDateTime
    → C.OffsetDateTime
    → C.OffsetDateTime
    → Option C.OffsetDateTime
    → ValidityInfo C
validity a b c d = record { signed = a; valid_from = b; valid_until = c; expected_update = d }

ok_injective {ℓ} :
    {A : Type ℓ} {a b : A} → ◌≡◌ {A = Outcome Error A} (returns (ok a)) (returns (ok b)) → a ≡ b
ok_injective h = cc

module _ {C : Crates} (time : Time C) where
  abbrev write_date : C.OffsetDateTime → Outcome Error Value
  write_date date = unwrapped (ok_or (time.replace_millisecond date) out_of_range) λ whole.
      or_panic (time.to_utc whole) λ utc.
        unwrapped (ok_or (time.format utc) unable_to_format_date)
          λ date_str. returns (ok (tag 0 (text date_str)))

  abbrev insert_date : Text → C.OffsetDateTime → Entries → Outcome Error Entries
  insert_date k date m = and_then (write_date date) λ value. returns (ok (inserted k value m))

  abbrev insert_expected : Option C.OffsetDateTime → Entries → Outcome Error Entries
  insert_expected none m = returns (ok m)
  insert_expected (some date) m = insert_date (codes "expectedUpdate") date m

  -- `TryFrom<ValidityInfo> for CborValue`
  unfoldable pub to_cbor : ValidityInfo C → Outcome Error Value
  unfolding inserted
  to_cbor v = and_then (insert_date (codes "signed") v.signed end) λ m1.
      and_then (insert_date (codes "validFrom") v.valid_from m1) λ m2.
        and_then (insert_date (codes "validUntil") v.valid_until m2)
          λ m3. and_then (insert_expected v.expected_update m3) λ m4. returns (ok (map m4))

  abbrev cbor_to_datetime : Value → Result Error C.OffsetDateTime
  cbor_to_datetime (tag n (text date_str)) =
      if n == 0
      then ok_or (time.parse date_str) unable_to_parse_date
      else err (not_a_tag (tag n (text date_str)))
  cbor_to_datetime (tag n v) =
      if n == 0 then err (not_a_text_string v) else err (not_a_tag (tag n v))
  cbor_to_datetime v = err (not_a_tag v)

  abbrev extract_date : Text → Option Value → Result Error C.OffsetDateTime
  extract_date k none = err (missing_field k)
  extract_date k (some v) = cbor_to_datetime v

  abbrev extract_expected : Option Value → Result Error (Option C.OffsetDateTime)
  extract_expected none = ok none
  extract_expected (some v) = do date ← cbor_to_datetime v; ok (some date)

  abbrev dates_from : Entries → Result Error (ValidityInfo C)
  dates_from m0 =
      let m1 = without (codes "signed") m0 in
      let m2 = without (codes "validFrom") m1 in
      let m3 = without (codes "validUntil") m2 in
      (do
        signed ← extract_date (codes "signed") (value_at (codes "signed") m0)
        valid_from ← extract_date (codes "validFrom") (value_at (codes "validFrom") m1)
        valid_until ← extract_date (codes "validUntil") (value_at (codes "validUntil") m2)
        expected_update ← extract_expected (value_at (codes "expectedUpdate") m3)
        ok (record {
          signed = signed;
          valid_from = valid_from;
          valid_until = valid_until;
          expected_update = expected_update;
        }))

  -- `TryFrom<CborValue> for ValidityInfo`
  unfoldable pub from_cbor : Value → Result Error (ValidityInfo C)
  unfolding value_at without
  from_cbor (map m) = dates_from m
  from_cbor v = err (not_a_map v)

  -- A date in UTC that is formatted is parsed to itself.
  abbrev pub IsTime : Type 0
  IsTime =
      (date utc : C.OffsetDateTime) (s : Text)
      → time.to_utc date ≡ some utc
      → time.format utc ≡ some s
      → time.parse s ≡ some utc

  abbrev pub in_utc : C.OffsetDateTime → C.OffsetDateTime
  in_utc date = elim (time.to_utc date) [ none ↦ date | some utc ↦ utc ]

  abbrev pub trimmed : C.OffsetDateTime → C.OffsetDateTime
  trimmed date = elim (time.replace_millisecond date) [ none ↦ date | some whole ↦ in_utc whole ]

  abbrev pub trimmed_option : Option C.OffsetDateTime → Option C.OffsetDateTime
  trimmed_option none = none
  trimmed_option (some date) = some (trimmed date)

  written-date :
      IsTime
      → (date : C.OffsetDateTime) {v : Value} → write_date date ≡ returns (ok v)
      → cbor_to_datetime v ≡ ok (trimmed date)
  written-date law date {v} h = elim (Option-cases (time.replace_millisecond date)) [
    | inl e ↦ absurd (ground (arith, e, h))
    | inr (whole, e) ↦ elim (Option-cases (time.to_utc whole)) [
      | inl e' ↦ absurd (ground (arith, e, e', h))
      | inr (utc, e') ↦ elim (Option-cases (time.format utc)) [
        | inl e'' ↦ absurd (ground (arith, e, e', e'', h))
        | inr (s, e'') ↦
            let parsed = law whole utc s e' e'' in
            let same : v ≡ tag 0 (text s) = ground (arith, e, e', e'', h) in
            ground (arith, same, parsed, e, e')
      ]
    ]
  ]

  inserted-date :
      IsTime
      → (k : Text) (date : C.OffsetDateTime) (m : Entries) {m' : Entries}
      → insert_date k date m ≡ returns (ok m')
      → (v : Value) × (m' ≡ inserted k v m) × (cbor_to_datetime v ≡ ok (trimmed date))
  inserted-date law k date m h =
      let (v, e, e') = and_then-eq-ok (write_date date) _ h in
      (v, sym (ok_injective e'), written-date law date e)

  read_parts :
      (a b c : C.OffsetDateTime) (v1 v2 v3 : Value)
      → cbor_to_datetime v1 ≡ ok a
      → cbor_to_datetime v2 ≡ ok b
      → cbor_to_datetime v3 ≡ ok c
      → from_cbor (
          map (
            inserted
              (codes "validUntil")
              v3
              (inserted (codes "validFrom") v2 (inserted (codes "signed") v1 end))))
        ≡ ok (record { signed = a; valid_from = b; valid_until = c; expected_update = none })
  unfolding from_cbor inserted text_eq
  read_parts a b c v1 v2 v3 h1 h2 h3 = rw (h1, h2, h3) refl

  read_all :
      (a b c d : C.OffsetDateTime) (v1 v2 v3 v4 : Value)
      → cbor_to_datetime v1 ≡ ok a
      → cbor_to_datetime v2 ≡ ok b
      → cbor_to_datetime v3 ≡ ok c
      → cbor_to_datetime v4 ≡ ok d
      → from_cbor (
          map (
            inserted (codes "expectedUpdate") v4 (
              inserted
                (codes "validUntil")
                v3
                (inserted (codes "validFrom") v2 (inserted (codes "signed") v1 end)))))
        ≡ ok (record { signed = a; valid_from = b; valid_until = c; expected_update = some d })
  unfolding from_cbor inserted text_eq
  read_all a b c d v1 v2 v3 v4 h1 h2 h3 h4 = rw (h1, h2, h3, h4) refl

  last :
      IsTime
      → (a b c : C.OffsetDateTime) (expected : Option C.OffsetDateTime) (v1 v2 v3 : Value)
      → cbor_to_datetime v1 ≡ ok a
      → cbor_to_datetime v2 ≡ ok b
      → cbor_to_datetime v3 ≡ ok c
      → {m : Entries}
      → insert_expected expected (
          inserted
            (codes "validUntil")
            v3
            (inserted (codes "validFrom") v2 (inserted (codes "signed") v1 end)))
        ≡ returns (ok m)
      → from_cbor (map m)
        ≡ ok (record {
          signed = a;
          valid_from = b;
          valid_until = c;
          expected_update = trimmed_option expected;
        })
  last law a b c none v1 v2 v3 h1 h2 h3 {m} h =
      subst (λ x. from_cbor (map x) ≡ ok (validity a b c none)) (ok_injective h)
        (read_parts a b c v1 v2 v3 h1 h2 h3)
  last law a b c (some date) v1 v2 v3 h1 h2 h3 {m} h =
      let (v4, e, h4) = inserted-date law (codes "expectedUpdate") date _ h in
      subst (λ x. from_cbor (map x) ≡ ok (validity a b c (some (trimmed date)))) (sym e)
        (read_all a b c (trimmed date) v1 v2 v3 v4 h1 h2 h3 h4)

  -- If the crate parses the dates that it formats, a validity that is written is read back with its
  -- dates in UTC and without their fractions of a second.
  pub validity_read_back :
      IsTime
      → (v : ValidityInfo C) {x : Value} → to_cbor v ≡ returns (ok x)
      → from_cbor x
        ≡ ok (record {
          signed = trimmed v.signed;
          valid_from = trimmed v.valid_from;
          valid_until = trimmed v.valid_until;
          expected_update = trimmed_option v.expected_update;
        })
  unfolding to_cbor
  validity_read_back law v {x} h =
      let (m1, i1, h1) = and_then-eq-ok (insert_date (codes "signed") v.signed end) _ h in
      let (m2, i2, h2) = and_then-eq-ok (insert_date (codes "validFrom") v.valid_from m1) _ h1 in
      let (m3, i3, h3) = and_then-eq-ok (insert_date (codes "validUntil") v.valid_until m2) _ h2 in
      let (m4, i4, h4) = and_then-eq-ok (insert_expected v.expected_update m3) _ h3 in
      let (v1, e1, r1) = inserted-date law (codes "signed") v.signed end i1 in
      let (v2, e2, r2) = inserted-date law (codes "validFrom") v.valid_from m1 i2 in
      let (v3, e3, r3) = inserted-date law (codes "validUntil") v.valid_until m2 i3 in
      let all : m3
          ≡ inserted (codes "validUntil") v3
              (inserted (codes "validFrom") v2 (inserted (codes "signed") v1 end)) =
        e3 ∙ ap (inserted (codes "validUntil") v3) (e2 ∙ ap (inserted (codes "validFrom") v2) e1) in
      subst
        (λ y.
          from_cbor y
          ≡ ok (
              validity (trimmed v.signed) (trimmed v.valid_from) (trimmed v.valid_until)
                (trimmed_option v.expected_update)))
        (ok_injective h4)
        (last law (trimmed v.signed) (trimmed v.valid_from) (trimmed v.valid_until)
          v.expected_update v1 v2 v3 r1 r2 r3
          (sym (ap (insert_expected v.expected_update) all) ∙ i4))
