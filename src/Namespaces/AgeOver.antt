-- ===== src/Namespaces/AgeOver.antt =====
-- src/definitions/namespaces/org_iso_18013_5_1/age_over.rs
use isomdl.Prelude.{
  ℕ, ◌≡◌, ◌↔◌, ◌≤◌, ◌<◌, sym, ap, ◌∙◌, Bool, true, false, ◌&&◌, ◌||◌, [], ◌∷◌, ◌++◌, Option, none,
  some, Result, ok, ok_or, ◌>>=◌, >>=_succeeds, subst, Bool-cases, ltb, ◌==◌, if◌then◌else◌,
  Option-cases, inl, inr, ◌/◌, ◌%◌, arith,
}
use isomdl.Prelude.Text.{Text, codes, strip_prefix, strip_prefix-eq_some}
use isomdl.Prelude.Map.{Ord, Map, get, collect, bind, text_ord, IsSorted, collect-IsSorted}
use isomdl.Cbor.{Value, bool}
use isomdl.FromJson.{
  Json, null, boolean, number, string, array, object, Object, FromJsonError, bool_from_json,
}
use isomdl.Namespaces.Digits.{is_digit, digit, two_wide}
use isomdl.Namespaces.Prefixed.{
  Keys, read_entries, written_entries, as_value, IsRead, get-read_entries, get-written_entries,
}

pub record Age : Type 0 where
  pub tens : ℕ
  pub units : ℕ

pub data Error : Type 0 where
  too_large : ℕ → Error

-- the derived order, and equality
abbrev pub age_eq : Age → Age → Bool
age_eq a b = (a.tens == b.tens) && (a.units == b.units)

abbrev pub age_lt : Age → Age → Bool
age_lt a b = ltb a.tens b.tens || ((a.tens == b.tens) && ltb a.units b.units)

pub age_eq_iff : (a b : Age) → (age_eq a b ≡ true) ↔ (a ≡ b)
age_eq_iff a b = ground arith

pub age_lt_irrefl : (a : Age) → age_lt a a ≡ false
age_lt_irrefl a = ground arith

pub age_lt_trans : (a b c : Age) → age_lt a b ≡ true → age_lt b c ≡ true → age_lt a c ≡ true
age_lt_trans a b c h k = ground arith

pub age_lt_total : (a b : Age) → age_lt a b ≡ false → age_eq a b ≡ false → age_lt b a ≡ true
age_lt_total a b h k = ground arith

instance abbrev pub age_ord : Ord Age
age_ord = record {
  eq = age_eq;
  lt = age_lt;
  eq_iff = age_eq_iff;
  lt_irrefl = age_lt_irrefl;
  lt_trans = age_lt_trans;
  lt_total = age_lt_total;
}

abbrev pub AgeOver : Type 0
AgeOver = Map Age Bool

-- the two digits, and no more characters
unfoldable pub to_age : Text → Option Age
to_age (first ∷ second ∷ []) =
    if is_digit first && is_digit second
    then some (record { tens = first; units = second })
    else none
to_age _ = none

-- `TryFrom<u8>`
unfoldable pub try_from : ℕ → Result Error Age
unfolding to_age two_wide
try_from u = ok_or (to_age (two_wide u)) (too_large u)

unfoldable pub read_key : Text → Option Age
unfolding to_age strip_prefix
read_key k = bind (strip_prefix (codes "age_over_") k) to_age

unfoldable pub from_map : Object → Result FromJsonError AgeOver
unfolding read_key bool_from_json read_entries collect
from_map m = read_entries read_key bool_from_json m >>= λ es. ok (collect es)

-- `format!("age_over_{x}{y}")`
unfoldable pub write_key : Age → Text
write_key a = codes "age_over_" ++ (a.tens ∷ a.units ∷ [])

unfoldable pub to_ns_map : AgeOver → Map Text Value
unfolding write_key written_entries collect
to_ns_map m = collect (written_entries write_key bool m)

two_wide-lt_10 : (u : ℕ) → u < 10 → two_wide u ≡ b'0' ∷ digit u ∷ []
unfolding two_wide
two_wide-lt_10 u h = ground arith

two_wide-lt_100 : (u : ℕ) → 10 ≤ u → u < 100 → two_wide u ≡ digit (u / 10) ∷ digit (u % 10) ∷ []
unfolding two_wide
two_wide-lt_100 u h k = ground arith

two_wide-lt_1000 :
    (u : ℕ)
    → 100 ≤ u
    → u < 1000
    → two_wide u ≡ digit (u / 10 / 10) ∷ digit (u / 10 % 10) ∷ digit (u % 10) ∷ []
unfolding two_wide
two_wide-lt_1000 u h k = ground arith

-- A number of a byte is taken for an age exactly up to 99, and its digits are then the age's.
pub try_from-le_99 :
    (u : ℕ)
    → u < 256
    → (try_from u ≡ ok (record { tens = digit (u / 10); units = digit (u % 10) })) ↔ (u ≤ 99)
unfolding try_from to_age
try_from-le_99 u h = elim (Bool-cases (ltb u 100)) [
  | inl small ↦ (
    (λ e. ground (arith, small)),
    (λ k. elim (Bool-cases (ltb u 10)) [
      | inl tiny ↦ ground (arith, two_wide-lt_10 u (ground (arith, tiny)), tiny)
      | inr more ↦
          ground
            (arith, two_wide-lt_100 u (ground (arith, more)) (ground (arith, small)), small, more)
    ]),
  )
  | inr large ↦
      let three = two_wide-lt_1000 u (ground (arith, large)) (omega (arith, h)) in
      ((λ e. absurd (ground (arith, e, three))), (λ k. absurd (ground (arith, large, k))))
]

to_age-eq_some : (t : Text) (a : Age) → to_age t ≡ some a → t ≡ a.tens ∷ a.units ∷ []
unfolding to_age
to_age-eq_some (first ∷ second ∷ []) a h = ground (arith, h)
to_age-eq_some [] a h = cc
to_age-eq_some (first ∷ []) a h = cc
to_age-eq_some (first ∷ second ∷ third ∷ t) a h = cc

read_key-eq_some : (k : Text) (a : Age) → read_key k ≡ some a → k ≡ write_key a
unfolding read_key write_key
read_key-eq_some k a h = elim (Option-cases (strip_prefix (codes "age_over_") k)) [
  | inl e ↦ absurd (ground (arith, h, e))
  | inr (t, e) ↦
      strip_prefix-eq_some (codes "age_over_") k e
      ∙ ap (λ x. codes "age_over_" ++ x) (to_age-eq_some t a (ground (arith, h, e)))
]

write_key_injective : (a b : Age) → write_key a ≡ write_key b → a ≡ b
unfolding write_key
write_key_injective a b h = ground (arith, h)

age_keys : Keys Age
age_keys = record {
  read = read_key;
  write = write_key;
  sound = read_key-eq_some;
  write_injective = write_key_injective;
}

-- an age of two digits, as every age is that the code makes
abbrev pub is_age : Age → Bool
is_age a = is_digit a.tens && is_digit a.units

own_key : (a : Age) → is_age a ≡ true → read_key (write_key a) ≡ some a
unfolding read_key write_key to_age strip_prefix
own_key a h = ground (arith, h)

bool_exact : (v : Json) (b : Bool) → bool_from_json v ≡ ok b → v ≡ boolean b
unfolding bool_from_json
bool_exact (boolean c) b h = ground (arith, h)
bool_exact null b h = cc
bool_exact (number n) b h = cc
bool_exact (string t) b h = cc
bool_exact (array es) b h = cc
bool_exact (object fs) b h = cc

shown :
    (x : Option Bool) (y : Option Json) (b : Bool)
    → IsRead bool_from_json x y
    → (as_value bool x ≡ some (bool b)) ↔ (y ≡ some (boolean b))
shown none none b h = (λ e. cc, λ e. cc)
shown none (some v) b h = absurd h
shown (some c) none b h = absurd h
shown (some c) (some v) b h =
    let is = bool_exact v c h in (λ e. ground (arith, e, is), λ e. ground (arith, e, is))

-- Of the statements on ages that are read from a JSON object, an age of two digits is attested with
-- an answer exactly when the object has the element of that age with the answer.
pub from_map-to_ns_map :
    (m : Object) (ages : AgeOver) (a : Age) (b : Bool)
    → IsSorted m
    → is_age a ≡ true
    → from_map m ≡ ok ages
    → (get (write_key a) (to_ns_map ages) ≡ some (bool b))
      ↔ (get (write_key a) m ≡ some (boolean b))
unfolding from_map to_ns_map age_keys
from_map-to_ns_map m ages a b s own h =
    let (es, read, built) = >>=_succeeds (read_entries read_key bool_from_json m) _ h in
    let collected : collect es ≡ ages = ground (arith, built) in
    let seen =
      subst (λ x. IsRead bool_from_json (get a x) (get (write_key a) m)) collected
        (get-read_entries age_keys bool_from_json m es a s (own_key a own) read) in
    let sorted : IsSorted ages = subst IsSorted collected (collect-IsSorted es) in
    let written = get-written_entries age_keys bool ages a sorted in
    let (there, back) = shown (get a ages) (get (write_key a) m) b seen in
    ((λ e. there (sym written ∙ e)), (λ e. written ∙ back e))
