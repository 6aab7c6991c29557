-- ===== src/Device/AgeAttestation.antt =====
-- `nearest_age_attestation` of src/presentation/device.rs: the age_over_NN element that answers a
-- request for another age.
pub mod Nearest
use isomdl.Prelude.{
  ℕ, ◌+◌, ◌-◌, ◌*◌, Bool, false, not, ◌&&◌, List, [], ◌∷◌, Option, none, some, Result, ok, err,
  ◌>>=◌, ok_or, keep, ltb, leb, ◌==◌, if◌then◌else◌,
}
use isomdl.Prelude.Text.{Text, codes, strip_prefix, contains}
use isomdl.Cbor.{Value, bool}
use isomdl.Helpers.NonEmptyMap.{NonEmptyMap}
use isomdl.Documents.{IssuerSignedItemBytes}

pub data Error : Type 0 where
  parsing_error prefix_error : Error

-- one digit more of `str::parse::<u8>`, which fails on a non-digit and past 255
parse_digits : ℕ → Text → Option ℕ
parse_digits n [] = some n
parse_digits n (c ∷ s) =
    let n' : ℕ = n * 10 + (c - 48) in
    let rest = parse_digits n' s in
    if leb 48 c && leb c 57 then (if leb n' 255 then rest else none) else none

-- `str::parse::<u8>`: a leading plus sign is allowed before at least one digit
unfoldable pub parse_u8 : Text → Option ℕ
unfolding parse_digits
parse_u8 [] = none
parse_u8 (c ∷ []) = parse_digits 0 (c ∷ [])
parse_u8 (c ∷ s) = if c == b'+' then parse_digits 0 s else parse_digits 0 (c ∷ s)

-- `AgeOver::try_from`
abbrev age_over : Option Text → Result Error ℕ
age_over none = err prefix_error
age_over (some x) = ok_or (parse_u8 x) parsing_error

unfoldable pub parse_age_from_element_identifier : Text → Result Error ℕ
parse_age_from_element_identifier element_identifier =
    age_over (strip_prefix (codes "age_over_") element_identifier)

-- an attested age with its item
abbrev pub Claim : Type 0
Claim = ℕ × IssuerSignedItemBytes

-- `element_value == CborValue::Bool(true)`
abbrev is_true_value : Value → Bool
is_true_value (bool b) = b
is_true_value _ = false

abbrev pub attests : Claim → Bool
attests c = is_true_value c.1.inner.element_value

-- `collect::<Result<Vec<_>, _>>` of the parsed claims
pub claims : List (Text × IssuerSignedItemBytes) → Result Error (List Claim)
claims [] = ok []
claims ((name, item) ∷ r) = do
  age ← parse_age_from_element_identifier name
  rest ← claims r
  ok ((age, item) ∷ rest)

-- `min_by_key` keeps the first of equal keys, `max_by_key` the last
pub min_by_age : Claim → List Claim → Claim
min_by_age best [] = best
min_by_age best (c ∷ cs) = min_by_age (if ltb c.0 best.0 then c else best) cs

pub max_by_age : Claim → List Claim → Claim
max_by_age best [] = best
max_by_age best (c ∷ cs) = max_by_age (if ltb c.0 best.0 then best else c) cs

abbrev pub min_claim : List Claim → Option Claim
min_claim [] = none
min_claim (c ∷ cs) = some (min_by_age c cs)

abbrev pub max_claim : List Claim → Option Claim
max_claim [] = none
max_claim (c ∷ cs) = some (max_by_age c cs)

-- `if let Some(a) = ... { return Ok(Some(a)) } else { ... }`
abbrev pub choose_else : Option Claim → Option Claim → Option Claim
choose_else (some c) other = some c
choose_else none other = other

-- the nearest true claim at or above the age, else the nearest other claim at or below it
unfoldable pub nearest : ℕ → List Claim → Option Claim
unfolding min_by_age max_by_age
nearest requested_age cs =
    choose_else (min_claim (keep (λ (c : Claim). leb requested_age c.0) (keep attests cs)))
      (max_claim (keep (λ (c : Claim). leb c.0 requested_age) (keep (λ c. not (attests c)) cs)))

abbrev item_of : Option Claim → Option IssuerSignedItemBytes
item_of none = none
item_of (some c) = some c.1

pub nearest_age_attestation :
    Text → NonEmptyMap Text IssuerSignedItemBytes → Result Error (Option IssuerSignedItemBytes)
nearest_age_attestation element_identifier issuer_items = do
  requested_age ← parse_age_from_element_identifier element_identifier
  cs ← claims (
      keep (λ (e : Text × IssuerSignedItemBytes). contains e.0 (codes "age_over"))
        issuer_items.entries)
  ok (item_of (nearest requested_age cs))
