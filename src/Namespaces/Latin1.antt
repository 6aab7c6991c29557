-- ===== src/Namespaces/Latin1.antt =====
-- src/definitions/namespaces/latin1.rs
use isomdl.Prelude.{
  ℕ, ◌+◌, ◌≤◌, ◌≡◌, ◌↔◌, refl, Bool, true, not, ◌&&◌, ◌||◌, List, [], ◌∷◌, Result, ok, err, ltb,
  leb, length, keep, All, Bool-cases, inl, inr, if◌then◌else◌, arith,
}
use isomdl.Prelude.Text.{Text}
use isomdl.Cbor.{Value, text}
use isomdl.FromJson.{Json, FromJsonError, ParseError, non_latin1, text_too_long, parsed}

pub record Latin1 : Type 0 where
  pub inner : Text

pub data Error : Type 0 where
  non_latin : List ℕ → Error
  too_long : ℕ → Error

-- the bytes of a character in UTF-8
abbrev pub utf8_bytes : ℕ → ℕ
utf8_bytes c = if ltb c 0x80 then 1 else if ltb c 0x800 then 2 else if ltb c 0x10000 then 3 else 4

-- `len` of a string
unfoldable pub byte_length : Text → ℕ
byte_length [] = 0
byte_length (c ∷ s) = utf8_bytes c + byte_length s

abbrev pub is_lower_latin : ℕ → Bool
is_lower_latin c = leb 0x20 c && ltb c 0x7F

abbrev pub is_upper_latin : ℕ → Bool
is_upper_latin c = leb 0xA0 c && ltb c 0x100

abbrev pub is_latin : ℕ → Bool
is_latin c = is_lower_latin c || is_upper_latin c

abbrev all_latin : Text → List ℕ → Result Error Latin1
all_latin s [] = ok (record { inner = s })
all_latin s (c ∷ cs) = err (non_latin (c ∷ cs))

unfoldable pub from_str : Text → Result Error Latin1
unfolding byte_length
from_str s =
    let length' = byte_length s in
    if ltb 150 length' then err (too_long length') else all_latin s (keep (λ c. not (is_latin c)) s)

-- into an `anyhow::Error`
any_error : Error → ParseError
any_error (non_latin cs) = non_latin1 cs
any_error (too_long n) = text_too_long n

unfoldable pub from_json : Json → Result FromJsonError Latin1
unfolding from_str any_error
from_json = parsed any_error from_str

unfoldable pub to_cbor : Latin1 → Value
to_cbor l = text l.inner

-- the characters of a text above U+007F
abbrev pub upper_count : Text → ℕ
upper_count [] = 0
upper_count (c ∷ s) = (if is_upper_latin c then 1 else 0) + upper_count s

-- nothing fails a test that everything passes
kept-none : (p : ℕ → Bool) (s : Text) → (keep (λ c. not (p c)) s ≡ []) ↔ All (λ c. p c ≡ true) s
kept-none p [] = (λ h. tt, λ h. refl)
kept-none p (c ∷ s) = elim (Bool-cases (p c)) [
  | inl e ↦ (
    (λ h. (e, (kept-none p s).0 (ground (arith, h, e)))),
    (λ h. ground (arith, e, (kept-none p s).1 h.1)),
  )
  | inr e ↦ ((λ h. absurd (ground (arith, h, e))), (λ h. absurd (ground (arith, h.0, e))))
]

latin_bytes : (s : Text) → All (λ c. is_latin c ≡ true) s → byte_length s ≡ length s + upper_count s
unfolding byte_length
latin_bytes [] h = omega arith
latin_bytes (c ∷ s) h = ground (arith, h.0, latin_bytes s h.1)

all_latin-eq-ok : (s : Text) (cs : List ℕ) {l : Latin1} → all_latin s cs ≡ ok l → cs ≡ []
all_latin-eq-ok s [] h = refl
all_latin-eq-ok s (c ∷ cs) h = cc

kept-all : (s : Text) (l : Latin1) → from_str s ≡ ok l → keep (λ c. not (is_latin c)) s ≡ []
unfolding from_str
kept-all s l h = elim (Bool-cases (ltb 150 (byte_length s))) [
  | inl e ↦ absurd (ground (arith, h, e))
  | inr e ↦ all_latin-eq-ok s _ (rw e at h)
]

-- A text is accepted exactly when all its characters are of the Latin alphabet 1 and their number,
-- with those above U+007F counted twice, is at most 150, and then it is kept as it is.
pub from_str-Latin1 :
    (s : Text) (l : Latin1)
    → (from_str s ≡ ok l)
      ↔ ((l.inner ≡ s) × All (λ c. is_latin c ≡ true) s × (length s + upper_count s ≤ 150))
unfolding from_str
from_str-Latin1 s l = (
  (λ h.
      let none_left : keep (λ c. not (is_latin c)) s ≡ [] = kept-all s l h in
      let all = (kept-none is_latin s).0 none_left in
      (ground (arith, h, none_left), all, ground (arith, h, none_left, latin_bytes s all))),
  (λ h. ground (arith, h.0, (kept-none is_latin s).1 h.1, latin_bytes s h.1, h.2)),
)
