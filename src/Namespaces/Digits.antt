-- ===== src/Namespaces/Digits.antt =====
-- Decimal digits, and the formats of src/definitions/namespaces that print them: `{}` of a number
-- of at most ten digits, and `{:0>2}`, which puts zeros in front up to a width of two.
use native.Mathlib.Numerals.{unary_clauses}
use isomdl.Prelude.{
  ℕ, zero, suc, ◌+◌, ◌*◌, ◌/◌, ◌%◌, ◌^◌, ◌<◌, ◌≡◌, refl, Bool, ◌&&◌, [], ◌∷◌, ◌++◌, ltb, leb, ◌-◌,
  Bool-cases, inl, inr, length, if◌then◌else◌, arith,
}
use isomdl.Prelude.Text.{Text}

-- the pattern `'0'..='9'`
abbrev pub is_digit : ℕ → Bool
is_digit c = leb b'0' c && leb c b'9'

abbrev pub digit : ℕ → ℕ
digit n = b'0' + n

-- the digits of a number that has at most so many
unfoldable pub digits : ℕ → ℕ → Text
digits zero n = []
digits (suc room) n =
    let front = digits room (n / 10) in
    if ltb n 10 then digit n ∷ [] else front ++ digit (n % 10) ∷ []

-- `{}` of an integer below 2^32
unfoldable pub decimal : ℕ → Text
unfolding digits
decimal n = digits 10 n

-- `{:0>2}`
unfoldable pub two_wide : ℕ → Text
unfolding decimal
two_wide n = if ltb (length (decimal n)) 2 then b'0' ∷ decimal n else decimal n

-- the number that digits stand for
abbrev pub value_of : ℕ → Text → ℕ
value_of acc [] = acc
value_of acc (c ∷ s) = value_of (acc * 10 + (c - b'0')) s

value_of-append :
    (acc : ℕ) (s : Text) (c : ℕ) → value_of acc (s ++ c ∷ []) ≡ value_of acc s * 10 + (c - b'0')
value_of-append acc [] c = refl
value_of-append acc (d ∷ s) c = value_of-append (acc * 10 + (d - b'0')) s c

-- With room enough the digits stand for the number.
pub value_of-digits : (room n : ℕ) → n < 10 ^ room * 10 → value_of 0 (digits (suc room) n) ≡ n
unfolding digits
value_of-digits zero n h = let small : n < 10 = h in ground arith
value_of-digits (suc room) n h = elim (Bool-cases (ltb n 10)) [
  | inl e ↦ ground (arith, e)
  | inr e ↦
      let k : n < 10 ^ room * 10 * 10 = simp unary_clauses at h in
      let below : n / 10 < 10 ^ room * 10 = omega (arith, k) in
      ground (
        arith,
        e,
        value_of-append 0 (digits (suc room) (n / 10)) (digit (n % 10)),
        value_of-digits room (n / 10) below,
      )
]
