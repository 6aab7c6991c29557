-- ===== src/Session/Nonces.antt =====
-- The initialisation vectors of src/definitions/session.rs.
use isomdl.Prelude.{ℕ, ◌+◌, ◌%◌, ◌^◌, ◌<◌, ◌≡◌, refl, ap, Bool, true, false, [], ◌∷◌, arith}
use isomdl.Cbor.{Bytes}
use isomdl.Session.{to_be_bytes, get_initialization_vector}

abbrev first : Bytes → ℕ
first [] = 0
first (b ∷ _) = b

abbrev tail : Bytes → Bytes
tail [] = []
tail (_ ∷ bs) = bs

digits_injective : (a b : ℕ) → a < 2 ^ 32 → b < 2 ^ 32 → to_be_bytes a ≡ to_be_bytes b → a ≡ b
unfolding to_be_bytes
digits_injective a b ha hb h = omega (
  arith,
  ap first h,
  ap (λ (l : Bytes). first (tail l)) h,
  ap (λ (l : Bytes). first (tail (tail l))) h,
  ap (λ (l : Bytes). first (tail (tail (tail l)))) h,
)

-- a vector is the eight bytes of its side and the counter
abbrev counter_bytes : Bytes → Bytes
counter_bytes l = tail (tail (tail (tail (tail (tail (tail (tail l)))))))

abbrev side : Bytes → ℕ
side l = first (tail (tail (tail (tail (tail (tail (tail l)))))))

same_side :
    (r : Bool) (c d : ℕ)
    → c + 1 < 2 ^ 32
    → d + 1 < 2 ^ 32
    → (get_initialization_vector c r).1 ≡ (get_initialization_vector d r).1
    → c ≡ d
unfolding get_initialization_vector
same_side true c d hc hd h = omega (
  arith,
  digits_injective ((c + 1) % 2 ^ 32) ((d + 1) % 2 ^ 32) (omega arith) (omega arith)
      (ap counter_bytes h),
)
same_side false c d hc hd h = omega (
  arith,
  digits_injective ((c + 1) % 2 ^ 32) ((d + 1) % 2 ^ 32) (omega arith) (omega arith)
      (ap counter_bytes h),
)

-- Two messages of a session, each sent by the reader or by the device when its counter is `c`
-- or `d`, get the same initialisation vector only if the same side sends them at the same counter,
-- as long as neither counter has reached 2^32 - 1.
pub get_initialization_vector_injective :
    (c d : ℕ) (r s : Bool)
    → c + 1 < 2 ^ 32
    → d + 1 < 2 ^ 32
    → (get_initialization_vector c r).1 ≡ (get_initialization_vector d s).1
    → (c ≡ d) × (r ≡ s)
unfolding get_initialization_vector
get_initialization_vector_injective c d true true hc hd h = (same_side true c d hc hd h, refl)
get_initialization_vector_injective c d false false hc hd h = (same_side false c d hc hd h, refl)
get_initialization_vector_injective c d true false hc hd h = absurd (omega (arith, ap side h))
get_initialization_vector_injective c d false true hc hd h = absurd (omega (arith, ap side h))
