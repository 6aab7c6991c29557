-- ===== src/Helpers/Tag24.antt =====
-- src/definitions/helpers/tag24.rs. The inner type's own CBOR form is a parameter, `to_vec` and
-- `from_slice` of serde_cbor at that type.
use isomdl.Prelude.{
  ◌≡◌, ◌==◌, Option, none, some, Option-cases, inl, inr, Result, ok, err, if◌then◌else◌, arith,
}
use isomdl.Cbor.{Bytes, Value, bytes, tag}

pub record Tag24 (A : Type 0) : Type 0 where
  pub inner : A
  pub inner_bytes : Bytes

pub data Error : Type 0 where
  invalid_tag24 not_a_tag24 : Value → Error
  unable_to_encode unable_to_decode : Error

-- serde_cbor at a type: `to_vec` and `from_slice`, `none` an error.
pub record Codec (A : Type 0) : Type 0 where
  pub to_vec : A → Option Bytes
  pub from_slice : Bytes → Option A

-- This value is read back, if it can be written.
abbrev pub Reads : {A : Type 0} → Codec A → A → Type 0
Reads c a = (b : Bytes) → c.to_vec a ≡ some b → c.from_slice b ≡ some a

abbrev pub converted : {A : Type 0} → (Value → Option A) → Option Value → Option A
converted from none = none
converted from (some v) = from v

-- `serde(try_from = "CborValue", into = "CborValue")`: a type that is written and read as the value
-- that the repository's own conversions make of it
abbrev pub through_value : {A : Type 0} → Codec Value → (A → Value) → (Value → Option A) → Codec A
through_value values to from = record {
  to_vec = λ a. values.to_vec (to a);
  from_slice = λ b. converted from (values.from_slice b);
}

module _ {A : Type 0} where
  abbrev pub into_inner : Tag24 A → A
  into_inner t = t.inner

  -- `From<Tag24<T>> for CborValue`, `Serialize`
  unfoldable pub to_cbor : Tag24 A → Value
  to_cbor t = tag 24 (bytes t.inner_bytes)

module _ {A : Type 0} (c : Codec A) where
  wrap : A → Option Bytes → Result Error (Tag24 A)
  wrap a none = err unable_to_encode
  wrap a (some b) = ok (record { inner = a; inner_bytes = b })

  unfoldable pub new : A → Result Error (Tag24 A)
  unfolding wrap
  new a = wrap a (c.to_vec a)

  decoded : Bytes → Option A → Result Error (Tag24 A)
  decoded b none = err unable_to_decode
  decoded b (some a) = ok (record { inner = a; inner_bytes = b })

  unfoldable pub from_bytes : Bytes → Result Error (Tag24 A)
  unfolding decoded
  from_bytes b = decoded b (c.from_slice b)

  -- `TryFrom<CborValue>`, `Deserialize`
  unfoldable pub from_cbor : Value → Result Error (Tag24 A)
  unfolding from_bytes
  from_cbor (tag n (bytes b)) =
      if n == 24 then from_bytes b else err (not_a_tag24 (tag n (bytes b)))
  from_cbor (tag n v) = if n == 24 then err (invalid_tag24 v) else err (not_a_tag24 (tag n v))
  from_cbor v = err (not_a_tag24 v)

  -- A value that is read and written again is the same value, whatever encoding its bytes use.
  pub to_cbor-from_cbor : (v : Value) {t : Tag24 A} → from_cbor v ≡ ok t → to_cbor t ≡ v
  unfolding from_cbor to_cbor
  to_cbor-from_cbor (tag n (bytes b)) h = elim (Option-cases (c.from_slice b)) [
    | inl e ↦ ground (arith, e)
    | inr (a, e) ↦ ground (arith, e)
  ]
  to_cbor-from_cbor (tag n v) h = ground arith
  to_cbor-from_cbor v h = absurd (cc)

  -- If the inner value is read back, so is what `new` makes of it, inner value and bytes.
  pub from_cbor-new :
      (a : A) → Reads c a → {t : Tag24 A} → new a ≡ ok t → from_cbor (to_cbor t) ≡ ok t
  unfolding from_cbor to_cbor new
  from_cbor-new a law {t} h = elim (Option-cases (c.to_vec a)) [
    | inl e ↦ ground (arith, e)
    | inr (b, e) ↦ ground (arith, e, law b e)
  ]
