-- ===== src/Helpers/NonEmptyVec/Convert.antt =====
-- `into` and `try_into` of src/definitions/helpers/non_empty_vec.rs, which unwrap the vector that they
-- make of the converted elements.
use isomdl.Prelude.{
  ◌≡◌, ◌≢◌, refl, List, [], ◌∷◌, map, Option, some, Result, Result-cases, ok, ◌>>=◌, >>=_succeeds,
  inl, inr, Outcome, returns, or_panic, unwrapped,
}
use isomdl.Helpers.NonEmptyVec.{NonEmptyVec, maybe_new, IsNonEmpty}

module _ {ℓ κ} {A : Type ℓ} {B : Type κ} where
  -- `none` is the panic of the unwrap
  unfoldable into : (A → B) → NonEmptyVec A → Option (NonEmptyVec B)
  into f v = maybe_new (map f v.items)

  into_items :
      (f : A → B) (items : List A)
      → items ≢ []
      → maybe_new (map f items) ≡ some (record { items = map f items })
  unfolding maybe_new
  into_items f [] h = absurd (h refl)
  into_items f (a ∷ items) h = refl

  -- A vector with an element is converted without a panic, element by element.
  into_lem :
      (f : A → B) (v : NonEmptyVec A)
      → IsNonEmpty v
      → into f v ≡ some (record { items = map f v.items })
  unfolding into
  into_lem f v h = into_items f v.items h

module _ {ℓ κ μ} {A : Type ℓ} {B : Type κ} {E : Type μ} (f : A → Result E B) where
  -- `collect` into a result: the first error decides
  unfoldable converted : List A → Result E (List B)
  converted [] = ok []
  converted (a ∷ items) = f a >>= λ b. converted items >>= λ bs. ok (b ∷ bs)

  unfoldable try_into : NonEmptyVec A → Outcome E (NonEmptyVec B)
  try_into v = unwrapped (converted v.items) λ items. or_panic (maybe_new items) λ w. returns (ok w)

  converted-nonempty :
      (items : List A)
      → items ≢ []
      → (bs : List B) → converted items ≡ ok bs
      → maybe_new bs ≡ some (record { items = bs })
  unfolding converted maybe_new
  converted-nonempty [] h bs e = absurd (h refl)
  converted-nonempty (a ∷ items) h [] e =
      let (b, _, rest) = >>=_succeeds (f a) (λ b. converted items >>= λ bs. ok (b ∷ bs)) e in
      let (bs, _, made) = >>=_succeeds (converted items) (λ bs. ok (b ∷ bs)) rest in cc
  converted-nonempty (a ∷ items) h (b ∷ bs) e = refl

  -- A vector with an element is converted without a panic: the result is the converted elements or the
  -- error of one of them.
  try_into_lem :
      (v : NonEmptyVec A)
      → IsNonEmpty v
      → try_into v ≡ returns (converted v.items >>= λ items. ok (record { items = items }))
  unfolding try_into
  try_into_lem v h = elim (Result-cases (converted v.items)) [
    | inl (problem, e) ↦ simp e
    | inr (bs, e) ↦ simp (e, converted-nonempty v.items h bs e)
  ]
