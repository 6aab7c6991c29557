-- ===== src/Helpers/NonEmptyVec.antt =====
-- src/definitions/helpers/non_empty_vec.rs
pub mod Convert
use isomdl.Prelude.{◌≡◌, ◌≢◌, List, [], ◌∷◌, ◌++◌, Option, none, some, Result, ok, err}

pub data Error : Type 0 where
  empty : Error

pub record NonEmptyVec {ℓ} (A : Type ℓ) : Type ℓ where
  pub items : List A

module _ {ℓ} {A : Type ℓ} where
  unfoldable pub new : A → NonEmptyVec A
  new t = record { items = t ∷ [] }

  -- `TryFrom<Vec<T>>`
  unfoldable pub try_from : List A → Result Error (NonEmptyVec A)
  try_from [] = err empty
  try_from (t ∷ v) = ok (record { items = t ∷ v })

  -- `try_into().ok()` and `maybe_new`
  unfoldable pub maybe_new : List A → Option (NonEmptyVec A)
  unfolding try_from
  maybe_new v = elim (try_from v) [ ok w ↦ some w | err e ↦ none ]

  unfoldable pub push : NonEmptyVec A → A → NonEmptyVec A
  push v t = record { items = v.items ++ t ∷ [] }

  abbrev pub into_inner : NonEmptyVec A → List A
  into_inner v = v.items

  abbrev pub IsNonEmpty : NonEmptyVec A → Type ℓ
  IsNonEmpty v = v.items ≢ []

  pub maybe_new-items : (v : List A) {w : NonEmptyVec A} → maybe_new v ≡ some w → w.items ≡ v
  unfolding maybe_new
  maybe_new-items [] h = cc
  maybe_new-items (t ∷ v) h = cc
