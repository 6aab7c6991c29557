-- ===== src/Helpers/NonEmptyMap.antt =====
-- src/definitions/helpers/non_empty_map.rs
use isomdl.Prelude.{[], ◌∷◌, Option, none, some, Result, ok, err}
use isomdl.Prelude.Map.{Ord, Map}
use isomdl.Prelude.Map as M

pub data Error : Type 0 where
  empty : Error

pub record NonEmptyMap {ℓ κ} (K : Type ℓ) (V : Type κ) : Type (ℓ ⊔ κ) where
  pub entries : Map K V

module _ {ℓ κ} {K : Type ℓ} {V : Type κ} where
  unfoldable pub try_from : Map K V → Result Error (NonEmptyMap K V)
  try_from [] = err empty
  try_from (e ∷ m) = ok (record { entries = e ∷ m })

  -- `try_into().ok()` and `maybe_new`
  unfoldable pub maybe_new : Map K V → Option (NonEmptyMap K V)
  unfolding try_from
  maybe_new m = elim (try_from m) [ ok w ↦ some w | err e ↦ none ]

  abbrev pub into_inner : NonEmptyMap K V → Map K V
  into_inner m = m.entries

module _ {ℓ κ} {K : Type ℓ} {V : Type κ} ⦃o : Ord K⦄ where
  unfoldable pub new : K → V → NonEmptyMap K V
  unfolding M.insert
  new k v = record { entries = M.insert k v [] }

  unfoldable pub insert : NonEmptyMap K V → K → V → NonEmptyMap K V
  insert m k v = record { entries = M.insert k v m.entries }

  -- through `Deref`
  abbrev pub get : NonEmptyMap K V → K → Option V
  get m k = M.get k m.entries
