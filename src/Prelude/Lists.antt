-- ===== src/Prelude/Lists.antt =====
-- Lists measured by native numbers, and predicates on lists by recursion.
use Prim.Native.Nat.{zero, min, ℕ, suc, ◌+◌}
use mathlib.Core.Path.{◌≡◌, refl}
use mathlib.Core.Bool.{Bool, true, false}
use mathlib.Core.List.{List, [], ◌∷◌, ◌++◌}
use mathlib.Core.Option.{Option, none, some}
use native.Mathlib.Omega.{arith}

module _ {ℓ} {A : Type ℓ} where
  abbrev pub length : List A → ℕ
  length [] = 0
  length (x ∷ xs) = suc (length xs)

  pub length-append : (xs ys : List A) → length (xs ++ ys) ≡ length xs + length ys
  length-append [] ys = omega arith
  length-append (x ∷ xs) ys = omega (arith, length-append xs ys)

  abbrev pub All {κ} : (A → Type κ) → List A → Type κ
  All P [] = Unit
  All P (x ∷ xs) = P x × All P xs

  -- `filter` of an iterator, by a Boolean test.
  abbrev pub keep : (A → Bool) → List A → List A
  keep p [] = []
  keep p (x ∷ xs) = let rest = keep p xs in elim (p x) [ true ↦ x ∷ rest | false ↦ rest ]

  -- `find` of an iterator.
  abbrev pub find : (A → Bool) → List A → Option A
  find p [] = none
  find p (x ∷ xs) = let rest = find p xs in elim (p x) [ true ↦ some x | false ↦ rest ]

  abbrev pub take : ℕ → List A → List A
  take zero xs = []
  take (suc n) [] = []
  take (suc n) (x ∷ xs) = x ∷ take n xs

  pub length-take : (n : ℕ) (xs : List A) → length (take n xs) ≡ min n (length xs)
  length-take zero xs = omega arith
  length-take (suc n) [] = omega arith
  length-take (suc n) (x ∷ xs) = omega (arith, length-take n xs)

abbrev pub add_some {ℓ} : {B : Type ℓ} → Option B → List B → List B
add_some none ys = ys
add_some (some y) ys = y ∷ ys

module _ {ℓ κ} {A : Type ℓ} {B : Type κ} where
  -- `filter_map` of an iterator
  abbrev pub filter_map : (A → Option B) → List A → List B
  filter_map f [] = []
  filter_map f (x ∷ xs) = add_some (f x) (filter_map f xs)

  pub filter_map-append :
      (f : A → Option B) (xs ys : List A)
      → filter_map f (xs ++ ys) ≡ filter_map f xs ++ filter_map f ys
  filter_map-append f [] ys = refl
  filter_map-append f (x ∷ xs) ys = ground (arith, filter_map-append f xs ys)

abbrev pub push_front {ℓ} : {A : Type ℓ} → A → Option (A × List A) → Option (A × List A)
push_front x none = some (x, [])
push_front x (some (y, r)) = some (y, x ∷ r)

module _ {ℓ} {A : Type ℓ} where
  -- `pop` of a vector: its last element, and the rest
  abbrev pub pop : List A → Option (A × List A)
  pop [] = none
  pop (x ∷ xs) = push_front x (pop xs)

  pub pop-append : (xs : List A) (x : A) → pop (xs ++ x ∷ []) ≡ some (x, xs)
  pop-append [] x = refl
  pop-append (y ∷ xs) x = rw (pop-append xs x)
