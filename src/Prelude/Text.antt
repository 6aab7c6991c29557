-- ===== src/Prelude/Text.antt =====
-- Rust strings as lists of Unicode code points. Their order, by code points, is the order of the
-- UTF-8 bytes, which is the order of `String`.
use Prim.Native.Nat.{ℕ}
use Prim.Native.Char.{code}
use Prim.Native.String.{String}
use isomdl.Prelude.Tests.{◌==◌, ltb}
use mathlib.Core.Path.{◌≡◌, refl, ap}
use mathlib.Core.Logic.{◌↔◌}
use mathlib.Core.Bool.{Bool, true, false, ◌&&◌, ◌||◌}
use mathlib.Core.List.{List, [], ◌∷◌, ◌++◌}
use mathlib.Core.Option.{Option, none, some}
use native.Mathlib.Omega.{arith}

abbrev pub Text : Type 0
Text = List ℕ

-- a string literal
abbrev pub codes : String → Text
codes String.[] = []
codes (String.◌∷◌ c s) = code c ∷ codes s

unfoldable pub text_eq : Text → Text → Bool
text_eq [] [] = true
text_eq (a ∷ s) (b ∷ t) = (a == b) && text_eq s t
text_eq _ _ = false

unfoldable pub text_lt : Text → Text → Bool
text_lt [] (b ∷ t) = true
text_lt (a ∷ s) (b ∷ t) = ltb a b || ((a == b) && text_lt s t)
text_lt _ [] = false

pub text_eq_iff : (s t : Text) → (text_eq s t ≡ true) ↔ (s ≡ t)
unfolding text_eq
text_eq_iff [] [] = (λ _. refl, λ _. refl)
text_eq_iff [] (b ∷ t) = ground arith
text_eq_iff (a ∷ s) [] = ground arith
text_eq_iff (a ∷ s) (b ∷ t) = ground (arith, text_eq_iff s t)

pub text_lt_irrefl : (s : Text) → text_lt s s ≡ false
unfolding text_lt
text_lt_irrefl [] = refl
text_lt_irrefl (a ∷ s) = ground (arith, text_lt_irrefl s)

pub text_lt_trans : (s t u : Text) → text_lt s t ≡ true → text_lt t u ≡ true → text_lt s u ≡ true
unfolding text_lt
text_lt_trans [] [] u h k = ground arith
text_lt_trans [] (b ∷ t) [] h k = ground arith
text_lt_trans [] (b ∷ t) (c ∷ u) h k = refl
text_lt_trans (a ∷ s) [] u h k = ground arith
text_lt_trans (a ∷ s) (b ∷ t) [] h k = ground arith
text_lt_trans (a ∷ s) (b ∷ t) (c ∷ u) h k = ground (arith, text_lt_trans s t u)

pub text_lt_total : (s t : Text) → text_lt s t ≡ false → text_eq s t ≡ false → text_lt t s ≡ true
unfolding text_lt text_eq
text_lt_total [] [] h k = ground arith
text_lt_total [] (b ∷ t) h k = ground arith
text_lt_total (a ∷ s) [] h k = refl
text_lt_total (a ∷ s) (b ∷ t) h k = ground (arith, text_lt_total s t)

-- `strip_prefix`
unfoldable pub strip_prefix : Text → Text → Option Text
strip_prefix [] s = some s
strip_prefix (a ∷ p) [] = none
strip_prefix (a ∷ p) (b ∷ s) =
    let rest = strip_prefix p s in elim (a == b) [ true ↦ rest | false ↦ none ]

abbrev is_some {ℓ} : {A : Type ℓ} → Option A → Bool
is_some none = false
is_some (some _) = true

-- `starts_with`
unfoldable pub starts_with : Text → Text → Bool
unfolding strip_prefix
starts_with s p = is_some (strip_prefix p s)

-- `contains`
unfoldable pub contains : Text → Text → Bool
unfolding starts_with
contains [] p = starts_with [] p
contains (a ∷ s) p = starts_with (a ∷ s) p || contains s p

pub strip_prefix-append : (p s : Text) → strip_prefix p (p ++ s) ≡ some s
unfolding strip_prefix
strip_prefix-append [] s = refl
strip_prefix-append (a ∷ p) s = ground (arith, strip_prefix-append p s)

pub strip_prefix-eq_some : (p s : Text) {t : Text} → strip_prefix p s ≡ some t → s ≡ p ++ t
unfolding strip_prefix
strip_prefix-eq_some [] s h = ground arith
strip_prefix-eq_some (a ∷ p) [] h = ground arith
strip_prefix-eq_some (a ∷ p) (b ∷ s) {t} h = ground (arith, strip_prefix-eq_some p s {t = t})

-- `contains` of a vector of strings
abbrev pub member : Text → List Text → Bool
member e [] = false
member e (x ∷ xs) = text_eq x e || member e xs

pub member-append :
    (e : Text) (xs ys : List Text) → member e (xs ++ ys) ≡ (member e xs || member e ys)
member-append e [] ys = refl
member-append e (x ∷ xs) ys = ground (arith, member-append e xs ys)

is_some-eq_true {ℓ} : {A : Type ℓ} (o : Option A) → is_some o ≡ true → (a : A) × (o ≡ some a)
is_some-eq_true none h = absurd (cc)
is_some-eq_true (some a) h = (a, refl)

pub starts_with-eq_true : (s p : Text) → starts_with s p ≡ true → (rest : Text) × (s ≡ p ++ rest)
unfolding starts_with
starts_with-eq_true s p h =
    let (rest, e) = is_some-eq_true (strip_prefix p s) h in (rest, strip_prefix-eq_some p s e)

pub starts_with-append : (p rest : Text) → starts_with (p ++ rest) p ≡ true
unfolding starts_with
starts_with-append p rest = ap is_some (strip_prefix-append p rest)
