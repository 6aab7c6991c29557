-- ===== src/Prelude/Results.antt =====
-- `Result` with the error's type as a parameter, and `?` as a bind.
use mathlib.Core.Option.{Option, none, some}
use mathlib.Core.Path.{◌≡◌, refl}
use mathlib.Core.Logic.{◌⊎◌, inl, inr}

pub data Result {ℓ κ} (E : Type κ) (A : Type ℓ) : Type (ℓ ⊔ κ) where
  ok : A → Result E A
  err : E → Result E A

infixl 5 ◌>>=◌
abbrev pub ◌>>=◌ {ℓ κ μ} :
    {E : Type μ} {A : Type ℓ} {B : Type κ} → Result E A → (A → Result E B) → Result E B
ok a >>= f = f a
err e >>= f = err e

-- what a chain that succeeded got from its first step, and made of it
pub >>=_succeeds {ℓ κ μ} :
    {B : Type κ} {E : Type μ} {A : Type ℓ} (step : Result E A) (rest : A → Result E B) {out : B}
    → step >>= rest ≡ ok out
    → (got : A) × (step ≡ ok got) × (rest got ≡ ok out)
>>=_succeeds (err problem) rest h = cc
>>=_succeeds (ok got) rest h = (got, refl, h)

pub >>=_assoc {ℓ κ ν μ} :
    {E : Type μ} {A : Type ℓ} {B : Type κ} {D : Type ν} (m : Result E A) (f : A → Result E B)
    (k : B → Result E D)
    → (m >>= f >>= k) ≡ (m >>= λ a. f a >>= k)
>>=_assoc (ok a) f k = refl
>>=_assoc (err e) f k = refl

-- `ok_or`, `map_err` over an `Option`
abbrev pub ok_or {ℓ κ} : {E : Type κ} {A : Type ℓ} → Option A → E → Result E A
ok_or none e = err e
ok_or (some a) e = ok a

-- `Result::ok`
abbrev pub to_option {ℓ κ} : {E : Type κ} {A : Type ℓ} → Result E A → Option A
to_option (ok a) = some a
to_option (err e) = none

pub to_option-eq-some {ℓ κ} :
    {E : Type κ} {A : Type ℓ} (r : Result E A) {a : A} → to_option r ≡ some a → r ≡ ok a
to_option-eq-some (ok x) h = cc
to_option-eq-some (err e) h = absurd (cc)

-- What a call that may panic does.
pub data Outcome {ℓ κ} (E : Type κ) (A : Type ℓ) : Type (ℓ ⊔ κ) where
  returns : Result E A → Outcome E A
  panics : Outcome E A

-- A panicking step, `none`, in front of the rest.
abbrev pub or_panic {ℓ κ μ} :
    {E : Type μ} {A : Type ℓ} {B : Type κ} → Option A → (A → Outcome E B) → Outcome E B
or_panic none f = panics
or_panic (some a) f = f a

-- `?` on a call that may panic
abbrev pub and_then {ℓ κ μ} :
    {E : Type μ} {A : Type ℓ} {B : Type κ} → Outcome E A → (A → Outcome E B) → Outcome E B
and_then panics f = panics
and_then (returns (err e)) f = returns (err e)
and_then (returns (ok a)) f = f a

-- `?` on a call that does not panic
abbrev pub unwrapped {ℓ κ μ} :
    {E : Type μ} {A : Type ℓ} {B : Type κ} → Result E A → (A → Outcome E B) → Outcome E B
unwrapped m f = and_then (returns m) f

pub and_then-eq-ok {ℓ κ μ} :
    {E : Type μ} {A : Type ℓ} {B : Type κ} (m : Outcome E A) (f : A → Outcome E B) {b : B}
    → and_then m f ≡ returns (ok b)
    → (a : A) × (m ≡ returns (ok a)) × (f a ≡ returns (ok b))
and_then-eq-ok (returns (ok a)) f h = (a, refl, h)
and_then-eq-ok (returns (err e)) f h = cc
and_then-eq-ok panics f h = cc

-- `map_err`
abbrev pub map_err {ℓ κ μ} :
    {E : Type κ} {F : Type μ} {A : Type ℓ} → (E → F) → Result E A → Result F A
map_err f (ok a) = ok a
map_err f (err e) = err (f e)

abbrev pub or_err {ℓ κ μ} :
    {E : Type κ} {F : Type μ} {A : Type ℓ} → (E → F) → Outcome E A → Outcome F A
or_err f panics = panics
or_err f (returns r) = returns (map_err f r)

pub Result-cases {ℓ κ} :
    {E : Type κ} {A : Type ℓ} (r : Result E A) → ((e : E) × (r ≡ err e)) ⊎ ((a : A) × (r ≡ ok a))
Result-cases (err e) = inl (e, refl)
Result-cases (ok a) = inr (a, refl)

-- a step of a chain whose error was converted
pub map_err-eq-ok {ℓ κ μ} :
    {E : Type κ} {F : Type μ} {A : Type ℓ} (g : E → F) (m : Result E A) {a : A}
    → map_err g m ≡ ok a
    → m ≡ ok a
map_err-eq-ok g (ok a) h = cc
map_err-eq-ok g (err e) h = cc

pub or_err-eq-ok {ℓ κ μ} :
    {E : Type κ} {F : Type μ} {A : Type ℓ} (g : E → F) (m : Outcome E A) {a : A}
    → or_err g m ≡ returns (ok a)
    → m ≡ returns (ok a)
or_err-eq-ok g (returns (ok a)) h = cc
or_err-eq-ok g (returns (err e)) h = cc
or_err-eq-ok g panics h = cc

pub unwrapped-eq-ok {ℓ κ μ} :
    {E : Type μ} {A : Type ℓ} {B : Type κ} (m : Result E A) (f : A → Outcome E B) {b : B}
    → unwrapped m f ≡ returns (ok b)
    → (a : A) × (m ≡ ok a) × (f a ≡ returns (ok b))
unwrapped-eq-ok (ok a) f h = (a, refl, h)
unwrapped-eq-ok (err e) f h = cc

pub ok_or-eq-ok {ℓ κ} :
    {E : Type κ} {A : Type ℓ} (o : Option A) (e : E) {a : A} → ok_or o e ≡ ok a → o ≡ some a
ok_or-eq-ok none e h = cc
ok_or-eq-ok (some a) e h = cc
