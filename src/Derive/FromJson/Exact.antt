-- ===== src/Derive/FromJson/Exact.antt =====
-- When a generated `from_json` (src/macros/src/from_json.rs) gives a struct, and what it reports
-- otherwise.
use mathlib.Core.List.{append_assoc, append-nil}
use isomdl.Prelude.{
  ◌≡◌, refl, ap, ◌∙◌, ◌⊎◌, ◌↔◌, inl, inr, List, [], ◌∷◌, ◌++◌, Option, none, some, Result, ok, err,
  Outcome, returns, panics, arith,
}
use isomdl.Prelude.Text.{Text}
use isomdl.Prelude.Map.{bind}
use isomdl.FromJson.{Object, FromJsonError, with_context}
use isomdl.Derive.FromJson.{
  Conversions, struct, then_field, Collected, pushed, convert, concluded, from_object, summed,
}

-- Every field reads, and what is built of the fields' values has the property.
unfoldable pub Reads : {A : Type 0} → Conversions A → Object → (A → Type 0) → Type 0
Reads (struct a) map P = P a
Reads (then_field cs field_str read) map P =
    Reads cs map (λ f. (b : _) × (read map ≡ returns (ok b)) × P (f b))

-- the errors of the fields that do not read, in their order
abbrev failed : {B : Type 0} → Text → Outcome FromJsonError B → List FromJsonError
failed field_str (returns (err e)) = with_context field_str e ∷ []
failed field_str _ = []

unfoldable pub failures : {A : Type 0} → Conversions A → Object → List FromJsonError
failures (struct a) map = []
failures (then_field cs field_str read) map = failures cs map ++ failed field_str (read map)

-- no field's reader panics
unfoldable pub Settles : {A : Type 0} → Conversions A → Object → Type 0
Settles (struct a) map = Unit
Settles (then_field cs field_str read) map =
    Settles cs map × ((r : Result FromJsonError _) × (read map ≡ returns r))

Reads-imp :
    {A : Type 0} {P Q : A → Type 0} (cs : Conversions A) (map : Object)
    → ((a : A) → P a → Q a)
    → Reads cs map P
    → Reads cs map Q
unfolding Reads
Reads-imp (struct a) map g h = g a h
Reads-imp (then_field cs field_str read) map g h =
    Reads-imp cs map (λ f r. let (b, e, p) = r in (b, e, g (f b) p)) h

convert-Reads :
    {A : Type 0} {P : A → Type 0} (cs : Conversions A) (map : Object) (errors : List FromJsonError)
    → Reads cs map P
    → (a : A) × (convert cs map errors ≡ some (some a, errors)) × P a
unfolding Reads convert
convert-Reads (struct a) map errors h = (a, refl, h)
convert-Reads (then_field cs field_str read) map errors h =
    let (f, e, (b, e', p)) = convert-Reads cs map errors h in (f b, ground (arith, e, e'), p)

bind-eq_some {ℓ κ} :
    {A : Type ℓ} {B : Type κ} (o : Option A) (f : A → Option B) {b : B}
    → bind o f ≡ some b
    → (a : A) × (o ≡ some a) × (f a ≡ some b)
bind-eq_some none f h = cc
bind-eq_some (some a) f h = (a, refl, h)

-- what stood before a conversion that leaves all fields there
pushed-eq_some :
    {A B : Type 0} (field_str : Text) (o : Outcome FromJsonError B) (c : Collected (B → A)) {a : A}
    {es : List FromJsonError}
    → pushed field_str o c ≡ some (some a, es)
    → (f : B → A) × (b : B) × (c ≡ (some f, es)) × (o ≡ returns (ok b)) × (f b ≡ a)
pushed-eq_some field_str (returns (ok b)) (some f, errors) h =
    (f, b, ground (arith, h), refl, ground (arith, h))
pushed-eq_some field_str (returns (ok b)) (none, errors) h = absurd (ground (arith, h))
pushed-eq_some field_str (returns (err e)) (f, errors) h = absurd (ground (arith, h))
pushed-eq_some field_str panics (f, errors) h = absurd (ground (arith, h))

Reads-convert :
    {A : Type 0} (cs : Conversions A) (map : Object) (errors : List FromJsonError) {a : A}
    {es : List FromJsonError}
    → convert cs map errors ≡ some (some a, es)
    → (es ≡ errors) × Reads cs map (λ x. x ≡ a)
unfolding Reads convert
Reads-convert (struct a) map errors h = (ground (arith, h), ground (arith, h))
Reads-convert (then_field cs field_str read) map errors {a} {es} h =
    let (c, e, p) = bind-eq_some (convert cs map errors) _ h in
    let (f, b, is, read_b, built) = pushed-eq_some field_str (read map) c p in
    let (same, reads) = Reads-convert cs map errors (e ∙ ap some is) in
    (same, Reads-imp cs map (λ g q. (b, read_b, ap (λ k. k b) q ∙ built)) reads)

concluded-eq-ok :
    {A : Type 0} (c : Option (Collected A)) {a : A}
    → concluded c ≡ returns (ok a)
    → c ≡ some (some a, [])
unfolding concluded
concluded-eq-ok none h = cc
concluded-eq-ok (some (none, [])) h = cc
concluded-eq-ok (some (some a, [])) h = cc
concluded-eq-ok (some (none, e ∷ es)) h = cc
concluded-eq-ok (some (some a, e ∷ es)) h = cc

-- A generated `from_json` gives a struct of an object exactly when every field reads, and then it
-- is the struct of the fields' values.
pub from_object_exact :
    {A : Type 0} (cs : Conversions A) (map : Object) (a : A)
    → (from_object cs map ≡ returns (ok a)) ↔ Reads cs map (λ x. x ≡ a)
unfolding from_object concluded
from_object_exact cs map a = (
  (λ h. (Reads-convert cs map [] (concluded-eq-ok (convert cs map []) h)).1),
  (λ h. let (b, e, is) = convert-Reads cs map [] h in ap concluded e ∙ ap (λ x. returns (ok x)) is),
)

convert-Settles :
    {A : Type 0} (cs : Conversions A) (map : Object) (errors : List FromJsonError)
    → Settles cs map
    → ((a : A) × (convert cs map errors ≡ some (some a, errors)) × (failures cs map ≡ []))
      ⊎ ((e : FromJsonError) × (es : List FromJsonError) × (convert cs map errors
            ≡ some (none, errors ++ e ∷ es))
          × (failures cs map ≡ e ∷ es))
unfolding Settles convert failures
convert-Settles (struct a) map errors h = inl (a, refl, refl)
convert-Settles (then_field cs field_str read) map errors (hs, (ok b, r)) =
    elim (convert-Settles cs map errors hs) [
      | inl (f, e, n) ↦ inl (f b, ground (arith, e, r, n), ground (arith, n, r))
      | inr (d, es, e, n) ↦
          inr (d, es, ground (arith, e, r, n), ground (arith, n, r, append-nil es))
    ]
convert-Settles (then_field cs field_str read) map errors (hs, (err x, r)) =
    elim (convert-Settles cs map errors hs) [
      | inl (f, e, n) ↦
          inr (with_context field_str x, [], ground (arith, e, r, n), ground (arith, n, r))
      | inr (d, es, e, n) ↦ inr (
        d,
        es ++ with_context field_str x ∷ [],
        ground (arith, e, r, n, append_assoc errors (d ∷ es) (with_context field_str x ∷ [])),
        ground (arith, n, r),
      )
    ]

-- What a generated `from_json` returns if no field's reader panics: its unwraps do not panic, and
-- it gives either the struct, every field having been read, or the errors of all the fields that
-- could not be, in the order of the fields, each with the field's name.
pub from_object-Settles :
    {A : Type 0} (cs : Conversions A) (map : Object)
    → Settles cs map
    → ((a : A) × (from_object cs map ≡ returns (ok a)) × (failures cs map ≡ []))
      ⊎ ((e : FromJsonError) × (es : List FromJsonError) × (from_object cs map
            ≡ returns (err (summed e es)))
          × (failures cs map ≡ e ∷ es))
unfolding from_object concluded
from_object-Settles cs map h = elim (convert-Settles cs map [] h) [
  | inl (a, e, n) ↦ inl (a, ap concluded e, n)
  | inr (d, es, e, n) ↦ inr (d, es, ap concluded e, n)
]
