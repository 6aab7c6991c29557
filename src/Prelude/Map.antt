-- ===== src/Prelude/Map.antt =====
-- The standard library's `BTreeMap`: its entries in the order of their keys.
pub mod Collect
use Prim.Native.Nat.{ℕ}
use isomdl.Prelude.Int.{ℤ, eq_ℤ, eq_ℤ_iff, lt_ℤ, lt_ℤ_irrefl, lt_ℤ_trans, lt_ℤ_total}
use isomdl.Prelude.Tests.{◌==◌, ltb, ==_iff, if◌then◌else◌, Bool-cases}
use isomdl.Prelude.Text.{
  Text, text_eq, text_lt, text_eq_iff, text_lt_irrefl, text_lt_trans, text_lt_total,
}
use mathlib.Core.Path.{◌≡◌, refl, subst, ap, ◌∙◌}
use mathlib.Core.Logic.{◌↔◌, inl, inr}
use mathlib.Core.Bool.{Bool, true, false}
use mathlib.Core.List.{List, [], ◌∷◌}
use mathlib.Core.Option.{Option, none, some}
use native.Mathlib.Omega.{arith}

-- `Ord`, with what `BTreeMap` asks of it.
pub record Ord {ℓ} (K : Type ℓ) : Type ℓ where
  pub eq : K → K → Bool
  pub lt : K → K → Bool
  pub eq_iff : (a b : K) → (eq a b ≡ true) ↔ (a ≡ b)
  pub lt_irrefl : (a : K) → lt a a ≡ false
  pub lt_trans : (a b c : K) → lt a b ≡ true → lt b c ≡ true → lt a c ≡ true
  pub lt_total : (a b : K) → lt a b ≡ false → eq a b ≡ false → lt b a ≡ true

instance abbrev pub text_ord : Ord Text
text_ord = record {
  eq = text_eq;
  lt = text_lt;
  eq_iff = text_eq_iff;
  lt_irrefl = text_lt_irrefl;
  lt_trans = text_lt_trans;
  lt_total = text_lt_total;
}

pub nat_lt_irrefl : (a : ℕ) → ltb a a ≡ false
nat_lt_irrefl a = ground arith

pub nat_lt_trans : (a b c : ℕ) → ltb a b ≡ true → ltb b c ≡ true → ltb a c ≡ true
nat_lt_trans a b c h k = ground arith

pub nat_lt_total : (a b : ℕ) → ltb a b ≡ false → (a == b) ≡ false → ltb b a ≡ true
nat_lt_total a b h k = ground arith

instance abbrev pub nat_ord : Ord ℕ
nat_ord = record {
  eq = ◌==◌;
  lt = ltb;
  eq_iff = ==_iff;
  lt_irrefl = nat_lt_irrefl;
  lt_trans = nat_lt_trans;
  lt_total = nat_lt_total;
}

instance abbrev pub int_ord : Ord ℤ
int_ord = record {
  eq = eq_ℤ;
  lt = lt_ℤ;
  eq_iff = eq_ℤ_iff;
  lt_irrefl = lt_ℤ_irrefl;
  lt_trans = lt_ℤ_trans;
  lt_total = lt_ℤ_total;
}

abbrev pub Map {ℓ κ} : Type ℓ → Type κ → Type (ℓ ⊔ κ)
Map K V = List (K × V)

module _ {ℓ} {K : Type ℓ} ⦃o : Ord K⦄ where
  pub eq_refl : (k : K) → o.eq k k ≡ true
  eq_refl k = (o.eq_iff k k).1 refl

  ne_symm : (j k : K) → o.eq j k ≡ false → o.eq k j ≡ false
  ne_symm j k h = ground (arith, o.eq_iff j k, o.eq_iff k j)

module _ {ℓ κ} {K : Type ℓ} {V : Type κ} ⦃o : Ord K⦄ where
  unfoldable pub get : K → Map K V → Option V
  get k [] = none
  get k ((j, v) ∷ m) = if o.eq j k then some v else get k m

  unfoldable pub insert : K → V → Map K V → Map K V
  insert k v [] = (k, v) ∷ []
  insert k v ((j, w) ∷ m) =
      let rest = insert k v m in
      if o.eq j k then (k, v) ∷ m else if o.lt k j then (k, v) ∷ (j, w) ∷ m else (j, w) ∷ rest

  unfoldable pub remove : K → Map K V → Map K V
  remove k [] = []
  remove k ((j, v) ∷ m) = let rest = remove k m in if o.eq j k then rest else (j, v) ∷ rest

  -- every key of the map comes after `k`
  abbrev pub Below : K → Map K V → Type 0
  Below k [] = Unit
  Below k ((j, _) ∷ m) = (o.lt k j ≡ true) × Below k m

  abbrev pub IsSorted : Map K V → Type 0
  IsSorted [] = Unit
  IsSorted ((k, _) ∷ m) = Below k m × IsSorted m

  pub get-insert :
      (k j : K) (v : V) (m : Map K V)
      → get j (insert k v m) ≡ (if o.eq k j then some v else get j m)
  unfolding get insert
  get-insert k j v [] = refl
  get-insert k j v ((i, w) ∷ m) =
      ground (arith, o.eq_iff k j, o.eq_iff i k, o.eq_iff i j, get-insert k j v m)

  pub get-remove :
      (k j : K) (m : Map K V) → get j (remove k m) ≡ (if o.eq k j then none else get j m)
  unfolding get remove
  get-remove k j [] = ground arith
  get-remove k j ((i, w) ∷ m) =
      ground (arith, o.eq_iff k j, o.eq_iff i k, o.eq_iff i j, get-remove k j m)

  pub Below-get : (k : K) (m : Map K V) → Below k m → get k m ≡ none
  unfolding get
  Below-get k [] h = refl
  Below-get k ((j, v) ∷ m) h = ground (arith, Below-get k m, o.eq_iff j k, o.lt_irrefl k)

  Below-trans : (k j : K) (m : Map K V) → o.lt k j ≡ true → Below j m → Below k m
  Below-trans k j [] h b = tt
  Below-trans k j ((i, v) ∷ m) h b = (o.lt_trans k j i h b.0, Below-trans k j m h b.1)

  Below-insert :
      (i k : K) (v : V) (m : Map K V) → o.lt i k ≡ true → Below i m → Below i (insert k v m)
  unfolding insert
  Below-insert i k v [] h b = (h, tt)
  Below-insert i k v ((j, w) ∷ m) h b = elim (Bool-cases (o.eq j k)) [
    | inl e ↦ rw e (h, b.1)
    | inr n ↦ rw n (elim (Bool-cases (o.lt k j)) [
      | inl l ↦ rw l (h, (b.0, b.1))
      | inr g ↦ rw g (b.0, Below-insert i k v m h b.1)
    ])
  ]

  -- Writing a key keeps the entries in order, so that a key stands there once.
  pub insert-IsSorted : (k : K) (v : V) (m : Map K V) → IsSorted m → IsSorted (insert k v m)
  unfolding insert
  insert-IsSorted k v [] h = (tt, tt)
  insert-IsSorted k v ((j, w) ∷ m) h = elim (Bool-cases (o.eq j k)) [
    | inl e ↦ rw e (subst (λ x. Below x m) ((o.eq_iff j k).0 e) h.0, h.1)
    | inr n ↦ rw n (elim (Bool-cases (o.lt k j)) [
      | inl l ↦ rw l ((l, Below-trans k j m l h.0), (h.0, h.1))
      | inr g ↦
          rw g
            (Below-insert j k v m (o.lt_total k j g (ne_symm j k n)) h.0, insert-IsSorted k v m h.1)
    ])
  ]

abbrev pub or_else {ℓ} : {V : Type ℓ} → Option V → Option V → Option V
or_else none b = b
or_else (some v) b = some v

pub or_else-none {ℓ} : {V : Type ℓ} (a : Option V) → or_else a none ≡ a
or_else-none none = refl
or_else-none (some v) = refl

abbrev add_entry {ℓ κ} : {K : Type ℓ} {W : Type κ} → K → Option W → List (K × W) → List (K × W)
add_entry k none es = es
add_entry k (some w) es = (k, w) ∷ es

module _ {ℓ κ} {K : Type ℓ} {V : Type κ} ⦃o : Ord K⦄ where
  -- `collect` into a map: a later entry replaces an earlier one of its key
  unfoldable pub collect_into : Map K V → List (K × V) → Map K V
  collect_into acc [] = acc
  collect_into acc ((k, v) ∷ es) = collect_into (insert k v acc) es

  unfoldable pub collect : List (K × V) → Map K V
  unfolding collect_into insert
  collect es = collect_into [] es

  -- the last entry of a key
  unfoldable pub last : K → List (K × V) → Option V
  last k [] = none
  last k ((j, v) ∷ es) = or_else (last k es) (if o.eq j k then some v else none)

  pub get-collect_into :
      (k : K) (acc : Map K V) (es : List (K × V))
      → get k (collect_into acc es) ≡ or_else (last k es) (get k acc)
  unfolding collect_into last
  get-collect_into k acc [] = refl
  get-collect_into k acc ((j, v) ∷ es) =
      ground (arith, get-collect_into k (insert j v acc) es, get-insert j k v acc)

  pub get-collect : (k : K) (es : List (K × V)) → get k (collect es) ≡ last k es
  unfolding collect
  get-collect k es = get-collect_into k [] es ∙ unfold get in or_else-none (last k es)

  -- in a map the last entry of a key is its entry
  pub last-get : (k : K) (m : Map K V) → IsSorted m → last k m ≡ get k m
  unfolding last get
  last-get k [] h = refl
  last-get k ((j, v) ∷ m) h = elim (Bool-cases (o.eq j k)) [
    | inl same ↦
        let gone : get k m ≡ none =
          subst (λ x. get x m ≡ none) ((o.eq_iff j k).0 same) (Below-get j m h.0) in
        ground (arith, same, gone, last-get k m h.1)
    | inr other ↦ ground (arith, other, last-get k m h.1)
  ]

  collect_into-IsSorted :
      (acc : Map K V) (es : List (K × V)) → IsSorted acc → IsSorted (collect_into acc es)
  unfolding collect_into
  collect_into-IsSorted acc [] h = h
  collect_into-IsSorted acc ((k, v) ∷ es) h =
      collect_into-IsSorted (insert k v acc) es (insert-IsSorted k v acc h)

  pub collect-IsSorted : (es : List (K × V)) → IsSorted (collect es)
  collect-IsSorted es = unfold collect in collect_into-IsSorted [] es tt

abbrev pub bind {ℓ κ} : {A : Type ℓ} {B : Type κ} → Option A → (A → Option B) → Option B
bind none f = none
bind (some a) f = f a

module _ {ℓ κ μ} {K : Type ℓ} {V : Type κ} {W : Type μ} ⦃o : Ord K⦄ where
  -- `into_iter().filter_map(|(k, v)| f(k, v).map(|w| (k, w)))`
  unfoldable pub filter_values : (K → V → Option W) → Map K V → List (K × W)
  filter_values f [] = []
  filter_values f ((k, v) ∷ m) = add_entry k (f k v) (filter_values f m)

  last-filter_values :
      (f : K → V → Option W) (k : K) (m : Map K V)
      → IsSorted m
      → last k (filter_values f m) ≡ bind (get k m) (f k)
  unfolding filter_values last get
  last-filter_values f k [] h = refl
  last-filter_values f k ((j, v) ∷ m) h = elim (Bool-cases (o.eq j k)) [
    | inl same ↦
        let e : j ≡ k = (o.eq_iff j k).0 same in
        let gone : get k m ≡ none = subst (λ x. get x m ≡ none) e (Below-get j m h.0) in
        let at : f j v ≡ f k v = ap (λ x. f x v) e in
        ground (arith, same, gone, at, last-filter_values f k m h.1)
    | inr other ↦ ground (arith, other, last-filter_values f k m h.1)
  ]

  pub get-collect-filter_values :
      (f : K → V → Option W) (k : K) (m : Map K V)
      → IsSorted m
      → get k (collect (filter_values f m)) ≡ bind (get k m) (f k)
  get-collect-filter_values f k m h = get-collect k (filter_values f m) ∙ last-filter_values f k m h

module _ {ℓ κ} {K : Type ℓ} {V : Type κ} ⦃o : Ord K⦄ where
  -- every entry of `es` is the one that `m` has at its key
  abbrev pub Entries : Map K V → Map K V → Type κ
  Entries m [] = Unit
  Entries m ((k, v) ∷ es) = (get k m ≡ some v) × Entries m es

  behind : (k : K) (v : V) (m es : Map K V) → Below k es → Entries m es → Entries ((k, v) ∷ m) es
  unfolding get
  behind k v m [] b h = tt
  behind k v m ((j, w) ∷ es) b h =
      (ground (arith, h.0, b.0, o.eq_iff k j, o.lt_irrefl k), behind k v m es b.1 h.1)

  pub Entries-self : (m : Map K V) → IsSorted m → Entries m m
  unfolding get
  Entries-self [] h = tt
  Entries-self ((k, v) ∷ m) h =
      (ground (arith, o.eq_iff k k), behind k v m m h.0 (Entries-self m h.1))
