-- ===== src/Prelude/Map/Collect.antt =====
-- What `collect` into a `BTreeMap` keeps of entries with different keys.
use isomdl.Prelude.Tests.{Bool-cases}
use isomdl.Prelude.Lists.{All}
use isomdl.Prelude.Map.{
  Ord, Map, get, insert, IsSorted, Below, collect, collect_into, last, get-collect,
}
use mathlib.Core.Path.{◌≡◌, refl, subst, ◌∙◌}
use mathlib.Core.Logic.{inl, inr}
use mathlib.Core.Bool.{false}
use mathlib.Core.List.{List, [], ◌∷◌, ◌++◌}
use mathlib.Core.Option.{none, some}
use native.Mathlib.Omega.{arith}

module _ {ℓ κ} {K : Type ℓ} {V : Type κ} ⦃o : Ord K⦄ where
  -- no entry has the key
  abbrev pub Lacks : K → List (K × V) → Type 0
  Lacks k [] = Unit
  Lacks k ((j, _) ∷ es) = (o.eq j k ≡ false) × Lacks k es

  pub Lacks-append : (k : K) (xs ys : List (K × V)) → Lacks k xs → Lacks k ys → Lacks k (xs ++ ys)
  Lacks-append k [] ys h g = g
  Lacks-append k (x ∷ xs) ys h g = (h.0, Lacks-append k xs ys h.1 g)

  -- no two entries have one key
  abbrev pub IsApart : List (K × V) → Type 0
  IsApart [] = Unit
  IsApart ((k, _) ∷ es) = Lacks k es × IsApart es

  Below-Lacks : (k : K) (m : Map K V) → Below k m → Lacks k m
  Below-Lacks k [] h = tt
  Below-Lacks k ((j, v) ∷ m) h =
      (ground (arith, o.eq_iff j k, o.lt_irrefl k, h.0), Below-Lacks k m h.1)

  pub IsSorted-IsApart : (m : Map K V) → IsSorted m → IsApart m
  IsSorted-IsApart [] h = tt
  IsSorted-IsApart ((k, v) ∷ m) h = (Below-Lacks k m h.0, IsSorted-IsApart m h.1)

  last-Lacks : (k : K) (es : List (K × V)) → Lacks k es → last k es ≡ none
  unfolding last
  last-Lacks k [] h = refl
  last-Lacks k ((j, v) ∷ es) h = ground (arith, h.0, last-Lacks k es h.1)

  -- the entries of a list are those that a map of it has
  abbrev pub Found : Map K V → List (K × V) → Type κ
  Found m [] = Unit
  Found m ((k, v) ∷ es) = (get k m ≡ some v) × Found m es

  last-IsApart :
      (all es : List (K × V))
      → IsApart es
      → ((k : K) (v : V) → last k es ≡ some v → last k all ≡ some v)
      → Found (collect all) es
  unfolding last
  last-IsApart all [] h g = tt
  last-IsApart all ((k, v) ∷ es) h g = (
    get-collect k all ∙ g k v (ground (arith, last-Lacks k es h.0, o.eq_iff k k)),
    last-IsApart all es h.1 (λ j w e. g j w (ground (arith, e))),
  )

  -- Entries with different keys are all found again.
  pub collect-IsApart : (es : List (K × V)) → IsApart es → Found (collect es) es
  collect-IsApart es h = last-IsApart es es h (λ k v e. e)

  pub insert-All {μ} :
      (P : K × V → Type μ) (k : K) (v : V) (m : Map K V) → P (k, v) → All P m → All P (insert k v m)
  unfolding insert
  insert-All P k v [] h hs = (h, tt)
  insert-All P k v ((j, w) ∷ m) h hs = elim (Bool-cases (o.eq j k)) [
    | inl e ↦ rw e (h, hs.1)
    | inr n ↦ rw n (elim (Bool-cases (o.lt k j)) [
      | inl l ↦ rw l (h, hs)
      | inr g ↦ rw g (hs.0, insert-All P k v m h hs.1)
    ])
  ]

  collect_into-All {μ} :
      (P : K × V → Type μ) (acc : Map K V) (es : List (K × V))
      → All P acc
      → All P es
      → All P (collect_into acc es)
  unfolding collect_into
  collect_into-All P acc [] h hs = h
  collect_into-All P acc ((k, v) ∷ es) h hs =
      collect_into-All P (insert k v acc) es (insert-All P k v acc hs.0 h) hs.1

  -- What holds of all entries holds of the map's.
  pub collect-All {μ} : (P : K × V → Type μ) (es : List (K × V)) → All P es → All P (collect es)
  unfolding collect
  collect-All P es h = collect_into-All P [] es tt h

  -- What holds of all entries holds of the one at a key.
  pub get-All {μ} :
      (P : K × V → Type μ) (k : K) (m : Map K V) {v : V} → All P m → get k m ≡ some v → P (k, v)
  unfolding get
  get-All P k [] h e = absurd (cc)
  get-All P k ((j, w) ∷ m) {v} h e = elim (Bool-cases (o.eq j k)) [
    | inl same ↦
        let at : w ≡ v = ground (arith, same, e) in
        subst (λ (x : K × V). P x) (λ i. ((o.eq_iff j k).0 same i, at i)) h.0
    | inr other ↦ get-All P k m h.1 (ground (arith, other, e))
  ]

  insert-nonempty :
      (k : K) (v : V) (m : Map K V) → (e : K × V) × (l : Map K V) × (insert k v m ≡ e ∷ l)
  unfolding insert
  insert-nonempty k v [] = ((k, v), [], refl)
  insert-nonempty k v ((j, w) ∷ m) = elim (Bool-cases (o.eq j k)) [
    | inl e ↦ ((k, v), m, ground (arith, e))
    | inr n ↦ elim (Bool-cases (o.lt k j)) [
      | inl l ↦ ((k, v), (j, w) ∷ m, ground (arith, n, l))
      | inr g ↦ ((j, w), insert k v m, ground (arith, n, g))
    ]
  ]

  collect_into-nonempty :
      (acc : Map K V) (es : List (K × V)) {a : K × V} {l : Map K V}
      → acc ≡ a ∷ l
      → (e : K × V) × (r : Map K V) × (collect_into acc es ≡ e ∷ r)
  unfolding collect_into
  collect_into-nonempty acc [] {a} {l} h = (a, l, h)
  collect_into-nonempty acc ((k, v) ∷ es) h =
      let (e, r, i) = insert-nonempty k v acc in collect_into-nonempty (insert k v acc) es i

  -- A map of at least one entry has at least one.
  pub collect-nonempty :
      (e : K × V) (es : List (K × V)) → (d : K × V) × (r : Map K V) × (collect (e ∷ es) ≡ d ∷ r)
  unfolding collect collect_into insert
  collect-nonempty (k, v) es = collect_into-nonempty ((k, v) ∷ []) es refl
