-- ===== src/Namespaces/Prefixed.antt =====
-- The elements whose identifiers share a prefix, as src/definitions/namespaces/org_iso_18013_5_1 has
-- them in `age_over.rs` and `biometric_template.rs`: the entries of a JSON object whose key is read
-- as an `A`, with their values, and back.
use isomdl.Prelude.{
  ◌≡◌, refl, sym, ap, ◌∙◌, subst, Bool, inl, inr, false, true, List, [], ◌∷◌, Option, none, some,
  Option-cases, Result, ok, ◌>>=◌, >>=_succeeds, if◌then◌else◌, arith,
}
use isomdl.Prelude.Text.{Text, text_eq, text_eq_iff}
use isomdl.Prelude.Map.{
  Ord, Map, get, collect, last, or_else, get-collect, last-get, text_ord, IsSorted,
  collect-IsSorted,
}
use isomdl.Cbor.{Value}
use isomdl.FromJson.{Json, Object, FromJsonError}

-- The keys of an `A`: what is read as one, and how it is written.
pub record Keys (A : Type 0) : Type 0 where
  pub read : Text → Option A
  pub write : A → Text
  pub sound : (k : Text) (a : A) → read k ≡ some a → k ≡ write a
  pub write_injective : (a b : A) → write a ≡ write b → a ≡ b

module _ {A B : Type 0} (read : Text → Option A) (from_json : Json → Result FromJsonError B) where
  -- `filter_map` and `collect` into a result: the first error decides
  unfoldable pub read_entries : Object → Result FromJsonError (List (A × B))
  read_entries [] = ok []
  read_entries ((k, v) ∷ m) = elim (read k) [
    | none ↦ read_entries m
    | some a ↦ from_json v >>= λ b. read_entries m >>= λ es. ok ((a, b) ∷ es)
  ]

module _ {B : Type 0} (from_json : Json → Result FromJsonError B) where
  -- what was read is what stands there, and nothing where nothing stands
  abbrev pub IsRead : Option B → Option Json → Type 0
  IsRead none none = Unit
  IsRead none (some v) = ⊥
  IsRead (some b) none = ⊥
  IsRead (some b) (some v) = from_json v ≡ ok b

  or_else-IsRead :
      (x x' : Option B) (y y' : Option Json)
      → IsRead x y
      → IsRead x' y'
      → IsRead (or_else x x') (or_else y y')
  or_else-IsRead none x' none y' h h' = h'
  or_else-IsRead none x' (some v) y' h h' = absurd h
  or_else-IsRead (some b) x' none y' h h' = absurd h
  or_else-IsRead (some b) x' (some v) y' h h' = h

  entry-IsRead :
      (test test' : Bool) (b : B) (v : Json)
      → test ≡ test'
      → from_json v ≡ ok b
      → IsRead (if test then some b else none) (if test' then some v else none)
  entry-IsRead true true b v e h = h
  entry-IsRead false false b v e h = tt
  entry-IsRead true false b v e h = absurd (cc)
  entry-IsRead false true b v e h = absurd (cc)

  other-IsRead :
      (test : Bool) (x : Option B) (y : Option Json) (v : Json)
      → test ≡ false
      → IsRead x y
      → IsRead x (or_else y (if test then some v else none))
  other-IsRead true x y v e h = absurd (cc)
  other-IsRead false none none v e h = tt
  other-IsRead false none (some w) v e h = h
  other-IsRead false (some b) none v e h = h
  other-IsRead false (some b) (some w) v e h = h

module _ {A B : Type 0} ⦃o : Ord A⦄ (keys : Keys A)
    (from_json : Json → Result FromJsonError B) where
  -- two ways to compare a key
  same_key : (k : Text) (j a : A) → keys.read k ≡ some j → o.eq j a ≡ text_eq k (keys.write a)
  same_key k j a e = ground (
    arith,
    o.eq_iff j a,
    text_eq_iff k (keys.write a),
    keys.sound k j e,
    keys.write_injective j a,
  )

  last-read_entries :
      (m : Object) (es : List (A × B)) (a : A)
      → keys.read (keys.write a) ≡ some a
      → read_entries keys.read from_json m ≡ ok es
      → IsRead from_json (last a es) (last (keys.write a) m)
  unfolding read_entries last
  last-read_entries [] [] a own h = tt
  last-read_entries [] (x ∷ es) a own h = absurd (ground (arith, h))
  last-read_entries ((k, v) ∷ m) es a own h = elim (Option-cases (keys.read k)) [
    | inl e ↦
        let rest : read_entries keys.read from_json m ≡ ok es = ground (arith, h, e) in
        let apart : text_eq k (keys.write a) ≡ false =
          ground (arith, e, own, text_eq_iff k (keys.write a), ap keys.read) in
        other-IsRead from_json (text_eq k (keys.write a)) (last a es) (last (keys.write a) m) v
          apart (last-read_entries m es a own rest)
    | inr (j, e) ↦
        let chain : from_json v
              >>= (λ b. read_entries keys.read from_json m >>= λ es. ok ((j, b) ∷ es))
            ≡ ok es =
          ground (arith, h, e) in
        let (b, is, chain') = >>=_succeeds (from_json v) _ chain in
        let (es', rest, built) = >>=_succeeds (read_entries keys.read from_json m) _ chain' in
        let split : es ≡ (j, b) ∷ es' = ground (arith, built) in
        subst (λ l. IsRead from_json (last a l) (last (keys.write a) ((k, v) ∷ m))) (sym split)
          (or_else-IsRead from_json (last a es') _ (last (keys.write a) m) _
            (last-read_entries m es' a own rest)
            (entry-IsRead from_json (o.eq j a) (text_eq k (keys.write a)) b v (same_key k j a e)
              is))
  ]

  -- Of a JSON object the value that is read at a key is that of the object's entry at the text of
  -- the key, and a key has none exactly when the object has no such entry.
  pub get-read_entries :
      (m : Object) (es : List (A × B)) (a : A)
      → IsSorted m
      → keys.read (keys.write a) ≡ some a
      → read_entries keys.read from_json m ≡ ok es
      → IsRead from_json (get a (collect es)) (get (keys.write a) m)
  get-read_entries m es a s own h =
      subst (λ x. IsRead from_json x (get (keys.write a) m)) (sym (get-collect a es))
        (subst (λ x. IsRead from_json (last a es) x) (last-get (keys.write a) m s)
          (last-read_entries m es a own h))

module _ {A B : Type 0} (write : A → Text) (to_cbor : B → Value) where
  -- `into_iter().map(..)` of what is collected into the namespace's map
  unfoldable pub written_entries : Map A B → List (Text × Value)
  written_entries [] = []
  written_entries ((a, b) ∷ m) = (write a, to_cbor b) ∷ written_entries m

abbrev pub as_value {ℓ} : {B : Type ℓ} → (B → Value) → Option B → Option Value
as_value to_cbor none = none
as_value to_cbor (some b) = some (to_cbor b)

module _ {A B : Type 0} ⦃o : Ord A⦄ (keys : Keys A) (to_cbor : B → Value) where
  write_same : (j a : A) → text_eq (keys.write j) (keys.write a) ≡ o.eq j a
  write_same j a = ground (
    arith,
    text_eq_iff (keys.write j) (keys.write a),
    o.eq_iff j a,
    keys.write_injective j a,
    ap keys.write,
  )

  last-written_entries :
      (m : Map A B) (a : A)
      → last (keys.write a) (written_entries keys.write to_cbor m) ≡ as_value to_cbor (last a m)
  unfolding written_entries last
  last-written_entries [] a = refl
  last-written_entries ((j, b) ∷ m) a = ground (arith, write_same j a, last-written_entries m a)

  -- Under the text of a key stands the value of the key.
  pub get-written_entries :
      (m : Map A B) (a : A)
      → IsSorted m
      → get (keys.write a) (collect (written_entries keys.write to_cbor m))
        ≡ as_value to_cbor (get a m)
  get-written_entries m a s =
      get-collect (keys.write a) (written_entries keys.write to_cbor m)
      ∙ last-written_entries m a
      ∙ ap (as_value to_cbor) (last-get a m s)

module _ {A B : Type 0} (write : A → Text) (to_cbor : B → Value) (k : Text) where
  last-written_entries-none :
      (m : Map A B)
      → ((a : A) → text_eq (write a) k ≡ false)
      → last k (written_entries write to_cbor m) ≡ none
  unfolding written_entries last
  last-written_entries-none [] apart = refl
  last-written_entries-none ((a, b) ∷ m) apart =
      ground (arith, apart a, last-written_entries-none m apart)

  -- Nothing is written under a text that is the text of no key.
  pub last-collect-none :
      (m : Map A B)
      → ((a : A) → text_eq (write a) k ≡ false)
      → last k (collect (written_entries write to_cbor m)) ≡ none
  last-collect-none m apart =
      last-get k (collect (written_entries write to_cbor m))
        (collect-IsSorted (written_entries write to_cbor m))
      ∙ get-collect k (written_entries write to_cbor m)
      ∙ last-written_entries-none m apart
