-- ===== src/Issuance/Digests/Attests.antt =====
-- Every issued item has its digest under its id.
use mathlib.Core.List.{append_assoc}
use isomdl.Prelude.{
  ℕ, zero, suc, ◌≡◌, refl, sym, ap, subst, Bool, true, false, List, [], ◌∷◌, ◌++◌, All, some,
  Result, ok, ◌>>=◌, >>=_succeeds, arith, Option-cases, inl, inr,
}
use isomdl.Prelude.Int.{ℤ, eq_ℤ_iff}
use isomdl.Prelude.Map.{text_ord, int_ord, get, collect}
use isomdl.Prelude.Map.Collect.{Lacks, Lacks-append, IsApart, Found, collect-IsApart}
use isomdl.Cbor.{Bytes}
use isomdl.Helpers.Tag24
use isomdl.Documents.{DigestAlgorithm, IssuerSignedItemBytes}
use isomdl.Issuance.Random.{Rng, Error, generate_digest_id, used, generate_digest_id_fresh}
use isomdl.Issuance.Digests.{
  Hashes, DigestIds, ids_of, item_digests, decoy_digests, count_of, digest_namespace,
}

-- no item has the id of another
abbrev pub HasApartIds : List IssuerSignedItemBytes → Type 0
HasApartIds [] = Unit
HasApartIds (t ∷ ts) = (used t.inner.digest_id (ids_of ts) ≡ false) × HasApartIds ts

-- An item is attested by digests that hold the hash of its CBOR form under its id.
abbrev pub IsAttested : Hashes → DigestAlgorithm → DigestIds → IssuerSignedItemBytes → Type 0
IsAttested h alg digests t =
    (b : Bytes) × (h.value_to_vec (Tag24.to_cbor t) ≡ some b)
    × (get t.inner.digest_id digests ≡ some (h.digest alg b))

-- The decoys' ids differ from those in use and from each other.
abbrev IsFresh : List ℤ → List (ℤ × Bytes) → Type 0
IsFresh used_ids [] = Unit
IsFresh used_ids ((i, _) ∷ ds) = (used i used_ids ≡ false) × IsFresh (i ∷ used_ids) ds

module _ (h : Hashes) (alg : DigestAlgorithm) where
  -- entries for the items, one after the other
  abbrev Covers : List IssuerSignedItemBytes → List (ℤ × Bytes) → Type 0
  Covers [] [] = Unit
  Covers [] (d ∷ ds) = ⊥
  Covers (t ∷ ts) [] = ⊥
  Covers (t ∷ ts) (d ∷ ds) =
      ((b : Bytes) × (h.value_to_vec (Tag24.to_cbor t) ≡ some b)
        × (d ≡ (t.inner.digest_id, h.digest alg b)))
      × Covers ts ds

  item_digests-Covers :
      (ts : List IssuerSignedItemBytes) {ds : List (ℤ × Bytes)}
      → item_digests h alg ts ≡ ok ds
      → Covers ts ds
  unfolding item_digests
  item_digests-Covers [] {ds} e =
      let nothing : [] ≡ ds = ground (arith, e) in subst (λ l. Covers [] l) nothing tt
  item_digests-Covers (t ∷ ts) {ds} e = elim (Option-cases (h.value_to_vec (Tag24.to_cbor t))) [
    | inl none' ↦ absurd (ground (arith, e, none'))
    | inr (b, some') ↦
        let more : List (ℤ × Bytes) → Result Error (List (ℤ × Bytes)) =
          λ l. ok ((t.inner.digest_id, h.digest alg b) ∷ l) in
        let step : (item_digests h alg ts >>= more) ≡ ok ds = ground (arith, e, some') in
        let (rest, later, e2) = >>=_succeeds (item_digests h alg ts) more step in
        let all : ((t.inner.digest_id, h.digest alg b) ∷ rest) ≡ ds = ground (arith, e2) in
        subst (λ l. Covers (t ∷ ts) l) all ((b, some', refl), item_digests-Covers ts later)
  ]

  module _ (g : Rng) (draws : ℕ) where
    decoy_digests-IsFresh :
        (n : ℕ) (used_ids : List ℤ) (s : g.State) {r : List (ℤ × Bytes) × g.State}
        → decoy_digests h alg g draws n used_ids s ≡ ok r
        → IsFresh used_ids r.0
    unfolding decoy_digests
    decoy_digests-IsFresh zero used_ids s {r} e =
        let nothing : [] ≡ r.0 = ground (arith, e) in subst (λ l. IsFresh used_ids l) nothing tt
    decoy_digests-IsFresh (suc n) used_ids s {r} e =
        let (x, made, e1) = >>=_succeeds (generate_digest_id g draws used_ids s) _ e in
        let filled = g.gen_decoy x.2 in
        let (y, later, e2) = >>=_succeeds (decoy_digests h alg g draws n x.1 filled.1) _ e1 in
        let fresh = generate_digest_id_fresh g draws used_ids s made in
        let all : ((x.0, h.digest alg filled.0) ∷ y.0) ≡ r.0 = ground (arith, e2) in
        subst (λ l. IsFresh used_ids l) all
          (fresh.0, subst (λ l. IsFresh l y.0) fresh.1 (decoy_digests-IsFresh n x.1 filled.1 later))

-- ids in use have no fresh entry
fresh-Lacks :
    (i : ℤ) (used_ids : List ℤ) (ds : List (ℤ × Bytes))
    → used i used_ids ≡ true
    → IsFresh used_ids ds
    → Lacks i ds
unfolding used
fresh-Lacks i used_ids [] u f = tt
fresh-Lacks i used_ids ((j, d) ∷ ds) u f =
    (ground (arith, f.0, u, eq_ℤ_iff j i), fresh-Lacks i (j ∷ used_ids) ds (ground (arith, u)) f.1)

fresh-IsApart : (used_ids : List ℤ) (ds : List (ℤ × Bytes)) → IsFresh used_ids ds → IsApart ds
unfolding used
fresh-IsApart used_ids [] f = tt
fresh-IsApart used_ids ((i, d) ∷ ds) f = (
  fresh-Lacks i (i ∷ used_ids) ds (ground (arith, eq_ℤ_iff i i)) f.1,
  fresh-IsApart (i ∷ used_ids) ds f.1,
)

module _ (h : Hashes) (alg : DigestAlgorithm) where
  Covers-Lacks :
      (i : ℤ) (ts : List IssuerSignedItemBytes) (ds : List (ℤ × Bytes))
      → Covers h alg ts ds
      → used i (ids_of ts) ≡ false
      → Lacks i ds
  unfolding used
  Covers-Lacks i [] [] c u = tt
  Covers-Lacks i [] (d ∷ ds) c u = absurd c
  Covers-Lacks i (t ∷ ts) [] c u = absurd c
  Covers-Lacks i (t ∷ ts) ((j, x) ∷ ds) (own, c) u = (
    ground (arith, own.2, u, eq_ℤ_iff t.inner.digest_id i, eq_ℤ_iff j i),
    Covers-Lacks i ts ds c (ground (arith, u)),
  )

  -- the items' entries and the decoys have different ids
  All-IsApart :
      (used_ids : List ℤ) (ts : List IssuerSignedItemBytes) (ds fakes : List (ℤ × Bytes))
      → Covers h alg ts ds
      → HasApartIds ts
      → All (λ (i : ℤ). used i used_ids ≡ true) (ids_of ts)
      → IsFresh used_ids fakes
      → IsApart (ds ++ fakes)
  All-IsApart used_ids [] [] fakes c a u f = fresh-IsApart used_ids fakes f
  All-IsApart used_ids [] (d ∷ ds) fakes c a u f = absurd c
  All-IsApart used_ids (t ∷ ts) [] fakes c a u f = absurd c
  All-IsApart used_ids (t ∷ ts) ((j, x) ∷ ds) fakes (own, c) a u f = (
    subst (λ i. Lacks i (ds ++ fakes)) (sym (ap (λ (d : ℤ × Bytes). d.0) own.2))
        (Lacks-append t.inner.digest_id ds fakes (Covers-Lacks t.inner.digest_id ts ds c a.0)
          (fresh-Lacks t.inner.digest_id used_ids fakes u.0 f)),
    All-IsApart used_ids ts ds fakes c a.1 u.1 f,
  )

  attested :
      (m : DigestIds) (ts : List IssuerSignedItemBytes) (ds fakes : List (ℤ × Bytes))
      → Covers h alg ts ds
      → Found m (ds ++ fakes)
      → All (IsAttested h alg m) ts
  attested m [] [] fakes c f = tt
  attested m [] (d ∷ ds) fakes c f = absurd c
  attested m (t ∷ ts) [] fakes c f = absurd c
  attested m (t ∷ ts) ((j, x) ∷ ds) fakes ((b, at, own), c) f =
      ((b, at, ground (arith, own, f.0)), attested m ts ds fakes c f.1)

-- every id of a list is in use
All-used : (pre is : List ℤ) → All (λ (i : ℤ). used i (pre ++ is) ≡ true) is
unfolding used
All-used pre [] = tt
All-used pre (i ∷ is) = (
  used_here pre i is,
  subst (λ l. All (λ (j : ℤ). used j l ≡ true) is) (append_assoc pre (i ∷ []) is)
      (All-used (pre ++ i ∷ []) is),
)
  where
    used_here : (pre : List ℤ) (i : ℤ) (is : List ℤ) → used i (pre ++ i ∷ is) ≡ true
    used_here [] i is = ground (arith, eq_ℤ_iff i i)
    used_here (j ∷ pre) i is = ground (arith, used_here pre i is)

module _ (h : Hashes) (alg : DigestAlgorithm) (g : Rng) (draws : ℕ) where
  -- Items with ids of their own are attested by the digests that are made of them, whatever decoys
  -- stand among these.
  pub digest_namespace-IsAttested :
      (elements : List IssuerSignedItemBytes) (enable_decoy_digests : Bool) (s : g.State)
      {r : DigestIds × g.State}
      → HasApartIds elements
      → digest_namespace h alg g draws elements enable_decoy_digests s ≡ ok r
      → All (IsAttested h alg r.0) elements
  unfolding digest_namespace
  digest_namespace-IsAttested elements enable_decoy_digests s {r} a e =
      let counted = count_of h alg g draws enable_decoy_digests s in
      let (ds, real, e1) = >>=_succeeds (item_digests h alg elements) _ e in
      let (y, fake, e2) =
        >>=_succeeds (decoy_digests h alg g draws counted.0 (ids_of elements) counted.1) _ e1 in
      let made : collect (ds ++ y.0) ≡ r.0 = ground (arith, e2) in
      let covers = item_digests-Covers h alg elements real in
      let fresh = decoy_digests-IsFresh h alg g draws counted.0 (ids_of elements) counted.1 fake in
      subst (λ m. All (IsAttested h alg m) elements) made
        (attested h alg (collect (ds ++ y.0)) elements ds y.0 covers (
          collect-IsApart (ds ++ y.0) (
            All-IsApart h alg (ids_of elements) elements ds y.0 covers a
              (All-used [] (ids_of elements)) fresh)))
