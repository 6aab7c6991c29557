-- ===== src/Device/AgeAttestation/Nearest.antt =====
-- Which claim `nearest_age_attestation` of src/presentation/device.rs picks.
use mathlib.Core.List.{Memᴰ}
use isomdl.Prelude.{
  ℕ, ◌≡◌, refl, sym, ap, subst, ◌∙◌, ◌⊎◌, inl, inr, Bool, true, false, not, ◌&&◌, List, [], ◌∷◌,
  Option, none, some, All, keep, Bool-cases, leb, ltb, arith, if◌then◌else◌,
}
use isomdl.Device.AgeAttestation.{
  Claim, attests, min_by_age, max_by_age, min_claim, max_claim, choose_else, nearest,
}

-- a true claim at or above the requested age, and another claim at or below it
abbrev pub is_above : ℕ → Claim → Bool
is_above age c = attests c && leb age c.0

abbrev pub is_below : ℕ → Claim → Bool
is_below age c = not (attests c) && leb c.0 age

-- `r` is a claim of the list that passes the test, or the one that the search began with, and no
-- claim that passes comes before it.
abbrev IsFirst : (Claim → Claim → Bool) → (Claim → Bool) → Claim → List Claim → Claim → Type 0
IsFirst before q best cs r =
    (before best r ≡ false)
    × All (λ (d : Claim). (q d && before d r) ≡ false) cs
    × ((r ≡ best) ⊎ ((q r ≡ true) × Memᴰ r cs))

abbrev younger : Claim → Claim → Bool
younger c d = ltb c.0 d.0

abbrev older : Claim → Claim → Bool
older c d = ltb d.0 c.0

-- what is first with `x` left out is first with it
skipped :
    (before : Claim → Claim → Bool) (q : Claim → Bool) {best r : Claim} (x : Claim)
    {cs : List Claim}
    → (q x && before x r) ≡ false
    → IsFirst before q best cs r
    → IsFirst before q best (x ∷ cs) r
skipped before q x h (a, b, inl e) = (a, (h, b), inl e)
skipped before q x h (a, b, inr (c, d)) = (a, (h, b), inr (c, Memᴰ.tail d))

-- what is first from `x` on is first from `best` on, if `x` passes and `best` is not before it
taken :
    (before : Claim → Claim → Bool) (q : Claim → Bool) (best : Claim) {r : Claim} (x : Claim)
    {cs : List Claim}
    → q x ≡ true
    → before best r ≡ false
    → (q x && before x r) ≡ false
    → IsFirst before q x cs r
    → IsFirst before q best (x ∷ cs) r
taken before q best x yes' h g (a, b, inl e) = (h, (g, b), inr (ap q e ∙ yes', Memᴰ.head e))
taken before q best x yes' h g (a, b, inr (c, d)) = (h, (g, b), inr (c, Memᴰ.tail d))

module _ (q : Claim → Bool) where
  keep_yes : (x : Claim) (cs : List Claim) → q x ≡ true → keep q (x ∷ cs) ≡ x ∷ keep q cs
  keep_yes x cs h = ground (arith, h)

  keep_no : (x : Claim) (cs : List Claim) → q x ≡ false → keep q (x ∷ cs) ≡ keep q cs
  keep_no x cs h = ground (arith, h)

  min-IsFirst :
      (best : Claim) (cs : List Claim) → IsFirst younger q best cs (min_by_age best (keep q cs))
  unfolding min_by_age
  min-IsFirst best [] = (ground arith, tt, inl refl)
  min-IsFirst best (x ∷ cs) = elim (Bool-cases (q x)) [
    | inr no' ↦
        subst (λ l. IsFirst younger q best (x ∷ cs) (min_by_age best l)) (sym (keep_no x cs no'))
          (skipped younger q x (ground (arith, no')) (min-IsFirst best cs))
    | inl yes' ↦
        subst (λ l. IsFirst younger q best (x ∷ cs) (min_by_age best l)) (sym (keep_yes x cs yes'))
          (elim (Bool-cases (ltb x.0 best.0)) [
            | inl less ↦
                let ih = min-IsFirst x cs in
                subst (λ c. IsFirst younger q best (x ∷ cs) (min_by_age c (keep q cs)))
                  (sym (chosen_yes less))
                  (taken younger q best x yes' (ground (arith, less, ih.0)) (ground (arith, ih.0))
                    ih)
            | inr more ↦
                let ih = min-IsFirst best cs in
                subst (λ c. IsFirst younger q best (x ∷ cs) (min_by_age c (keep q cs)))
                  (sym (chosen_no more)) (skipped younger q x (ground (arith, more, ih.0)) ih)
          ])
  ]
    where
      chosen_yes : ltb x.0 best.0 ≡ true → (if ltb x.0 best.0 then x else best) ≡ x
      chosen_yes h = rw h refl

      chosen_no : ltb x.0 best.0 ≡ false → (if ltb x.0 best.0 then x else best) ≡ best
      chosen_no h = rw h refl

  max-IsFirst :
      (best : Claim) (cs : List Claim) → IsFirst older q best cs (max_by_age best (keep q cs))
  unfolding max_by_age
  max-IsFirst best [] = (ground arith, tt, inl refl)
  max-IsFirst best (x ∷ cs) = elim (Bool-cases (q x)) [
    | inr no' ↦
        subst (λ l. IsFirst older q best (x ∷ cs) (max_by_age best l)) (sym (keep_no x cs no'))
          (skipped older q x (ground (arith, no')) (max-IsFirst best cs))
    | inl yes' ↦
        subst (λ l. IsFirst older q best (x ∷ cs) (max_by_age best l)) (sym (keep_yes x cs yes'))
          (elim (Bool-cases (ltb x.0 best.0)) [
            | inl less ↦
                let ih = max-IsFirst best cs in
                subst (λ c. IsFirst older q best (x ∷ cs) (max_by_age c (keep q cs)))
                  (sym (chosen_yes less)) (skipped older q x (ground (arith, less, ih.0)) ih)
            | inr more ↦
                let ih = max-IsFirst x cs in
                subst (λ c. IsFirst older q best (x ∷ cs) (max_by_age c (keep q cs)))
                  (sym (chosen_no more))
                  (taken older q best x yes' (ground (arith, more, ih.0)) (ground (arith, ih.0)) ih)
          ])
  ]
    where
      chosen_yes : ltb x.0 best.0 ≡ true → (if ltb x.0 best.0 then best else x) ≡ best
      chosen_yes h = rw h refl

      chosen_no : ltb x.0 best.0 ≡ false → (if ltb x.0 best.0 then best else x) ≡ x
      chosen_no h = rw h refl

-- the claim of the list that passes the test and has none before it, or none that passes
abbrev IsChoice : (Claim → Claim → Bool) → (Claim → Bool) → List Claim → Option Claim → Type 0
IsChoice before q cs none = All (λ (d : Claim). q d ≡ false) cs
IsChoice before q cs (some r) =
    (q r ≡ true) × Memᴰ r cs × All (λ (d : Claim). (q d && before d r) ≡ false) cs

first-IsChoice :
    (before : Claim → Claim → Bool) (q : Claim → Bool) (x : Claim) {cs : List Claim} {r : Claim}
    → q x ≡ true
    → (before x r ≡ false → (q x && before x r) ≡ false)
    → IsFirst before q x cs r
    → IsChoice before q (x ∷ cs) (some r)
first-IsChoice before q x h g (a, b, inl e) = (ap q e ∙ h, Memᴰ.head e, (g a, b))
first-IsChoice before q x h g (a, b, inr (c, d)) = (c, Memᴰ.tail d, (g a, b))

later-IsChoice :
    (before : Claim → Claim → Bool) (q : Claim → Bool) (x : Claim) (cs : List Claim)
    (o : Option Claim)
    → q x ≡ false
    → IsChoice before q cs o
    → IsChoice before q (x ∷ cs) o
later-IsChoice before q x cs none h all = (h, all)
later-IsChoice before q x cs (some r) h (a, b, c) = (a, Memᴰ.tail b, (ground (arith, h), c))

module _ (q : Claim → Bool) where
  min_claim-IsChoice : (cs : List Claim) → IsChoice younger q cs (min_claim (keep q cs))
  min_claim-IsChoice [] = tt
  min_claim-IsChoice (x ∷ cs) = elim (Bool-cases (q x)) [
    | inl yes' ↦
        subst (λ l. IsChoice younger q (x ∷ cs) (min_claim l)) (sym (keep_yes q x cs yes'))
          (first-IsChoice younger q x yes' (λ h. ground (arith, h)) (min-IsFirst q x cs))
    | inr no' ↦
        subst (λ l. IsChoice younger q (x ∷ cs) (min_claim l)) (sym (keep_no q x cs no'))
          (later-IsChoice younger q x cs (min_claim (keep q cs)) no' (min_claim-IsChoice cs))
  ]

  max_claim-IsChoice : (cs : List Claim) → IsChoice older q cs (max_claim (keep q cs))
  max_claim-IsChoice [] = tt
  max_claim-IsChoice (x ∷ cs) = elim (Bool-cases (q x)) [
    | inl yes' ↦
        subst (λ l. IsChoice older q (x ∷ cs) (max_claim l)) (sym (keep_yes q x cs yes'))
          (first-IsChoice older q x yes' (λ h. ground (arith, h)) (max-IsFirst q x cs))
    | inr no' ↦
        subst (λ l. IsChoice older q (x ∷ cs) (max_claim l)) (sym (keep_no q x cs no'))
          (later-IsChoice older q x cs (max_claim (keep q cs)) no' (max_claim-IsChoice cs))
  ]

-- two passes are one
keep-keep : (p q : Claim → Bool) (cs : List Claim) → keep p (keep q cs) ≡ keep (λ c. q c && p c) cs
keep-keep p q [] = refl
keep-keep p q (x ∷ cs) = elim (Bool-cases (q x)) [
  | inr no' ↦ ground (arith, no', keep-keep p q cs)
  | inl yes' ↦ elim (Bool-cases (p x)) [
    | inr no' ↦ ground (arith, yes', no', keep-keep p q cs)
    | inl yes'' ↦ ground (arith, yes', yes'', keep-keep p q cs)
  ]
]

-- What answers a request for an age: a claim `r` of the list that is true and at or above the age,
-- with no such claim nearer; or, when there is none of these, one that is not true and at or below
-- the age, with no such claim nearer; or nothing, when there is neither.
abbrev pub IsNearest : ℕ → List Claim → Option Claim → Type 0
IsNearest age cs none =
    All (λ (d : Claim). is_above age d ≡ false) cs × All (λ (d : Claim). is_below age d ≡ false) cs
IsNearest age cs (some r) =
    Memᴰ r cs
    × (((is_above age r ≡ true) × All (λ (d : Claim). (is_above age d && ltb d.0 r.0) ≡ false) cs)
        ⊎ ((is_below age r ≡ true)
            × All (λ (d : Claim). is_above age d ≡ false) cs
            × All (λ (d : Claim). (is_below age d && ltb r.0 d.0) ≡ false) cs))

choose_else-IsNearest :
    (age : ℕ) (cs : List Claim) (a b : Option Claim)
    → IsChoice younger (is_above age) cs a
    → IsChoice older (is_below age) cs b
    → IsNearest age cs (choose_else a b)
choose_else-IsNearest age cs (some r) b (h, i, j) k = (i, inl (h, j))
choose_else-IsNearest age cs none none h k = (h, k)
choose_else-IsNearest age cs none (some r) h (k, i, j) = (i, inr (k, h, j))

-- The choice among the attested ages is the nearest: a true claim at or above the requested age
-- that no other such claim undercuts; when there is none, a claim that is not true at or below the
-- age that no other such claim exceeds; nothing only when there is neither.
pub nearest-IsNearest : (age : ℕ) (cs : List Claim) → IsNearest age cs (nearest age cs)
unfolding nearest
nearest-IsNearest age cs =
    let above = keep-keep (λ c. leb age c.0) attests cs in
    let below = keep-keep (λ c. leb c.0 age) (λ c. not (attests c)) cs in
    choose_else-IsNearest age cs _ _
      (subst (λ l. IsChoice younger (is_above age) cs (min_claim l)) (sym above)
        (min_claim-IsChoice (is_above age) cs))
      (subst (λ l. IsChoice older (is_below age) cs (max_claim l)) (sym below)
        (max_claim-IsChoice (is_below age) cs))
