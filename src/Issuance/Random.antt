-- ===== src/Issuance/Random.antt =====
-- The random numbers of src/issuance/mdoc.rs and `generate_digest_id`, which draws until it finds
-- a digest id that is not in use.
use isomdl.Prelude.{
  ℕ, zero, suc, ◌<◌, ◌≡◌, Bool, false, ◌||◌, List, [], ◌∷◌, Result, ok, err, if◌then◌else◌, arith,
  Bool-cases, inl, inr,
}
use isomdl.Prelude.Int.{ℤ, eq_ℤ}
use isomdl.Cbor.{Bytes}
use isomdl.Documents.DigestIds.{digest_id}

-- `rand::thread_rng` with its state: an `i32`, 16 bytes, 512 bytes, a number from 5 to 9.
pub record Rng : Type 1 where
  pub State : Type 0
  pub gen_i32 : State → ℤ × State
  pub gen_salt : State → Bytes × State
  pub gen_decoy : State → Bytes × State
  pub gen_count : State → ℕ × State

-- `out_of_draws` stands for a loop that has not found an id in the draws that it was given.
pub data Error : Type 0 where
  out_of_draws invalid_authorizations unable_to_encode no_element no_namespace : Error
  unable_to_prepare unable_to_sign : Error
  missing_doc_type missing_namespaces missing_validity_info missing_digest_algorithm : Error
  missing_device_key_info : Error

-- `HashSet::contains`
unfoldable pub used : ℤ → List ℤ → Bool
used i [] = false
used i (j ∷ js) = eq_ℤ j i || used i js

module _ (g : Rng) where
  -- the id, the ids then in use, and the random state
  unfoldable pub generate_digest_id : ℕ → List ℤ → g.State → Result Error (ℤ × List ℤ × g.State)
  unfolding used digest_id
  generate_digest_id zero used_ids s = err out_of_draws
  generate_digest_id (suc draws) used_ids s =
      let drawn = g.gen_i32 s in
      let again = generate_digest_id draws used_ids drawn.1 in
      if used (digest_id drawn.0) used_ids
      then again
      else ok (digest_id drawn.0, digest_id drawn.0 ∷ used_ids, drawn.1)

  -- the id of the draw after `k` others
  abbrev pub drawn_after : ℕ → g.State → ℤ
  drawn_after zero s = digest_id (g.gen_i32 s).0
  drawn_after (suc k) s = drawn_after k (g.gen_i32 s).1

  -- The id that is found was not in use, and it is now, beside those that were.
  pub generate_digest_id_fresh :
      (draws : ℕ) (used_ids : List ℤ) (s : g.State) {i : ℤ} {after : List ℤ} {s' : g.State}
      → generate_digest_id draws used_ids s ≡ ok (i, after, s')
      → (used i used_ids ≡ false) × (after ≡ i ∷ used_ids)
  unfolding generate_digest_id
  generate_digest_id_fresh zero used_ids s h = absurd (cc)
  generate_digest_id_fresh (suc draws) used_ids s {i} {after} {s'} h =
      elim (Bool-cases (used (digest_id (g.gen_i32 s).0) used_ids)) [
        | inl taken ↦
            generate_digest_id_fresh draws used_ids (g.gen_i32 s).1 {s' = s'}
              (ground (arith, taken, h))
        | inr free ↦ ground (arith, free, h)
      ]

  -- The loop ends when a draw gives an id that is not in use: that many draws and one more are
  -- enough.
  pub generate_digest_id_ends :
      (draws k : ℕ) (used_ids : List ℤ) (s : g.State)
      → k < draws
      → used (drawn_after k s) used_ids ≡ false
      → (r : ℤ × List ℤ × g.State) × (generate_digest_id draws used_ids s ≡ ok r)
  unfolding generate_digest_id
  generate_digest_id_ends zero k used_ids s h free = absurd (omega arith)
  generate_digest_id_ends (suc draws) zero used_ids s h free = (
    (digest_id (g.gen_i32 s).0, digest_id (g.gen_i32 s).0 ∷ used_ids, (g.gen_i32 s).1),
    ground (arith, free),
  )
  generate_digest_id_ends (suc draws) (suc k) used_ids s h free =
      elim (Bool-cases (used (digest_id (g.gen_i32 s).0) used_ids)) [
        | inr found ↦ (
          (digest_id (g.gen_i32 s).0, digest_id (g.gen_i32 s).0 ∷ used_ids, (g.gen_i32 s).1),
          ground (arith, found),
        )
        | inl taken ↦
            let (r, e) =
              generate_digest_id_ends draws k used_ids (g.gen_i32 s).1 (omega arith) free in
            (r, ground (arith, taken, e))
      ]
