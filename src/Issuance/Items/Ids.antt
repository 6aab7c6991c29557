-- ===== src/Issuance/Items/Ids.antt =====
-- What `issue_items` makes of the elements of a namespace.
use isomdl.Prelude.{
  ℕ, ◌≡◌, sym, ap, subst, ◌∙◌, false, List, [], ◌∷◌, some, ok, >>=_succeeds, arith, Option-cases,
  inl, inr,
}
use isomdl.Prelude.Int.{ℤ}
use isomdl.Prelude.Text.{Text}
use isomdl.Prelude.Map.{Map, int_ord}
use isomdl.Cbor.{Value}
use isomdl.Helpers.Tag24.{Tag24, Codec}
use isomdl.Helpers.Tag24
use isomdl.Documents.{IssuerSignedItem, IssuerSignedItemBytes}
use isomdl.Issuance.Random.{Rng, generate_digest_id, used, generate_digest_id_fresh}
use isomdl.Issuance.Items.{issue_items, encoded}

module _ (items : Codec IssuerSignedItem) where
  -- The issued items are the elements in their order, with ids that differ from each other and from
  -- those in use, each with the bytes that encode it.
  abbrev pub Issues : List ℤ → List IssuerSignedItemBytes → Map Text Value → Type 0
  Issues used_ids [] [] = Unit
  Issues used_ids (t ∷ ts) ((key, value) ∷ elements) =
      (t.inner.element_identifier ≡ key)
      × (t.inner.element_value ≡ value)
      × (used t.inner.digest_id used_ids ≡ false)
      × (items.to_vec t.inner ≡ some t.inner_bytes)
      × Issues (t.inner.digest_id ∷ used_ids) ts elements
  Issues used_ids [] (e ∷ elements) = ⊥
  Issues used_ids (t ∷ ts) [] = ⊥

  encoded_lem :
      (item : IssuerSignedItem) {t : IssuerSignedItemBytes}
      → encoded (Tag24.new items item) ≡ ok t
      → (t.inner ≡ item) × (items.to_vec item ≡ some t.inner_bytes)
  unfolding Tag24.new
  encoded_lem item h = elim (Option-cases (items.to_vec item)) [
    | inl e ↦ absurd (ground (arith, e, h))
    | inr (b, e) ↦ ground (arith, e, h)
  ]

  module _ (g : Rng) (draws : ℕ) where
    pub issue_items-Issues :
        (used_ids : List ℤ) (elements : Map Text Value) (s : g.State)
        {r : List IssuerSignedItemBytes × g.State}
        → issue_items g items draws used_ids elements s ≡ ok r
        → Issues used_ids r.0 elements
    unfolding issue_items
    issue_items-Issues used_ids [] s {r} h =
        let none_left : [] ≡ r.0 = ground (arith, h) in
        subst (λ l. Issues used_ids l []) none_left tt
    issue_items-Issues used_ids ((key, value) ∷ elements) s {r} h =
        let (x, made, h1) = >>=_succeeds (generate_digest_id g draws used_ids s) _ h in
        let salted = g.gen_salt x.2 in
        let item : IssuerSignedItem = record {
          digest_id = x.0;
          random = salted.0;
          element_identifier = key;
          element_value = value;
        } in
        let (t, wrapped, h2) = >>=_succeeds (encoded (Tag24.new items item)) _ h1 in
        let (y, later, h3) = >>=_succeeds (issue_items g items draws x.1 elements salted.1) _ h2 in
        let fresh = generate_digest_id_fresh g draws used_ids s made in
        let inner = encoded_lem item wrapped in
        let all : (t ∷ y.0) ≡ r.0 = ground (arith, h3) in
        subst (λ l. Issues used_ids l ((key, value) ∷ elements)) all
          (
            ap (λ i. i.element_identifier) inner.0,
            ap (λ i. i.element_value) inner.0,
            ap (λ i. used i.digest_id used_ids) inner.0 ∙ fresh.0,
            ap items.to_vec inner.0 ∙ inner.1,
            subst (λ l. Issues l y.0 elements)
                (fresh.1 ∙ ap (λ i. i.digest_id ∷ used_ids) (sym inner.0))
                (issue_items-Issues x.1 elements salted.1 later),
          )
