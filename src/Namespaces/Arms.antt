-- ===== src/Namespaces/Arms.antt =====
-- A `match` of a text against literals, as src/definitions/namespaces has it in the parsers of its
-- enumerations: the arms in order, and the first whose literal is the text.
use isomdl.Prelude.{
  ◌≡◌, ap, ◌∙◌, Bool, true, ◌&&◌, List, [], ◌∷◌, Option, none, some, if◌then◌else◌, arith,
  Bool-cases, inl, inr,
}
use isomdl.Prelude.Text.{Text, text_eq, text_eq_iff}

abbrev pub Arms {ℓ} : Type ℓ → Type ℓ
Arms A = List (Text × A)

module _ {ℓ} {A : Type ℓ} where
  unfoldable pub first_arm : Arms A → Text → Option A
  first_arm [] s = none
  first_arm ((literal, a) ∷ arms) s =
      let rest = first_arm arms s in if text_eq s literal then some a else rest

  -- every arm's literal is the text of what it stands for
  unfoldable pub every_arm : (A → Text) → Arms A → Bool
  every_arm print [] = true
  every_arm print ((literal, a) ∷ arms) = text_eq literal (print a) && every_arm print arms

  pub first_arm_sound :
      (print : A → Text) (arms : Arms A) (s : Text) {a : A}
      → every_arm print arms ≡ true
      → first_arm arms s ≡ some a
      → s ≡ print a
  unfolding first_arm every_arm
  first_arm_sound print [] s h e = cc
  first_arm_sound print ((literal, b) ∷ arms) s h e =
      let agree : text_eq literal (print b) ≡ true = ground (arith, h) in
      let later : every_arm print arms ≡ true = ground (arith, h) in
      elim (Bool-cases (text_eq s literal)) [
        | inl same ↦
            let found : b ≡ _ = ground (arith, same, e) in
            (text_eq_iff s literal).0 same
            ∙ (text_eq_iff literal (print b)).0 agree
            ∙ ap print found
        | inr other ↦ first_arm_sound print arms s later (ground (arith, other, e))
      ]
