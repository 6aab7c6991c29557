-- ===== src/Namespaces/Named.antt =====
-- The enumerations of src/definitions/namespaces that are read from and written as a text, or a
-- number: what their tables satisfy, and what their readers then read.
use isomdl.Prelude.{
  ℕ, ◌≡◌, ap, ◌∙◌, ◌↔◌, ◌<◌, ◌^◌, true, none, some, Result, ok, ok_or, >>=_succeeds, map_err-eq-ok,
  ok_or-eq-ok, arith,
}
use isomdl.Prelude.Text.{Text}
use isomdl.FromJson.{
  Json, null, boolean, number, string, array, object, ParseError, string_from_json, u32_from_json,
  parsed, converted,
}
use isomdl.Namespaces.Arms.{Arms, first_arm, every_arm, first_arm_sound}

-- A table of texts: every arm has the text of its constant, and every constant is found by its text.
pub record IsNamed {A : Type 0} (to_str : A → Text) (arms : Arms A) : Type 0 where
  pub agree : every_arm to_str arms ≡ true
  pub found : (a : A) → first_arm arms (to_str a) ≡ some a

-- The numbers of the constants are read as those constants and fit; no other number is.
pub record IsNumbered {E A : Type 0} (to_u8 : A → ℕ) (try_from : ℕ → Result E A) : Type 0 where
  pub small : (a : A) → to_u8 a < 2 ^ 32
  pub found : (a : A) → try_from (to_u8 a) ≡ ok a
  pub sound : (u : ℕ) (a : A) → try_from u ≡ ok a → u ≡ to_u8 a

-- `string_from_json` gives the text of a string and of nothing else
pub string_from_json_exact : (v : Json) (s : Text) → string_from_json v ≡ ok s → v ≡ string s
unfolding string_from_json
string_from_json_exact (string t) s h = ground (arith, h)
string_from_json_exact null s h = cc
string_from_json_exact (boolean b) s h = cc
string_from_json_exact (number n) s h = cc
string_from_json_exact (array es) s h = cc
string_from_json_exact (object fs) s h = cc

pub u32_from_json_exact :
    (v : Json) (u : ℕ) → u32_from_json v ≡ ok u → (v ≡ number (some u)) × (u < 2 ^ 32)
unfolding u32_from_json
u32_from_json_exact (number (some n)) u h = ground (arith, h)
u32_from_json_exact (number none) u h = absurd (ground (arith, h))
u32_from_json_exact null u h = absurd (cc)
u32_from_json_exact (boolean b) u h = absurd (cc)
u32_from_json_exact (string s) u h = absurd (cc)
u32_from_json_exact (array es) u h = absurd (cc)
u32_from_json_exact (object fs) u h = absurd (cc)

module _ {E A : Type 0} {to_str : A → Text} {arms : Arms A} (into : E → ParseError)
    (e : Text → E) where
  -- A named constant is read from its text as a JSON string, and from nothing else.
  pub parsed-IsNamed :
      IsNamed to_str arms
      → (v : Json) (a : A)
      → (parsed into (λ s. ok_or (first_arm arms s) (e s)) v ≡ ok a) ↔ (v ≡ string (to_str a))
  unfolding string_from_json
  parsed-IsNamed named v a = (
    (λ h.
        let (s, is, got) = >>=_succeeds (string_from_json v) _ h in
        string_from_json_exact v s is
        ∙ ap string (
            first_arm_sound to_str arms s named.agree (
              ok_or-eq-ok (first_arm arms s) (e s)
                (map_err-eq-ok _ (ok_or (first_arm arms s) (e s)) got)))),
    (λ h. rw h (ground (arith, named.found a))),
  )

module _ {E A : Type 0} {to_u8 : A → ℕ} {try_from : ℕ → Result E A} (into : E → ParseError) where
  -- A numbered constant is read from its number, and from nothing else.
  pub converted-IsNumbered :
      IsNumbered to_u8 try_from
      → (v : Json) (a : A) → (converted into try_from v ≡ ok a) ↔ (v ≡ number (some (to_u8 a)))
  unfolding u32_from_json
  converted-IsNumbered numbered v a = (
    (λ h.
        let (u, is, got) = >>=_succeeds (u32_from_json v) _ h in
        (u32_from_json_exact v u is).0
        ∙ ap (λ x. number (some x)) (numbered.sound u a (map_err-eq-ok _ (try_from u) got))),
    (λ h. rw h (ground (arith, numbered.small a, numbered.found a))),
  )
