-- ===== src/Namespaces/Aamva/Present.antt =====
-- src/definitions/namespaces/org_iso_18013_5_1_aamva/present.rs
use isomdl.Prelude.{
  ℕ, refl, ◌≡◌, ◌↔◌, ◌==◌, Result, ok, err, some, ◌>>=◌, >>=_succeeds, if◌then◌else◌, ap, ◌∙◌,
  arith,
}
use isomdl.Prelude.Int.{pos}
use isomdl.Cbor.{Value, integer}
use isomdl.FromJson.{Json, number, FromJsonError, parsing, unrecognized_number, u32_from_json}
use isomdl.Namespaces.Named.{u32_from_json_exact}

pub data Present : Type 0 where
  present : Present

unfoldable pub from_json : Json → Result FromJsonError Present
unfolding u32_from_json
from_json v =
    u32_from_json v >>= λ n. if n == 1 then ok present else err (parsing (unrecognized_number n))

unfoldable pub to_cbor : Present → Value
to_cbor p = integer (pos 1)

only_one :
    (n : ℕ) {p : Present}
    → (if n == 1 then ok present else err (parsing (unrecognized_number n))) ≡ ok p
    → n ≡ 1
only_one n h = ground (arith, h)

-- The indicator is read from the number 1, and from no other value.
pub from_json_exact : (v : Json) (p : Present) → (from_json v ≡ ok p) ↔ (v ≡ number (some 1))
unfolding from_json
from_json_exact v present = (
  (λ h.
      let (n, is, got) = >>=_succeeds (u32_from_json v) _ h in
      let one : n ≡ 1 = only_one n got in
      (u32_from_json_exact v n is).0 ∙ ap (λ x. number (some x)) one),
  (λ h. rw h (unfold u32_from_json in refl)),
)
