-- ===== src/Reader/Json.antt =====
-- `parse_response` of src/presentation/reader.rs: the CBOR value of an element as JSON. The
-- conversion of an integer by serde_json is a parameter.
use isomdl.Prelude.{
  ◌≡◌, ◌↔◌, refl, Bool, Option, none, some, ok, err, Outcome, returns, or_panic, and_then,
  and_then-eq-ok, if◌then◌else◌, arith,
}
use isomdl.Prelude.Int.{ℤ}
use isomdl.Prelude.Text.{Text, text_eq}
use isomdl.Cbor.{
  Bytes, Value, Items, Entries, bool, integer, bytes, text, array, map, tag, nil, cons, end, entry,
}

-- `serde_json::Value`, by what the code builds
mutual
  pub data Json : Type 0 where
    string : Text → Json
    boolean : Bool → Json
    number : ℤ → Json
    octets : Bytes → Json  -- an array of numbers
    list : Jsons → Json
    object : Fields → Json

  pub data Jsons : Type 0 where
    no_more : Jsons
    also : Json → Jsons → Jsons

  pub data Fields : Type 0 where
    no_fields : Fields
    field : Text → Json → Fields → Fields

pub data Error : Type 0 where
  parsing_error : Error

-- `serde_json::Map::insert`
unfoldable pub insert_field : Text → Json → Fields → Fields
insert_field k j no_fields = field k j no_fields
insert_field k j (field k' j' fs) =
    let rest = insert_field k j fs in if text_eq k k' then field k j fs else field k' j' rest

number_of :
    (o : Option Json) {j : Json}
    → ◌≡◌ {A = Outcome Error Json} (or_panic o λ x. returns (ok x)) (returns (ok j))
    → (x : Json) × (o ≡ some x)
number_of none h = absurd (ground (arith, h))
number_of (some x) h = (x, refl)

-- `json!(i)` of an `i128`: `none`, a panic, where serde_json has no such number
module _ (to_value : ℤ → Option Json) where
  unfoldable mutual
    pub parse_response : Value → Outcome Error Json
    parse_response (text s) = returns (ok (string s))
    parse_response (tag _ (text d)) = returns (ok (string d))
    parse_response (array v) = and_then (parse_items v) λ rs. returns (ok (list rs))
    parse_response (map m) = and_then (parse_entries m no_fields) λ fs. returns (ok (object fs))
    parse_response (bytes b) = returns (ok (octets b))
    parse_response (bool b) = returns (ok (boolean b))
    parse_response (integer i) = or_panic (to_value i) λ j. returns (ok j)
    parse_response _ = returns (err parsing_error)

    pub parse_items : Items → Outcome Error Jsons
    parse_items nil = returns (ok no_more)
    parse_items (cons v vs) =
        and_then (parse_response v) λ r. and_then (parse_items vs) λ rs. returns (ok (also r rs))

    pub parse_entries : Entries → Fields → Outcome Error Fields
    parse_entries end fs = returns (ok fs)
    parse_entries (entry (text k) v m) fs =
        and_then (parse_response v) λ r. parse_entries m (insert_field k r fs)
    parse_entries (entry _ v m) fs = parse_entries m fs

  -- The values with a JSON form: text, also under a tag, bytes, Booleans, the numbers of
  -- serde_json, and the arrays and maps of such values, where a map's other keys do not count.
  unfoldable mutual
    pub HasJson : Value → Type 0
    HasJson (text _) = Unit
    HasJson (tag _ (text _)) = Unit
    HasJson (array v) = HaveJson v
    HasJson (map m) = HaveJsons m
    HasJson (bytes _) = Unit
    HasJson (bool _) = Unit
    HasJson (integer i) = (j : Json) × (to_value i ≡ some j)
    HasJson _ = ⊥

    pub HaveJson : Items → Type 0
    HaveJson nil = Unit
    HaveJson (cons v vs) = HasJson v × HaveJson vs

    pub HaveJsons : Entries → Type 0
    HaveJsons end = Unit
    HaveJsons (entry (text k) v m) = HasJson v × HaveJsons m
    HaveJsons (entry _ v m) = HaveJsons m

  mutual
    unfolding parse_response HasJson

    parse-HasJson : (v : Value) → HasJson v → (j : Json) × (parse_response v ≡ returns (ok j))
    parse-HasJson (text s) h = (string s, refl)
    parse-HasJson (tag _ (text d)) h = (string d, refl)
    parse-HasJson (array v) h = let (rs, e) = parse-HaveJson v h in (list rs, rw e refl)
    parse-HasJson (map m) h = let (fs, e) = parse-HaveJsons m no_fields h in (object fs, rw e refl)
    parse-HasJson (bytes b) h = (octets b, refl)
    parse-HasJson (bool b) h = (boolean b, refl)
    parse-HasJson (integer i) (j, e) = (j, rw e refl)
    parse-HasJson _ h = absurd h

    parse-HaveJson : (v : Items) → HaveJson v → (rs : Jsons) × (parse_items v ≡ returns (ok rs))
    parse-HaveJson nil h = (no_more, refl)
    parse-HaveJson (cons v vs) (h, hs) =
        let (r, e) = parse-HasJson v h in
        let (rs, es) = parse-HaveJson vs hs in (also r rs, rw (e, es) refl)

    parse-HaveJsons :
        (m : Entries) (fs : Fields)
        → HaveJsons m
        → (gs : Fields) × (parse_entries m fs ≡ returns (ok gs))
    parse-HaveJsons end fs h = (fs, refl)
    parse-HaveJsons (entry (text k) v m) fs (h, hs) =
        let (r, e) = parse-HasJson v h in
        let (gs, es) = parse-HaveJsons m (insert_field k r fs) hs in (gs, rw (e, es) refl)
    parse-HaveJsons (entry _ v m) fs h = parse-HaveJsons m fs h

  mutual
    unfolding parse_response HasJson

    has_json : (v : Value) {j : Json} → parse_response v ≡ returns (ok j) → HasJson v
    has_json (text s) h = tt
    has_json (tag _ (text d)) h = tt
    has_json (array v) h = let (rs, e, _) = and_then-eq-ok (parse_items v) _ h in have_json v e
    has_json (map m) h =
        let (fs, e, _) = and_then-eq-ok (parse_entries m no_fields) _ h in have_jsons m no_fields e
    has_json (bytes b) h = tt
    has_json (bool b) h = tt
    has_json (integer i) h = number_of (to_value i) h
    has_json _ h = absurd (ground (arith, h))

    have_json : (v : Items) {rs : Jsons} → parse_items v ≡ returns (ok rs) → HaveJson v
    have_json nil h = tt
    have_json (cons v vs) h =
        let (r, e, h') = and_then-eq-ok (parse_response v) _ h in
        let (rs, es, _) = and_then-eq-ok (parse_items vs) _ h' in (has_json v e, have_json vs es)

    have_jsons :
        (m : Entries) (fs : Fields) {gs : Fields}
        → parse_entries m fs ≡ returns (ok gs)
        → HaveJsons m
    have_jsons end fs h = tt
    have_jsons (entry (text k) v m) fs h =
        let (r, e, h') = and_then-eq-ok (parse_response v) _ h in
        (has_json v e, have_jsons m (insert_field k r fs) h')
    have_jsons (entry _ v m) fs h = have_jsons m fs h

  -- A value is parsed exactly when it has a JSON form.
  pub parse_response_returns :
      (v : Value) → ((j : Json) × (parse_response v ≡ returns (ok j))) ↔ HasJson v
  parse_response_returns v = (λ x. has_json v x.1, parse-HasJson v)
