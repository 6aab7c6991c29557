-- ===== src/Examples/Values.antt =====
-- A codec of CBOR values in place of serde_cbor's: every value is written as numbers, with its size
-- in front, and read back.
use isomdl.Prelude.{
  ℕ, suc, zero, ◌+◌, ◌≤◌, ◌≡◌, refl, ap, ◌∙◌, Bool, true, false, [], ◌∷◌, ◌++◌, Option, none, some,
  length, ◌==◌, if◌then◌else◌, arith,
}
use isomdl.Prelude.Int.{pos, negsuc}
use isomdl.Cbor.{
  Bytes, Value, Items, Entries, null, bool, integer, float, bytes, text, array, map, tag, nil, cons,
  end, entry,
}
use isomdl.Helpers.Tag24.{Codec, Reads}

-- what a number in front of a value says of it
pub data Kind : Type 0 where
  as_null as_bool as_pos as_negsuc as_float as_bytes as_text as_array as_map as_tag : Kind

kind : ℕ → Kind
kind k =
    if k == 0
    then as_null
    else if k == 1
    then as_bool
    else if k == 2
    then as_pos
    else if k == 3
    then as_negsuc
    else if k == 4
    then as_float
    else if k == 5
    then as_bytes
    else if k == 6
    then as_text
    else if k == 7
    then as_array
    else if k == 8
    then as_map
    else as_tag

abbrev bit : Bool → ℕ
bit b = if b then 1 else 0

mutual
  size : Value → ℕ
  size null = 1
  size (bool b) = 1
  size (integer i) = 1
  size (float n) = 1
  size (bytes b) = 1
  size (text t) = 1
  size (array xs) = suc (size_items xs)
  size (map m) = suc (size_entries m)
  size (tag n v) = suc (size v)

  size_items : Items → ℕ
  size_items nil = 1
  size_items (cons v xs) = suc (size v + size_items xs)

  size_entries : Entries → ℕ
  size_entries end = 1
  size_entries (entry k v m) = suc (size k + size v + size_entries m)

-- a value's numbers in front of others
mutual
  write : Value → Bytes → Bytes
  write null rest = 0 ∷ rest
  write (bool b) rest = 1 ∷ bit b ∷ rest
  write (integer (pos n)) rest = 2 ∷ n ∷ rest
  write (integer (negsuc n)) rest = 3 ∷ n ∷ rest
  write (float n) rest = 4 ∷ n ∷ rest
  write (bytes b) rest = 5 ∷ length b ∷ (b ++ rest)
  write (text t) rest = 6 ∷ length t ∷ (t ++ rest)
  write (array xs) rest = 7 ∷ write_items xs rest
  write (map m) rest = 8 ∷ write_entries m rest
  write (tag n v) rest = 9 ∷ n ∷ write v rest

  write_items : Items → Bytes → Bytes
  write_items nil rest = 0 ∷ rest
  write_items (cons v xs) rest = 1 ∷ write v (write_items xs rest)

  write_entries : Entries → Bytes → Bytes
  write_entries end rest = 0 ∷ rest
  write_entries (entry k v m) rest = 1 ∷ write k (write v (write_entries m rest))

split : ℕ → Bytes → Bytes × Bytes
split zero xs = ([], xs)
split (suc n) [] = ([], [])
split (suc n) (x ∷ xs) = let (b, rest) = split n xs in (x ∷ b, rest)

split-append : (b rest : Bytes) → split (length b) (b ++ rest) ≡ (b, rest)
unfolding split
split-append [] rest = refl
split-append (x ∷ b) rest = ap (λ p. (x ∷ p.0, p.1)) (split-append b rest)

abbrev then_read {ℓ κ} :
    {A : Type ℓ} {B : Type κ} → Option (A × Bytes) → (A → Bytes → Option B) → Option B
then_read none f = none
then_read (some (a, rest)) f = f a rest

-- the value that starts with a number of this kind, one number and the rest
abbrev leaf : Kind → ℕ → Bytes → Option (Value × Bytes)
leaf as_bool n rest = some (bool (n == 1), rest)
leaf as_pos n rest = some (integer (pos n), rest)
leaf as_negsuc n rest = some (integer (negsuc n), rest)
leaf as_float n rest = some (float n, rest)
leaf as_bytes n rest = let (b, rest) = split n rest in some (bytes b, rest)
leaf as_text n rest = let (t, rest) = split n rest in some (text t, rest)
leaf _ n rest = none

abbrev leaf_of : Kind → Bytes → Option (Value × Bytes)
leaf_of k [] = none
leaf_of k (n ∷ rest) = leaf k n rest

abbrev tagged : (Bytes → Option (Value × Bytes)) → Bytes → Option (Value × Bytes)
tagged inner [] = none
tagged inner (n ∷ rest) = then_read (inner rest) λ v rest. some (tag n v, rest)

mutual
  read : ℕ → Bytes → Option (Value × Bytes)
  read (suc f) (k ∷ rest) = elim (kind k) [
    | as_null ↦ some (null, rest)
    | as_array ↦ then_read (read_items f rest) λ xs rest. some (array xs, rest)
    | as_map ↦ then_read (read_entries f rest) λ m rest. some (map m, rest)
    | as_tag ↦ tagged (read f) rest
    | other ↦ leaf_of other rest
  ]
  read _ _ = none

  read_items : ℕ → Bytes → Option (Items × Bytes)
  read_items (suc f) (k ∷ rest) = elim (k == 0) [
    | true ↦ some (nil, rest)
    | false ↦
        then_read (read f rest)
          λ v rest. then_read (read_items f rest) λ xs rest. some (cons v xs, rest)
  ]
  read_items _ _ = none

  read_entries : ℕ → Bytes → Option (Entries × Bytes)
  read_entries (suc f) (k ∷ rest) = elim (k == 0) [
    | true ↦ some (end, rest)
    | false ↦ then_read (read f rest) λ j rest.
        then_read (read f rest)
          λ v rest. then_read (read_entries f rest) λ m rest. some (entry j v m, rest)
  ]
  read_entries _ _ = none

small : (v : Value) → size v ≤ 0 → ⊥
unfolding size
small null h = omega arith
small (bool b) h = omega arith
small (integer i) h = omega arith
small (float n) h = omega arith
small (bytes b) h = omega arith
small (text t) h = omega arith
small (array xs) h = omega arith
small (map m) h = omega arith
small (tag n v) h = omega arith

mutual
  unfolding size write read kind

  read-write :
      (f : ℕ) (v : Value) (rest : Bytes) → size v ≤ f → read f (write v rest) ≡ some (v, rest)
  read-write zero v rest h = absurd (small v h)
  read-write (suc f) null rest h = refl
  read-write (suc f) (bool true) rest h = refl
  read-write (suc f) (bool false) rest h = refl
  read-write (suc f) (integer (pos n)) rest h = refl
  read-write (suc f) (integer (negsuc n)) rest h = refl
  read-write (suc f) (float n) rest h = refl
  read-write (suc f) (bytes b) rest h = ap (λ p. some (bytes p.0, p.1)) (split-append b rest)
  read-write (suc f) (text t) rest h = ap (λ p. some (text p.0, p.1)) (split-append t rest)
  read-write (suc f) (array xs) rest h =
      ap (λ r. then_read r λ xs rest. some (array xs, rest))
        (read_items-write f xs rest (omega arith))
  read-write (suc f) (map m) rest h =
      ap (λ r. then_read r λ m rest. some (map m, rest)) (read_entries-write f m rest (omega arith))
  read-write (suc f) (tag n v) rest h =
      ap (λ r. then_read r λ v rest. some (tag n v, rest)) (read-write f v rest (omega arith))

  read_items-write :
      (f : ℕ) (xs : Items) (rest : Bytes)
      → size_items xs ≤ f
      → read_items f (write_items xs rest) ≡ some (xs, rest)
  read_items-write zero nil rest h = absurd (omega arith)
  read_items-write zero (cons v xs) rest h = absurd (omega arith)
  read_items-write (suc f) nil rest h = refl
  read_items-write (suc f) (cons v xs) rest h =
      ap
        (λ r. then_read r λ v rest. then_read (read_items f rest) λ xs rest. some (cons v xs, rest))
        (read-write f v (write_items xs rest) (omega arith))
      ∙ ap (λ r. then_read r λ xs rest. some (cons v xs, rest))
          (read_items-write f xs rest (omega arith))

  read_entries-write :
      (f : ℕ) (m : Entries) (rest : Bytes)
      → size_entries m ≤ f
      → read_entries f (write_entries m rest) ≡ some (m, rest)
  read_entries-write zero end rest h = absurd (omega arith)
  read_entries-write zero (entry k v m) rest h = absurd (omega arith)
  read_entries-write (suc f) end rest h = refl
  read_entries-write (suc f) (entry k v m) rest h =
      ap
        (λ r. then_read r λ j rest.
          then_read (read f rest)
            λ v rest. then_read (read_entries f rest) λ m rest. some (entry j v m, rest))
        (read-write f k (write v (write_entries m rest)) (omega arith))
      ∙ ap
          (λ r.
            then_read r
              λ v rest. then_read (read_entries f rest) λ m rest. some (entry k v m, rest))
          (read-write f v (write_entries m rest) (omega arith))
      ∙ ap (λ r. then_read r λ m rest. some (entry k v m, rest))
          (read_entries-write f m rest (omega arith))

abbrev read_value : Bytes → Option Value
read_value [] = none
read_value (f ∷ b) = then_read (read f b) λ v _. some v

unfoldable pub values : Codec Value
unfolding size write read kind split
values = record { to_vec = λ v. some (size v ∷ write v []); from_slice = read_value }

pub values-Reads : (v : Value) → Reads values v
unfolding values
values-Reads v b h = ground (arith, read-write (size v) v [] (omega arith))

-- the numbers of a value
abbrev pub written : Value → Bytes
written v = elim (values.to_vec v) [ none ↦ [] | some b ↦ b ]
