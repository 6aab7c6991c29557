-- ===== src/Cbor.antt =====
-- `serde_cbor::Value` by the constructors that the code builds and matches on, and the maps of it
-- that the code reads and writes by integer label. A map's entries stand in the order of their
-- first insertion: the order in which the crate keeps them is the crate's own. Of the functions
-- modelled here only `parse_response` of the reader takes the entries in turn: where one entry is an
-- error and another a panic, the first of them decides.
pub mod Lookup
use isomdl.Prelude.{ℕ, Bool, true, false, Option, none, some, List, [], ◌∷◌, if◌then◌else◌}
use isomdl.Prelude.Int.{ℤ, pos, eq_ℤ}
use isomdl.Prelude.Text.{Text, text_eq}

abbrev pub Bytes : Type 0
Bytes = List ℕ

mutual
  pub data Value : Type 0 where
    null : Value
    bool : Bool → Value
    integer : ℤ → Value
    float : ℕ → Value  -- the bits of the f64
    bytes : Bytes → Value
    text : Text → Value
    array : Items → Value
    map : Entries → Value
    tag : ℕ → Value → Value

  pub data Items : Type 0 where
    nil : Items
    cons : Value → Items → Items

  pub data Entries : Type 0 where
    end : Entries
    entry : Value → Value → Entries → Entries

-- equality with the key `Value::Integer(k)`, `Value::Text(k)`
abbrev pub is_int : ℤ → Value → Bool
is_int k (integer j) = eq_ℤ j k
is_int k _ = false

-- `get(&CborValue::Integer(k))`
unfoldable pub get_int : ℤ → Entries → Option Value
get_int k end = none
get_int k (entry j v m) = if is_int k j then some v else get_int k m

-- what `remove(&CborValue::Integer(k))` leaves
unfoldable pub without_int : ℤ → Entries → Entries
without_int k end = end
without_int k (entry j v m) =
    let rest = without_int k m in if is_int k j then rest else entry j v rest

-- `remove(&CborValue::Integer(k))`: the value that stood there, and the map without it
abbrev pub remove_int : ℤ → Entries → Option Value × Entries
remove_int k m = (get_int k m, without_int k m)

-- `insert(CborValue::Integer(k), v)`
unfoldable pub insert_int : ℤ → Value → Entries → Entries
insert_int k v end = entry (integer k) v end
insert_int k v (entry j w m) =
    let rest = insert_int k v m in if is_int k j then entry j v m else entry j w rest

-- `Value::Array` of a vector's values
abbrev pub items_of : List Value → Items
items_of [] = nil
items_of (v ∷ vs) = cons v (items_of vs)
