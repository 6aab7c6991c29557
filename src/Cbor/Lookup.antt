-- ===== src/Cbor/Lookup.antt =====
-- Reading an integer label of a CBOR map after a write or a removal.
use isomdl.Prelude.{◌≡◌, refl, none, some, arith, if◌then◌else◌}
use isomdl.Prelude.Int.{ℤ, eq_ℤ, eq_ℤ_iff}
use isomdl.Cbor.{Value, Entries, integer, end, entry, get_int, without_int, insert_int}

pub get_int-insert_int :
    (k j : ℤ) (v : Value) (m : Entries)
    → get_int j (insert_int k v m) ≡ (if eq_ℤ k j then some v else get_int j m)
unfolding get_int insert_int
get_int-insert_int k j v end = refl
get_int-insert_int k j v (entry (integer i) w m) =
    ground (arith, get_int-insert_int k j v m, eq_ℤ_iff i k, eq_ℤ_iff i j, eq_ℤ_iff k j)
get_int-insert_int k j v (entry _ w m) = get_int-insert_int k j v m

pub get_int-without_int :
    (k j : ℤ) (m : Entries) → get_int j (without_int k m) ≡ (if eq_ℤ k j then none else get_int j m)
unfolding get_int without_int
get_int-without_int k j end = ground arith
get_int-without_int k j (entry (integer i) w m) =
    ground (arith, get_int-without_int k j m, eq_ℤ_iff i k, eq_ℤ_iff i j, eq_ℤ_iff k j)
get_int-without_int k j (entry _ w m) = get_int-without_int k j m
