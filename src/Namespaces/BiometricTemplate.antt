-- ===== src/Namespaces/BiometricTemplate.antt =====
-- src/definitions/namespaces/org_iso_18013_5_1/biometric_template.rs
use isomdl.Prelude.{◌≡◌, subst, ◌++◌, Option, some, Result, ok, ◌>>=◌, >>=_succeeds, arith}
use isomdl.Prelude.Text.{Text, codes, strip_prefix, strip_prefix-append, strip_prefix-eq_some}
use isomdl.Prelude.Map.{Map, get, collect, text_ord, IsSorted, collect-IsSorted}
use isomdl.Cbor.{Bytes, Value, bytes}
use isomdl.FromJson.{Object, FromJsonError, byte_str_from_json}
use isomdl.Namespaces.Prefixed.{
  Keys, read_entries, written_entries, as_value, IsRead, get-read_entries, get-written_entries,
}

abbrev pub BiometricTemplate : Type 0
BiometricTemplate = Map Text Bytes

unfoldable pub read_key : Text → Option Text
unfolding strip_prefix
read_key k = strip_prefix (codes "biometric_template_") k

-- `format!("biometric_template_{k}")`
unfoldable pub write_key : Text → Text
write_key k = codes "biometric_template_" ++ k

unfoldable pub to_ns_map : BiometricTemplate → Map Text Value
unfolding write_key written_entries collect
to_ns_map m = collect (written_entries write_key bytes m)

keys_sound : (k : Text) (a : Text) → read_key k ≡ some a → k ≡ write_key a
unfolding read_key write_key
keys_sound k a h = strip_prefix-eq_some (codes "biometric_template_") k h

write_key_injective : (a b : Text) → write_key a ≡ write_key b → a ≡ b
unfolding write_key
write_key_injective a b h = ground (arith, h)

template_keys : Keys Text
template_keys = record {
  read = read_key;
  write = write_key;
  sound = keys_sound;
  write_injective = write_key_injective;
}

own_key : (a : Text) → read_key (write_key a) ≡ some a
unfolding read_key write_key
own_key a = strip_prefix-append (codes "biometric_template_") a

-- `base64::decode`
module _ (decode : Text → Option Bytes) where
  unfoldable pub from_map : Object → Result FromJsonError BiometricTemplate
  unfolding read_key byte_str_from_json read_entries collect
  from_map m = read_entries read_key (byte_str_from_json decode) m >>= λ es. ok (collect es)

  -- Under the name of a template stand the bytes that the object's text for it decodes to, and
  -- nothing where the object has no such element.
  pub from_map-IsRead :
      (m : Object) (templates : BiometricTemplate) (k : Text)
      → IsSorted m
      → from_map m ≡ ok templates
      → IsRead (byte_str_from_json decode) (get k templates) (get (write_key k) m)
        × (get (write_key k) (to_ns_map templates) ≡ as_value bytes (get k templates))
  unfolding from_map to_ns_map template_keys
  from_map-IsRead m templates k s h =
      let (es, read, built) =
        >>=_succeeds (read_entries read_key (byte_str_from_json decode) m) _ h in
      let collected : collect es ≡ templates = ground (arith, built) in
      (
        subst (λ x. IsRead (byte_str_from_json decode) (get k x) (get (write_key k) m)) collected
            (get-read_entries template_keys (byte_str_from_json decode) m es k s (own_key k) read),
        get-written_entries template_keys bytes templates k
            (subst IsSorted collected (collect-IsSorted es)),
      )
