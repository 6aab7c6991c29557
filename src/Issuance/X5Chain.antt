-- ===== src/Issuance/X5Chain.antt =====
-- src/issuance/x5chain.rs: the certificate chain of an issuer. The crates pem-rfc7468 and x509-cert
-- are parameters.
use isomdl.Prelude.{
  ◌≡◌, refl, ◌↔◌, List, [], ◌∷◌, ◌++◌, Option, none, some, Result, ok, err, ◌>>=◌, ok_or, arith,
}
use isomdl.Prelude.Int.{ℤ, pos}
use isomdl.Cbor.{Bytes, Value, Items, array, bytes, nil, cons}
use isomdl.Helpers.NonEmptyVec.{NonEmptyVec}
use isomdl.Helpers.NonEmptyVec

abbrev pub x5chain_header_label : ℤ
x5chain_header_label = pos 33

-- an `X509` is its bytes
abbrev pub X509 : Type 0
X509 = Bytes

abbrev pub Chain : Type 0
Chain = NonEmptyVec X509

-- the label inside a PEM text, and a certificate read from DER and written again
pub record Certificates : Type 1 where
  pub Certificate : Type 0
  pub decode_pem : Bytes → Option Bytes
  pub from_der : Bytes → Option Certificate
  pub to_vec : Certificate → Option Bytes

pub data Error : Type 0 where
  unable_to_parse_pem unable_to_parse_der unable_to_convert no_certificate : Error

-- a `Builder` is its certificates
abbrev pub Builder : Type 0
Builder = List X509

abbrev pub byte_strings : List X509 → Items
byte_strings [] = nil
byte_strings (c ∷ cs) = cons (bytes c) (byte_strings cs)

abbrev chain_value : List X509 → Value
chain_value (c ∷ []) = bytes c
chain_value cs = array (byte_strings cs)

unfoldable pub into_cbor : Chain → Value
into_cbor c = chain_value c.items

module _ (x : Certificates) where
  unfoldable pub with_der : Builder → Bytes → Result Error Builder
  with_der b data' = do
    cert ← ok_or (x.from_der data') unable_to_parse_der
    x509 ← ok_or (x.to_vec cert) unable_to_convert
    ok (b ++ x509 ∷ [])

  unfoldable pub with_pem : Builder → Bytes → Result Error Builder
  with_pem b data' = do
    der ← ok_or (x.decode_pem data') unable_to_parse_pem
    cert ← ok_or (x.from_der der) unable_to_parse_der
    x509 ← ok_or (x.to_vec cert) unable_to_convert
    ok (b ++ x509 ∷ [])

abbrev built : Result NonEmptyVec.Error Chain → Result Error Chain
built (ok c) = ok c
built (err _) = err no_certificate

unfoldable pub build : Builder → Result Error Chain
unfolding NonEmptyVec.try_from
build b = built (NonEmptyVec.try_from b)

-- The certificates in a header's value, as RFC 9360 lays them out: one as a byte string, more as an
-- array of byte strings.
abbrev add_certificate : Bytes → Option (List Bytes) → Option (List Bytes)
add_certificate c none = none
add_certificate c (some cs) = some (c ∷ cs)

abbrev read_items : Items → Option (List Bytes)
read_items nil = some []
read_items (cons (bytes c) cs) = add_certificate c (read_items cs)
read_items (cons _ cs) = none

abbrev pub read_chain : Value → Option (List Bytes)
read_chain (bytes c) = some (c ∷ [])
read_chain (array cs) = read_items cs
read_chain _ = none

read-byte_strings : (cs : List X509) → read_items (byte_strings cs) ≡ some cs
read-byte_strings [] = refl
read-byte_strings (c ∷ cs) = rw (read-byte_strings cs)

-- A chain is refused exactly when no certificate was added.
pub build_refused : (b : Builder) → (build b ≡ err no_certificate) ↔ (b ≡ [])
unfolding build
build_refused [] = (λ h. refl, λ h. refl)
build_refused (x ∷ cs) = (λ h. absurd (cc), λ h. absurd (cc))

-- A chain that is built is read back from its header value, in the order in which its certificates
-- were added.
pub read_chain-into_cbor :
    (b : Builder) {c : Chain} → build b ≡ ok c → read_chain (into_cbor c) ≡ some b
unfolding build into_cbor
read_chain-into_cbor [] h = absurd (cc)
read_chain-into_cbor (x ∷ []) h = ground arith
read_chain-into_cbor (x ∷ y ∷ cs) h = ground (arith, read-byte_strings cs)
