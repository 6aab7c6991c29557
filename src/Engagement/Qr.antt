-- ===== src/Engagement/Qr.antt =====
-- The URI of a QR code (`Tag24<DeviceEngagement>` in src/definitions/device_engagement.rs). The
-- crate base64, with the URL-safe alphabet and no padding, is a parameter.
use isomdl.Prelude.{
  ◌≡◌, ◌↔◌, refl, sym, ap, ◌∙◌, ◌++◌, Option, none, some, Option-cases, inl, inr, Result, ok, err,
  to_option, to_option-eq-some, ◌>>=◌, ok_or, arith,
}
use isomdl.Prelude.Text.{Text, codes, strip_prefix}
use isomdl.Cbor.{Bytes, Value}
use isomdl.CoseKey.{CoseKey}
use isomdl.Helpers.Tag24.{Tag24, Codec, Reads}
use isomdl.Helpers.Tag24
use isomdl.Engagement.Envelope
use isomdl.Engagement.Envelope.{DeviceEngagement, Serde}
use isomdl.Engagement.RoundTrip.{IsSerde, IsEngagement, engagement_read_back}

-- `encode_config_buf` and `decode_config`, `none` an error
pub record Base64 : Type 0 where
  pub encode : Bytes → Text
  pub decode : Text → Option Bytes

-- What is encoded is decoded again.
abbrev pub IsBase64 : Base64 → Type 0
IsBase64 b = (bytes : Bytes) → b.decode (b.encode bytes) ≡ some bytes

-- what `anyhow` carries
pub data Error : Type 0 where
  invalid_prefix invalid_base64 : Error
  invalid_engagement : Tag24.Error → Error

abbrev decoded : {A : Type 0} → Result Tag24.Error A → Result Error A
decoded (ok a) = ok a
decoded (err e) = err (invalid_engagement e)

module _ (base64 : Base64) where
  unfoldable pub to_qr_code_uri : Tag24 DeviceEngagement → Text
  to_qr_code_uri t = codes "mdoc:" ++ base64.encode t.inner_bytes

  unfoldable pub from_qr_code_uri :
      Codec DeviceEngagement → Text → Result Error (Tag24 DeviceEngagement)
  from_qr_code_uri c qr_code_uri = do
    encoded_de ← ok_or (strip_prefix (codes "mdoc:") qr_code_uri) invalid_prefix
    decoded_de ← ok_or (base64.decode encoded_de) invalid_base64
    decoded (Tag24.from_bytes c decoded_de)

inner_of : Result Error (Tag24 DeviceEngagement) → Option DeviceEngagement
inner_of (ok t) = some t.inner
inner_of (err e) = none

module _ (base64 : Base64) (law : IsBase64 base64) (keys : Codec CoseKey) (S : Serde)
    (serde : IsSerde keys S) (values : Codec Value) where
  scanned :
      (c : Codec DeviceEngagement) (d : DeviceEngagement) (b : Bytes)
      → inner_of (
          from_qr_code_uri base64 c (to_qr_code_uri base64 (record { inner = d; inner_bytes = b })))
        ≡ c.from_slice b
  unfolding from_qr_code_uri to_qr_code_uri strip_prefix Tag24.from_bytes inner_of
  scanned c d b =
      rw (law b)
        (elim (Option-cases (c.from_slice b)) [ inl e ↦ rw e refl | inr (x, e) ↦ rw e refl ])

  scanned_same :
      (c : Codec DeviceEngagement) (d : DeviceEngagement) (b : Bytes)
      → c.from_slice b ≡ some d
      → from_qr_code_uri base64 c (to_qr_code_uri base64 (record { inner = d; inner_bytes = b }))
        ≡ ok (record { inner = d; inner_bytes = b })
  unfolding from_qr_code_uri to_qr_code_uri strip_prefix Tag24.from_bytes
  scanned_same c d b h = rw (law b, h) refl

  -- If base64 and the derived deserializers read back what they write, then an engagement with
  -- fields in their types' ranges, whose key's bytes are read as the key and the bytes of whose CBOR
  -- value are read as that value, is read from the QR code that a device makes of it, with the same
  -- bytes, exactly if its version is "1.0" and it has no protocol information.
  pub from_qr_code_uri-to_qr_code_uri :
      (d : DeviceEngagement)
      → IsEngagement keys d
      → Reads values (Envelope.to_cbor d)
      → {t : Tag24 DeviceEngagement} → Tag24.new (Envelope.codec S values) d ≡ ok t
      → (from_qr_code_uri base64 (Envelope.codec S values) (to_qr_code_uri base64 t) ≡ ok t)
        ↔ ((d.version ≡ codes "1.0") × (d.protocol_info ≡ none))
  unfolding Tag24.new inner_of
  from_qr_code_uri-to_qr_code_uri d valid reads {t} h =
      let c = Envelope.codec S values in
      let exact = engagement_read_back keys S serde d valid in
      elim (Option-cases (values.to_vec (Envelope.to_cbor d))) [
        | inl e ↦ absurd (ground (arith, e))
        | inr (b, e) ↦
            let same : t ≡ record { inner = d; inner_bytes = b } = ground (arith, e) in
            let back = reads b e in
            rw same (
              (λ q. exact.0 (
                  to_option-eq-some (Envelope.from_cbor S (Envelope.to_cbor d)) (
                    sym (ap (Tag24.converted (λ v. to_option (Envelope.from_cbor S v))) back)
                    ∙ sym (scanned c d b)
                    ∙ ap inner_of q))),
              (λ p. scanned_same c d b (
                  ap (Tag24.converted (λ v. to_option (Envelope.from_cbor S v))) back
                  ∙ ap to_option (exact.1 p))),
            )
      ]
