-- ===== src/Crates.antt =====
-- Types and operations of other crates that the modelled code passes around: COSE signatures of
-- cose-rs, times of time, identifiers of uuid.
use isomdl.Prelude.{Option}
use isomdl.Cbor.{Bytes}
use isomdl.CoseKey.{Algorithm}

pub record Crates : Type 1 where
  pub CoseSign1 : Type 0
  pub PreparedCoseSign1 : Type 0
  pub OffsetDateTime : Type 0
  pub Uuid : Type 0
  -- `CoseSign1::builder().detached().payload(p).signature_algorithm(a).prepare()`, `none` an error
  pub prepare_detached : Bytes → Algorithm → Option PreparedCoseSign1
  -- `PreparedCoseSign1::signature_payload`
  pub signature_payload : PreparedCoseSign1 → Bytes
  -- `PreparedCoseSign1::finalize`
  pub finalize : PreparedCoseSign1 → Bytes → CoseSign1
