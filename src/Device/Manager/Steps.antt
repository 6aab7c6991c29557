-- ===== src/Device/Manager/Steps.antt =====
-- The calls that a holder makes of a `SessionManager` (src/presentation/device.rs), in any order.
use isomdl.Cbor.{Bytes}
use isomdl.Crates.{Crates}
use isomdl.Session.{Aead}
use isomdl.Device.Filter.{RequestedItems, PermittedItems}
use isomdl.Device.Prepare.{Encoders}
use isomdl.Device.Types.{SessionManager}
use isomdl.Device.Manager.{
  Wire, handle_request, prepare_response, submit_next_signature, retrieve_response,
}

-- the calls that take `&mut self`
pub data Call (S : Type 0) : Type 0 where
  request : Bytes → Call S
  prepare : Encoders S → RequestedItems → PermittedItems → Call S
  submit : Bytes → Call S
  retrieve : Call S

module _ {C : Crates} {S : Type 0} (w : Wire C) (aead : Aead) where
  unfoldable pub after : Call S → SessionManager C S → SessionManager C S
  after (request message) m = (handle_request w aead message m).0
  after (prepare enc requests permitted) m = prepare_response enc requests permitted m
  after (submit signature) m = (submit_next_signature w aead signature m).0
  after retrieve m = (retrieve_response m).0
