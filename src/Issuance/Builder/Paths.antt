-- ===== src/Issuance/Builder/Paths.antt =====
-- Direct issuance and remote signing come to the same credential.
use isomdl.Prelude.{◌≡◌, ok, ◌>>=◌, >>=_assoc, ok_or}
use isomdl.Crates.{Crates}
use isomdl.Issuance.Random.{unable_to_sign}
use isomdl.Issuance.X5Chain.{Chain}
use isomdl.Issuance.Mdoc
use isomdl.Issuance.Mdoc.{Issuer, Signer, signature_payload, complete}
use isomdl.Issuance.Builder.{Builder, prepare, issue}

-- `issue` of a builder is `prepare` with the signer's algorithm, a signature of the payload, and
-- `complete`; a parameter that is missing, or a step that fails, fails it with the same error.
pub issue-prepare :
    {C : Crates} (I : Issuer C) (b : Builder C) (x5chain : Chain) (signer : Signer)
    (s : I.rng.State)
    → issue I b x5chain signer s ≡ (
        prepare I b signer.algorithm s >>= λ r.
        ok_or (signer.try_sign (signature_payload I r.0)) unable_to_sign >>= λ signature.
        ok (complete I r.0 x5chain signature, r.1))
unfolding prepare issue Mdoc.issue
issue-prepare I b x5chain signer s = simp >>=_assoc
