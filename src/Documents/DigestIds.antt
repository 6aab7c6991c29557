-- ===== src/Documents/DigestIds.antt =====
-- `DigestId` of src/definitions/mso.rs, which is its `i32`.
use isomdl.Prelude.{suc, ◌-◌, ◌^◌, ◌<◌, ◌≢◌, ◌↔◌, ◌==◌, if◌then◌else◌, arith}
use isomdl.Prelude.Int.{ℤ, pos, negsuc}

-- the values of an `i32`
abbrev pub IsI32 : ℤ → Type 0
IsI32 (pos n) = n < 2 ^ 31
IsI32 (negsuc n) = n < 2 ^ 31

-- `DigestId::new`: the negation of the smallest `i32` wraps to itself in a release build (a debug
-- build panics there).
unfoldable pub digest_id : ℤ → ℤ
digest_id (pos n) = pos n
digest_id (negsuc n) = if suc n == 2 ^ 31 then negsuc n else pos (suc n)

-- an unsigned integer of 31 bits
abbrev pub IsDigestId : ℤ → Type 0
IsDigestId (pos n) = n < 2 ^ 31
IsDigestId (negsuc n) = ⊥

-- The id made of an `i32` lies between 0 and 2^31 - 1 exactly when the `i32` is not the smallest
-- one.
pub digest_id_bounds : (i : ℤ) → IsI32 i → IsDigestId (digest_id i) ↔ (i ≢ negsuc (2 ^ 31 - 1))
unfolding digest_id
digest_id_bounds (pos n) h = ((λ g. λ e. cc), (λ g. h))
digest_id_bounds (negsuc n) h = ground arith
