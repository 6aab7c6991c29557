-- ===== src/Device/Manager/Sealed.antt =====
-- Messages that a `SessionManager` (src/presentation/device.rs) seals, one after the other, under
-- initialisation vectors that are apart.
use isomdl.Prelude.{ℕ, ◌+◌, ◌^◌, ◌<◌, ◌≤◌, ◌≡◌, ◌≢◌, false, List, [], ◌∷◌, map, All, some, arith}
use isomdl.Cbor.{Bytes}
use isomdl.Crates.{Crates}
use isomdl.Session.{Aead, get_initialization_vector}
use isomdl.Session.Nonces.{get_initialization_vector_injective}
use isomdl.Documents.{DeviceResponse}
use isomdl.Device.Manager.{Wire, session_data_for}

abbrev pub AreApart : List Bytes → Type 0
AreApart [] = Unit
AreApart (v ∷ vs) = All (λ u. v ≢ u) vs × AreApart vs

-- the vector of a device's message
abbrev pub vector : ℕ → Bytes
vector count = (get_initialization_vector count false).1

above :
    (n : ℕ) (cs : List ℕ)
    → n + 1 < 2 ^ 32
    → All (λ c. c + 1 < 2 ^ 32) cs
    → All (λ c. n < c) cs
    → All (λ u. vector n ≢ u) (map vector cs)
above n [] h b k = k
above n (c ∷ cs) h (b, bs) (k, ks) = (
  (λ e.
      let (same, _) = get_initialization_vector_injective n c false false h b e in
      absurd (omega (arith, same, k))),
  above n cs h bs ks,
)

all_from : (n m : ℕ) (cs : List ℕ) → n ≤ m → All (λ c. m ≤ c) cs → All (λ c. n ≤ c) cs
all_from n m [] h k = k
all_from n m (c ∷ cs) h (k, ks) = (omega (arith, h, k), all_from n m cs h ks)

beyond : (n : ℕ) (cs : List ℕ) → All (λ c. n + 1 ≤ c) cs → All (λ c. n < c) cs
beyond n [] k = k
beyond n (c ∷ cs) (k, ks) = (omega (arith, k), beyond n cs ks)

module _ {C : Crates} (w : Wire C) (aead : Aead) where
  -- A response that was encrypted by AES under this key and this vector, or the status that stands
  -- for an encryption under them that failed.
  abbrev pub IsSealed : Bytes → Bytes → Bytes → Type 0
  IsSealed key nonce message =
      (response : DeviceResponse C) × (plain : Bytes) × (w.response_to_vec response ≡ some plain)
      × (w.session_data_to_vec (session_data_for (aead.encrypt key nonce plain)) ≡ some message)

  abbrev pub AreSealed : Bytes → List Bytes → List Bytes → Type 0
  AreSealed key [] [] = Unit
  AreSealed key (v ∷ vs) (b ∷ bs) = IsSealed key v b × AreSealed key vs bs
  AreSealed key _ _ = ⊥

  -- the counters under which messages were sealed, from the first one on
  pub record IsSpread (key : Bytes) (first : ℕ) (sent : List Bytes) : Type 0 where
    pub counts : List ℕ
    pub above_first : All (λ c. first ≤ c) counts
    pub in_range : All (λ c. c + 1 < 2 ^ 32) counts
    pub apart : AreApart (map vector counts)
    pub are_sealed : AreSealed key (map vector counts) sent

  pub IsSpread-from :
      (key : Bytes) (first next : ℕ) (sent : List Bytes)
      → first ≤ next
      → IsSpread key next sent
      → IsSpread key first sent
  IsSpread-from key first next sent h k = record {
    counts = k.counts;
    above_first = all_from first next k.counts h k.above_first;
    in_range = k.in_range;
    apart = k.apart;
    are_sealed = k.are_sealed;
  }

  pub IsSpread-on :
      (key : Bytes) (first : ℕ) (b : Bytes) (sent : List Bytes)
      → first + 1 < 2 ^ 32
      → IsSealed key (vector first) b
      → IsSpread key (first + 1) sent
      → IsSpread key first (b ∷ sent)
  IsSpread-on key first b sent h x k = record {
    counts = first ∷ k.counts;
    above_first = (omega arith, all_from first (first + 1) k.counts (omega arith) k.above_first);
    in_range = (h, k.in_range);
    apart = (above first k.counts h k.in_range (beyond first k.counts k.above_first), k.apart);
    are_sealed = (x, k.are_sealed);
  }
