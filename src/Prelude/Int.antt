-- ===== src/Prelude/Int.antt =====
-- Signed integers (`i128`) over the native numbers: `negsuc n` is -(n + 1).
use isomdl.Prelude.Tests.{◌==◌, ltb}
use Prim.Native.Nat.{ℕ}
use mathlib.Core.Bool.{Bool, true, false}
use mathlib.Core.Path.{◌≡◌}
use mathlib.Core.Logic.{◌↔◌}
use native.Mathlib.Omega.{arith}

pub data ℤ : Type 0 where
  pos : ℕ → ℤ
  negsuc : ℕ → ℤ

abbrev pub eq_ℤ : ℤ → ℤ → Bool
eq_ℤ (pos a) (pos b) = a == b
eq_ℤ (negsuc a) (negsuc b) = a == b
eq_ℤ _ _ = false

pub eq_ℤ_iff : (a b : ℤ) → (eq_ℤ a b ≡ true) ↔ (a ≡ b)
eq_ℤ_iff a b = ground arith

abbrev pub lt_ℤ : ℤ → ℤ → Bool
lt_ℤ (pos a) (pos b) = ltb a b
lt_ℤ (negsuc a) (negsuc b) = ltb b a
lt_ℤ (negsuc a) (pos b) = true
lt_ℤ (pos a) (negsuc b) = false

pub lt_ℤ_irrefl : (a : ℤ) → lt_ℤ a a ≡ false
lt_ℤ_irrefl a = ground arith

pub lt_ℤ_trans : (a b c : ℤ) → lt_ℤ a b ≡ true → lt_ℤ b c ≡ true → lt_ℤ a c ≡ true
lt_ℤ_trans a b c h k = ground arith

pub lt_ℤ_total : (a b : ℤ) → lt_ℤ a b ≡ false → eq_ℤ a b ≡ false → lt_ℤ b a ≡ true
lt_ℤ_total a b h k = ground arith
