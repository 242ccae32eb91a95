-- ===== src/Base/Int.antt =====
-- BICYCL::Mpz where its sign matters: an integer over the native numbers.
use Prim.Native.Nat.{ℕ, suc}
use mathlib.Core.Bool.{Bool, true, false}

-- `negsuc n` is -(n + 1).
pub data ℤ : Type 0 where
  pos : ℕ → ℤ
  negsuc : ℕ → ℤ

-- `m.sgn() < 0`.
abbrev pub is_negative : ℤ → Bool
is_negative (pos n) = false
is_negative (negsuc n) = true

abbrev pub magnitude : ℤ → ℕ
magnitude (pos n) = n
magnitude (negsuc n) = suc n

-- `m.neg()` on a nonnegative value.
abbrev pub negated : ℕ → ℤ
negated ℕ.zero = pos 0
negated (suc n) = negsuc n
