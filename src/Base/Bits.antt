-- ===== src/Base/Bits.antt =====
-- Powers of two, and the bit operations of the source on one bit.
use Prim.Native.Nat.{
  ℕ, zero, suc, ◌+◌, ◌-◌, ◌*◌, ◌/◌, ◌%◌, ◌≤◌, ◌<◌, min, differ, digits, bit_and, bit_xor,
  bit_and-bitwise, bit_xor-bitwise,
}
use mathlib.Core.Path.{◌≡◌, refl, ap, ◌∙◌}
use mathlib.Core.Logic.{◌⊎◌, inl, inr}
use native.Mathlib.Omega.{arith}
use rf_class_groups.Base.Tests.{◌==◌, Bool-cases}

-- 2 ^ k, in the form that linear arithmetic steps through.
abbrev pub pow2 : ℕ → ℕ
pow2 zero = 1
pow2 (suc k) = 2 * pow2 k

pub pow2_pos : (k : ℕ) → 1 ≤ pow2 k
pow2_pos zero = omega arith
pow2_pos (suc k) = omega (arith, pow2_pos k)

pub pow2_add : (k m : ℕ) → pow2 (k + m) ≡ pow2 k * pow2 m
pow2_add k zero = ap pow2 {x = k + 0} {y = k} (omega arith) ∙ omega arith
pow2_add k (suc m) =
    ap pow2 {x = k + suc m} {y = suc (k + m)} (omega arith) ∙ omega (arith, pow2_add k m)

pub pow2_mono : (k m : ℕ) → k ≤ m → pow2 k ≤ pow2 m
pow2_mono zero m h = pow2_pos m
pow2_mono (suc k) zero h = absurd (omega arith)
pow2_mono (suc k) (suc m) h = omega (arith, pow2_mono k m (omega arith))

-- The digits of a pair of numbers, from the lowest: more rounds than the first number has digits make
-- no difference, so that the lowest digit can be taken off.
module _ (one : ℕ → ℕ → ℕ) (rest : ℕ → ℕ) where
  enough : (v w r s : ℕ) → v ≤ r → v ≤ s → digits rest one r v w ≡ digits rest one s v w
  enough zero w zero zero h k = refl
  enough zero w zero (suc s) h k = refl
  enough zero w (suc r) zero h k = refl
  enough zero w (suc r) (suc s) h k = refl
  enough (suc v) w zero s h k = absurd (omega arith)
  enough (suc v) w (suc r) zero h k = absurd (omega arith)
  enough (suc v) w (suc r) (suc s) h k =
      ap (λ (high : ℕ). high * 2 + one (suc v % 2) (w % 2))
        (enough (suc v / 2) (w / 2) r s (omega arith) (omega arith))

  lowest :
      (v w : ℕ)
      → digits rest one (suc v) (suc v) w
        ≡ digits rest one (suc v / 2) (suc v / 2) (w / 2) * 2 + one (suc v % 2) (w % 2)
  lowest v w =
      ap (λ (high : ℕ). high * 2 + one (suc v % 2) (w % 2))
        (enough (suc v / 2) (w / 2) v (suc v / 2) (omega arith) (omega arith))

bit_and_none : (w : ℕ) → bit_and 0 w ≡ 0
bit_and_none w = bit_and-bitwise 0 w

bit_xor_none : (w : ℕ) → bit_xor 0 w ≡ w
bit_xor_none w = bit_xor-bitwise 0 w

-- The lowest digit, and the others.
pub bit_and-lowest : (v w : ℕ) → bit_and v w ≡ min (v % 2) (w % 2) + 2 * bit_and (v / 2) (w / 2)
bit_and-lowest zero w = omega (arith, bit_and_none w, bit_and_none (w / 2))
bit_and-lowest (suc v) w = omega (
  arith,
  bit_and-bitwise (suc v) w,
  lowest min (λ high. zero) v w,
  bit_and-bitwise (suc v / 2) (w / 2),
)

bit_xor-lowest : (v w : ℕ) → bit_xor v w ≡ differ (v % 2) (w % 2) + 2 * bit_xor (v / 2) (w / 2)
bit_xor-lowest zero w = omega (arith, bit_xor_none w, bit_xor_none (w / 2))
bit_xor-lowest (suc v) w = omega (
  arith,
  bit_xor-bitwise (suc v) w,
  lowest differ (λ high. high) v w,
  bit_xor-bitwise (suc v / 2) (w / 2),
)

pub bit_and-zero : (a : ℕ) → bit_and a 0 ≡ 0
bit_and-zero a = fuelled a a (omega arith)
  where
    fuelled : (n a : ℕ) → a ≤ n → bit_and a 0 ≡ 0
    fuelled n zero h = bit_and_none 0
    fuelled zero (suc a) h = absurd (omega arith)
    fuelled (suc n) (suc a) h =
        omega (arith, bit_and-lowest (suc a) 0, fuelled n (suc a / 2) (omega arith))

-- A number has all its own bits.
pub bit_and_self : (a : ℕ) → bit_and a a ≡ a
bit_and_self a = fuelled a a (omega arith)
  where
    fuelled : (n a : ℕ) → a ≤ n → bit_and a a ≡ a
    fuelled n zero h = bit_and_none 0
    fuelled zero (suc a) h = absurd (omega arith)
    fuelled (suc n) (suc a) h =
        omega (arith, bit_and-lowest (suc a) (suc a), fuelled n (suc a / 2) (omega arith))

differ_digits : (x y : ℕ) → x < 2 → y < 2 → differ x y ≡ (x + y) % 2
differ_digits zero zero h k = omega arith
differ_digits zero (suc zero) h k = omega arith
differ_digits zero (suc (suc y)) h k = absurd (omega arith)
differ_digits (suc zero) zero h k = omega arith
differ_digits (suc zero) (suc zero) h k = omega arith
differ_digits (suc zero) (suc (suc y)) h k = absurd (omega arith)
differ_digits (suc (suc x)) y h k = absurd (omega arith)

-- The digits as remainders, which linear arithmetic reads.
pub bit_xor_step : (a b : ℕ) → bit_xor a b ≡ (a % 2 + b % 2) % 2 + 2 * bit_xor (a / 2) (b / 2)
bit_xor_step a b =
    bit_xor-lowest a b
    ∙ ap (λ (low : ℕ). low + 2 * bit_xor (a / 2) (b / 2))
        (differ_digits (a % 2) (b % 2) (omega arith) (omega arith))

bit_xor-zero : (a : ℕ) → bit_xor a 0 ≡ a
bit_xor-zero a = fuelled a a (omega arith)
  where
    fuelled : (n a : ℕ) → a ≤ n → bit_xor a 0 ≡ a
    fuelled n zero h = bit_xor_none 0
    fuelled zero (suc a) h = absurd (omega arith)
    fuelled (suc n) (suc a) h =
        omega (arith, bit_xor_step (suc a) 0, fuelled n (suc a / 2) (omega arith))

-- A bit above a number is not set in it, and is added to it.
pub bit_and-above : (k a : ℕ) → a < pow2 k → bit_and a (pow2 k) ≡ 0
bit_and-above zero a h = let e : a ≡ 0 = omega arith in rw e (bit_and_none 1)
bit_and-above (suc k) a h =
    let half : pow2 (suc k) / 2 ≡ pow2 k = omega arith in
    bit_and-lowest a (pow2 (suc k)) ∙ rw (half, bit_and-above k (a / 2) (omega arith)) (omega arith)

pub bit_xor-above : (k a : ℕ) → a < pow2 k → bit_xor a (pow2 k) ≡ a + pow2 k
bit_xor-above zero a h = let e : a ≡ 0 = omega arith in rw e (bit_xor_none 1)
bit_xor-above (suc k) a h =
    let half : pow2 (suc k) / 2 ≡ pow2 k = omega arith in
    bit_xor_step a (pow2 (suc k)) ∙ rw (half, bit_xor-above k (a / 2) (omega arith)) (omega arith)

-- The highest bit of a number is set, and is taken away.
pub bit_and-top : (k a : ℕ) → a < pow2 k → bit_and (pow2 k + a) (pow2 k) ≡ pow2 k
bit_and-top zero a h = let e : a ≡ 0 = omega arith in rw e (bit_and_self 1)
bit_and-top (suc k) a h =
    let half : pow2 (suc k) / 2 ≡ pow2 k = omega arith in
    let half' : (pow2 (suc k) + a) / 2 ≡ pow2 k + a / 2 = omega arith in
    bit_and-lowest (pow2 (suc k) + a) (pow2 (suc k))
    ∙ rw (half, half', bit_and-top k (a / 2) (omega arith)) (omega arith)

pub bit_xor-top : (k a : ℕ) → a < pow2 k → bit_xor (pow2 k + a) (pow2 k) ≡ a
bit_xor-top zero a h =
    let e : a ≡ 0 = omega arith in rw e (bit_xor_step 1 1 ∙ omega (arith, bit_xor_none 0))
bit_xor-top (suc k) a h =
    let half : pow2 (suc k) / 2 ≡ pow2 k = omega arith in
    let half' : (pow2 (suc k) + a) / 2 ≡ pow2 k + a / 2 = omega arith in
    bit_xor_step (pow2 (suc k) + a) (pow2 (suc k))
    ∙ rw (half, half', bit_xor-top k (a / 2) (omega arith)) (omega arith)

-- `n & (n - 1)` is 0 at a power of two, and only there.
pub bit_and-pow2 : (k : ℕ) → bit_and (pow2 k) (pow2 k - 1) ≡ 0
bit_and-pow2 zero = bit_and-zero 1
bit_and-pow2 (suc k) =
    let half : pow2 (suc k) / 2 ≡ pow2 k = omega arith in
    let half' : (pow2 (suc k) - 1) / 2 ≡ pow2 k - 1 = omega (arith, pow2_pos k) in
    bit_and-lowest (pow2 (suc k)) (pow2 (suc k) - 1)
    ∙ rw (half, half', bit_and-pow2 k) (omega arith)

odd_pow2 : (m : ℕ) → bit_and (2 * m + 1) (2 * m + 1 - 1) ≡ 0 → m ≡ 0
odd_pow2 m e =
    let half : (2 * m + 1) / 2 ≡ m = omega arith in
    let half' : (2 * m + 1 - 1) / 2 ≡ m = omega arith in
    omega (arith, rw (half, half', bit_and_self m) at (bit_and-lowest (2 * m + 1) (2 * m + 1 - 1)))

even_pow2 : (m : ℕ) → 1 ≤ m → bit_and (2 * m) (2 * m - 1) ≡ 0 → bit_and m (m - 1) ≡ 0
even_pow2 m h e =
    let half : 2 * m / 2 ≡ m = omega arith in
    let half' : (2 * m - 1) / 2 ≡ m - 1 = omega arith in
    omega (arith, rw (half, half') at (bit_and-lowest (2 * m) (2 * m - 1)))

parity : (n : ℕ) → (n ≡ 2 * (n / 2)) ⊎ (n ≡ 2 * (n / 2) + 1)
parity n = elim (Bool-cases (n % 2 == 0)) [
  | inl z ↦ inl (ground arith)
  | inr z ↦ inr (ground arith)
]

pow2_below : (fuel n : ℕ) → n ≤ fuel → 1 ≤ n → bit_and n (n - 1) ≡ 0 → (k : ℕ) × (n ≡ pow2 k)
pow2_below zero n l h e = absurd (omega arith)
pow2_below (suc fuel) n l h e = elim (parity n) [
  | inl even ↦
      let half : 1 ≤ n / 2 = omega arith in
      let (k, s) =
        pow2_below fuel (n / 2) (omega arith) half (even_pow2 (n / 2) half (rw even at e)) in
      (suc k, omega arith)
  | inr odd ↦ (0, omega (arith, odd_pow2 (n / 2) (rw odd at e)))
]

pub pow2-of_bit_and : (n : ℕ) → 1 ≤ n → bit_and n (n - 1) ≡ 0 → (k : ℕ) × (n ≡ pow2 k)
pow2-of_bit_and n h e = pow2_below n n (omega arith) h e
