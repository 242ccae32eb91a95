-- ===== src/Ntt/Order.antt =====
-- The index with its bits in reverse order, and how the source counts in that order.
use rf_class_groups.Base.{
  ℕ, zero, suc, ◌+◌, ◌*◌, ◌/◌, ◌%◌, ◌<◌, ◌≡◌, inl, inr, refl, ap, ◌∙◌, false, ◌==◌, Bool-cases,
  arith,
}
use rf_class_groups.Base.Bits.{
  pow2, pow2_pos, bit_and-above, bit_xor-above, bit_and-top, bit_xor-top,
}
use rf_class_groups.Ntt.{next_reversed}

-- The lowest `k` bits of `i`, reversed.
unfoldable pub reversed : ℕ → ℕ → ℕ
reversed zero i = 0
reversed (suc k) i = i % 2 * pow2 k + reversed k (i / 2)

pub reversed-lt : (k i : ℕ) → reversed k i < pow2 k
unfolding reversed
reversed-lt zero i = omega arith
reversed-lt (suc k) i = elim (Bool-cases (i % 2 == 0)) [
  | inl e ↦ let same : i % 2 ≡ 0 = ground arith in rw same (omega (arith, reversed-lt k (i / 2)))
  | inr e ↦ let same : i % 2 ≡ 1 = ground arith in rw same (omega (arith, reversed-lt k (i / 2)))
]

-- A new highest bit becomes the lowest one.
pub reversed-low : (k i : ℕ) → i < pow2 k → reversed (suc k) i ≡ 2 * reversed k i
unfolding reversed
reversed-low zero i h = let e : i % 2 ≡ 0 = omega arith in rw e refl
reversed-low (suc k) i h =
    ap (λ (t : ℕ). i % 2 * (2 * pow2 k) + t) (reversed-low k (i / 2) (omega arith)) ∙ omega arith

pub reversed-high : (k i : ℕ) → i < pow2 k → reversed (suc k) (pow2 k + i) ≡ 2 * reversed k i + 1
unfolding reversed
reversed-high zero i h = let e : (1 + i) % 2 ≡ 1 = omega arith in rw e refl
reversed-high (suc k) i h =
    let parity : (pow2 (suc k) + i) % 2 ≡ i % 2 = omega arith in
    let half : (pow2 (suc k) + i) / 2 ≡ pow2 k + i / 2 = omega arith in
    rw (parity, half)
      (ap (λ (t : ℕ). i % 2 * (2 * pow2 k) + t) (reversed-high k (i / 2) (omega arith))
        ∙ omega arith)

pub reversed-reversed : (k i : ℕ) → i < pow2 k → reversed k (reversed k i) ≡ i
unfolding reversed
reversed-reversed zero i h = omega arith
reversed-reversed (suc k) i h =
    let back = reversed-reversed k (i / 2) (omega arith) in
    let small = reversed-lt k (i / 2) in
    elim (Bool-cases (i % 2 == 0)) [
      | inl e ↦
          let even : i % 2 ≡ 0 = ground arith in
          ap (reversed (suc k)) {x = i % 2 * pow2 k + reversed k (i / 2)} {y = reversed k (i / 2)}
            (rw even (omega arith))
          ∙ reversed-low k (reversed k (i / 2)) small
          ∙ omega (arith, back)
      | inr e ↦
          let odd : i % 2 ≡ 1 = ground arith in
          ap (reversed (suc k)) {x = i % 2 * pow2 k + reversed k (i / 2)}
            {y = pow2 k + reversed k (i / 2)} (rw odd (omega arith))
          ∙ reversed-high k (reversed k (i / 2)) small
          ∙ omega (arith, back)
    ]

pub reversed-zero : (k : ℕ) → reversed k 0 ≡ 0
unfolding reversed
reversed-zero zero = refl
reversed-zero (suc k) = omega (arith, reversed-zero k)

-- Without the top bit the loop stops at once.
even_next :
    (fuel k i : ℕ)
    → i % 2 ≡ 0
    → next_reversed (suc fuel) (pow2 k) (reversed (suc k) i) ≡ reversed (suc k) (suc i)
unfolding next_reversed reversed
even_next fuel k i even =
    let odd : suc i % 2 ≡ 1 = omega arith in
    let half : suc i / 2 ≡ i / 2 = omega arith in
    let r = reversed k (i / 2) in
    let low : i % 2 * pow2 k + r ≡ r = rw even (omega arith) in
    let small = reversed-lt k (i / 2) in
    rw (low, bit_and-above k r small, bit_xor-above k r small, odd, half) (omega arith)

-- The loop over the set bits from the top counts up by one in the reversed order.
pub next_reversed-reversed :
    (fuel k i : ℕ)
    → k < fuel
    → suc i < pow2 (suc k)
    → next_reversed fuel (pow2 k) (reversed (suc k) i) ≡ reversed (suc k) (suc i)
unfolding next_reversed
next_reversed-reversed zero k i h l = absurd (omega arith)
next_reversed-reversed (suc fuel) zero i h l = even_next fuel zero i (omega arith)
next_reversed-reversed (suc fuel) (suc k) i h l = elim (Bool-cases (i % 2 == 0)) [
  | inl e ↦ even_next fuel (suc k) i (ground arith)
  | inr e ↦
      let odd : i % 2 ≡ 1 = ground arith in
      let even : suc i % 2 ≡ 0 = omega arith in
      let half : suc i / 2 ≡ suc (i / 2) = omega arith in
      let lower : pow2 (suc k) / 2 ≡ pow2 k = omega arith in
      let r = reversed (suc k) (i / 2) in
      let high : reversed (suc (suc k)) i ≡ pow2 (suc k) + r =
        unfold reversed in rw odd (omega arith) in
      let carried : reversed (suc (suc k)) (suc i) ≡ reversed (suc k) (suc (i / 2)) =
        unfold reversed in rw (even, half) (omega arith) in
      let small = reversed-lt (suc k) (i / 2) in
      let set : (pow2 (suc k) == 0) ≡ false = ground (arith, pow2_pos k) in
      rw (high, carried, bit_and-top (suc k) r small, bit_xor-top (suc k) r small, set, lower)
        (next_reversed-reversed fuel k (i / 2) (omega arith) (omega arith))
]
