-- ===== src/Ntt/Roots.antt =====
-- The roots of unity of the fixed prime: each is a square root of the one for half the size, and its
-- power to half the size is -1.
use native.Mathlib.Nat.{mod-lt, mod-eq_of_lt, mul-div_cancel_left}
use rf_class_groups.Base.{
  ℕ, zero, suc, ◌+◌, ◌*◌, ◌-◌, ◌/◌, ◌%◌, ◌≤◌, ◌<◌, ◌≡◌, refl, sym, ap, ◌∙◌, true, false, ◌==◌, ≢→==,
  Cong, Cong-mod, Cong-mul, Cong-multiple, Cong-same, Mpz, IsMpz, power, power-add, power-mul,
  Cong-power, ok, arith,
}
use rf_class_groups.Base.Bits.{pow2, pow2_pos, pow2_add}
use rf_class_groups.Base.Powers.{square_multiply, square_multiply-power}
use rf_class_groups.Config.{Env}
use rf_class_groups.Ntt.{ntt128_prime, ntt_runtime_enabled, checked_root, ntt_primitive_root}
use rf_class_groups.Ntt.Domain.{ntt_domain_supported-pow2}

-- The odd part of q - 1.
abbrev odd_part : ℕ
odd_part = 9223372036854775861

-- (q - 1) / 2^s, for s up to 64.
abbrev exponent : ℕ → ℕ
exponent s = odd_part * pow2 (64 - s)

order : pow2 64 * odd_part ≡ ntt128_prime - 1
unfolding ntt128_prime
order = refl

pub prime_bound : 2 < ntt128_prime
unfolding ntt128_prime
prime_bound = omega arith

whole_order : (s : ℕ) → s ≤ 64 → pow2 s * exponent s ≡ ntt128_prime - 1
whole_order s h =
    let parts : pow2 s * pow2 (64 - s) ≡ pow2 64 =
      sym (pow2_add s (64 - s)) ∙ ap pow2 {x = s + (64 - s)} {y = 64} (omega arith) in
    let step : pow2 s * exponent s ≡ pow2 s * pow2 (64 - s) * odd_part = omega arith in
    step ∙ ap (λ (t : ℕ). t * odd_part) parts ∙ order

-- The quotient in the source.
exponent-div : (s : ℕ) → s ≤ 64 → (ntt128_prime - 1) / pow2 s ≡ exponent s
exponent-div s h =
    ap (λ (t : ℕ). t / pow2 s) (sym (whole_order s h))
    ∙ mul-div_cancel_left (exponent s) (omega (arith, pow2_pos s))

-- The root for size 2^s.
abbrev pub root : ℕ → ℕ
root zero = 1
root (suc s) = power 3 (exponent (suc s)) % ntt128_prime

-- 3 is no square modulo the prime: by repeated squaring.
not_square : Cong ntt128_prime (power 3 (exponent 1)) (ntt128_prime - 1)
not_square = sym (square_multiply-power 128 ntt128_prime 3 (exponent 1) refl) ∙ computed
  where
    computed :
        Cong ntt128_prime (square_multiply 128 ntt128_prime 3 (exponent 1)) (ntt128_prime - 1)
    computed = unfold ntt128_prime in unfold square_multiply in refl

-- (-1)^2 = 1.
pub minus_one-square : (q : ℕ) → 2 ≤ q → (a : ℕ) → Cong q a (q - 1) → Cong q (a * a) 1
minus_one-square q h a e =
    Cong-mul q a (q - 1) a (q - 1) e e
    ∙ Cong-same q _ _ (squared (q - 2) q (omega arith))
    ∙ Cong-multiple q 1 (q - 2)
  where
    squared : (d n : ℕ) → n ≡ d + 2 → (n - 1) * (n - 1) ≡ 1 + n * d
    squared d n e = let below : d + 2 - 1 ≡ d + 1 = omega arith in rw (e, below) (omega arith)

-- The root to half the size.
pub root-half :
    (s : ℕ) → s < 64 → Cong ntt128_prime (power (root (suc s)) (pow2 s)) (ntt128_prime - 1)
root-half s h =
    Cong-power ntt128_prime _ (power 3 (exponent (suc s))) (pow2 s) (Cong-mod ntt128_prime _)
    ∙ Cong-same ntt128_prime _ _
        (sym (power-mul 3 (exponent (suc s)) (pow2 s)) ∙ ap (power 3) whole)
    ∙ not_square
  where
    whole : exponent (suc s) * pow2 s ≡ exponent 1
    whole =
        let parts : pow2 (64 - suc s) * pow2 s ≡ pow2 63 =
          sym (pow2_add (64 - suc s) s) ∙ ap pow2 {x = 64 - suc s + s} {y = 63} (omega arith) in
        let step : exponent (suc s) * pow2 s ≡ odd_part * (pow2 (64 - suc s) * pow2 s) =
          omega arith in
        step ∙ ap (λ (t : ℕ). odd_part * t) parts

-- Its square is the root for half the size.
pub root-square : (s : ℕ) → s < 64 → Cong ntt128_prime (root (suc s) * root (suc s)) (root s)
root-square zero h =
    minus_one-square ntt128_prime (omega (arith, prime_bound)) (root 1)
      (Cong-mod ntt128_prime (power 3 (exponent 1)) ∙ not_square)
root-square (suc s) h =
    Cong-mul ntt128_prime _ _ _ _ (Cong-mod ntt128_prime _) (Cong-mod ntt128_prime _)
    ∙ Cong-same ntt128_prime _ _
        (sym (power-add 3 (exponent (suc (suc s))) (exponent (suc (suc s)))) ∙ ap (power 3) doubled)
    ∙ sym (Cong-mod ntt128_prime _)
  where
    doubled : exponent (suc (suc s)) + exponent (suc (suc s)) ≡ exponent (suc s)
    doubled =
        let step : pow2 (64 - suc s) ≡ 2 * pow2 (64 - suc (suc s)) =
          ap pow2 {x = 64 - suc s} {y = suc (64 - suc (suc s))} (omega arith) in
        omega (arith, step)

pub root-lt : (s : ℕ) → root s < ntt128_prime
root-lt zero = omega (arith, prime_bound)
root-lt (suc s) = mod-lt _ (omega (arith, prime_bound))

pub root-whole : (s : ℕ) → s < 64 → Cong ntt128_prime (power (root (suc s)) (pow2 (suc s))) 1
root-whole s h =
    Cong-same ntt128_prime _ _ (
      ap (power (root (suc s))) {x = pow2 (suc s)} {y = pow2 s + pow2 s} (omega arith)
      ∙ power-add (root (suc s)) (pow2 s) (pow2 s))
    ∙ minus_one-square ntt128_prime (omega (arith, prime_bound)) _ (root-half s h)

module _ (mpz : Mpz) (laws : IsMpz mpz ntt128_prime) (getenv : Env)
    (enabled : ntt_runtime_enabled getenv ≡ true) where
  -- At the sizes 2^s up to 2^64 the source's checks pass.
  checked_root-ok :
      (s : ℕ)
      → s < 64
      → checked_root mpz getenv (root (suc s)) (pow2 (suc s)) ntt128_prime ≡ ok (root (suc s))
  unfolding checked_root
  checked_root-ok s h =
      let small : 1 % ntt128_prime ≡ 1 = mod-eq_of_lt (omega (arith, prime_bound)) in
      let low : (ntt128_prime - 1) % ntt128_prime ≡ ntt128_prime - 1 =
        mod-eq_of_lt (omega (arith, prime_bound)) in
      let half : pow2 (suc s) / 2 ≡ pow2 s = omega arith in
      let different : ((ntt128_prime - 1) == 1) ≡ false =
        ≢→== _ _ (λ e. omega (arith, e, prime_bound)) in
      rw
        (
          half,
          laws.residue (root (suc s)) (pow2 (suc s)),
          root-whole s h,
          small,
          laws.residue (root (suc s)) (pow2 s),
          root-half s h,
          low,
          different,
        )
        refl

  pub ntt_primitive_root-root :
      (s : ℕ) → s ≤ 64 → ntt_primitive_root mpz getenv (pow2 s) ntt128_prime ≡ ok (root s)
  unfolding ntt_primitive_root
  ntt_primitive_root-root zero h = rw (ntt_domain_supported-pow2 getenv 0 enabled) refl
  ntt_primitive_root-root (suc s) h =
      let more : (pow2 (suc s) == 1) ≡ false = ≢→== _ _ (λ e. omega (arith, e, pow2_pos s)) in
      rw
        (
          ntt_domain_supported-pow2 getenv (suc s) enabled,
          more,
          exponent-div (suc s) h,
          laws.residue 3 (exponent (suc s)),
        )
        (checked_root-ok s (omega arith))
