-- ===== src/Ntt/Domain.antt =====
-- Which sizes are in the domain, and the size that is chosen for a bound.
use rf_class_groups.Base.{
  ℕ, zero, suc, ◌+◌, ◌*◌, ◌-◌, ◌^◌, ◌≤◌, ◌<◌, ◌≡◌, ◌↔◌, inl, inr, refl, ap, ◌∙◌, Bool, true, false,
  ◌&&◌, not, ltb, leb, ◌==◌, Bool-cases, ==_iff, ==_refl, ltb→lt, ok, err, out_of_fuel,
  size_overflow, arith,
}
use rf_class_groups.Base.Bits.{pow2, pow2_pos, pow2_mono, bit_and-pow2, pow2-of_bit_and}
use rf_class_groups.Config.{Env}
use rf_class_groups.Ntt.{
  ntt128_prime, is_power_of_two_size, double_until, next_power_of_two_size, ntt_runtime_enabled,
  is_ntt128_prime, ntt_domain_supported,
}

both : (a b : Bool) → (a && b) ≡ true → (a ≡ true) × (b ≡ true)
both true b h = (refl, h)
both false b h = cc

negated : (b : Bool) → not b ≡ true → b ≡ false
negated true h = cc
negated false h = refl

pub is_power_of_two_size-pow2 : (k : ℕ) → is_power_of_two_size (pow2 k) ≡ true
unfolding is_power_of_two_size
is_power_of_two_size-pow2 k =
    let e : (pow2 k == 0) ≡ false = ground (arith, pow2_pos k) in rw (e, bit_and-pow2 k) refl

-- `n != 0 && (n & (n - 1)) == 0` holds exactly of the powers of two.
pub is_power_of_two_size_iff : (n : ℕ) → (is_power_of_two_size n ≡ true) ↔ ((k : ℕ) × (n ≡ pow2 k))
unfolding is_power_of_two_size
is_power_of_two_size_iff n = (
  λ h.
      let (a, b) = both (not (n == 0)) _ h in
      let positive : 1 ≤ n = ground (arith, negated (n == 0) a) in
      pow2-of_bit_and n positive ((==_iff _ 0).0 b),
  λ h. ap is_power_of_two_size (h.1) ∙ is_power_of_two_size-pow2 h.0,
)

double_until-pow2 :
    (fuel n s : ℕ)
    → 65 ≤ s + fuel
    → n ≤ 2 ^ 63
    → pow2 s < 2 * n
    → (k : ℕ) × (double_until fuel n (pow2 s) ≡ ok (pow2 k)) × (n ≤ pow2 k) × (pow2 k < 2 * n)
unfolding double_until
double_until-pow2 zero n s l h low = absurd (omega (arith, pow2_mono 65 s (omega arith)))
double_until-pow2 (suc fuel) n s l h low = elim (Bool-cases (ltb (pow2 s) n)) [
  | inl below ↦
      let small : ltb (2 ^ 63 - 1) (pow2 s) ≡ false = ground (arith, ltb→lt (pow2 s) n below) in
      let next : pow2 s * 2 ≡ pow2 (suc s) = omega arith in
      rw (below, small, next)
        (double_until-pow2 fuel n (suc s) (omega arith) h (omega (arith, ltb→lt (pow2 s) n below)))
  | inr above ↦ rw above (s, refl, ground arith, low)
]

-- For sizes from 1 up to 2^63, `next_power_of_two_size` returns the least power of two that is not smaller:
-- its half, where it has one, is below the size.
pub next_power_of_two_size-least :
    (n : ℕ)
    → 1 ≤ n
    → n ≤ 2 ^ 63
    → (k : ℕ) × (next_power_of_two_size n ≡ ok (pow2 k)) × (n ≤ pow2 k) × (pow2 k < 2 * n)
unfolding next_power_of_two_size
next_power_of_two_size-least n h l = elim (Bool-cases (leb n 1)) [
  | inl one ↦ rw one (0, refl, ground arith, omega arith)
  | inr more ↦ rw more (double_until-pow2 65 n 0 (omega arith) l (omega arith))
]

-- What the domain requires: the transform is not switched off, the fixed prime, and a power of two.
pub ntt_domain_supported-pow2 :
    (getenv : Env) (k : ℕ)
    → ntt_runtime_enabled getenv ≡ true
    → ntt_domain_supported getenv ntt128_prime (pow2 k) ≡ true
unfolding ntt_domain_supported is_ntt128_prime
ntt_domain_supported-pow2 getenv k h =
    rw (h, ==_refl ntt128_prime, is_power_of_two_size-pow2 k) refl

pub ntt_domain_supported-parts :
    (getenv : Env) (q n : ℕ)
    → ntt_domain_supported getenv q n ≡ true
    → (ntt_runtime_enabled getenv ≡ true) × (q ≡ ntt128_prime) × ((k : ℕ) × (n ≡ pow2 k))
unfolding ntt_domain_supported is_ntt128_prime
ntt_domain_supported-parts getenv q n h =
    let (a, b) = both (ntt_runtime_enabled getenv && q == ntt128_prime) _ h in
    let (c, d) = both (ntt_runtime_enabled getenv) _ a in
    (c, (==_iff q ntt128_prime).0 d, (is_power_of_two_size_iff n).0 b)

double_until-bound : (fuel n p N : ℕ) → double_until fuel n p ≡ ok N → n ≤ N
unfolding double_until
double_until-bound zero n p N h = absurd (failed h)
  where
    failed : err out_of_fuel ≡ ok N → ⊥
    failed e = cc
double_until-bound (suc fuel) n p N h = elim (Bool-cases (ltb p n)) [
  | inl below ↦ elim (Bool-cases (ltb (2 ^ 63 - 1) p)) [
    | inl over ↦ absurd (failed (rw (below, over) at h))
    | inr fits ↦ double_until-bound fuel n (p * 2) N (rw (below, fits) at h)
  ]
  | inr above ↦ let same : p ≡ N = returned (rw above at h) in ground (arith, above, same)
]
  where
    failed : err size_overflow ≡ ok N → ⊥
    failed e = cc

    returned : ok p ≡ ok N → p ≡ N
    returned e = cc

-- A size that `next_power_of_two_size` returns is not smaller than what was asked for.
pub next_power_of_two_size-bound : (n N : ℕ) → next_power_of_two_size n ≡ ok N → n ≤ N
unfolding next_power_of_two_size
next_power_of_two_size-bound n N h = elim (Bool-cases (leb n 1)) [
  | inl one ↦ let same : 1 ≡ N = returned (rw one at h) in ground (arith, one, same)
  | inr more ↦ double_until-bound 65 n 1 N (rw more at h)
]
  where
    returned : ok 1 ≡ ok N → 1 ≡ N
    returned e = cc
