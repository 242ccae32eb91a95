-- ===== src/Ntt/Transform.antt =====
-- The transform in place: values at the points of the domain, and back.
use rf_class_groups.Base.{
  ℕ, zero, suc, ◌*◌, ◌-◌, ◌%◌, ◌≤◌, ◌<◌, ◌≡◌, refl, sym, ap, ◌∙◌, true, false, List, [], ◌∷◌,
  length, length-map, All, Cong, Cong-mod, Cong-mul, Cong-same, Mpz, IsMpz, power, power-zero,
  power-suc, product-power, one-power, Cong-power, ok, ◌>>=◌, arith,
}
use native.Mathlib.Nat.{mod-eq_of_lt, mod-lt}
use rf_class_groups.Base.Bits.{pow2, pow2_pos}
use rf_class_groups.Config.{Env}
use rf_class_groups.Poly.{Poly}
use rf_class_groups.Poly.Values.{value, values_at}
use rf_class_groups.Ntt.{
  ntt128_prime, ntt_runtime_enabled, powers_from, ntt_domain_points, scale, ntt_inplace,
}
use rf_class_groups.Ntt.Domain.{ntt_domain_supported-pow2}
use rf_class_groups.Ntt.Roots.{
  prime_bound, root, root-square, root-half, root-whole, minus_one-square, ntt_primitive_root-root,
}
use rf_class_groups.Ntt.Reorder.{reorder, length-reorder}
use rf_class_groups.Ntt.Reversal.{bit_reverse-reorder}
use rf_class_groups.Ntt.Stages.{staged, stage_loop-whole}
use rf_class_groups.Ntt.Forward.{IsRoots, staged-values}
use rf_class_groups.Ntt.Inverse.{times, values-times}
use rf_class_groups.Ntt.Twice.{length-powers_from}

abbrev q : ℕ
q = ntt128_prime

positive : 2 ≤ ntt128_prime
positive = omega (arith, prime_bound)

forward-IsRoots : IsRoots ntt128_prime root 64
forward-IsRoots = record { square = root-square; half = root-half }

-- The inverse of 2.
abbrev half : ℕ
half = 85070591730234616354682369811245170689

half-double : Cong ntt128_prime (2 * half) 1
unfolding ntt128_prime
half-double = refl

half-pow2 : (k : ℕ) → Cong ntt128_prime (pow2 k * power half k) 1
half-pow2 zero = Cong-same q _ _ (rw (one_power) (omega arith))
  where
    one_power : power half 0 ≡ 1
    one_power = power-zero half
half-pow2 (suc k) =
    Cong-same q _ (2 * half * (pow2 k * power half k)) (rw (power-suc half k) (omega arith))
    ∙ Cong-mul q (2 * half) 1 (pow2 k * power half k) 1 half-double (half-pow2 k)
    ∙ Cong-same q (1 * 1) 1 (omega arith)

-- The points of the domain of size 2^k.
abbrev pub domain : ℕ → List ℕ
domain k = powers_from ntt128_prime (root k) 1 (pow2 k)

module _ (mpz : Mpz) (laws : IsMpz mpz ntt128_prime) where
  -- The inverse root for size 2^s.
  abbrev inverse_roots : ℕ → ℕ
  inverse_roots zero = 1
  inverse_roots (suc s) = mpz.mod_inverse (root (suc s)) ntt128_prime

  inverse-root : (s : ℕ) → s < 64 → Cong ntt128_prime (inverse_roots (suc s) * root (suc s)) 1
  inverse-root s h =
      let w = root (suc s) in
      let n = pow2 (suc s) - 1 in
      let whole : power w (pow2 (suc s)) ≡ w * power w n =
        ap (power w) {x = pow2 (suc s)} {y = suc n} (omega (arith, pow2_pos s)) ∙ power-suc w n in
      Cong-same q (inverse_roots (suc s) * w) (w * inverse_roots (suc s)) (omega arith)
      ∙ laws.inverse w (power w n) (Cong-same q _ _ (sym whole) ∙ root-whole s h)

  inverse-below : (s : ℕ) → s ≤ 64 → Cong ntt128_prime (inverse_roots s * root s) 1
  inverse-below zero h = Cong-same q (1 * 1) 1 (omega arith)
  inverse-below (suc s) h = inverse-root s (omega arith)

  backward-IsRoots : IsRoots ntt128_prime inverse_roots 64
  backward-IsRoots = record {
    square = λ s h.
        let v = inverse_roots (suc s) in
        let w = root (suc s) in
        let cancelled : Cong ntt128_prime (v * v * root s) 1 =
          Cong-mul q (v * v) (v * v) (root s) (w * w) refl (sym (root-square s h))
          ∙ Cong-same q (v * v * (w * w)) (v * w * (v * w)) (omega arith)
          ∙ Cong-mul q (v * w) 1 (v * w) 1 (inverse-root s h) (inverse-root s h)
          ∙ Cong-same q (1 * 1) 1 (omega arith) in
        undone (v * v) (root s) (inverse_roots s) cancelled (inverse-below s (omega arith));
    half = λ s h.
        let v = inverse_roots (suc s) in
        let w = root (suc s) in
        let n = pow2 s in
        let cancelled : Cong ntt128_prime (power v n * (q - 1)) 1 =
          Cong-mul q (power v n) (power v n) (q - 1) (power w n) refl (sym (root-half s h))
          ∙ Cong-same q _ _ (sym (product-power v w n))
          ∙ Cong-power q (v * w) 1 n (inverse-root s h)
          ∙ Cong-same q _ _ (one-power n) in
        undone (power v n) (q - 1) (q - 1) cancelled (minus_one-square q positive (q - 1) refl);
  }
    where
      undone : (x y z : ℕ) → Cong q (x * y) 1 → Cong q (z * y) 1 → Cong q x z
      undone x y z h k =
          Cong-same q x (x * 1) (omega arith)
          ∙ sym (Cong-mul q x x (z * y) 1 refl k)
          ∙ Cong-same q (x * (z * y)) (x * y * z) (omega arith)
          ∙ Cong-mul q (x * y) 1 z z h refl
          ∙ Cong-same q (1 * z) z (omega arith)

  module _ (getenv : Env) (enabled : ntt_runtime_enabled getenv ≡ true) where
    pub ntt_domain_points-domain :
        (k : ℕ) → k ≤ 62 → ntt_domain_points mpz getenv (pow2 k) ntt128_prime ≡ ok (domain k)
    ntt_domain_points-domain k h = at_size (pow2 k) refl
      where
        at_size : (n : ℕ) → pow2 k ≡ n → ntt_domain_points mpz getenv n ntt128_prime ≡ ok (domain k)
        at_size zero e = absurd (omega (arith, pow2_pos k))
        at_size (suc n) e =
            unfold ntt_domain_points in
            rw (sym e, ntt_primitive_root-root mpz laws getenv enabled k (omega arith)) refl

    forward-staged :
        (k : ℕ) (a : List ℕ)
        → k ≤ 62
        → length a ≡ pow2 k
        → ntt_inplace mpz getenv a ntt128_prime false
          ≡ ok (staged ntt128_prime root k k (reorder k a))
    unfolding ntt_inplace
    forward-staged k a h l =
        rw
          (
            l,
            ntt_domain_supported-pow2 getenv k enabled,
            bit_reverse-reorder k a (omega arith) l,
            stage_loop-whole mpz getenv ntt128_prime false root
                (λ s m. (
                  root (suc s),
                  ntt_primitive_root-root mpz laws getenv enabled (suc s) (omega arith),
                  refl,
                ))
                k (reorder k a) h (length-reorder k a l),
          )
          refl

    backward-staged :
        (k : ℕ) (a : List ℕ)
        → k ≤ 62
        → length a ≡ pow2 k
        → ntt_inplace mpz getenv a ntt128_prime true
          ≡ ok (
              scale mpz getenv ntt128_prime
                (mpz.mod_inverse (pow2 k) ntt128_prime)
                (staged ntt128_prime inverse_roots k k (reorder k a)))
    unfolding ntt_inplace
    backward-staged k a h l =
        rw
          (
            l,
            ntt_domain_supported-pow2 getenv k enabled,
            bit_reverse-reorder k a (omega arith) l,
            stage_loop-whole mpz getenv ntt128_prime true inverse_roots
                (λ s m. (
                  root (suc s),
                  ntt_primitive_root-root mpz laws getenv enabled (suc s) (omega arith),
                  refl,
                ))
                k (reorder k a) h (length-reorder k a l),
          )
          refl

    -- The transform in place gives the values at the points of the domain.
    pub ntt_inplace-values :
        (k : ℕ) (a : Poly)
        → k ≤ 62
        → length a ≡ pow2 k
        → All (λ c. c < ntt128_prime) a
        → ntt_inplace mpz getenv a ntt128_prime false ≡ ok (values_at a (domain k) ntt128_prime)
    ntt_inplace-values k a h l m =
        forward-staged k a h l
        ∙ ap ok (staged-values ntt128_prime positive root 64 forward-IsRoots k a (omega arith) l m)

    -- Scaling takes the number of the coefficients away.
    scaled :
        (k : ℕ) (a : Poly)
        → All (λ c. c < ntt128_prime) a
        → scale mpz getenv ntt128_prime
            (mpz.mod_inverse (pow2 k) ntt128_prime)
            (times ntt128_prime (pow2 k) a)
          ≡ a
    scaled k [] h = refl
    scaled k (c ∷ a) (h, hs) =
        let n = mpz.mod_inverse (pow2 k) ntt128_prime in
        let back : Cong ntt128_prime (pow2 k * c % q * n) c =
          Cong-mul q _ (pow2 k * c) n n (Cong-mod q (pow2 k * c)) refl
          ∙ Cong-same q (pow2 k * c * n) (pow2 k * n * c) (omega arith)
          ∙ Cong-mul q (pow2 k * n) 1 c c (laws.inverse (pow2 k) (power half k) (half-pow2 k)) refl
          ∙ Cong-same q (1 * c) c (omega arith) in
        rw (back, mod-eq_of_lt h, scaled k a hs) refl

    -- The inverse transform of the values at these points gives the coefficients.
    pub ntt_inplace-inverse :
        (k : ℕ) (a : Poly)
        → k ≤ 62
        → length a ≡ pow2 k
        → All (λ c. c < ntt128_prime) a
        → ntt_inplace mpz getenv (values_at a (domain k) ntt128_prime) ntt128_prime true ≡ ok a
    ntt_inplace-inverse k a h l m =
        let y = values_at a (domain k) ntt128_prime in
        let size : length y ≡ pow2 k =
          length-map (domain k) (λ x. value a x % ntt128_prime)
          ∙ length-powers_from ntt128_prime (root k) 1 (pow2 k) in
        backward-staged k y h size
        ∙ rw
            (
              staged-values ntt128_prime positive inverse_roots 64 backward-IsRoots k y
                  (omega arith) size (reduced a (domain k)),
              values-times ntt128_prime positive root inverse_roots 64 forward-IsRoots
                  backward-IsRoots inverse-root k a (omega arith) l,
              scaled k a m,
            )
            refl
      where
        reduced : (p : Poly) (points : List ℕ) → All (λ v. v < ntt128_prime) (values_at p points q)
        reduced p [] = tt
        reduced p (x ∷ points) = (mod-lt (value p x) (omega (arith, positive)), reduced p points)

    -- For the fixed prime with the transform switched on, and a vector of 2^k residues, k at most 62:
    -- the transform and then the inverse transform end without a failure, and give back the vector.
    pub ntt_inplace-ntt_inplace :
        (k : ℕ) (a : Poly)
        → k ≤ 62
        → length a ≡ pow2 k
        → All (λ c. c < ntt128_prime) a
        → (ntt_inplace mpz getenv a ntt128_prime false >>= λ y.
            ntt_inplace mpz getenv y ntt128_prime true)
          ≡ ok a
    ntt_inplace-ntt_inplace k a h l m =
        rw (ntt_inplace-values k a h l m) (ntt_inplace-inverse k a h l m)

    -- For the fixed prime with the transform switched on, and a vector of 2^k residues, k at most 62:
    -- the domain has its points, and the transform in place ends without a failure, in the values of
    -- the polynomial with these coefficients at those points, in their order.
    pub ntt_inplace-ntt_domain_points :
        (k : ℕ) (a : Poly)
        → k ≤ 62
        → length a ≡ pow2 k
        → All (λ c. c < ntt128_prime) a
        → (points : List ℕ) × (ntt_domain_points mpz getenv (pow2 k) ntt128_prime ≡ ok points)
          × (ntt_inplace mpz getenv a ntt128_prime false ≡ ok (values_at a points ntt128_prime))
    ntt_inplace-ntt_domain_points k a h l m =
        (domain k, ntt_domain_points-domain k h, ntt_inplace-values k a h l m)
