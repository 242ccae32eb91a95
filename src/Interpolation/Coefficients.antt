-- ===== src/Interpolation/Coefficients.antt =====
-- lagrange_interpolate_public_points on both sides: the inverse transform in the domain, the product tree
-- outside of it.
use rf_class_groups.Base.{
  ℕ, suc, ◌^◌, ◌≤◌, ◌<◌, ◌≡◌, inl, inr, refl, sym, ◌∙◌, true, List, length, length-map, ◌%◌, Cong,
  Cong-same, Mpz, IsMpz, IsField, ok, ok_injective, arith,
}
use rf_class_groups.Base.Bits.{pow2}
use rf_class_groups.Config.{Env}
use rf_class_groups.Poly.{Poly, poly_trim}
use rf_class_groups.Poly.Sizes.{length-poly_trim}
use rf_class_groups.Poly.Values.{values_at, value, value-poly_trim}
use rf_class_groups.Lagrange.{public_eval_points}
use rf_class_groups.Lagrange.Points.{length-public_eval_points}
use rf_class_groups.Ntt.{ntt128_prime, ntt_runtime_enabled, padded, lagrange_interpolate_ntt}
use rf_class_groups.Ntt.Domain.{ntt_domain_supported-pow2}
use rf_class_groups.Ntt.Roots.{prime_bound}
use rf_class_groups.Ntt.Transform.{domain}
use rf_class_groups.Ntt.Product.{length-padded, value-padded, lagrange_interpolate_ntt-values}
use rf_class_groups.Public.{public_eval_points_cached}
use rf_class_groups.Public.Points.{length-domain, domain-cases, points_in_domain, points_outside}
use rf_class_groups.Multiplication.{ntt_poly_threshold}
use rf_class_groups.Interpolation.{lagrange_interpolate_public_points}
use rf_class_groups.Interpolation.FromTree.{interpolate_by_tree-value}

module _ (mpz : Mpz) (laws : IsMpz mpz ntt128_prime) where
  pub lagrange_interpolate_ntt-value :
      (getenv : Env) (k : ℕ) (p : Poly)
      → k ≤ 62
      → ntt_runtime_enabled getenv ≡ true
      → length p ≤ pow2 k
      → (c : Poly) × (lagrange_interpolate_ntt mpz getenv
            (values_at p (domain k) ntt128_prime)
            ntt128_prime
          ≡ ok c)
        × (length c ≤ suc (pow2 k))
        × ((x : ℕ) → Cong ntt128_prime (value c x) (value p x))
  lagrange_interpolate_ntt-value getenv k p h on l = (
    poly_trim (padded ntt128_prime (pow2 k) p),
    lagrange_interpolate_ntt-values mpz laws getenv on k p h l,
    omega (
      arith,
      length-poly_trim (padded ntt128_prime (pow2 k) p),
      length-padded ntt128_prime (omega (arith, prime_bound)) (pow2 k) p l,
    ),
    λ x.
        Cong-same ntt128_prime _ _ (value-poly_trim (padded ntt128_prime (pow2 k) p) x)
        ∙ value-padded ntt128_prime (omega (arith, prime_bound)) (pow2 k) p x,
  )

  -- Modulo a prime `q`, from the values of a polynomial at the `N` public points, with `N` at least 1,
  -- at least its number of coefficients, below `q` and at most 2^24, and with a threshold for products
  -- by the transform that parses, interpolation ends without a failure and gives a polynomial that has
  -- its value at every point and at most N + 1 coefficients, whether the points are those of the transform's domain or 1, ..., N.
  pub lagrange_interpolate_public_points-value :
      (getenv : Env) (threshold q N : ℕ) (alpha : List ℕ) (p : Poly)
      → ntt_poly_threshold getenv ≡ ok threshold
      → IsField mpz.mod_inverse q
      → 1 ≤ N
      → N < q
      → N ≤ 2 ^ 24
      → public_eval_points_cached mpz getenv N q ≡ ok alpha
      → length p ≤ N
      → (c : Poly) × (lagrange_interpolate_public_points mpz getenv (values_at p alpha q) q ≡ ok c)
        × (length c ≤ suc N)
        × ((x : ℕ) → Cong q (value c x) (value p x))
  unfolding lagrange_interpolate_public_points
  lagrange_interpolate_public_points-value getenv threshold q N alpha p parses field some below
        bound named few =
      elim (domain-cases getenv q N (omega (arith, bound))) [
        | inl (k, l, size, prime, on) ↦
            let points : alpha ≡ domain k =
              ok_injective
                (sym (rw (size, prime) at named) ∙ points_in_domain mpz laws getenv k l on) in
            let count = length-map (domain k) (λ a. value p a % ntt128_prime) ∙ length-domain k in
            let (c, e, short, v) =
              lagrange_interpolate_ntt-value getenv k p l on (rw size at few) in
            rw (points, prime)
              (
                c,
                rw (count, ntt_domain_supported-pow2 getenv k on) e,
                omega (arith, size, short),
                v,
              )
        | inr off ↦
            let points : alpha ≡ public_eval_points N =
              ok_injective (sym named ∙ points_outside mpz laws getenv q N off) in
            let count =
              length-map (public_eval_points N) (λ a. value p a % q)
              ∙ length-public_eval_points N in
            let (e, short, v) =
              interpolate_by_tree-value mpz.mod_inverse q field N some below p few mpz getenv
                threshold laws parses bound refl off in
            rw points (_, rw (count, off) e, short, v)
      ]
