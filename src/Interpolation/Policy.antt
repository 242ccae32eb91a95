-- ===== src/Interpolation/Policy.antt =====
-- The values at the targets are those of the polynomial behind the values, whether the points are those of
-- the transform's domain, and on both sides of the threshold.
use rf_class_groups.Base.{
  ℕ, ◌%◌, ◌^◌, ◌≤◌, ◌<◌, ◌≡◌, inl, inr, refl, sym, ap, ◌∙◌, false, List, [], ◌∷◌, map, length,
  length-map, ltb, max, Bool-cases, Cong, Mpz, IsMpz, IsField, Result, ok, ok_injective, arith,
}
use native.Mathlib.Nat.{zero-mod}
use rf_class_groups.Config.{Env}
use rf_class_groups.Poly.{Poly}
use rf_class_groups.Poly.Values.{values_at, value}
use rf_class_groups.Evaluation.Policy.{CanEvaluate, poly_eval_batch_auto-values}
use rf_class_groups.Lagrange.{public_eval_points, lagrange_eval_batch}
use rf_class_groups.Lagrange.Interpolation.{lagrange_eval_batch-values}
use rf_class_groups.Ntt.{ntt128_prime, ntt_domain_supported}
use rf_class_groups.Public.{public_eval_points_cached}
use rf_class_groups.Public.Points.{length-public_points, points_outside}
use rf_class_groups.Interpolation.{
  psi_lagrange_to_coeff_threshold, lagrange_interpolate_public_points, evaluate_interpolated,
  evaluate_values, lagrange_eval_batch_auto,
}
use rf_class_groups.Interpolation.Coefficients.{lagrange_interpolate_public_points-value}

no_coefficients :
    (p : Poly) (targets : List ℕ) (q : ℕ)
    → length p ≤ 0
    → map (λ x. 0) targets ≡ values_at p targets q
no_coefficients [] targets q h = ap (λ (c : ℕ). map (λ x. c) targets) (sym (zero-mod q))
no_coefficients (c ∷ p) targets q h = absurd (omega (arith, h))

module _ (mpz : Mpz) (laws : IsMpz mpz ntt128_prime) (q : ℕ) (field : IsField mpz.mod_inverse q)
    (p : Poly) where
  interpolated-values :
      (getenv : Env) (interpolated : Result Poly) (targets : List ℕ)
      → CanEvaluate getenv
      → length targets ≤ 2 ^ 24
      → (c : Poly) × (interpolated ≡ ok c)
        × (length c < 2 ^ 31)
        × ((x : ℕ) → Cong q (value c x) (value p x))
      → evaluate_interpolated mpz getenv interpolated targets q ≡ ok (values_at p targets q)
  unfolding evaluate_interpolated
  interpolated-values getenv interpolated targets can l (c, e, short, v) = rw e (
      poly_eval_batch_auto-values mpz laws getenv c targets q field.0 can (short, l)
      ∙ ap (λ (f : ℕ → ℕ). ok (map f targets)) (λ i x. v x i))

  every_way :
      (getenv : Env) (threshold : ℕ) (y targets : List ℕ)
      → (length y ≡ 0 → map (λ x. 0) targets ≡ values_at p targets q)
      → (1 ≤ length y
          → evaluate_interpolated mpz getenv
              (lagrange_interpolate_public_points mpz getenv y q)
              targets
              q
            ≡ ok (values_at p targets q))
      → (ntt_domain_supported getenv q (length y) ≡ false
          → lagrange_eval_batch mpz.mod_inverse y targets q ≡ ok (values_at p targets q))
      → evaluate_values mpz getenv threshold y targets q ≡ ok (values_at p targets q)
  unfolding evaluate_values lagrange_interpolate_public_points
  every_way getenv threshold [] targets none coeffs weights = ap ok (none refl)
  every_way getenv threshold (y ∷ ys) [] none coeffs weights = refl
  every_way getenv threshold (y ∷ ys) (x ∷ targets) none coeffs weights =
      elim (Bool-cases (ntt_domain_supported getenv q (length (y ∷ ys)))) [
        | inl on ↦ rw on (rw on at coeffs (omega arith))
        | inr off ↦
            elim (Bool-cases (ltb (max (length (y ∷ ys)) (length (x ∷ targets))) threshold)) [
              | inl b ↦ rw (off, b) (weights off)
              | inr b ↦ rw (off, b) (rw off at coeffs (omega arith))
            ]
      ]

  -- Modulo a prime `q`, where the number of points is at least the number of coefficients, below `q` and
  -- at most 2^24, for at most 2^24 targets, in an environment that allows the evaluation, the threshold
  -- for products by the transform included, and whose threshold for barycentric evaluation parses, the
  -- values of a polynomial at the public points give its values at all targets, reduced modulo `q`, whether they are computed by the inverse transform, from the weights or from
  -- the interpolated coefficients.
  pub lagrange_eval_batch_auto-values :
      (getenv : Env) (threshold N : ℕ) (alpha targets : List ℕ)
      → public_eval_points_cached mpz getenv N q ≡ ok alpha
      → CanEvaluate getenv
      → psi_lagrange_to_coeff_threshold getenv ≡ ok threshold
      → length p ≤ N
      → N < q
      → N ≤ 2 ^ 24
      → length targets ≤ 2 ^ 24
      → lagrange_eval_batch_auto mpz getenv (values_at p alpha q) targets q
        ≡ ok (values_at p targets q)
  unfolding lagrange_eval_batch_auto
  lagrange_eval_batch_auto-values getenv threshold N alpha targets named can e h k l l' =
      let y = values_at p alpha q in
      let size : length y ≡ N =
        length-map alpha (λ a. value p a % q)
        ∙ length-public_points mpz laws getenv q N alpha named (omega (arith, l)) in
      rw e (
        every_way getenv threshold y targets
          (λ none. no_coefficients p targets q (omega (arith, size, none, h)))
          (λ some.
            let (c, e', short, v) =
              lagrange_interpolate_public_points-value mpz laws getenv can.2.0 q N alpha p can.2.1
                field (omega (arith, size, some)) k l named h in
            interpolated-values getenv _ targets can l' (c, e', omega (arith, short, l), v))
          (λ off.
            let points : alpha ≡ public_eval_points N =
              ok_injective (sym named ∙ points_outside mpz laws getenv q N (rw size at off)) in
            rw points (
              lagrange_eval_batch-values mpz.mod_inverse q field p N targets h (omega arith)
                (omega (arith, l)))))
