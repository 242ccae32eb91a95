-- ===== src/Evaluation/Policy.antt =====
-- The choice of the evaluation method does not change the values.
use rf_class_groups.Base.{
  ◌<◌, ◌%◌, int_pred, int_pred-small, ℕ, ◌≤◌, ◌≡◌, inl, inr, refl, sym, ap, List, [], ◌∷◌, map,
  length, leb, Bool-cases, ok, ◌∙◌, ◌^◌, true, Mpz, IsMpz, arith,
}
use native.Mathlib.Nat.{zero-mod}
use rf_class_groups.Config.{Env}
use rf_class_groups.Poly.{Poly}
use rf_class_groups.Poly.Values.{values_at, value}
use rf_class_groups.Poly.Horner.{eval_poly_horner-value}
use rf_class_groups.Base.Bits.{pow2}
use rf_class_groups.Ntt.{ntt128_prime, ntt_runtime_enabled, poly_eval_batch_ntt}
use rf_class_groups.Ntt.Domain.{ntt_domain_supported-pow2}
use rf_class_groups.Ntt.Roots.{prime_bound}
use rf_class_groups.Ntt.Transform.{domain}
use rf_class_groups.Ntt.Product.{poly_eval_batch_ntt-values}
use rf_class_groups.Public.{same_entries, is_public_eval_points}
use rf_class_groups.Public.Points.{same_entries-same, length-domain, domain-cases, points_in_domain}
use rf_class_groups.Ope.{eval_poly_horner, horner_of_size}
use rf_class_groups.Multiplication.{ntt_poly_threshold}
use rf_class_groups.Multiplication.Trees.{poly_eval_batch_product_tree_auto}
use rf_class_groups.Multiplication.Unchanged.{poly_eval_batch_product_tree_auto-values}
use rf_class_groups.Evaluation.{
  poly_eval, EvalMethod, evaluate_outside, fits_domain, poly_eval_batch_horner,
  poly_eval_auto_horner_max_points, poly_eval_method_env, evaluate_by, poly_eval_batch_auto,
}

-- `poly_eval` is Horner's rule for fewer coefficients than an int counts.
poly_eval-value :
    (coeffs : Poly) (x q : ℕ) → length coeffs < 2 ^ 31 → poly_eval coeffs x q ≡ value coeffs x % q
unfolding poly_eval
poly_eval-value [] x q h = sym (zero-mod q)
poly_eval-value (c ∷ coeffs) x q h =
    let rounds : int_pred (length (c ∷ coeffs)) ≡ length coeffs =
      int_pred-small (length (c ∷ coeffs)) h ∙ omega arith in
    rw rounds
      (unfold eval_poly_horner in unfold horner_of_size in eval_poly_horner-value (c ∷ coeffs) x q)

pub poly_eval_batch_horner-values :
    (coeffs : Poly) (points : List ℕ) (q : ℕ)
    → length coeffs < 2 ^ 31
    → poly_eval_batch_horner coeffs points q ≡ values_at coeffs points q
unfolding poly_eval_batch_horner
poly_eval_batch_horner-values [] points q h = ap (λ (c : ℕ). map (λ x. c) points) (sym (zero-mod q))
poly_eval_batch_horner-values (c ∷ coeffs) points q h =
    ap (λ (f : ℕ → ℕ). map f points) (λ i x. poly_eval-value (c ∷ coeffs) x q h i)

-- The environment does not ask for the NTT, its limit for Horner evaluation is a number, and so is its
-- threshold for products by the transform.
abbrev pub CanEvaluate : Env → Type 0
CanEvaluate getenv =
    (¬ (poly_eval_method_env getenv ≡ EvalMethod.ntt))
    × ((limit : ℕ) × (poly_eval_auto_horner_max_points getenv ≡ ok limit))
    × ((threshold : ℕ) × (ntt_poly_threshold getenv ≡ ok threshold))

-- What the evaluation of `coeffs` at `points` needs: fewer coefficients than an int counts, and no more
-- points than the largest item limit.
abbrev pub HasSizes : Poly → List ℕ → Type 0
HasSizes coeffs points = (length coeffs < 2 ^ 31) × (length points ≤ 2 ^ 24)

module _ (mpz : Mpz) (laws : IsMpz mpz ntt128_prime) where
  tree-values :
      (getenv : Env) (coeffs : Poly) (points : List ℕ) (q : ℕ)
      → 2 ≤ q
      → CanEvaluate getenv
      → HasSizes coeffs points
      → poly_eval_batch_product_tree_auto mpz getenv coeffs points q
        ≡ ok (values_at coeffs points q)
  tree-values getenv coeffs points q h (_, _, (threshold, t)) (_, few) =
      poly_eval_batch_product_tree_auto-values mpz laws getenv threshold q (omega (arith, h)) t
        coeffs points h few

  evaluate_outside-values :
      (getenv : Env) (coeffs : Poly) (points : List ℕ) (q : ℕ)
      → 2 ≤ q
      → CanEvaluate getenv
      → HasSizes coeffs points
      → evaluate_outside mpz getenv coeffs points q ≡ ok (values_at coeffs points q)
  unfolding evaluate_outside
  evaluate_outside-values getenv coeffs points q h can sizes =
      let (limit, e) = can.1 in
      elim (Bool-cases (leb (length points) limit)) [
        | inl b ↦ rw (e, b) (ap ok (poly_eval_batch_horner-values coeffs points q sizes.0))
        | inr b ↦ rw (e, b) (tree-values getenv coeffs points q h can sizes)
      ]

  -- At the points of the domain the transform gives the values.
  transform-values :
      (getenv : Env) (coeffs : Poly) (points : List ℕ) (k : ℕ)
      → k ≤ 62
      → ntt_runtime_enabled getenv ≡ true
      → points ≡ domain k
      → length coeffs ≤ pow2 k
      → poly_eval_batch_ntt mpz getenv coeffs (length points) ntt128_prime
        ≡ ok (values_at coeffs points ntt128_prime)
  transform-values getenv coeffs points k h on e l =
      rw (e, length-domain k) (poly_eval_batch_ntt-values mpz laws getenv on k coeffs h l)

  auto_in_domain :
      (getenv : Env) (coeffs : Poly) (points : List ℕ) (k : ℕ)
      → CanEvaluate getenv
      → HasSizes coeffs points
      → k ≤ 62
      → ntt_runtime_enabled getenv ≡ true
      → length points ≡ pow2 k
      → evaluate_by mpz EvalMethod.auto getenv coeffs points ntt128_prime
        ≡ ok (values_at coeffs points ntt128_prime)
  unfolding evaluate_by fits_domain is_public_eval_points
  auto_in_domain getenv coeffs points k can sizes h on size =
      let outside =
        evaluate_outside-values getenv coeffs points ntt128_prime (omega (arith, prime_bound)) can
          sizes in
      let supported = ntt_domain_supported-pow2 getenv k on in
      let public_points = points_in_domain mpz laws getenv k h on in
      elim (Bool-cases (leb (length coeffs) (pow2 k))) [
        | inl few ↦ elim (Bool-cases (same_entries points (domain k))) [
          | inl same ↦
              let is_domain =
                same_entries-same points (domain k) (size ∙ sym (length-domain k)) same in
              let values =
                transform-values getenv coeffs points k h on is_domain (ground (arith, few)) in
              rw (size, supported, few, public_points, same) (rw size at values)
          | inr other ↦ rw (size, supported, few, public_points, other) outside
        ]
        | inr many ↦ rw (size, supported, many) outside
      ]

  evaluate_by-values :
      (method : EvalMethod) (getenv : Env) (coeffs : Poly) (points : List ℕ) (q : ℕ)
      → 2 ≤ q
      → ¬ (method ≡ EvalMethod.ntt)
      → CanEvaluate getenv
      → HasSizes coeffs points
      → evaluate_by mpz method getenv coeffs points q ≡ ok (values_at coeffs points q)
  unfolding evaluate_by fits_domain
  evaluate_by-values EvalMethod.ntt getenv coeffs points q h n can sizes = absurd (n refl)
  evaluate_by-values EvalMethod.horner getenv coeffs points q h n can sizes =
      ap ok (poly_eval_batch_horner-values coeffs points q sizes.0)
  evaluate_by-values EvalMethod.product_tree getenv coeffs points q h n can sizes =
      tree-values getenv coeffs points q h can sizes
  evaluate_by-values EvalMethod.auto getenv coeffs points q h n can sizes =
      elim (domain-cases getenv q (length points) (omega (arith, sizes.1))) [
        | inl (k, below, size, prime, on) ↦
            rw prime (auto_in_domain getenv coeffs points k can sizes below on size)
        | inr off ↦ rw off (evaluate_outside-values getenv coeffs points q h can sizes)
      ]

  -- For a modulus of at least 2, fewer than 2^31 coefficients, at most 2^24 points, and an environment
  -- that does not ask for the transform, whose limit for Horner evaluation parses and whose threshold
  -- for products by the transform parses, evaluation ends without a failure and gives the value of the
  -- polynomial at each point, reduced modulo `q`, whichever method is chosen, the transform included.
  pub poly_eval_batch_auto-values :
      (getenv : Env) (coeffs : Poly) (points : List ℕ) (q : ℕ)
      → 2 ≤ q
      → CanEvaluate getenv
      → HasSizes coeffs points
      → poly_eval_batch_auto mpz getenv coeffs points q ≡ ok (values_at coeffs points q)
  unfolding poly_eval_batch_auto
  poly_eval_batch_auto-values getenv coeffs points q h can sizes =
      evaluate_by-values (poly_eval_method_env getenv) getenv coeffs points q h can.0 can sizes
