-- ===== src/Multiplication/Unchanged.antt =====
-- The trees over the whole product are those over Karatsuba's recursion, where the threshold of the
-- transform parses.
use rf_class_groups.Base.{
  ℕ, zero, suc, ◌+◌, ◌*◌, ◌^◌, ◌≤◌, ◌<◌, ◌≡◌, inl, inr, refl, ltb, Bool-cases, List, [], ◌∷◌, map,
  length, Mpz, IsMpz, Result, ok, arith,
}
use rf_class_groups.Config.{Env}
use rf_class_groups.Ntt.{ntt128_prime}
use rf_class_groups.Poly.{
  Poly, poly_linear_from_root, pair_up, build_levels, poly_build_product_tree, poly_from_roots,
}
use rf_class_groups.Poly.Values.{values_at}
use rf_class_groups.Poly.Degree.{length-poly_mul_naive_mod}
use rf_class_groups.Poly.Karatsuba.{poly_mul_mod}
use rf_class_groups.Poly.Karatsuba.Reference.{poly_mul_mod-poly_mul_naive_mod}
use rf_class_groups.Poly.Tree.{poly_eval_batch_product_tree}
use rf_class_groups.Poly.Tree.Leaves.{length-linear, poly_eval_batch_product_tree-values}
use rf_class_groups.Public.{is_public_eval_points}
use rf_class_groups.Public.Points.{public_points-agree}
use rf_class_groups.Multiplication.{ntt_poly_threshold, poly_mul_mod_auto}
use rf_class_groups.Multiplication.Reference.{poly_mul_mod_auto-poly_mul_mod}
use rf_class_groups.Multiplication.Trees.{
  next_level, levels_above, product_tree_of, polynomial_of_roots, poly_build_product_tree_auto,
  poly_from_roots_auto, poly_eval_batch_product_tree_auto,
}

-- The sizes of the polynomials of one level, with one more for each.
abbrev pub weight : List Poly → ℕ
weight [] = 0
weight (p ∷ ps) = suc (length p) + weight ps

module _ (q : ℕ) (positive : 0 < q) where
  pub length-poly_mul_mod : (a b : Poly) → length (poly_mul_mod a b q) ≤ suc (length a + length b)
  length-poly_mul_mod a b =
      rw (poly_mul_mod-poly_mul_naive_mod q a b positive)
        (omega (arith, length-poly_mul_naive_mod q a b))

  pub pair_up-weight : (level : List Poly) → weight (pair_up poly_mul_mod q level) ≤ weight level
  unfolding pair_up
  pair_up-weight [] = omega arith
  pair_up-weight (p ∷ []) = omega arith
  pair_up-weight (p ∷ p' ∷ level) = omega (arith, length-poly_mul_mod p p', pair_up-weight level)

pub linear-weight :
    (q : ℕ) (points : List ℕ)
    → weight (map (λ r. poly_linear_from_root r q) points) ≡ 3 * length points
linear-weight q [] = omega arith
linear-weight q (x ∷ points) = omega (arith, length-linear x q, linear-weight q points)

module _ (mpz : Mpz) (laws : IsMpz mpz ntt128_prime) (getenv : Env) (threshold q : ℕ)
    (positive : 0 < q) (parses : ntt_poly_threshold getenv ≡ ok threshold) where
  abbrev auto : Poly → Poly → ℕ → Result Poly
  auto = poly_mul_mod_auto mpz getenv

  next_level-pair_up :
      (level : List Poly)
      → weight level ≤ 2 ^ 61
      → next_level auto q level ≡ ok (pair_up poly_mul_mod q level)
  unfolding next_level pair_up
  next_level-pair_up [] h = refl
  next_level-pair_up (p ∷ []) h = refl
  next_level-pair_up (p ∷ p' ∷ level) h =
      rw
        (
          poly_mul_mod_auto-poly_mul_mod mpz laws getenv threshold q positive parses p p'
              (omega (arith, h)) (omega (arith, h)),
          next_level-pair_up level (omega (arith, h)),
        )
        refl

  levels_above-build_levels :
      (fuel : ℕ) (level : List Poly)
      → weight level ≤ 2 ^ 61
      → levels_above auto q fuel level ≡ ok (build_levels poly_mul_mod q fuel level)
  unfolding levels_above build_levels
  levels_above-build_levels zero level h = refl
  levels_above-build_levels (suc fuel) level h = elim (Bool-cases (ltb 1 (length level))) [
    | inl e ↦
        rw
          (
            e,
            next_level-pair_up level h,
            levels_above-build_levels fuel (pair_up poly_mul_mod q level)
                (omega (arith, h, pair_up-weight q positive level)),
          )
          refl
    | inr e ↦ rw e refl
  ]

  -- For at most 2^24 points.
  product_tree_of-same :
      (points : List ℕ)
      → length points ≤ 2 ^ 24
      → product_tree_of auto q points ≡ ok (poly_build_product_tree poly_mul_mod q points)
  unfolding product_tree_of poly_build_product_tree
  product_tree_of-same [] h = refl
  product_tree_of-same (x ∷ points) h =
      levels_above-build_levels (length (x ∷ points))
        (map (λ r. poly_linear_from_root r q) (x ∷ points))
        (omega (arith, h, linear-weight q (x ∷ points)))

  pub poly_build_product_tree_auto-same :
      (points : List ℕ)
      → length points ≤ 2 ^ 24
      → poly_build_product_tree_auto mpz getenv points q
        ≡ ok (poly_build_product_tree poly_mul_mod q points)
  unfolding poly_build_product_tree_auto
  poly_build_product_tree_auto-same points h = product_tree_of-same points h

  pub poly_from_roots_auto-same :
      (roots : List ℕ)
      → length roots ≤ 2 ^ 24
      → poly_from_roots_auto mpz getenv roots q ≡ ok (poly_from_roots poly_mul_mod q roots)
  unfolding poly_from_roots_auto polynomial_of_roots poly_from_roots
  poly_from_roots_auto-same [] h = refl
  poly_from_roots_auto-same (r ∷ roots) h = rw (product_tree_of-same (r ∷ roots) h) refl

  -- The descent over the whole product.
  pub poly_eval_batch_product_tree_auto-values :
      (coeffs : Poly) (points : List ℕ)
      → 2 ≤ q
      → length points ≤ 2 ^ 24
      → poly_eval_batch_product_tree_auto mpz getenv coeffs points q
        ≡ ok (values_at coeffs points q)
  unfolding poly_eval_batch_product_tree_auto is_public_eval_points
  poly_eval_batch_product_tree_auto-values coeffs [] large h = refl
  poly_eval_batch_product_tree_auto-values coeffs (x ∷ points) large h =
      let (alpha, named, _, _) =
        public_points-agree mpz laws getenv getenv q (length (x ∷ points)) refl
          (omega (arith, h)) in
      rw (named, poly_build_product_tree_auto-same (x ∷ points) h)
        (unfold poly_eval_batch_product_tree in
          poly_eval_batch_product_tree-values q coeffs (x ∷ points) large)
