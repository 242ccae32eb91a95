-- ===== src/Poly/Degree.antt =====
-- The size of the polynomial at the top of a product tree.
use rf_class_groups.Base.{
  ℕ, zero, suc, ◌+◌, ◌-◌, ◌≤◌, ◌<◌, ◌≡◌, inl, inr, refl, List, [], ◌∷◌, length, map, length-map,
  ltb, Bool-cases, arith,
}
use rf_class_groups.Poly.{
  Poly, reduce_each, poly_mul_naive_mod, poly_linear_from_root, pair_up, build_levels,
  poly_build_product_tree, front, top_of,
}
use rf_class_groups.Poly.Sizes.{length-poly_trim, length-reduce_each}
use rf_class_groups.Poly.Coefficients.{all_rows, length-all_rows, naive-all_rows}
use rf_class_groups.Poly.Karatsuba.{poly_mul_mod}
use rf_class_groups.Poly.Karatsuba.Reference.{poly_mul_mod-poly_mul_naive_mod, karatsuba-IsProduct}
use rf_class_groups.Poly.Roots.{
  length-pair_up, pair_up-nonempty, build_levels-nonempty, top_of-cons,
}

pub length-poly_mul_naive_mod :
    (q : ℕ) (a b : Poly) → length (poly_mul_naive_mod a b q) - 1 ≤ length a - 1 + (length b - 1)
length-poly_mul_naive_mod q [] b = unfold poly_mul_naive_mod in omega arith
length-poly_mul_naive_mod q (a ∷ as') [] = unfold poly_mul_naive_mod in omega arith
length-poly_mul_naive_mod q (a ∷ as') (b ∷ bs) =
    let rows = all_rows (a ∷ as') (b ∷ bs) in
    rw (naive-all_rows (a ∷ as') (b ∷ bs) q (omega arith) (omega arith)) (
      omega (
        arith,
        length-poly_trim (reduce_each q rows),
        length-reduce_each q rows,
        length-all_rows (a ∷ as') (b ∷ bs) (omega arith) (omega arith),
      ))

-- The sum of the degrees of one level.
degrees : List Poly → ℕ
degrees [] = 0
degrees (p ∷ ps) = length p - 1 + degrees ps

module _ (q : ℕ) (positive : 0 < q) where
  pair_up-degrees : (level : List Poly) → degrees (pair_up poly_mul_mod q level) ≤ degrees level
  unfolding degrees pair_up
  pair_up-degrees [] = omega arith
  pair_up-degrees (p ∷ []) = omega arith
  pair_up-degrees (p ∷ p' ∷ level) =
      rw (poly_mul_mod-poly_mul_naive_mod q p p' positive)
        (omega (arith, length-poly_mul_naive_mod q p p', pair_up-degrees level))

  single-degree : (level : List Poly) → length level ≤ 1 → length (front level) - 1 ≤ degrees level
  unfolding front degrees
  single-degree [] h = omega arith
  single-degree (p ∷ []) h = omega arith
  single-degree (p ∷ p' ∷ level) h = absurd (omega arith)

  top-degree :
      (fuel : ℕ) (level : List Poly)
      → 1 ≤ length level
      → length level ≤ suc fuel
      → length (top_of (build_levels poly_mul_mod q fuel level)) - 1 ≤ degrees level
  unfolding build_levels
  top-degree zero level h k = unfold top_of in single-degree level k
  top-degree (suc fuel) level h k = elim (Bool-cases (ltb 1 (length level))) [
    | inl e ↦
        let product = karatsuba-IsProduct q positive in
        let up = pair_up poly_mul_mod q level in
        rw
          (
            e,
            top_of-cons poly_mul_mod q product level (build_levels poly_mul_mod q fuel up)
                (build_levels-nonempty poly_mul_mod q product fuel up),
          )
          (omega (
            arith,
            pair_up-degrees level,
            top-degree fuel up (pair_up-nonempty poly_mul_mod q product level h)
                (ground (arith, length-pair_up poly_mul_mod q product level, e)),
          ))
    | inr e ↦ rw e (unfold top_of in single-degree level (ground (arith, e)))
  ]

  linear-degrees :
      (points : List ℕ) → degrees (map (λ x. poly_linear_from_root x q) points) ≡ length points
  unfolding degrees poly_linear_from_root
  linear-degrees [] = refl
  linear-degrees (x ∷ points) = omega (arith, linear-degrees points)

  -- The product of n linear factors has at most n + 1 coefficients.
  pub length-top_of :
      (points : List ℕ)
      → length (top_of (poly_build_product_tree poly_mul_mod q points)) ≤ suc (length points)
  unfolding poly_build_product_tree
  length-top_of [] = unfold top_of in omega arith
  length-top_of (x ∷ points) =
      let level = map (λ r. poly_linear_from_root r q) (x ∷ points) in
      let size = length-map (x ∷ points) (λ r. poly_linear_from_root r q) in
      omega (
        arith,
        linear-degrees (x ∷ points),
        top-degree (length (x ∷ points)) level (omega (arith, size)) (omega (arith, size)),
      )
