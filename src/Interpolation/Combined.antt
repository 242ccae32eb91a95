-- ===== src/Interpolation/Combined.antt =====
-- The combination over the whole product is that over Karatsuba's recursion, where the threshold of the
-- transform parses.
use rf_class_groups.Base.{
  ℕ, zero, suc, ◌+◌, ◌-◌, ◌*◌, ◌^◌, ◌≤◌, ◌<◌, ◌≡◌, inl, inr, refl, ltb, Bool-cases, List, [], ◌∷◌,
  length, map, Mpz, IsMpz, ok, arith,
}
use rf_class_groups.Config.{Env}
use rf_class_groups.Ntt.{ntt128_prime}
use rf_class_groups.Poly.{
  Poly, poly_linear_from_root, pair_up, build_levels, poly_build_product_tree,
}
use rf_class_groups.Poly.Karatsuba.{poly_mul_mod}
use rf_class_groups.Poly.Karatsuba.Recombine.{length-poly_add_mod}
use rf_class_groups.Multiplication.{ntt_poly_threshold}
use rf_class_groups.Multiplication.Reference.{poly_mul_mod_auto-poly_mul_mod}
use rf_class_groups.Multiplication.Unchanged.{
  weight, length-poly_mul_mod, pair_up-weight, linear-weight,
}
use rf_class_groups.Interpolation.{
  weighted_constants, combine_pairs, combine_levels, combine_pairs_auto, combine_levels_auto,
}

-- The weights of all levels of a tree.
abbrev pub total : List (List Poly) → ℕ
total [] = 0
total (level ∷ levels) = weight level + total levels

product_bound : (a b c d : ℕ) → a ≤ c → b ≤ d → a * b ≤ c * d
product_bound a b c d h k =
    let e : ℕ = c - a in
    let f : ℕ = d - b in
    let c' : c ≡ a + e = omega arith in
    let d' : d ≡ b + f = omega arith in
    let expanded : (a + e) * (b + f) ≡ a * b + (a * f + (e * b + e * f)) = omega arith in
    rw (c', d', expanded) (omega arith)

module _ (q : ℕ) (positive : 0 < q) where
  combine_pairs-weight :
      (acc polys : List Poly) → weight (combine_pairs q acc polys) ≤ weight acc + weight polys
  unfolding combine_pairs
  combine_pairs-weight [] polys = omega arith
  combine_pairs-weight (a ∷ []) polys = omega arith
  combine_pairs-weight (a ∷ a' ∷ acc) [] = omega arith
  combine_pairs-weight (a ∷ a' ∷ acc) (p ∷ []) = omega arith
  combine_pairs-weight (a ∷ a' ∷ acc) (p ∷ p' ∷ polys) =
      let n = length a + length a' + length p + length p' + 1 in
      omega (
        arith,
        length-poly_add_mod (poly_mul_mod a p' q) (poly_mul_mod a' p q) q n
            (omega (arith, length-poly_mul_mod q positive a p'))
            (omega (arith, length-poly_mul_mod q positive a' p)),
        combine_pairs-weight acc polys,
      )

  levels-total :
      (fuel : ℕ) (level : List Poly)
      → total (build_levels poly_mul_mod q fuel level) ≤ suc fuel * weight level
  unfolding build_levels
  levels-total zero level = omega arith
  levels-total (suc fuel) level = elim (Bool-cases (ltb 1 (length level))) [
    | inl e ↦
        let up = pair_up poly_mul_mod q level in
        rw e (
          omega (
            arith,
            levels-total fuel up,
            product_bound (suc fuel) (weight up) (suc fuel) (weight level) (omega arith)
                (pair_up-weight q positive level),
          ))
    | inr e ↦ rw e (omega arith)
  ]

  -- The tree of at most 2^24 points.
  pub tree-total :
      (points : List ℕ)
      → length points ≤ 2 ^ 24
      → total (poly_build_product_tree poly_mul_mod q points) ≤ 2 ^ 52
  unfolding poly_build_product_tree
  tree-total [] h = omega arith
  tree-total (x ∷ points) h =
      let n = length (x ∷ points) in
      let level = map (λ r. poly_linear_from_root r q) (x ∷ points) in
      omega (
        arith,
        levels-total n level,
        product_bound (suc n) (weight level) (suc (2 ^ 24)) (3 * 2 ^ 24) (omega (arith, h))
            (omega (arith, h, linear-weight q (x ∷ points))),
      )

module _ (mpz : Mpz) (laws : IsMpz mpz ntt128_prime) (getenv : Env) (threshold q : ℕ)
    (positive : 0 < q) (parses : ntt_poly_threshold getenv ≡ ok threshold) where
  combine_pairs_auto-same :
      (acc polys : List Poly)
      → weight acc + weight polys ≤ 2 ^ 61
      → combine_pairs_auto mpz getenv q acc polys ≡ ok (combine_pairs q acc polys)
  unfolding combine_pairs_auto combine_pairs
  combine_pairs_auto-same [] polys h = refl
  combine_pairs_auto-same (a ∷ []) polys h = refl
  combine_pairs_auto-same (a ∷ a' ∷ acc) [] h = refl
  combine_pairs_auto-same (a ∷ a' ∷ acc) (p ∷ []) h = refl
  combine_pairs_auto-same (a ∷ a' ∷ acc) (p ∷ p' ∷ polys) h =
      let product = poly_mul_mod_auto-poly_mul_mod mpz laws getenv threshold q positive parses in
      rw
        (
          product a p' (omega (arith, h)) (omega (arith, h)),
          product a' p (omega (arith, h)) (omega (arith, h)),
          combine_pairs_auto-same acc polys (omega (arith, h)),
        )
        refl

  pub combine_levels_auto-same :
      (acc : List Poly) (levels : List (List Poly))
      → weight acc + total levels ≤ 2 ^ 61
      → combine_levels_auto mpz getenv q acc levels ≡ ok (combine_levels q acc levels)
  unfolding combine_levels_auto combine_levels
  combine_levels_auto-same acc [] h = refl
  combine_levels_auto-same acc (level ∷ []) h = refl
  combine_levels_auto-same acc (level ∷ level' ∷ levels) h =
      rw (combine_pairs_auto-same acc level (omega (arith, h))) (
        combine_levels_auto-same (combine_pairs q acc level) (level' ∷ levels)
          (omega (arith, h, combine_pairs-weight q positive acc level)))

-- The constants at the leaves.
pub weighted_constants-weight :
    (mod_inverse : ℕ → ℕ → ℕ) (q : ℕ) (ys denom : List ℕ)
    → weight (weighted_constants mod_inverse q ys denom) ≤ 2 * length ys
unfolding weighted_constants
weighted_constants-weight mod_inverse q [] denom = omega arith
weighted_constants-weight mod_inverse q (y ∷ ys) [] = omega arith
weighted_constants-weight mod_inverse q (y ∷ ys) (d ∷ denom) =
    omega (arith, weighted_constants-weight mod_inverse q ys denom)
