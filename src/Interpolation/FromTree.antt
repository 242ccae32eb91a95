-- ===== src/Interpolation/FromTree.antt =====
-- Interpolation along the product tree gives a polynomial with the values that were interpolated.
use rf_class_groups.Base.{
  ℕ, zero, suc, ◌+◌, ◌*◌, ◌-◌, ◌%◌, ◌≤◌, ◌<◌, ◌≡◌, refl, sym, ap, ◌∙◌, List, [], ◌∷◌, map, length,
  length-map, Cong, Cong-same, Cong-mod, Cong-mul, ==_refl, IsField, field-inverse, ok, arith,
  false, Mpz, IsMpz, ◌^◌,
}
use rf_class_groups.Config.{Env}
use rf_class_groups.Ntt.{ntt128_prime, ntt_domain_supported}
use rf_class_groups.Public.{public_eval_points_cached, rf_opa_eval_points}
use rf_class_groups.Poly.{
  Poly, front, top_of, build_levels, poly_build_product_tree, poly_linear_from_root,
  poly_from_roots,
}
use rf_class_groups.Poly.Values.{values_at, value}
use rf_class_groups.Poly.Degree.{length-top_of}
use rf_class_groups.Poly.Roots.{differences, poly_from_roots-differences}
use rf_class_groups.Poly.Karatsuba.{poly_mul_mod}
use rf_class_groups.Poly.Karatsuba.Reference.{karatsuba-IsProduct}
use rf_class_groups.Poly.Leading.{karatsuba-IsMonicProduct}
use rf_class_groups.Poly.Tree.{leaf_count}
use rf_class_groups.Poly.Tree.Leaves.{leaf_count-build_levels}
use rf_class_groups.Lagrange.{
  points_from, public_eval_points, factorials, denominator, weights, inverses_from,
}
use rf_class_groups.Lagrange.Points.{length-points_from, length-public_eval_points}
use rf_class_groups.Lagrange.Nodes.{below, denominator-differences, denominator-nonzero}
use rf_class_groups.Lagrange.Interpolation.{
  times_differences-IsPoly, below-IsPoly, weights_from, values_from, ws, interpolant-value,
  length-weights_from,
}
use rf_class_groups.Interpolation.{
  poly_derivative_mod, weighted_constants, combine_levels, lagrange_interpolate_from_tree,
  combine_levels_auto, public_product_tree, interpolate_by_tree,
}
use rf_class_groups.Multiplication.{ntt_poly_threshold}
use rf_class_groups.Multiplication.Trees.{poly_eval_batch_product_tree_auto}
use rf_class_groups.Multiplication.Unchanged.{
  poly_build_product_tree_auto-same, poly_eval_batch_product_tree_auto-values,
}
use rf_class_groups.Interpolation.Combined.{
  combine_levels_auto-same, tree-total, weighted_constants-weight,
}
use rf_class_groups.Interpolation.Derivative.{derivative-cofactor}
use rf_class_groups.Interpolation.Combine.{
  weighted_sum, combine_levels-sum, leaves-interpolant, combine_levels-joint_degrees,
  leaves-joint_degrees,
}

below-differences :
    (q x i n t : ℕ)
    → t ≡ i + n
    → below q x i * differences q (points_from i n) x ≡ differences q (points_from 0 t) x
unfolding points_from
below-differences q x zero n t e = let same : t ≡ n = omega arith in rw same (omega arith)
below-differences q x (suc i) n t e =
    mul-assoc (below q x i) (x + (q - suc i % q)) (differences q (points_from (suc i) n) x)
    ∙ below-differences q x i (suc n) t (omega arith)
  where
    mul-assoc : (a b c : ℕ) → a * b * c ≡ a * (b * c)
    mul-assoc a b c = omega arith

from_roots-top :
    (q : ℕ) (roots : List ℕ)
    → 1 ≤ length roots
    → poly_from_roots poly_mul_mod q roots ≡ top_of (poly_build_product_tree poly_mul_mod q roots)
unfolding poly_from_roots
from_roots-top q [] h = absurd (omega arith)
from_roots-top q (r ∷ roots) h = refl

module _ (mod_inverse : ℕ → ℕ → ℕ) (q : ℕ) (field : IsField mod_inverse q) (N : ℕ)
    (some_points : 1 ≤ N) (bound : N < q) where
  positive : 0 < q
  positive = omega (arith, field.0)

  abbrev top : Poly
  top = top_of (poly_build_product_tree poly_mul_mod q (points_from 0 N))

  top-differences : (x : ℕ) → Cong q (value top x) (differences q (points_from 0 N) x)
  top-differences x =
      ap (λ (p : Poly). value p x % q)
        (sym (from_roots-top q (points_from 0 N) (omega (arith, length-points_from 0 N))))
      ∙ poly_from_roots-differences poly_mul_mod q (karatsuba-IsProduct q positive)
          (points_from 0 N) x

  -- The derivative at a public point is its barycentric denominator.
  derivative-denominator :
      (i n : ℕ)
      → N ≡ i + suc n
      → Cong q (value (poly_derivative_mod top q) (suc i)) (denominator q (factorials q 1 0 N) i n)
  derivative-denominator i n e =
      let pts = points_from (suc i) n in
      let cofactor =
        times_differences-IsPoly q pts (suc i) N (λ x. below q x i)
          (omega (arith, length-points_from (suc i) n)) (below-IsPoly q i) in
      derivative-cofactor mod_inverse q field top cofactor.0 (suc i) N
        (omega (arith, length-top_of q positive (points_from 0 N), length-points_from 0 N))
        cofactor.1 bound
        (λ x.
          let f = x + (q - suc i % q) in
          top-differences x
          ∙ Cong-same q (differences q (points_from 0 N) x)
              (f * (below q x i * differences q pts x))
              (sym (below-differences q x i (suc n) N e) ∙ unfold points_from in omega arith)
          ∙ Cong-mul q f f (below q x i * differences q pts x) (value cofactor.0 x) refl
              (sym (cofactor.2 x)))
      ∙ cofactor.2 (suc i)
      ∙ sym (denominator-differences q field.0 N i n e)

  -- The constants at the leaves are the barycentric weights.
  constants-weights :
      (f : ℕ → ℕ) (i n : ℕ)
      → N ≡ i + n
      → weighted_constants mod_inverse q
          (values_from mod_inverse q field f i n)
          (values_at (poly_derivative_mod top q) (points_from i n) q)
        ≡ map (λ w. w ∷ []) (weights_from mod_inverse q field f N i n)
  unfolding weighted_constants weights_from values_from weights inverses_from points_from
  constants-weights f i zero e = refl
  constants-weights f i (suc n) e =
      let d = denominator q (factorials q 1 0 N) i n in
      let d' = value (poly_derivative_mod top q) (suc i) % q in
      let y = f (suc i) % q in
      let same : y * mod_inverse d' q % q ≡ y * mod_inverse d q % q = sym (
        Cong-mul q y y (mod_inverse d q) (mod_inverse d' q) refl (
          field-inverse mod_inverse q field d d'
            (denominator-nonzero mod_inverse q field N i n e (omega arith))
            (sym (
              Cong-mod q (value (poly_derivative_mod top q) (suc i))
              ∙ derivative-denominator i n e)))) in
      let rest = constants-weights f (suc i) n (omega arith) in rw (same, rest) refl

  -- The returns of the code, where its checks pass.
  from_tree :
      (mpz : Mpz) (getenv : Env) (y : List ℕ) (tree : List (List Poly)) (alpha denom : List ℕ)
      → mpz.mod_inverse ≡ mod_inverse
      → length y ≡ N
      → leaf_count tree ≡ N
      → poly_eval_batch_product_tree_auto mpz getenv (poly_derivative_mod (top_of tree) q) alpha q
        ≡ ok denom
      → rf_opa_eval_points mpz getenv N q ≡ ok alpha
      → combine_levels_auto mpz getenv q (weighted_constants mod_inverse q y denom) tree
        ≡ ok (combine_levels q (weighted_constants mod_inverse q y denom) tree)
      → lagrange_interpolate_from_tree mpz getenv y tree q
        ≡ ok (front (combine_levels q (weighted_constants mod_inverse q y denom) tree))
  unfolding lagrange_interpolate_from_tree
  from_tree mpz getenv [] tree alpha denom m h k e p c = absurd (omega arith)
  from_tree mpz getenv (y ∷ ys) tree alpha denom m h k e p c =
      rw (h, k, ==_refl N, p, e, ap (λ f. weighted_constants f q (y ∷ ys) denom) m, c) refl

  tree-levels :
      (roots : List ℕ)
      → 1 ≤ length roots
      → poly_build_product_tree poly_mul_mod q roots
        ≡ build_levels poly_mul_mod q (length roots) (map (λ r. poly_linear_from_root r q) roots)
  unfolding poly_build_product_tree
  tree-levels [] h = absurd (omega arith)
  tree-levels (r ∷ roots) h = refl

  module _ (p : Poly) (size : length p ≤ N) where
    abbrev ys : List ℕ
    ys = values_at p (public_eval_points N) q

    abbrev tree : List (List Poly)
    tree = poly_build_product_tree poly_mul_mod q (public_eval_points N)

    abbrev combined : Poly
    combined = front (
        combine_levels q
          (weighted_constants mod_inverse q ys
            (values_at (poly_derivative_mod top q) (public_eval_points N) q))
          tree)

    combined-value : (x : ℕ) → Cong q (value combined x) (value p x)
    unfolding public_eval_points values_from ws
    combined-value x =
        let pts = points_from 0 N in
        let weights = weights_from mod_inverse q field (value p) N 0 N in
        let level = map (λ r. poly_linear_from_root r q) pts in
        let acc = map (λ w. w ∷ []) weights in
        let many = length-points_from 0 N in
        let count = length-map weights (λ w. w ∷ []) in
        let leaves = length-map pts (λ r. poly_linear_from_root r q) in
        let total = length-weights_from mod_inverse q field (value p) N 0 N in
        rw (constants-weights (value p) 0 N (omega arith), tree-levels pts (omega (arith, many)))
          (combine_levels-sum q positive (length pts) acc level x
              (omega (arith, count, leaves, total, many)) (omega (arith, leaves, many))
              (omega (arith, leaves))
            ∙ Cong-same q (weighted_sum acc level x) (1 * weighted_sum acc level x) (omega arith)
            ∙ leaves-interpolant q positive weights pts 1 x
            ∙ interpolant-value mod_inverse q field p N x size (omega arith))

    combined-length : length combined ≤ suc N
    unfolding public_eval_points values_from ws
    combined-length =
        let pts = points_from 0 N in
        let weights = weights_from mod_inverse q field (value p) N 0 N in
        let level = map (λ r. poly_linear_from_root r q) pts in
        let acc = map (λ w. w ∷ []) weights in
        let many = length-points_from 0 N in
        let count = length-map weights (λ w. w ∷ []) in
        let leaves = length-map pts (λ r. poly_linear_from_root r q) in
        let total = length-weights_from mod_inverse q field (value p) N 0 N in
        rw (constants-weights (value p) 0 N (omega arith), tree-levels pts (omega (arith, many)))
          (omega (
            arith,
            combine_levels-joint_degrees q positive (length pts) acc level
                (omega (arith, count, leaves, total, many)) (omega (arith, leaves, many)),
            leaves-joint_degrees q positive weights pts,
            many,
          ))

    -- The code outside the domain, with the inverse that it calls.
    pub interpolate_by_tree-value :
        (mpz : Mpz) (getenv : Env) (threshold : ℕ)
        → IsMpz mpz ntt128_prime
        → ntt_poly_threshold getenv ≡ ok threshold
        → N ≤ 2 ^ 24
        → mpz.mod_inverse ≡ mod_inverse
        → ntt_domain_supported getenv q N ≡ false
        → (interpolate_by_tree mpz getenv ys q ≡ ok combined)
          × (length combined ≤ suc N)
          × ((x : ℕ) → Cong q (value combined x) (value p x))
    unfolding interpolate_by_tree public_product_tree rf_opa_eval_points public_eval_points_cached
    interpolate_by_tree-value mpz getenv threshold laws parses few m off =
        let points = public_eval_points N in
        let many : length points ≤ 2 ^ 24 = omega (arith, few, length-public_eval_points N) in
        let count : length ys ≡ N =
          length-map points (λ a. value p a % q) ∙ length-public_eval_points N in
        let denom = values_at (poly_derivative_mod top q) points q in
        let constants = weighted_constants mod_inverse q ys denom in
        (
          rw
              (
                count,
                off,
                poly_build_product_tree_auto-same mpz laws getenv threshold q positive parses points
                    many,
              )
              (from_tree mpz getenv ys tree points denom m count leaves
                (unfold public_eval_points in
                  poly_eval_batch_product_tree_auto-values mpz laws getenv threshold q positive
                    parses (poly_derivative_mod top q) (points_from 0 N) field.0
                    (omega (arith, few, length-points_from 0 N)))
                (rw off refl)
                (combine_levels_auto-same mpz laws getenv threshold q positive parses constants tree
                  (omega (
                    arith,
                    few,
                    count,
                    weighted_constants-weight mod_inverse q ys denom,
                    tree-total q positive points many,
                  )))),
          combined-length,
          combined-value,
        )
      where
        leaves : leaf_count tree ≡ N
        leaves =
            let many = length-public_eval_points N in
            ap leaf_count (tree-levels (public_eval_points N) (omega (arith, many)))
            ∙ leaf_count-build_levels poly_mul_mod q field.0 (karatsuba-IsProduct q positive)
                (karatsuba-IsMonicProduct q field.0) (length (public_eval_points N))
                (map (λ r. poly_linear_from_root r q) (public_eval_points N))
            ∙ length-map (public_eval_points N) (λ r. poly_linear_from_root r q)
            ∙ many
