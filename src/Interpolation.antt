-- ===== src/Interpolation.antt =====
-- Interpolation to coefficients by the product tree in cg_rf_common.hpp, and the choice between it and
-- barycentric evaluation, after the inverse transform where the points are those of the domain. NTL is
-- not compiled in.
pub mod Derivative
pub mod Combine
pub mod Combined
pub mod FromTree
pub mod Coefficients
pub mod Policy
use rf_class_groups.Base.{
  ℕ, zero, suc, ◌*◌, ◌%◌, ◌<◌, ltb, ◌==◌, not, if◌then◌else◌, max, List, [], ◌∷◌, map, length,
  Result, ok, err, ◌>>=◌, ◌>>◌, reject_if, size_mismatch, Mpz,
}
use rf_class_groups.Config.{Env, size_or}
use rf_class_groups.Poly.{Poly, poly_trim, poly_add_mod, front, top_of}
use rf_class_groups.Poly.Karatsuba.{poly_mul_mod}
use rf_class_groups.Poly.Tree.{leaf_count}
use rf_class_groups.Multiplication.{poly_mul_mod_auto}
use rf_class_groups.Multiplication.Trees.{
  poly_build_product_tree_auto, poly_eval_batch_product_tree_auto,
}
use rf_class_groups.Evaluation.{poly_eval_batch_auto}
use rf_class_groups.Lagrange.{lagrange_eval_batch}
use rf_class_groups.Ntt.{ntt_domain_supported, lagrange_interpolate_ntt}
use rf_class_groups.Public.{public_eval_points_cached, rf_opa_eval_points}

-- `d[i - 1] = p[i] * i` from index `i` on.
pub derivative_from : ℕ → ℕ → Poly → Poly
derivative_from q i [] = []
derivative_from q i (c ∷ cs) = (c * i % q) ∷ derivative_from q (suc i) cs

pub poly_derivative_mod : Poly → ℕ → Poly
poly_derivative_mod [] q = 0 ∷ []
poly_derivative_mod (c ∷ []) q = 0 ∷ []
poly_derivative_mod (c ∷ d ∷ p) q = poly_trim (derivative_from q 1 (d ∷ p))

-- One level of the combination below, but with products by Karatsuba's recursion alone: what
-- `combine_pairs_auto` is compared with.
unfoldable pub combine_pairs : ℕ → List Poly → List Poly → List Poly
combine_pairs q (a ∷ a' ∷ acc) (p ∷ p' ∷ polys) =
    poly_add_mod (poly_mul_mod a p' q) (poly_mul_mod a' p q) q ∷ combine_pairs q acc polys
combine_pairs q (a ∷ []) polys = a ∷ []
combine_pairs q _ _ = []

-- All levels, with the same products: what `combine_levels_auto` is compared with.
unfoldable pub combine_levels : ℕ → List Poly → List (List Poly) → List Poly
combine_levels q acc (level ∷ level' ∷ levels) =
    combine_levels q (combine_pairs q acc level) (level' ∷ levels)
combine_levels q acc _ = acc

-- `y[i]` times the inverse of `denom[i]`, as constants.
pub weighted_constants : (ℕ → ℕ → ℕ) → ℕ → List ℕ → List ℕ → List Poly
weighted_constants mod_inverse q (y ∷ ys) (d ∷ denom) =
    ((y * mod_inverse d q % q) ∷ []) ∷ weighted_constants mod_inverse q ys denom
weighted_constants mod_inverse q _ _ = []

unfoldable pub psi_lagrange_to_coeff_threshold : Env → Result ℕ
psi_lagrange_to_coeff_threshold getenv =
    size_or getenv (getenv "CG_PSI_INTERP_TO_COEFF_THRESHOLD") 4096

module _ (mpz : Mpz) where
  -- One level of the combination: `next[i]` from the entries and the tree's polynomials at `2 * i` and
  -- `2 * i + 1`, by products that may throw.
  unfoldable pub combine_pairs_auto : Env → ℕ → List Poly → List Poly → Result (List Poly)
  combine_pairs_auto getenv q (a ∷ a' ∷ acc) (p ∷ p' ∷ polys) = do
    left ← poly_mul_mod_auto mpz getenv a p' q
    right ← poly_mul_mod_auto mpz getenv a' p q
    rest ← combine_pairs_auto getenv q acc polys
    ok (poly_add_mod left right q ∷ rest)
  combine_pairs_auto getenv q (a ∷ []) polys = ok (a ∷ [])
  combine_pairs_auto getenv q _ _ = ok []

  -- `for (level = 0; level + 1 < levels.size(); ++level)`.
  unfoldable pub combine_levels_auto : Env → ℕ → List Poly → List (List Poly) → Result (List Poly)
  combine_levels_auto getenv q acc (level ∷ level' ∷ levels) =
      combine_pairs_auto getenv q acc level >>= λ next.
      combine_levels_auto getenv q next (level' ∷ levels)
  combine_levels_auto getenv q acc _ = ok acc

  pub lagrange_interpolate_from_tree : Env → List ℕ → List (List Poly) → ℕ → Result Poly
  lagrange_interpolate_from_tree getenv [] tree q = ok (0 ∷ [])
  lagrange_interpolate_from_tree getenv (y ∷ ys) tree q = do
    let N = length (y ∷ ys)
    reject_if (not (leaf_count tree == N)) size_mismatch
    alpha ← rf_opa_eval_points mpz getenv N q
    denom ←
        poly_eval_batch_product_tree_auto mpz getenv (poly_derivative_mod (top_of tree) q) alpha q
    acc ← combine_levels_auto getenv q (weighted_constants mpz.mod_inverse q (y ∷ ys) denom) tree
    ok (front acc)

  -- `public_product_tree_cached`, without the cache.
  pub public_product_tree : Env → ℕ → ℕ → Result (List (List Poly))
  public_product_tree getenv n q = do
    alpha ← public_eval_points_cached mpz getenv n q
    poly_build_product_tree_auto mpz getenv alpha q

  pub interpolate_by_tree : Env → List ℕ → ℕ → Result Poly
  interpolate_by_tree getenv y q = do
    tree ← public_product_tree getenv (length y) q
    lagrange_interpolate_from_tree getenv y tree q

  pub lagrange_interpolate_public_points : Env → List ℕ → ℕ → Result Poly
  lagrange_interpolate_public_points getenv y q =
      if ntt_domain_supported getenv q (length y)
      then lagrange_interpolate_ntt mpz getenv y q
      else interpolate_by_tree getenv y q

  -- What follows the interpolation, whichever it was.
  pub evaluate_interpolated : Env → Result Poly → List ℕ → ℕ → Result (List ℕ)
  evaluate_interpolated getenv interpolated targets q = do
    coeffs ← interpolated
    poly_eval_batch_auto mpz getenv coeffs targets q

  pub evaluate_values : Env → ℕ → List ℕ → List ℕ → ℕ → Result (List ℕ)
  evaluate_values getenv threshold [] targets q = ok (map (λ x. 0) targets)
  evaluate_values getenv threshold (y ∷ ys) [] q = ok []
  evaluate_values getenv threshold (y ∷ ys) (x ∷ targets) q =
      if ntt_domain_supported getenv q (length (y ∷ ys))
      then evaluate_interpolated getenv (lagrange_interpolate_ntt mpz getenv (y ∷ ys) q)
          (x ∷ targets) q
      else if ltb (max (length (y ∷ ys)) (length (x ∷ targets))) threshold
      then lagrange_eval_batch mpz.mod_inverse (y ∷ ys) (x ∷ targets) q
      else evaluate_interpolated getenv (lagrange_interpolate_public_points getenv (y ∷ ys) q)
          (x ∷ targets) q

  pub lagrange_eval_batch_auto : Env → List ℕ → List ℕ → ℕ → Result (List ℕ)
  lagrange_eval_batch_auto getenv y targets q = do
    threshold ← psi_lagrange_to_coeff_threshold getenv
    evaluate_values getenv threshold y targets q
