-- ===== src/Multiplication/Trees.antt =====
-- poly_build_product_tree, poly_from_roots and poly_eval_batch_product_tree of cg_rf_common.hpp over a
-- product that may throw, as `poly_mul_mod` does.
use rf_class_groups.Base.{
  ℕ, zero, suc, ltb, if◌then◌else◌, List, [], ◌∷◌, map, length, Mpz, Result, ok, ◌>>=◌,
}
use rf_class_groups.Config.{Env}
use rf_class_groups.Poly.{Poly, top_of, poly_linear_from_root}
use rf_class_groups.Poly.Tree.{poly_eval_batch_with_product_tree}
use rf_class_groups.Public.{is_public_eval_points}
use rf_class_groups.Multiplication.{poly_mul_mod_auto}

module _ (multiply : Poly → Poly → ℕ → Result Poly) (q : ℕ) where
  -- One level from the level below it.
  unfoldable pub next_level : List Poly → Result (List Poly)
  next_level [] = ok []
  next_level (p ∷ []) = ok (p ∷ [])
  next_level (p ∷ p' ∷ prev) = do
    product ← multiply p p' q
    rest ← next_level prev
    ok (product ∷ rest)

  -- `while (levels.back().size() > 1)`, on fuel.
  unfoldable pub levels_above : ℕ → List Poly → Result (List (List Poly))
  levels_above zero level = ok (level ∷ [])
  levels_above (suc fuel) level =
      let rest =
        next_level level >>= λ next. levels_above fuel next >>= λ levels. ok (level ∷ levels) in
      if ltb 1 (length level) then rest else (ok (level ∷ []))

  -- A level is shorter than the one below it, so the number of points is enough fuel.
  unfoldable pub product_tree_of : List ℕ → Result (List (List Poly))
  product_tree_of [] = ok []
  product_tree_of (x ∷ points) =
      levels_above (length (x ∷ points)) (map (λ r. poly_linear_from_root r q) (x ∷ points))

  unfoldable pub polynomial_of_roots : List ℕ → Result Poly
  polynomial_of_roots [] = ok (1 ∷ [])
  polynomial_of_roots (r ∷ roots) = do tree ← product_tree_of (r ∷ roots); ok (top_of tree)

module _ (mpz : Mpz) (getenv : Env) where
  unfoldable pub poly_build_product_tree_auto : List ℕ → ℕ → Result (List (List Poly))
  poly_build_product_tree_auto points q = product_tree_of (poly_mul_mod_auto mpz getenv) q points

  unfoldable pub poly_from_roots_auto : List ℕ → ℕ → Result Poly
  poly_from_roots_auto roots q = polynomial_of_roots (poly_mul_mod_auto mpz getenv) q roots

  -- Where the points are the public ones, their cached tree is the tree of these points.
  unfoldable pub poly_eval_batch_product_tree_auto : Poly → List ℕ → ℕ → Result (List ℕ)
  poly_eval_batch_product_tree_auto coeffs [] q = ok []
  poly_eval_batch_product_tree_auto coeffs (x ∷ points) q = do
    is_public ← is_public_eval_points mpz getenv (x ∷ points) q
    tree ← poly_build_product_tree_auto (x ∷ points) q
    poly_eval_batch_with_product_tree coeffs tree (x ∷ points) q
