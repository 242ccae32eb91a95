-- ===== src/Poly/Tree.antt =====
-- Evaluation at many points by the product tree of cg_rf_common.hpp.
pub mod Descent
pub mod Leaves
use rf_class_groups.Base.{
  ℕ, zero, suc, ◌%◌, ◌==◌, not, List, [], ◌∷◌, map, length, Result, ok, err, ◌>>=◌, ◌>>◌, reject_if,
  size_mismatch,
}
use rf_class_groups.Poly.{Poly, front, poly_mod_monic, poly_build_product_tree}

-- The remainders of one level from those of the level above it: the entry at `i` gives those at
-- `2 * i` and, where the level has it, at `2 * i + 1`.
pub child_remainders : ℕ → List Poly → List Poly → Result (List Poly)
child_remainders q [] divisors = ok []
child_remainders q (r ∷ rems) [] = ok []
child_remainders q (r ∷ rems) (d ∷ []) = do left ← poly_mod_monic r d q; ok (left ∷ [])
child_remainders q (r ∷ rems) (d ∷ d' ∷ divisors) = do
  left ← poly_mod_monic r d q
  right ← poly_mod_monic r d' q
  rest ← child_remainders q rems divisors
  ok (left ∷ right ∷ rest)

-- The remainders at the lowest of the levels, from the root down.
pub tree_remainders : ℕ → Poly → List (List Poly) → Result (List Poly)
tree_remainders q coeffs [] = ok []
tree_remainders q coeffs (level ∷ []) = do
  rem ← poly_mod_monic coeffs (front level) q
  ok (rem ∷ [])
tree_remainders q coeffs (level ∷ level' ∷ levels) = do
  rems ← tree_remainders q coeffs (level' ∷ levels)
  child_remainders q rems level

-- `rems[i][0] % q`, or the initial 0.
pub leaf_value : ℕ → Poly → ℕ
leaf_value q [] = 0
leaf_value q (c ∷ cs) = c % q

-- `levels[0].size()`, or 0 for a tree without levels.
unfoldable pub leaf_count : List (List Poly) → ℕ
leaf_count [] = 0
leaf_count (level ∷ levels) = length level

pub poly_eval_batch_with_product_tree : Poly → List (List Poly) → List ℕ → ℕ → Result (List ℕ)
poly_eval_batch_with_product_tree coeffs tree [] q = ok []
poly_eval_batch_with_product_tree [] tree (x ∷ points) q = ok (map (λ p. 0) (x ∷ points))
poly_eval_batch_with_product_tree (c ∷ coeffs) tree (x ∷ points) q = do
  reject_if (not (leaf_count tree == length (x ∷ points))) size_mismatch
  rems ← tree_remainders q (c ∷ coeffs) tree
  ok (map (leaf_value q) rems)

-- The cached tree of the public points is the tree of these points.
unfoldable pub poly_eval_batch_product_tree :
    (Poly → Poly → ℕ → Poly) → Poly → List ℕ → ℕ → Result (List ℕ)
poly_eval_batch_product_tree multiply coeffs points q =
    poly_eval_batch_with_product_tree coeffs (poly_build_product_tree multiply q points) points q
