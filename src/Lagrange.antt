-- ===== src/Lagrange.antt =====
-- The public evaluation points of cg_rf_common.hpp and the barycentric evaluation of a polynomial that
-- is given by its values there. The points are 1, 2, ..., N, as outside the domain of the transform.
pub mod Points
pub mod Nodes
pub mod Barycentric
pub mod Interpolation
use rf_class_groups.Base.{
  ℕ, zero, suc, ◌+◌, ◌*◌, ◌-◌, ◌%◌, List, [], ◌∷◌, map, length, get_or, replicate, int_pred, ltb,
  ◌==◌, if◌then◌else◌, sub_mod, Result, ok, ◌>>=◌, ◌>>◌, reject_if, points_collide,
}

-- `alpha[i] = i + 1` from index `i` on, for `n` indices.
unfoldable pub points_from : ℕ → ℕ → List ℕ
points_from i zero = []
points_from i (suc n) = suc i ∷ points_from (suc i) n

-- The points of `public_eval_points_cached` outside the domain.
unfoldable pub public_eval_points : ℕ → List ℕ
public_eval_points n = points_from 0 n

pub require_public_eval_points_distinct : ℕ → ℕ → Result (Unit {0})
require_public_eval_points_distinct n_pts q =
    if n_pts == 0 then ok tt else reject_if (ltb q n_pts) points_collide

-- `fact[i]` and what follows it, for `n` indices.
pub factorials : ℕ → ℕ → ℕ → ℕ → List ℕ
factorials q fact i zero = []
factorials q fact i (suc n) = fact ∷ factorials q (fact * suc i % q) (suc i) n

-- D_i = i! (N-1-i)! with its sign, where `left` is N - 1 - i.
pub denominator : ℕ → List ℕ → ℕ → ℕ → ℕ
denominator q fact i left =
    let d = get_or fact i 0 * get_or fact left 0 % q in if left % 2 == 0 then d else (q - d)

-- `left_products[i]` is the product of xi - (j+1) over the j < i; `cur` is the entry at `i`, and `n`
-- entries come after it.
pub left_products : ℕ → ℕ → ℕ → ℕ → ℕ → List ℕ
left_products q xi i cur zero = cur ∷ []
left_products q xi i cur (suc n) =
    cur ∷ left_products q xi (suc i) (cur * sub_mod xi (suc i) q % q) n

-- `for (int i = (int)N - 1; i > 0; --i)`: the entry at `i` is `cur`, those above it are in `out`.
pub right_products : ℕ → ℕ → ℕ → ℕ → List ℕ → List ℕ
right_products q xi zero cur out = cur ∷ out
right_products q xi (suc i) cur out =
    right_products q xi i (cur * sub_mod xi (suc (suc i)) q % q) (cur ∷ out)

-- `res += W[i] * L[i] * R[i]`.
pub barycentric_sum : ℕ → ℕ → List ℕ → List ℕ → List ℕ → ℕ
barycentric_sum q res (w ∷ ws) (l ∷ ls) (r ∷ rs) =
    barycentric_sum q ((res + w * l % q * r % q) % q) ws ls rs
barycentric_sum q res _ _ _ = res

-- One target. The loop down starts at the int `(int)N - 1`; the entries above that stay 1.
pub evaluate_at : ℕ → List ℕ → ℕ → ℕ
evaluate_at q ws xi =
    let last = length ws - 1 in
    let start = int_pred (length ws) in
    barycentric_sum q 0 ws (left_products q xi 0 1 last)
      (right_products q xi start 1 (replicate (last - start) 1))

-- `W[i] = y[i] * D_inv[i]`.
unfoldable pub weights : ℕ → List ℕ → List ℕ → List ℕ
weights q (y ∷ ys) (d ∷ ds) = (y * d % q) ∷ weights q ys ds
weights q _ _ = []

module _ (mod_inverse : ℕ → ℕ → ℕ) where
  -- The inverses from index `i` on, for `n` indices.
  unfoldable pub inverses_from : ℕ → List ℕ → ℕ → ℕ → List ℕ
  inverses_from q fact i zero = []
  inverses_from q fact i (suc n) =
      mod_inverse (denominator q fact i n) q ∷ inverses_from q fact (suc i) n

  -- Without the cache.
  pub lagrange_denominator_inverses : ℕ → ℕ → Result (List ℕ)
  lagrange_denominator_inverses N q = do
    require_public_eval_points_distinct N q
    ok (inverses_from q (factorials q 1 0 N) 0 N)

  unfoldable pub lagrange_eval_batch : List ℕ → List ℕ → ℕ → Result (List ℕ)
  lagrange_eval_batch [] targets q = ok (map (λ xi. 0) targets)
  lagrange_eval_batch (y ∷ ys) targets q = do
    D_inv ← lagrange_denominator_inverses (length (y ∷ ys)) q
    ok (map (evaluate_at q (weights q (y ∷ ys) D_inv)) targets)
