-- ===== src/Lagrange/Points.antt =====
-- The public points are different modulo `q` where the code accepts their number.
use rf_class_groups.Base.{
  ℕ, zero, suc, ◌+◌, ◌-◌, ◌≤◌, ◌<◌, ◌≡◌, refl, ap, ◌∙◌, length, All, Cong, Cong-same, Cong-cancel,
  ok, arith,
}
use native.Mathlib.Nat.{mod-eq_of_lt, zero-mod}
use rf_class_groups.Poly.Identity.{AreDistinct}
use rf_class_groups.Lagrange.{points_from, public_eval_points, require_public_eval_points_distinct}

pub length-points_from : (i n : ℕ) → length (points_from i n) ≡ n
unfolding points_from
length-points_from i zero = refl
length-points_from i (suc n) = ap suc (length-points_from (suc i) n)

pub length-public_eval_points : (n : ℕ) → length (public_eval_points n) ≡ n
unfolding public_eval_points
length-public_eval_points n = length-points_from 0 n

-- Numbers whose distance is below `q`.
pub different_points : (q r d : ℕ) → 1 ≤ d → d < q → ¬ Cong q r (r + d)
different_points q r d h k e =
    let apart =
      Cong-cancel q 0 d r (omega arith)
        (Cong-same q (0 + r) r (omega arith) ∙ e ∙ Cong-same q (r + d) (d + r) (omega arith)) in
    absurd (omega (arith, apart, zero-mod q, mod-eq_of_lt k))

pub points-differ :
    (q r i n : ℕ) → r ≤ i → i + n < r + q → All (λ s. ¬ Cong q r s) (points_from i n)
unfolding points_from
points-differ q r i zero h k = tt
points-differ q r i (suc n) h k =
    let same : suc i ≡ r + (suc i - r) = omega arith in
    (
      rw same (different_points q r (suc i - r) (omega arith) (omega arith)),
      points-differ q r (suc i) n (omega arith) (omega arith),
    )

pub points_from-AreDistinct : (q i n : ℕ) → n ≤ q → AreDistinct q (points_from i n)
unfolding points_from
points_from-AreDistinct q i zero h = tt
points_from-AreDistinct q i (suc n) h = (
  points-differ q (suc i) (suc i) n (omega arith) (omega arith),
  points_from-AreDistinct q (suc i) n (omega arith),
)

pub points-accepted : (n q : ℕ) → n ≤ q → require_public_eval_points_distinct n q ≡ ok tt
unfolding require_public_eval_points_distinct
points-accepted n q h = ground arith

pub accepted-bound : (n q : ℕ) → require_public_eval_points_distinct n q ≡ ok tt → n ≤ q
unfolding require_public_eval_points_distinct
accepted-bound n q h = ground arith

-- Where the code accepts a number of points, no two of the public evaluation points are the same
-- modulo `q`.
pub accepted_points-AreDistinct :
    (n q : ℕ)
    → require_public_eval_points_distinct n q ≡ ok tt
    → AreDistinct q (public_eval_points n)
unfolding public_eval_points
accepted_points-AreDistinct n q h = points_from-AreDistinct q 0 n (accepted-bound n q h)
