-- ===== src/Lagrange/Interpolation.antt =====
-- Barycentric evaluation gives the values of the polynomial that was evaluated at the public points.
use rf_class_groups.Base.{
  ◌<◌, ◌^◌, ℕ, zero, suc, ◌+◌, ◌*◌, ◌-◌, ◌%◌, ◌≤◌, ◌≡◌, refl, sym, ap, ◌∙◌, List, [], ◌∷◌, length,
  map, length-map, All, All-combine, Cong, Cong-same, Cong-mod, Cong-add, Cong-mul, Cong-mul_right,
  Cong-zero_add, IsField, ok, arith,
}
use native.Mathlib.Nat.{zero-mod}
use rf_class_groups.Poly.{Poly}
use rf_class_groups.Poly.Values.{value}
use rf_class_groups.Poly.Roots.{differences}
use rf_class_groups.Poly.Identity.{agreeing_everywhere}
use rf_class_groups.Poly.Functions.{
  IsPoly, IsPoly-same, IsPoly-zero, IsPoly-constant, IsPoly-add, IsPoly-scale, IsPoly-linear,
}
use rf_class_groups.Lagrange.{
  points_from, public_eval_points, factorials, denominator, inverses_from,
  lagrange_denominator_inverses, evaluate_at, weights, lagrange_eval_batch,
}
use rf_class_groups.Lagrange.Points.{length-points_from, points_from-AreDistinct, points-accepted}
use rf_class_groups.Lagrange.Nodes.{
  below, difference_above, denominator-differences, denominator-nonzero,
}
use rf_class_groups.Lagrange.Barycentric.{
  interpolant, interpolant-vanishes, evaluate_at-interpolant,
}

module _ (q : ℕ) where
  pub times_differences-IsPoly :
      (pts : List ℕ) (k t : ℕ) (f : ℕ → ℕ)
      → t ≡ k + length pts
      → IsPoly q k f
      → IsPoly q t (λ x. f x * differences q pts x)
  times_differences-IsPoly [] k t f e h =
      let same : t ≡ k = omega arith in
      rw same (IsPoly-same q k f (λ x. f x * 1) (λ x. Cong-same q (f x) (f x * 1) (omega arith)) h)
  times_differences-IsPoly (p ∷ pts) k t f e h =
      let c = q - p % q in
      IsPoly-same q t (λ x. f x * (x + c) * differences q pts x)
        (λ x. f x * ((x + c) * differences q pts x))
        (λ x.
          Cong-same q (f x * (x + c) * differences q pts x) (f x * ((x + c) * differences q pts x))
            (omega arith))
        (times_differences-IsPoly pts (suc k) t (λ x. f x * (x + c)) (omega arith)
          (IsPoly-linear q c k f h))

  pub below-IsPoly : (i : ℕ) → IsPoly q (suc i) (λ x. below q x i)
  below-IsPoly zero = IsPoly-constant q 1
  below-IsPoly (suc i) = IsPoly-linear q (q - suc i % q) (suc i) (λ x. below q x i) (below-IsPoly i)

  interpolant-IsPoly :
      (i n t : ℕ) (ws : List ℕ)
      → t ≡ i + n
      → IsPoly q t (λ x. interpolant q x (below q x i) (points_from i n) ws)
  unfolding points_from
  interpolant-IsPoly i zero t ws e = IsPoly-zero q t
  interpolant-IsPoly i (suc n) t [] e = IsPoly-zero q t
  interpolant-IsPoly i (suc n) t (w ∷ ws) e =
      let pts = points_from (suc i) n in
      IsPoly-add q t (λ x. w * below q x i * differences q pts x)
        (λ x. interpolant q x (below q x (suc i)) pts ws)
        (times_differences-IsPoly pts (suc i) t (λ x. w * below q x i)
          (omega (arith, length-points_from (suc i) n))
          (IsPoly-scale q w (suc i) (λ x. below q x i) (below-IsPoly i)))
        (interpolant-IsPoly (suc i) n t ws (omega arith))

  pub differences-members : 2 ≤ q → (pts : List ℕ) → All (λ p. Cong q (differences q pts p) 0) pts
  differences-members h [] = tt
  differences-members h (p ∷ pts) =
      let here = λ (x : ℕ). x + (q - p % q) in
      (
        Cong-mul_right q (p + (q - p % q)) 0 (differences q pts p) (
              Cong-same q (p + (q - p % q)) (p + 0 + (q - p % q)) (omega arith)
              ∙ difference_above q h p 0)
            ∙ Cong-same q (0 * differences q pts p) 0 (omega arith),
        All-combine (λ x. Cong q (differences q pts x) 0) (λ x. Cong q (differences q pts x) 0)
            (λ x. Cong q (here x * differences q pts x) 0) pts
            (λ x z z'.
              Cong-mul q (here x) (here x) (differences q pts x) 0 refl z
              ∙ Cong-same q (here x * 0) 0 (omega arith))
            (differences-members h pts) (differences-members h pts),
      )

module _ (mod_inverse : ℕ → ℕ → ℕ) (q : ℕ) (field : IsField mod_inverse q) (f : ℕ → ℕ) where
  -- The values of `f` at the points from index `i` on, and their weights among `N` points.
  unfoldable pub values_from : ℕ → ℕ → List ℕ
  values_from i n = map (λ p. f p % q) (points_from i n)

  unfoldable pub weights_from : ℕ → ℕ → ℕ → List ℕ
  weights_from N i n =
      weights q (values_from i n) (inverses_from mod_inverse q (factorials q 1 0 N) i n)

  own_term :
      (N i n : ℕ)
      → N ≡ i + suc n
      → N ≤ q
      → let d = denominator q (factorials q 1 0 N) i n in
        Cong q
          (f (suc i)
            % q
            * mod_inverse d q
            % q
            * below q (suc i) i
            * differences q (points_from (suc i) n) (suc i))
          (f (suc i))
  own_term N i n e h =
      let d = denominator q (factorials q 1 0 N) i n in
      let v = mod_inverse d q in
      let y = f (suc i) in
      let b = below q (suc i) i in
      let r = differences q (points_from (suc i) n) (suc i) in
      Cong-same q (y % q * v % q * b * r) (y % q * v % q * (b * r)) (omega arith)
      ∙ Cong-mul q (y % q * v % q) (y * v) (b * r) d
          (Cong-mod q (y % q * v) ∙ Cong-mul_right q (y % q) y v (Cong-mod q y))
          (sym (denominator-differences q field.0 N i n e))
      ∙ Cong-same q (y * v * d) (y * (d * v)) (omega arith)
      ∙ Cong-mul q y y (d * v) 1 refl
          (field.1 d (denominator-nonzero mod_inverse q field N i n e h))
      ∙ Cong-same q (y * 1) y (omega arith)

  nodes :
      (N i n : ℕ)
      → N ≡ i + n
      → N ≤ q
      → All
          (λ p. Cong q (interpolant q p (below q p i) (points_from i n) (weights_from N i n)) (f p))
          (points_from i n)
  unfolding points_from weights_from values_from weights inverses_from
  nodes N i zero e h = tt
  nodes N i (suc n) e h =
      let pts = points_from (suc i) n in
      let ws = weights_from N (suc i) n in
      let w = f (suc i) % q * mod_inverse (denominator q (factorials q 1 0 N) i n) q % q in
      let term = λ (x : ℕ). w * below q x i * differences q pts x in
      let rest = λ (x : ℕ). interpolant q x (below q x (suc i)) pts ws in
      (
        Cong-add q (term (suc i)) (f (suc i)) (rest (suc i)) 0 (own_term N i n e h)
              (interpolant-vanishes q (suc i) pts ws (below q (suc i) (suc i)) (below-own i))
            ∙ Cong-same q (f (suc i) + 0) (f (suc i)) (omega arith),
        All-combine (λ x. Cong q (differences q pts x) 0) (λ x. Cong q (rest x) (f x))
            (λ x. Cong q (term x + rest x) (f x)) pts
            (λ x z k.
              Cong-add q (term x) 0 (rest x) (f x)
                (Cong-mul q (w * below q x i) (w * below q x i) (differences q pts x) 0 refl z
                  ∙ Cong-same q (w * below q x i * 0) 0 (omega arith))
                k
              ∙ Cong-zero_add q (f x))
            (differences-members q field.0 pts) (nodes N (suc i) n (omega arith) h),
      )
    where
      below-own : (j : ℕ) → Cong q (below q (suc j) (suc j)) 0
      below-own j =
          let b = below q (suc j) j in
          Cong-mul q b b (suc j + (q - suc j % q)) 0 refl (
            Cong-same q (suc j + (q - suc j % q)) (suc j + 0 + (q - suc j % q)) (omega arith)
            ∙ difference_above q field.0 (suc j) 0)
          ∙ Cong-same q (b * 0) 0 (omega arith)

  pub length-weights_from : (N i n : ℕ) → length (weights_from N i n) ≡ n
  unfolding points_from weights_from values_from weights inverses_from
  length-weights_from N i zero = refl
  length-weights_from N i (suc n) = ap suc (length-weights_from N (suc i) n)

module _ (mod_inverse : ℕ → ℕ → ℕ) (q : ℕ) (field : IsField mod_inverse q) (p : Poly) where
  unfoldable pub ws : ℕ → List ℕ
  ws N = weights_from mod_inverse q field (value p) N 0 N

  -- The interpolant is the polynomial.
  pub interpolant-value :
      (N x : ℕ)
      → length p ≤ N
      → N ≤ q
      → Cong q (interpolant q x 1 (points_from 0 N) (ws N)) (value p x)
  unfolding ws
  interpolant-value N x h k =
      let g = interpolant-IsPoly q 0 N N (ws N) (omega arith) in
      let l = length-points_from 0 N in
      sym (g.2 x)
      ∙ agreeing_everywhere mod_inverse q field g.0 p (points_from 0 N) x
          (points_from-AreDistinct q 0 N k) (omega (arith, l, g.1)) (omega (arith, l))
          (All-combine (λ r. Cong q (interpolant q r 1 (points_from 0 N) (ws N)) (value p r))
            (λ r. Cong q (interpolant q r 1 (points_from 0 N) (ws N)) (value p r))
            (λ r. Cong q (value g.0 r) (value p r)) (points_from 0 N) (λ r e _. g.2 r ∙ e)
            (nodes mod_inverse q field (value p) N 0 N (omega arith) k)
            (nodes mod_inverse q field (value p) N 0 N (omega arith) k))

  -- Modulo a prime `q`, let `N` be below 2^31, at most `q` and at least the number of coefficients of
  -- a polynomial. From its values at the points 1, ..., N, barycentric evaluation returns its values,
  -- reduced modulo `q`, at every list of targets.
  pub lagrange_eval_batch-values :
      (N : ℕ) (targets : List ℕ)
      → length p ≤ N
      → N ≤ q
      → N < 2 ^ 31
      → lagrange_eval_batch mod_inverse (map (λ a. value p a % q) (public_eval_points N)) targets q
        ≡ ok (map (λ x. value p x % q) targets)
  unfolding lagrange_eval_batch public_eval_points points_from lagrange_denominator_inverses ws
      weights_from values_from
  lagrange_eval_batch-values zero targets h k l =
      ap (λ (f : ℕ → ℕ). ok (map f targets)) (λ i x. nothing x i)
    where
      nothing : (x : ℕ) → 0 ≡ value p x % q
      nothing x = sym (zero-mod q) ∙ interpolant-value 0 x h k
  lagrange_eval_batch-values (suc n) targets h k b =
      let l = length-map (points_from 1 n) (λ a. value p a % q) in
      let same : length (map (λ a. value p a % q) (points_from 1 n)) ≡ n =
        l ∙ length-points_from 1 n in
      rw (same, points-accepted (suc n) q k)
        (ap (λ (f : ℕ → ℕ). ok (map f targets)) (λ i x. at_target x i))
    where
      at_target : (x : ℕ) → evaluate_at q (ws (suc n)) x ≡ value p x % q
      at_target x =
          evaluate_at-interpolant q x n (ws (suc n))
            (length-weights_from mod_inverse q field (value p) (suc n) 0 (suc n)) (omega (arith, b))
          ∙ interpolant-value (suc n) x h k
