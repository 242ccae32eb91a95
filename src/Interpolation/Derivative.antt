-- ===== src/Interpolation/Derivative.antt =====
-- The derivative of the vanishing polynomial at one of its roots is the product of the differences to the
-- others.
use rf_class_groups.Base.{
  ℕ, suc, ◌+◌, ◌*◌, ◌-◌, ◌/◌, ◌%◌, ◌≤◌, ◌<◌, ◌≡◌, refl, sym, ap, ◌∙◌, List, [], ◌∷◌, length, All,
  Cong, Cong-same, Cong-mod, Cong-add, Cong-mul_right, Cong-zero_add, Cong-cancel, Cong-multiple,
  complement, IsField, field-cancel_left, arith,
}
use rf_class_groups.Poly.{Poly}
use rf_class_groups.Poly.Values.{value, value-poly_trim, Cong-cons}
use rf_class_groups.Poly.Identity.{quotient, length-quotient, value-quotient, agreeing_everywhere}
use rf_class_groups.Lagrange.{points_from}
use rf_class_groups.Lagrange.Points.{length-points_from, points-differ, points_from-AreDistinct}
use rf_class_groups.Interpolation.{derivative_from, poly_derivative_mod}

-- The derivative at a point, not reduced: from the coefficient of index `i` on.
abbrev pub slope_from : ℕ → Poly → ℕ → ℕ
slope_from i [] r = 0
slope_from i (c ∷ cs) r = c * i + r * slope_from (suc i) cs r

value-derivative_from :
    (q i : ℕ) (p : Poly) (r : ℕ) → Cong q (value (derivative_from q i p) r) (slope_from i p r)
unfolding derivative_from
value-derivative_from q i [] r = refl
value-derivative_from q i (c ∷ p) r =
    Cong-cons q (c * i % q) (c * i) (value (derivative_from q (suc i) p) r) (slope_from (suc i) p r)
      r (Cong-mod q (c * i)) (value-derivative_from q (suc i) p r)

-- The rule for the product with X.
slope-suc : (i : ℕ) (p : Poly) (r : ℕ) → slope_from (suc i) p r ≡ value p r + slope_from i p r
slope-suc i [] r = omega arith
slope-suc i (c ∷ p) r = omega (arith, ap (λ (t : ℕ). r * t) (slope-suc (suc i) p r))

slope-quotient : (c : ℕ) (p : Poly) (r : ℕ) → slope_from 1 p r ≡ value (quotient r (c ∷ p)) r
unfolding quotient
slope-quotient c [] r = refl
slope-quotient c (d ∷ p) r =
    let v = value (d ∷ p) r in
    slope-suc 0 (d ∷ p) r ∙ ap (λ (t : ℕ). v + (d * 0 + r * t)) (slope-quotient d p r) ∙ omega arith

-- At the point itself the derivative is the value of what synthetic division leaves.
derivative-quotient :
    (q : ℕ) (p : Poly) (r : ℕ) → Cong q (value (poly_derivative_mod p q) r) (value (quotient r p) r)
unfolding poly_derivative_mod quotient
derivative-quotient q [] r = Cong-same q (0 + r * 0) 0 (omega arith)
derivative-quotient q (c ∷ []) r = Cong-same q (0 + r * 0) 0 (omega arith)
derivative-quotient q (c ∷ d ∷ p) r = rw (value-poly_trim (derivative_from q 1 (d ∷ p)) r) (
    value-derivative_from q 1 (d ∷ p) r
    ∙ Cong-same q (slope_from 1 (d ∷ p) r) (value (quotient r (c ∷ d ∷ p)) r)
        (slope-quotient c (d ∷ p) r))

module _ (mod_inverse : ℕ → ℕ → ℕ) (q : ℕ) (field : IsField mod_inverse q) (p e : Poly) (r n : ℕ)
    (size_p : length p ≤ suc n) (size_e : length e ≤ n) (bound : n < q)
    (factor : (x : ℕ) → Cong q (value p x) ((x + (q - r % q)) * value e x)) where
  positive : 0 < q
  positive = omega (arith, field.0)

  apart : (x : ℕ) → Cong q (x + (q - r % q) + r) x
  apart x =
      Cong-same q (x + (q - r % q) + r) (x + q * (r / q + 1))
        (omega (arith, complement q r positive))
      ∙ Cong-multiple q x (r / q + 1)

  root : Cong q (value p r) 0
  root =
      factor r
      ∙ Cong-mul_right q (r + (q - r % q)) 0 (value e r) (
          Cong-same q (r + (q - r % q)) (0 + q * (r / q + 1))
            (omega (arith, complement q r positive))
          ∙ Cong-multiple q 0 (r / q + 1))
      ∙ Cong-same q (0 * value e r) 0 (omega arith)

  -- Away from the root both cofactors have the same values.
  same_cofactor : (x : ℕ) → ¬ Cong q r x → Cong q (value (quotient r p) x) (value e x)
  same_cofactor x different =
      let v = value (quotient r p) x in
      let d = x + (q - r % q) in
      field-cancel_left mod_inverse q field d v (value e x)
        (λ z. different (sym (Cong-zero_add q r) ∙ Cong-add q 0 d r r (sym z) refl ∙ apart x))
        (Cong-cancel q (d * v) (d * value e x) (r * v) positive (
          Cong-same q (d * v + r * v) ((d + r) * v) (omega arith)
          ∙ Cong-mul_right q (d + r) x v (apart x)
          ∙ sym (Cong-zero_add q (x * v))
          ∙ Cong-add q 0 (value p r) (x * v) (x * v) (sym root) refl
          ∙ Cong-same q (value p r + x * v) (value p x + r * v) (sym (value-quotient r x p))
          ∙ Cong-add q (value p x) (d * value e x) (r * v) (r * v) (factor x) refl))

  cofactors_agree :
      (points : List ℕ)
      → All (λ x. ¬ Cong q r x) points
      → All (λ x. Cong q (value (quotient r p) x) (value e x)) points
  cofactors_agree [] h = tt
  cofactors_agree (x ∷ points) h = (same_cofactor x h.0, cofactors_agree points h.1)

  -- Where a polynomial is X - r times another, its derivative at r is the value of the other there.
  pub derivative-cofactor : Cong q (value (poly_derivative_mod p q) r) (value e r)
  derivative-cofactor =
      let l = length-points_from r n in
      derivative-quotient q p r
      ∙ agreeing_everywhere mod_inverse q field (quotient r p) e (points_from r n) r
          (points_from-AreDistinct q r n (omega arith))
          (omega (arith, l, length-quotient r p n size_p)) (omega (arith, l))
          (cofactors_agree (points_from r n) (points-differ q r r n (omega arith) (omega arith)))
