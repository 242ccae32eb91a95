-- ===== src/Poly/Horner.antt =====
-- The Horner loop of `eval_poly_horner` computes the value of the polynomial.
use rf_class_groups.Base.{
  ℕ, zero, suc, ◌+◌, ◌*◌, ◌%◌, ◌^◌, ◌≤◌, ◌≡◌, refl, sym, ap, ◌∙◌, [], ◌∷◌, length, take, get_or,
  Cong, Cong-mod, Cong-add, Cong-mul_right, arith,
}
use native.Mathlib.Nat.{pow-zero, pow-suc, mod-mod, zero-mod}
use rf_class_groups.Ope.{horner_loop, horner_of_size, eval_poly_horner}
use rf_class_groups.Poly.{Poly}
use rf_class_groups.Poly.Values.{value}
use rf_class_groups.Poly.Division.{value-take-suc}
use rf_class_groups.Poly.Remainder.{take-all}

module _ (coeffs : Poly) (alpha q : ℕ) where
  horner_loop-value :
      (n acc : ℕ)
      → n ≤ length coeffs
      → Cong q (horner_loop coeffs alpha q n acc) (value (take n coeffs) alpha + acc * alpha ^ n)
  unfolding horner_loop
  horner_loop-value zero acc h =
      ap (λ (t : ℕ). t % q) {x = acc} {y = 0 + acc * alpha ^ zero}
        (rw (pow-zero alpha) (omega arith))
  horner_loop-value (suc n) acc h =
      let c = get_or coeffs n 0 in
      horner_loop-value n ((acc * alpha + c) % q) (omega arith)
      ∙ Cong-add q (value (take n coeffs) alpha) (value (take n coeffs) alpha)
          ((acc * alpha + c) % q * alpha ^ n) ((acc * alpha + c) * alpha ^ n) refl
          (Cong-mul_right q ((acc * alpha + c) % q) (acc * alpha + c) (alpha ^ n) (Cong-mod q _))
      ∙ ap (λ (t : ℕ). t % q) {x = value (take n coeffs) alpha + (acc * alpha + c) * alpha ^ n}
          {y = value (take (suc n) coeffs) alpha + acc * alpha ^ suc n}
          (rw (value-take-suc n coeffs alpha (omega arith), pow-suc alpha n) (omega arith))

  horner_loop-reduced :
      (n acc : ℕ)
      → acc % q ≡ acc
      → horner_loop coeffs alpha q n acc % q ≡ horner_loop coeffs alpha q n acc
  unfolding horner_loop
  horner_loop-reduced zero acc h = h
  horner_loop-reduced (suc n) acc h =
      horner_loop-reduced n ((acc * alpha + get_or coeffs n 0) % q) (mod-mod _ q)

  of_size : (d : ℕ) → length coeffs ≡ d → horner_of_size coeffs alpha q d ≡ value coeffs alpha % q
  unfolding horner_of_size
  of_size zero e = sym (zero-mod q) ∙ ap (λ (t : ℕ). t % q) (empty coeffs e)
    where
      empty : (p : Poly) → length p ≡ 0 → 0 ≡ value p alpha
      empty [] e = refl
      empty (c ∷ p) e = absurd (omega arith)
  of_size (suc d) e =
      let c = get_or coeffs d 0 in
      sym (horner_loop-reduced d (c % q) (mod-mod c q))
      ∙ horner_loop-value d (c % q) (omega arith)
      ∙ Cong-add q (value (take d coeffs) alpha) (value (take d coeffs) alpha) (c % q * alpha ^ d)
          (c * alpha ^ d) refl (Cong-mul_right q (c % q) c (alpha ^ d) (Cong-mod q c))
      ∙ ap (λ (t : ℕ). t % q)
          (sym (value-take-suc d coeffs alpha (omega arith))
            ∙ ap (λ (w : ℕ). value (take w coeffs) alpha) (sym e)
            ∙ ap (λ (p : Poly). value p alpha) (take-all coeffs))

  -- Horner's rule from the highest coefficient down, with a reduction modulo `q` in every step, gives
  -- the sum of the coefficients times the powers of the point, reduced modulo `q`.
  pub eval_poly_horner-value : eval_poly_horner coeffs alpha q ≡ value coeffs alpha % q
  unfolding eval_poly_horner
  eval_poly_horner-value = of_size (length coeffs) refl
