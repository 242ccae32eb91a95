-- ===== src/Poly/Identity.antt =====
-- A polynomial with as many different roots as coefficients is zero at every point, so that two
-- polynomials which agree at enough points agree everywhere.
use rf_class_groups.Base.{
  ℕ, zero, suc, ◌+◌, ◌*◌, ◌%◌, ◌≤◌, ◌<◌, ◌≡◌, refl, sym, ap, ◌∙◌, List, [], ◌∷◌, length, All, Cong,
  Cong-add, Cong-mul, Cong-cancel, Cong-zero_add, IsField, field-cancel, arith,
}
use rf_class_groups.Poly.{Poly, sub_each}
use rf_class_groups.Poly.Values.{value, value-sub_each}
use rf_class_groups.Poly.Sizes.{length-sub_each}

-- What synthetic division by X - r leaves above the constant.
unfoldable pub quotient : ℕ → Poly → Poly
quotient r [] = []
quotient r (c ∷ []) = []
quotient r (c ∷ d ∷ ds) = value (d ∷ ds) r ∷ quotient r (d ∷ ds)

pub length-quotient : (r : ℕ) (p : Poly) (n : ℕ) → length p ≤ suc n → length (quotient r p) ≤ n
unfolding quotient
length-quotient r [] n h = omega arith
length-quotient r (c ∷ []) n h = omega arith
length-quotient r (c ∷ d ∷ ds) zero h = absurd (omega arith)
length-quotient r (c ∷ d ∷ ds) (suc n) h = omega (arith, length-quotient r (d ∷ ds) n (omega arith))

-- p(x) = p(r) + (x - r) * quotient(x), without a subtraction.
pub value-quotient :
    (r x : ℕ) (p : Poly)
    → value p x + r * value (quotient r p) x ≡ value p r + x * value (quotient r p) x
unfolding quotient
value-quotient r x [] = omega arith
value-quotient r x (c ∷ []) = omega arith
value-quotient r x (c ∷ d ∷ ds) = omega (arith, ap (λ (t : ℕ). x * t) (value-quotient r x (d ∷ ds)))

-- No two of the points are the same modulo `q`.
abbrev pub AreDistinct : ℕ → List ℕ → Type 0
AreDistinct q [] = Unit {0}
AreDistinct q (r ∷ rs) = All (λ s. ¬ Cong q r s) rs × AreDistinct q rs

module _ (mod_inverse : ℕ → ℕ → ℕ) (q : ℕ) (field : IsField mod_inverse q) where
  positive : 0 < q
  positive = omega (arith, field.0)

  quotient-root :
      (r s : ℕ) (p : Poly)
      → ¬ Cong q r s
      → Cong q (value p r) 0
      → Cong q (value p s) 0
      → Cong q (value (quotient r p) s) 0
  quotient-root r s p different hr hs =
      let v = value (quotient r p) s in
      field-cancel mod_inverse q field r s v different (
        ap (λ (t : ℕ). t % q) {x = r * v} {y = 0 + r * v} (omega arith)
        ∙ Cong-add q 0 (value p s) (r * v) (r * v) (sym hs) refl
        ∙ ap (λ (t : ℕ). t % q) (value-quotient r s p)
        ∙ Cong-add q (value p r) 0 (s * v) (s * v) hr refl
        ∙ ap (λ (t : ℕ). t % q) {x = 0 + s * v} {y = s * v} (omega arith))

  quotient-roots :
      (r : ℕ) (p : Poly) (rs : List ℕ)
      → All (λ s. ¬ Cong q r s) rs
      → Cong q (value p r) 0
      → All (λ s. Cong q (value p s) 0) rs
      → All (λ s. Cong q (value (quotient r p) s) 0) rs
  quotient-roots r p [] d hr hs = tt
  quotient-roots r p (s ∷ rs) d hr hs =
      (quotient-root r s p d.0 hr hs.0, quotient-roots r p rs d.1 hr hs.1)

  -- Modulo a prime, a polynomial that is zero at as many different points as it has coefficients is
  -- zero at every point.
  pub vanishing_everywhere :
      (p : Poly) (rs : List ℕ) (x : ℕ)
      → AreDistinct q rs
      → length p ≤ length rs
      → All (λ s. Cong q (value p s) 0) rs
      → Cong q (value p x) 0
  vanishing_everywhere [] [] x d h roots = refl
  vanishing_everywhere (c ∷ p) [] x d h roots = absurd (omega arith)
  vanishing_everywhere p (r ∷ rs) x d h roots =
      let v = value (quotient r p) x in
      let none =
        vanishing_everywhere (quotient r p) rs x d.1 (length-quotient r p _ h)
          (quotient-roots r p rs d.0 roots.0 roots.1) in
      ap (λ (t : ℕ). t % q) {x = value p x} {y = value p x + r * 0} (omega arith)
      ∙ Cong-add q (value p x) (value p x) (r * 0) (r * v) refl (Cong-mul q r r 0 v refl (sym none))
      ∙ ap (λ (t : ℕ). t % q) (value-quotient r x p)
      ∙ Cong-add q (value p r) 0 (x * v) (x * 0) roots.0 (Cong-mul q x x v 0 refl none)
      ∙ ap (λ (t : ℕ). t % q) {x = 0 + x * 0} {y = 0} (omega arith)

  zero_differences :
      (a b : Poly) (rs : List ℕ)
      → All (λ s. Cong q (value a s) (value b s)) rs
      → All (λ s. Cong q (value (sub_each q a b) s) 0) rs
  zero_differences a b [] agree = tt
  zero_differences a b (r ∷ rs) agree = (
    Cong-cancel q (value (sub_each q a b) r) 0 (value b r) positive
        (value-sub_each q a b r positive ∙ agree.0 ∙ sym (Cong-zero_add q (value b r))),
    zero_differences a b rs agree.1,
  )

  -- Modulo a prime, two polynomials with at most `n` coefficients that agree at `n` different points
  -- agree at every point.
  pub agreeing_everywhere :
      (a b : Poly) (rs : List ℕ) (x : ℕ)
      → AreDistinct q rs
      → length a ≤ length rs
      → length b ≤ length rs
      → All (λ s. Cong q (value a s) (value b s)) rs
      → Cong q (value a x) (value b x)
  agreeing_everywhere a b rs x d ha hb agree =
      let e =
        vanishing_everywhere (sub_each q a b) rs x d (length-sub_each q a b _ ha hb)
          (zero_differences a b rs agree) in
      sym (value-sub_each q a b x positive)
      ∙ Cong-add q (value (sub_each q a b) x) 0 (value b x) (value b x) e refl
      ∙ Cong-zero_add q (value b x)
