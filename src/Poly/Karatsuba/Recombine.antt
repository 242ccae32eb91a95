-- ===== src/Poly/Karatsuba/Recombine.antt =====
-- The sums and differences of Karatsuba's step, by their coefficients.
use rf_class_groups.Base.{
  ℕ, zero, suc, ◌+◌, ◌*◌, ◌≤◌, ◌<◌, ◌≡◌, refl, sym, ap, ◌∙◌, length, replicate, length-replicate,
  Cong, Cong-same, Cong-add, Cong-cancel, arith,
}
use native.Mathlib.Nat.{zero-mod}
use rf_class_groups.Poly.{Poly, poly_trim, add_each, poly_add_mod, poly_sub_mod}
use rf_class_groups.Poly.Series.{
  coefficient, cauchy, cauchy-sum_left, cauchy-sum_right, cauchy-delay_left, cauchy-delay_right,
  delay, delay-sum, delay-twice, AreSame,
}
use rf_class_groups.Poly.Coefficients.{coefficient-poly_sub_mod}
use rf_class_groups.Poly.Sizes.{length-poly_trim, length-add_each}
use rf_class_groups.Poly.Karatsuba.{add_at, recombine}
use rf_class_groups.Poly.Karatsuba.Split.{
  IsReduced, length-add_at, coefficient-add_at, add_at-IsReduced,
}

pub length-poly_add_mod :
    (a b : Poly) (q n : ℕ) → length a ≤ n → length b ≤ n → length (poly_add_mod a b q) ≤ n
unfolding poly_add_mod
length-poly_add_mod a b q n h k =
    omega (arith, length-poly_trim (add_each q a b), length-add_each q a b n h k)

coefficient-zeros : (n i : ℕ) → coefficient (replicate n 0) i ≡ 0
coefficient-zeros zero i = refl
coefficient-zeros (suc n) zero = refl
coefficient-zeros (suc n) (suc i) = coefficient-zeros n i

-- The product of the sums splits into four.
pub cauchy-split :
    (h : ℕ) (f f' g g' : ℕ → ℕ) (i : ℕ)
    → cauchy (λ j. f j + delay h f' j) (λ j. g j + delay h g' j) i
      ≡ cauchy f g i
        + delay h (λ j. cauchy f g' j + cauchy f' g j) i
        + delay (2 * h) (cauchy f' g') i
cauchy-split h f f' g g' i =
    let g+ = λ (j : ℕ). g j + delay h g' j in
    omega (
      arith,
      cauchy-sum_left f (delay h f') g+ i,
      cauchy-sum_right f g (delay h g') i,
      cauchy-delay_right h f g' i,
      cauchy-sum_right (delay h f') g (delay h g') i,
      cauchy-delay_left h f' g i,
      cauchy-delay_left h f' (delay h g') i,
      twice,
      delay-sum h (cauchy f g') (cauchy f' g) i,
    )
  where
    twice : delay h (cauchy f' (delay h g')) i ≡ delay (2 * h) (cauchy f' g') i
    twice =
        ap (λ (k : ℕ → ℕ). delay h k i) (λ t j. cauchy-delay_right h f' g' j t)
        ∙ delay-twice h h (cauchy f' g') i
        ∙ ap (λ (n : ℕ). delay n (cauchy f' g') i) {x = h + h} {y = 2 * h} (omega arith)

module _ (q : ℕ) (positive : 0 < q) where
  -- What is left of the product of the sums when the other two products are taken away.
  pub middle :
      (f f' g g' : ℕ → ℕ) (z0 z1 z2 : Poly)
      → AreSame q (coefficient z0) (cauchy f g)
      → AreSame q (coefficient z2) (cauchy f' g')
      → AreSame q (coefficient z1) (cauchy (λ i. f i + f' i) (λ i. g i + g' i))
      → AreSame q
          (coefficient (poly_sub_mod (poly_sub_mod z1 z0 q) z2 q))
          (λ i. cauchy f g' i + cauchy f' g i)
  middle f f' g g' z0 z1 z2 h0 h2 h1 i =
      let c = coefficient (poly_sub_mod (poly_sub_mod z1 z0 q) z2 q) i in
      let d = coefficient (poly_sub_mod z1 z0 q) i in
      let e0 = coefficient z0 i in
      let e2 = coefficient z2 i in
      let m = cauchy f g' i + cauchy f' g i in
      Cong-cancel q c m (e2 + e0) positive (
        Cong-same q (c + (e2 + e0)) (c + e2 + e0) (omega arith)
        ∙ Cong-add q (c + e2) d e0 e0
            (coefficient-poly_sub_mod q (poly_sub_mod z1 z0 q) z2 i positive) refl
        ∙ coefficient-poly_sub_mod q z1 z0 i positive
        ∙ h1 i
        ∙ Cong-same q (cauchy (λ j. f j + f' j) (λ j. g j + g' j) i)
            (m + (cauchy f' g' i + cauchy f g i))
            (omega (
              arith,
              cauchy-sum_left f f' (λ j. g j + g' j) i,
              cauchy-sum_right f g g' i,
              cauchy-sum_right f' g g' i,
            ))
        ∙ Cong-add q m m (cauchy f' g' i + cauchy f g i) (e2 + e0) refl
            (Cong-add q (cauchy f' g' i) e2 (cauchy f g i) e0 (sym (h2 i)) (sym (h0 i))))

  pub untrimmed : ℕ → ℕ → Poly → Poly → Poly → Poly
  untrimmed size half z0 z1 z2 =
      add_at (2 * half) q z2 (add_at half q z1 (add_at 0 q z0 (replicate size 0)))

  pub recombine-untrimmed :
      (size half : ℕ) (z0 z1 z2 : Poly)
      → recombine q size half z0 z1 z2 ≡ poly_trim (untrimmed size half z0 z1 z2)
  unfolding recombine untrimmed
  recombine-untrimmed size half z0 z1 z2 = refl

  pub length-untrimmed :
      (size half : ℕ) (z0 z1 z2 : Poly) → length (untrimmed size half z0 z1 z2) ≡ size
  unfolding untrimmed
  length-untrimmed size half z0 z1 z2 =
      length-add_at (2 * half) q z2 (add_at half q z1 (add_at 0 q z0 (replicate size 0)))
      ∙ length-add_at half q z1 (add_at 0 q z0 (replicate size 0))
      ∙ length-add_at 0 q z0 (replicate size 0)
      ∙ length-replicate {A = ℕ} size 0

  pub untrimmed-IsReduced :
      (size half : ℕ) (z0 z1 z2 : Poly) → IsReduced q (untrimmed size half z0 z1 z2)
  unfolding untrimmed
  untrimmed-IsReduced size half z0 z1 z2 i =
      add_at-IsReduced (2 * half) q z2 (add_at half q z1 (add_at 0 q z0 (replicate size 0)))
        (add_at-IsReduced half q z1 (add_at 0 q z0 (replicate size 0)) (
          add_at-IsReduced 0 q z0 (replicate size 0)
            (λ j. rw (coefficient-zeros size j) (zero-mod q))))
        i

  pub coefficient-untrimmed :
      (size half : ℕ) (z0 z1 z2 : Poly) (i : ℕ)
      → i < size
      → Cong q
          (coefficient (untrimmed size half z0 z1 z2) i)
          (coefficient z0 i + delay half (coefficient z1) i + delay (2 * half) (coefficient z2) i)
  unfolding untrimmed
  coefficient-untrimmed size half z0 z1 z2 i h =
      let start = replicate size 0 in
      let out₀ = add_at 0 q z0 start in
      let out₁ = add_at half q z1 out₀ in
      let l = length-replicate {A = ℕ} size 0 in
      let l₀ = length-add_at 0 q z0 start in
      let l₁ = length-add_at half q z1 out₀ in
      let d₁ = delay half (coefficient z1) i in
      let d₂ = delay (2 * half) (coefficient z2) i in
      coefficient-add_at (2 * half) q z2 out₁ i (omega (arith, l, l₀, l₁))
      ∙ Cong-add q (coefficient out₁ i) (coefficient z0 i + d₁) d₂ d₂
          (coefficient-add_at half q z1 out₀ i (omega (arith, l, l₀))
            ∙ Cong-add q (coefficient out₀ i) (coefficient z0 i) d₁ d₁
                (coefficient-add_at 0 q z0 start i (omega (arith, l))
                  ∙ Cong-same q (coefficient start i + coefficient z0 i) (coefficient z0 i)
                      (omega (arith, coefficient-zeros size i)))
                refl)
          refl
