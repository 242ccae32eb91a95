-- ===== src/Poly/Karatsuba/Reference.antt =====
-- Karatsuba's recursion computes the same polynomial as the quadratic loop.
use rf_class_groups.Base.{
  ℕ, zero, suc, ◌+◌, ◌*◌, ◌-◌, ◌%◌, max, ◌≤◌, ◌<◌, ◌≡◌, ◌⊎◌, inl, inr, refl, sym, ap, ◌∙◌, [], ◌∷◌,
  length, Cong, Cong-same, Cong-add, Bool-cases, ltb, ◌||◌, arith,
}
use rf_class_groups.Poly.{
  Poly, poly_trim, reduce_each, poly_add_mod, poly_sub_mod, poly_mul_naive_mod,
}
use rf_class_groups.Poly.Series.{
  coefficient, coefficient-beyond, coefficients-determine, cauchy, cauchy-AreSame, delay,
  delay-AreSame, AreSame,
}
use rf_class_groups.Poly.Coefficients.{
  coefficient-reduce_each, coefficient-poly_add_mod, all_rows, length-all_rows,
  coefficient-all_rows, naive-all_rows, coefficient-poly_mul_naive_mod,
}
use rf_class_groups.Poly.Sizes.{length-reduce_each}
use rf_class_groups.Poly.Karatsuba.{
  poly_slice, half_of, karatsuba_cutoff, karatsuba_step, multiply_on_fuel, poly_mul_mod,
}
use rf_class_groups.Poly.Karatsuba.Split.{coefficient-slices, length-low, length-high}
use rf_class_groups.Poly.Product.{value-poly_mul_naive_mod}
use rf_class_groups.Poly.Roots.{IsProduct}
use rf_class_groups.Poly.Karatsuba.Recombine.{
  length-poly_add_mod, cauchy-split, middle, untrimmed, recombine-untrimmed, length-untrimmed,
  untrimmed-IsReduced, coefficient-untrimmed,
}

-- The step, where the smaller products are those of the quadratic loop.
module _ (q : ℕ) (positive : 0 < q) (multiply : Poly → Poly → Poly) (m : ℕ)
    (smaller : (s t : Poly)
      → length s ≤ m
      → length t ≤ m
      → multiply s t ≡ poly_mul_naive_mod s t q) where
  smaller-AreSame :
      (s t : Poly)
      → length s ≤ m
      → length t ≤ m
      → AreSame q (coefficient (multiply s t)) (cauchy (coefficient s) (coefficient t))
  smaller-AreSame s t h k i = rw (smaller s t h k) (coefficient-poly_mul_naive_mod q s t i)

  module _ (a b : Poly) (large_a : 32 ≤ length a) (large_b : 32 ≤ length b)
      (bound_a : length a ≤ suc m) (bound_b : length b ≤ suc m) where
    abbrev half : ℕ
    half = half_of a b

    abbrev a0 : Poly
    a0 = poly_slice a 0 half

    abbrev a1 : Poly
    a1 = poly_slice a half (length a)

    abbrev b0 : Poly
    b0 = poly_slice b 0 half

    abbrev b1 : Poly
    b1 = poly_slice b half (length b)

    pub length-parts : (length a0 ≤ m) × (length a1 ≤ m) × (length b0 ≤ m) × (length b1 ≤ m)
    length-parts = (
      omega (arith, length-low half a),
      omega (arith, length-high half a),
      omega (arith, length-low half b),
      omega (arith, length-high half b),
    )

    abbrev z0 : Poly
    z0 = multiply a0 b0

    abbrev z1 : Poly
    z1 = multiply (poly_add_mod a0 a1 q) (poly_add_mod b0 b1 q)

    abbrev z2 : Poly
    z2 = multiply a1 b1

    abbrev z1' : Poly
    z1' = poly_sub_mod (poly_sub_mod z1 z0 q) z2 q

    z1-AreSame : AreSame q (coefficient z1) (
        cauchy
          (λ i. coefficient a0 i + coefficient a1 i)
          (λ i. coefficient b0 i + coefficient b1 i))
    z1-AreSame i =
        smaller-AreSame (poly_add_mod a0 a1 q) (poly_add_mod b0 b1 q)
          (length-poly_add_mod a0 a1 q m length-parts.0 length-parts.1)
          (length-poly_add_mod b0 b1 q m length-parts.2 length-parts.3) i
        ∙ cauchy-AreSame q (coefficient (poly_add_mod a0 a1 q))
            (λ j. coefficient a0 j + coefficient a1 j) (coefficient (poly_add_mod b0 b1 q))
            (λ j. coefficient b0 j + coefficient b1 j) (coefficient-poly_add_mod q a0 a1)
            (coefficient-poly_add_mod q b0 b1) i

    whole-AreSame :
        (i : ℕ)
        → i < length a + length b - 1
        → Cong q
            (coefficient (untrimmed q positive (length a + length b - 1) half z0 z1' z2) i)
            (cauchy (coefficient a) (coefficient b) i)
    whole-AreSame i h =
        let f = coefficient a0 in
        let f' = coefficient a1 in
        let g = coefficient b0 in
        let g' = coefficient b1 in
        let h0 = smaller-AreSame a0 b0 length-parts.0 length-parts.2 in
        let h2 = smaller-AreSame a1 b1 length-parts.1 length-parts.3 in
        let m = λ (j : ℕ). cauchy f g' j + cauchy f' g j in
        let d₁ = delay half (coefficient z1') i in
        let d₂ = delay (2 * half) (coefficient z2) i in
        coefficient-untrimmed q positive (length a + length b - 1) half z0 z1' z2 i h
        ∙ Cong-add q (coefficient z0 i + d₁) (cauchy f g i + delay half m i) d₂
            (delay (2 * half) (cauchy f' g') i)
            (Cong-add q (coefficient z0 i) (cauchy f g i) d₁ (delay half m i) (h0 i) (
              delay-AreSame q half (coefficient z1') m
                (middle q positive f f' g g' z0 z1 z2 h0 h2 z1-AreSame) i))
            (delay-AreSame q (2 * half) (coefficient z2) (cauchy f' g') h2 i)
        ∙ Cong-same q (cauchy f g i + delay half m i + delay (2 * half) (cauchy f' g') i)
            (cauchy (coefficient a) (coefficient b) i)
            (sym (cauchy-split half f f' g g' i) ∙ (λ t.
              cauchy (λ j. sym (coefficient-slices half a j) t)
                (λ j. sym (coefficient-slices half b j) t) i))

    same-coefficient :
        (i : ℕ)
        → coefficient (untrimmed q positive (length a + length b - 1) half z0 z1' z2) i
          ≡ coefficient (reduce_each q (all_rows a b)) i
    same-coefficient i = elim (inside_or_beyond) [
      | inl inside ↦
          let product = cauchy (coefficient a) (coefficient b) i in
          sym (untrimmed-IsReduced q positive size half z0 z1' z2 i)
          ∙ whole-AreSame i inside
          ∙ ap (λ (t : ℕ). t % q) (sym (coefficient-all_rows a b i (omega arith) (omega arith)))
          ∙ sym (coefficient-reduce_each q (all_rows a b) i)
      | inr beyond ↦
          coefficient-beyond (untrimmed q positive size half z0 z1' z2) i
            (omega (arith, length-untrimmed q positive size half z0 z1' z2))
          ∙ sym (
              coefficient-beyond (reduce_each q (all_rows a b)) i (
                omega (
                  arith,
                  length-reduce_each q (all_rows a b),
                  length-all_rows a b (omega arith) (omega arith),
                )))
    ]
      where
        size : ℕ
        size = length a + length b - 1

        inside_or_beyond : (i < length a + length b - 1) ⊎ (length a + length b - 1 ≤ i)
        inside_or_beyond = ground arith

    pub step-reference : karatsuba_step multiply a b q ≡ poly_mul_naive_mod a b q
    unfolding karatsuba_step
    step-reference =
        let size = length a + length b - 1 in
        let out = untrimmed q positive size half z0 z1' z2 in
        let rows = reduce_each q (all_rows a b) in
        recombine-untrimmed q positive size half z0 z1' z2
        ∙ ap poly_trim (
            coefficients-determine out rows
              (length-untrimmed q positive size half z0 z1' z2
                ∙ sym (
                    length-reduce_each q (all_rows a b)
                    ∙ length-all_rows a b (omega arith) (omega arith)))
              same-coefficient)
        ∙ sym (naive-all_rows a b q (omega arith) (omega arith))

-- With enough fuel for the larger factor the recursion is the quadratic loop.
multiply_on_fuel-reference :
    (q m : ℕ)
    → 0 < q
    → (a b : Poly) → length a ≤ m
    → length b ≤ m
    → multiply_on_fuel (suc m) a b q ≡ poly_mul_naive_mod a b q
unfolding multiply_on_fuel poly_mul_naive_mod
multiply_on_fuel-reference q m h [] b k l = refl
multiply_on_fuel-reference q m h (a ∷ as') [] k l = refl
multiply_on_fuel-reference q zero h (a ∷ as') (b ∷ bs) k l = absurd (omega arith)
multiply_on_fuel-reference q (suc m) h (a ∷ as') (b ∷ bs) k l =
    elim (Bool-cases
      (ltb (length (a ∷ as')) karatsuba_cutoff || ltb (length (b ∷ bs)) karatsuba_cutoff)) [
        | inl e ↦ rw e refl
        | inr e ↦ rw e (
            step-reference q h (λ s t. multiply_on_fuel (suc m) s t q) m
              (λ s t u v. multiply_on_fuel-reference q m h s t u v) (a ∷ as') (b ∷ bs)
              (ground (arith, e)) (ground (arith, e)) k l)
      ]

-- For every positive modulus and all factors, Karatsuba's recursion gives exactly the coefficient
-- vector of the quadratic loop.
pub poly_mul_mod-poly_mul_naive_mod :
    (q : ℕ) (a b : Poly) → 0 < q → poly_mul_mod a b q ≡ poly_mul_naive_mod a b q
unfolding poly_mul_mod
poly_mul_mod-poly_mul_naive_mod q a b h =
    multiply_on_fuel-reference q (max (length a) (length b)) h a b (omega arith) (omega arith)

-- It is a product for the trees.
pub karatsuba-IsProduct : (q : ℕ) → 0 < q → IsProduct poly_mul_mod q
unfolding IsProduct
karatsuba-IsProduct q h a b x =
    rw (poly_mul_mod-poly_mul_naive_mod q a b h) (value-poly_mul_naive_mod q a b x)
