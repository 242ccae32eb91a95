-- ===== src/Poly/Coefficients.antt =====
-- The coefficients of sums, differences and of the quadratic product.
use rf_class_groups.Base.{
  ℕ, zero, suc, ◌+◌, ◌*◌, ◌-◌, ◌%◌, ◌≤◌, ◌<◌, ◌≡◌, ◌⊎◌, inl, inr, refl, sym, ◌∙◌, [], ◌∷◌, ◌++◌,
  take, drop, length, get_or, replicate, length-replicate, sub_mod-add, Cong, Cong-same, Cong-mod,
  arith,
}
use native.Mathlib.Nat.{zero-mod}
use rf_class_groups.Poly.{
  Poly, put_below, trim_tail, poly_trim, reduce_each, add_each, poly_add_mod, sub_each,
  poly_sub_mod, add_row, mul_rows, poly_mul_naive_mod,
}
use rf_class_groups.Poly.Product.{length-add_row}
use rf_class_groups.Poly.Series.{
  coefficient, cauchy, cauchy-nothing, cauchy-nothing_right, coefficient-beyond, cauchy-beyond,
}

coefficient-put_below :
    (c : ℕ) (p : Poly) (i : ℕ) → coefficient (put_below c p) i ≡ get_or (c ∷ p) i 0
coefficient-put_below c [] zero = ground arith
coefficient-put_below c [] (suc i) = ground arith
coefficient-put_below c (d ∷ ds) i = refl

coefficient-trim_tail : (p : Poly) (i : ℕ) → coefficient (trim_tail p) i ≡ coefficient p i
unfolding trim_tail
coefficient-trim_tail [] i = refl
coefficient-trim_tail (c ∷ p) zero = coefficient-put_below c (trim_tail p) 0
coefficient-trim_tail (c ∷ p) (suc i) =
    coefficient-put_below c (trim_tail p) (suc i) ∙ coefficient-trim_tail p i

pub coefficient-poly_trim : (p : Poly) (i : ℕ) → coefficient (poly_trim p) i ≡ coefficient p i
unfolding poly_trim
coefficient-poly_trim [] i = refl
coefficient-poly_trim (c ∷ p) zero = refl
coefficient-poly_trim (c ∷ p) (suc i) = coefficient-trim_tail p i

pub coefficient-reduce_each :
    (q : ℕ) (p : Poly) (i : ℕ) → coefficient (reduce_each q p) i ≡ coefficient p i % q
unfolding reduce_each
coefficient-reduce_each q [] i = sym (zero-mod q)
coefficient-reduce_each q (c ∷ p) zero = refl
coefficient-reduce_each q (c ∷ p) (suc i) = coefficient-reduce_each q p i

coefficient-add_each :
    (q : ℕ) (a b : Poly) (i : ℕ)
    → Cong q (coefficient (add_each q a b) i) (coefficient a i + coefficient b i)
unfolding add_each
coefficient-add_each q [] b i =
    Cong-same q (coefficient (reduce_each q b) i) (coefficient b i % q)
      (coefficient-reduce_each q b i)
    ∙ Cong-mod q (coefficient b i)
    ∙ Cong-same q (coefficient b i) (0 + coefficient b i) (omega arith)
coefficient-add_each q (a ∷ as') [] i =
    Cong-same q (coefficient (reduce_each q (a ∷ as')) i) (coefficient (a ∷ as') i % q)
      (coefficient-reduce_each q (a ∷ as') i)
    ∙ Cong-mod q (coefficient (a ∷ as') i)
    ∙ Cong-same q (coefficient (a ∷ as') i) (coefficient (a ∷ as') i + 0) (omega arith)
coefficient-add_each q (a ∷ as') (b ∷ bs) zero = Cong-mod q (a + b)
coefficient-add_each q (a ∷ as') (b ∷ bs) (suc i) = coefficient-add_each q as' bs i

pub coefficient-poly_add_mod :
    (q : ℕ) (a b : Poly) (i : ℕ)
    → Cong q (coefficient (poly_add_mod a b q) i) (coefficient a i + coefficient b i)
unfolding poly_add_mod
coefficient-poly_add_mod q a b i =
    rw (coefficient-poly_trim (add_each q a b) i) (coefficient-add_each q a b i)

coefficient-sub_each :
    (q : ℕ) (a b : Poly) (i : ℕ)
    → 0 < q
    → Cong q (coefficient (sub_each q a b) i + coefficient b i) (coefficient a i)
unfolding sub_each
coefficient-sub_each q [] [] i h = Cong-same q (0 + 0) 0 (omega arith)
coefficient-sub_each q [] (b ∷ bs) zero h = sub_mod-add 0 b q h
coefficient-sub_each q [] (b ∷ bs) (suc i) h = coefficient-sub_each q [] bs i h
coefficient-sub_each q (a ∷ as') [] i h =
    Cong-same q (coefficient (reduce_each q (a ∷ as')) i + 0) (coefficient (a ∷ as') i % q)
      (omega (arith, coefficient-reduce_each q (a ∷ as') i))
    ∙ Cong-mod q (coefficient (a ∷ as') i)
coefficient-sub_each q (a ∷ as') (b ∷ bs) zero h = sub_mod-add a b q h
coefficient-sub_each q (a ∷ as') (b ∷ bs) (suc i) h = coefficient-sub_each q as' bs i h

pub coefficient-poly_sub_mod :
    (q : ℕ) (a b : Poly) (i : ℕ)
    → 0 < q
    → Cong q (coefficient (poly_sub_mod a b q) i + coefficient b i) (coefficient a i)
unfolding poly_sub_mod
coefficient-poly_sub_mod q a b i h =
    rw (coefficient-poly_trim (sub_each q a b) i) (coefficient-sub_each q a b i h)

coefficient-add_row :
    (a : ℕ) (b out : Poly) (i : ℕ)
    → i < length out
    → coefficient (add_row a b out) i ≡ coefficient out i + a * coefficient b i
unfolding add_row
coefficient-add_row a [] out i h = omega arith
coefficient-add_row a (b ∷ bs) [] i h = absurd (omega arith)
coefficient-add_row a (b ∷ bs) (o ∷ os) zero h = refl
coefficient-add_row a (b ∷ bs) (o ∷ os) (suc i) h = coefficient-add_row a bs os i (omega arith)

coefficient-mul_rows :
    (a b out : Poly) (i : ℕ)
    → i < length out
    → coefficient (mul_rows a b out) i
      ≡ coefficient out i + cauchy (coefficient a) (coefficient b) i
unfolding mul_rows
coefficient-mul_rows [] b out i h = omega (arith, cauchy-nothing (coefficient b) i)
coefficient-mul_rows (a ∷ as') b out i h =
    go (add_row a b out) i h (length-add_row a b out) (coefficient-add_row a b out i h)
      (λ os j l. coefficient-mul_rows as' b os j l)
  where
    go :
        (row : Poly) (j : ℕ)
        → j < length out
        → length row ≡ length out
        → coefficient row j ≡ coefficient out j + a * coefficient b j
        → ((os : Poly) (k : ℕ)
            → k < length os
            → coefficient (mul_rows as' b os) k
              ≡ coefficient os k + cauchy (coefficient as') (coefficient b) k)
        → coefficient (take 1 row ++ mul_rows as' b (drop 1 row)) j
          ≡ coefficient out j + cauchy (coefficient (a ∷ as')) (coefficient b) j
    go [] j below l e later = absurd (omega arith)
    go (o ∷ os) zero below l e later = e
    go (o ∷ os) (suc j) below l e later = later os j (omega arith) ∙ omega (arith, e)

length-mul_rows : (a b out : Poly) → length a ≤ length out → length (mul_rows a b out) ≡ length out
unfolding mul_rows
length-mul_rows [] b out h = refl
length-mul_rows (a ∷ as') b out h =
    go (add_row a b out) (length-add_row a b out) (λ os l. length-mul_rows as' b os l)
  where
    go :
        (row : Poly)
        → length row ≡ length out
        → ((os : Poly) → length as' ≤ length os → length (mul_rows as' b os) ≡ length os)
        → length (take 1 row ++ mul_rows as' b (drop 1 row)) ≡ length out
    go [] l later = absurd (omega arith)
    go (o ∷ os) l later = omega (arith, later os (omega arith))

coefficient-zeros : (n i : ℕ) → coefficient (replicate n 0) i ≡ 0
coefficient-zeros zero i = refl
coefficient-zeros (suc n) zero = refl
coefficient-zeros (suc n) (suc i) = coefficient-zeros n i

-- The rows of a whole product, before reduction and trimming.
pub all_rows : Poly → Poly → Poly
all_rows a b = mul_rows a b (replicate (length a + length b - 1) 0)

pub length-all_rows :
    (a b : Poly) → 1 ≤ length a → 1 ≤ length b → length (all_rows a b) ≡ length a + length b - 1
unfolding all_rows
length-all_rows a b h k =
    let n = length a + length b - 1 in
    let l = length-replicate {A = ℕ} n 0 in length-mul_rows a b (replicate n 0) (omega arith) ∙ l

-- The coefficients of the quadratic product, not reduced, are those of the Cauchy product.
pub coefficient-all_rows :
    (a b : Poly) (i : ℕ)
    → 1 ≤ length a
    → 1 ≤ length b
    → coefficient (all_rows a b) i ≡ cauchy (coefficient a) (coefficient b) i
coefficient-all_rows a b i h k = elim (inside_or_beyond) [
  | inl inside ↦
      unfold all_rows in
      (coefficient-mul_rows a b (replicate n 0) i (omega (arith, length-replicate {A = ℕ} n 0))
        ∙ omega (arith, coefficient-zeros n i))
  | inr beyond ↦
      coefficient-beyond (all_rows a b) i (omega (arith, length-all_rows a b h k))
      ∙ sym (cauchy-beyond a b i (omega arith))
]
  where
    n : ℕ
    n = length a + length b - 1

    inside_or_beyond : (i < length a + length b - 1) ⊎ (length a + length b - 1 ≤ i)
    inside_or_beyond = ground arith

pub naive-all_rows :
    (a b : Poly) (q : ℕ)
    → 1 ≤ length a
    → 1 ≤ length b
    → poly_mul_naive_mod a b q ≡ poly_trim (reduce_each q (all_rows a b))
unfolding poly_mul_naive_mod all_rows
naive-all_rows [] b q h k = absurd (omega arith)
naive-all_rows (a ∷ as') [] q h k = absurd (omega arith)
naive-all_rows (a ∷ as') (b ∷ bs) q h k = refl

zero_coefficient : (i : ℕ) → coefficient (0 ∷ []) i ≡ 0
zero_coefficient zero = refl
zero_coefficient (suc i) = refl

-- The coefficients of `poly_mul_naive_mod` are those of the Cauchy product of the coefficients of its
-- factors modulo `q`.
pub coefficient-poly_mul_naive_mod :
    (q : ℕ) (a b : Poly) (i : ℕ)
    → Cong q (coefficient (poly_mul_naive_mod a b q) i) (cauchy (coefficient a) (coefficient b) i)
coefficient-poly_mul_naive_mod q [] b i =
    unfold poly_mul_naive_mod in
    Cong-same q (coefficient (0 ∷ []) i) (cauchy (λ j. 0) (coefficient b) i)
      (zero_coefficient i ∙ sym (cauchy-nothing (coefficient b) i))
coefficient-poly_mul_naive_mod q (a ∷ as') [] i =
    unfold poly_mul_naive_mod in
    Cong-same q (coefficient (0 ∷ []) i) (cauchy (coefficient (a ∷ as')) (λ j. 0) i)
      (zero_coefficient i ∙ sym (cauchy-nothing_right (coefficient (a ∷ as')) i))
coefficient-poly_mul_naive_mod q (a ∷ as') (b ∷ bs) i =
    rw
      (
        naive-all_rows (a ∷ as') (b ∷ bs) q (omega arith) (omega arith),
        coefficient-poly_trim (reduce_each q (all_rows (a ∷ as') (b ∷ bs))) i,
        coefficient-reduce_each q (all_rows (a ∷ as') (b ∷ bs)) i,
        coefficient-all_rows (a ∷ as') (b ∷ bs) i (omega arith) (omega arith),
      )
      (Cong-mod q (cauchy (coefficient (a ∷ as')) (coefficient (b ∷ bs)) i))
