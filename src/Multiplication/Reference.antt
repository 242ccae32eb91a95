-- ===== src/Multiplication/Reference.antt =====
-- Whichever way a product is computed, it is the coefficient vector of the quadratic loop.
use rf_class_groups.Base.{
  ℕ, zero, suc, ◌+◌, ◌-◌, ◌^◌, ◌≤◌, ◌<◌, ◌≡◌, inl, inr, refl, sym, ap, ◌∙◌, false, leb, max,
  Bool-cases, [], ◌∷◌, length, Mpz, IsMpz, Result, ok, arith, if◌then◌else◌,
}
use rf_class_groups.Base.Bits.{pow2}
use rf_class_groups.Config.{Env}
use rf_class_groups.Poly.{Poly, poly_add_mod, poly_mul_naive_mod}
use rf_class_groups.Poly.Karatsuba.{poly_slice, half_of, karatsuba_step, poly_mul_mod}
use rf_class_groups.Poly.Karatsuba.Recombine.{length-poly_add_mod}
use rf_class_groups.Poly.Karatsuba.Reference.{
  length-parts, step-reference, poly_mul_mod-poly_mul_naive_mod,
}
use rf_class_groups.Ntt.{ntt128_prime, ntt_domain_supported}
use rf_class_groups.Ntt.Domain.{next_power_of_two_size-least, ntt_domain_supported-parts}
use rf_class_groups.Ntt.Product.{poly_mul_ntt_mod-poly_mul_naive_mod}
use rf_class_groups.Multiplication.{
  ntt_poly_threshold, split_step, is_below_cutoff, choose_product, choose_on_fuel,
  poly_mul_mod_auto,
}

-- Karatsuba's step, where the smaller products are those of the quadratic loop.
split_step-naive :
    (q m : ℕ) (multiply : Poly → Poly → Result Poly) (a b : Poly)
    → 0 < q
    → ((s t : Poly) → length s ≤ m → length t ≤ m → multiply s t ≡ ok (poly_mul_naive_mod s t q))
    → 32 ≤ length a
    → 32 ≤ length b
    → length a ≤ suc m
    → length b ≤ suc m
    → split_step multiply a b q ≡ ok (poly_mul_naive_mod a b q)
unfolding split_step karatsuba_step
split_step-naive q m multiply a b positive smaller large_a large_b bound_a bound_b =
    let naive = λ (s t : Poly). poly_mul_naive_mod s t q in
    let half = half_of a b in
    let a0 = poly_slice a 0 half in
    let a1 = poly_slice a half (length a) in
    let b0 = poly_slice b 0 half in
    let b1 = poly_slice b half (length b) in
    let (short_a0, short_a1, short_b0, short_b1) =
      length-parts q positive naive m (λ s t h k. refl) a b large_a large_b bound_a bound_b in
    rw
      (
        smaller a0 b0 short_a0 short_b0,
        smaller a1 b1 short_a1 short_b1,
        smaller (poly_add_mod a0 a1 q) (poly_add_mod b0 b1 q)
            (length-poly_add_mod a0 a1 q m short_a0 short_a1)
            (length-poly_add_mod b0 b1 q m short_b0 short_b1),
      )
      (ap ok
        (step-reference q positive naive m (λ s t h k. refl) a b large_a large_b bound_a bound_b))

above_cutoff : (a b : Poly) → is_below_cutoff a b ≡ false → (32 ≤ length a) × (32 ≤ length b)
unfolding is_below_cutoff
above_cutoff a b e = (ground (arith, e), ground (arith, e))

module _ (mpz : Mpz) (laws : IsMpz mpz ntt128_prime) (getenv : Env) (threshold q : ℕ)
    (positive : 0 < q) (parses : ntt_poly_threshold getenv ≡ ok threshold) where
  choose_product-naive :
      (a b : Poly) (step : Result Poly)
      → 1 ≤ length a
      → 1 ≤ length b
      → length a + length b ≤ 2 ^ 62
      → (is_below_cutoff a b ≡ false → step ≡ ok (poly_mul_naive_mod a b q))
      → choose_product mpz getenv a b q step ≡ ok (poly_mul_naive_mod a b q)
  unfolding choose_product
  choose_product-naive a b step some_a some_b bound large =
      let (k, size, _, _) =
        next_power_of_two_size-least (length a + length b - 1) (omega arith) (omega arith) in
      elim (Bool-cases (leb threshold (max (length a) (length b)))) [
        | inl many ↦ elim (Bool-cases (ntt_domain_supported getenv q (pow2 k))) [
          | inl on ↦
              let (switch, prime, _) = ntt_domain_supported-parts getenv q (pow2 k) on in
              rw (size, parses, many, on)
                (rw prime (poly_mul_ntt_mod-poly_mul_naive_mod mpz laws getenv switch a b bound))
          | inr off ↦ rw (size, parses, many, off) (without a b step large)
        ]
        | inr few ↦ rw (size, parses, few) (without a b step large)
      ]
    where
      without :
          (a b : Poly) (step : Result Poly)
          → (is_below_cutoff a b ≡ false → step ≡ ok (poly_mul_naive_mod a b q))
          → (if is_below_cutoff a b then ok (poly_mul_naive_mod a b q) else step)
            ≡ ok (poly_mul_naive_mod a b q)
      without a b step large = elim (Bool-cases (is_below_cutoff a b)) [
        | inl small ↦ rw small refl
        | inr above ↦ rw above (large above)
      ]

  choose_on_fuel-naive :
      (m : ℕ)
      → m ≤ 2 ^ 61
      → (a b : Poly) → length a ≤ m
      → length b ≤ m
      → choose_on_fuel mpz getenv (suc m) a b q ≡ ok (poly_mul_naive_mod a b q)
  unfolding choose_on_fuel poly_mul_naive_mod
  choose_on_fuel-naive m l [] b h k = refl
  choose_on_fuel-naive m l (a ∷ as') [] h k = refl
  choose_on_fuel-naive zero l (a ∷ as') (b ∷ bs) h k = absurd (omega arith)
  choose_on_fuel-naive (suc m) l (a ∷ as') (b ∷ bs) h k =
      let smaller = choose_on_fuel-naive m (omega arith) in
      choose_product-naive (a ∷ as') (b ∷ bs) _ (omega arith) (omega arith) (omega arith) (λ above.
        let large = above_cutoff (a ∷ as') (b ∷ bs) above in
        split_step-naive q m (λ s t. choose_on_fuel mpz getenv (suc m) s t q) (a ∷ as') (b ∷ bs)
          positive smaller large.0 large.1 h k)

  -- For every positive modulus, factors of at most 2^61 coefficients and a threshold that parses, the
  -- product ends without a failure, and is exactly the coefficient vector of the quadratic loop: the
  -- transform and Karatsuba's recursion, which may call the transform at every depth, do not change it.
  pub poly_mul_mod_auto-poly_mul_naive_mod :
      (a b : Poly)
      → length a ≤ 2 ^ 61
      → length b ≤ 2 ^ 61
      → poly_mul_mod_auto mpz getenv a b q ≡ ok (poly_mul_naive_mod a b q)
  unfolding poly_mul_mod_auto
  poly_mul_mod_auto-poly_mul_naive_mod a b h k =
      choose_on_fuel-naive (max (length a) (length b)) (omega arith) a b (omega arith) (omega arith)

  -- The recursion without the transform gives the same vector.
  pub poly_mul_mod_auto-poly_mul_mod :
      (a b : Poly)
      → length a ≤ 2 ^ 61
      → length b ≤ 2 ^ 61
      → poly_mul_mod_auto mpz getenv a b q ≡ ok (poly_mul_mod a b q)
  poly_mul_mod_auto-poly_mul_mod a b h k =
      poly_mul_mod_auto-poly_mul_naive_mod a b h k
      ∙ ap ok (sym (poly_mul_mod-poly_mul_naive_mod q a b positive))
