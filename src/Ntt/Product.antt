-- ===== src/Ntt/Product.antt =====
-- What is computed by the transform: products, values and interpolation.
use rf_class_groups.Base.{
  ℕ, zero, suc, ◌+◌, ◌*◌, ◌-◌, ◌%◌, ◌^◌, ◌≤◌, ◌<◌, ◌≡◌, refl, sym, ap, ◌∙◌, true, false, le→ltb,
  ltb, ltb→lt, Bool-cases, inl, inr, List, [], ◌∷◌, ◌++◌, length, length-map, length-append,
  length-replicate, replicate, take, take-append, All, Cong, Cong-mod, Cong-add, Cong-mul,
  Cong-same, Mpz, IsMpz, ok, arith,
}
use native.Mathlib.Nat.{mod-lt, mod-mod}
use rf_class_groups.Base.Bits.{pow2, pow2_mono}
use rf_class_groups.Config.{Env}
use rf_class_groups.Poly.{Poly, poly_trim, reduce_each, poly_mul_naive_mod}
use rf_class_groups.Poly.Values.{value, values_at, value-poly_trim, value-reduce_each}
use rf_class_groups.Poly.Sizes.{length-reduce_each}
use rf_class_groups.Poly.Product.{value-poly_mul_naive_mod}
use rf_class_groups.Poly.Coefficients.{all_rows, length-all_rows, naive-all_rows}
use rf_class_groups.Ntt.{
  ntt128_prime, ntt_inplace, ntt_runtime_enabled, padded, multiply_each, multiply_in_domain,
  poly_mul_ntt_mod, poly_eval_batch_ntt, lagrange_interpolate_ntt,
}
use rf_class_groups.Ntt.Domain.{ntt_domain_supported-pow2, next_power_of_two_size-least}
use rf_class_groups.Ntt.Roots.{prime_bound, root}
use rf_class_groups.Ntt.Twice.{length-powers_from}
use rf_class_groups.Ntt.Transform.{domain, ntt_inplace-values, ntt_inplace-inverse}

module _ (q : ℕ) (positive : 0 < q) where
  pub length-padded : (n : ℕ) (p : Poly) → length p ≤ n → length (padded q n p) ≡ n
  unfolding padded
  length-padded n p h =
      length-append (reduce_each q p) (replicate (n - length p) 0)
      ∙ omega (arith, length-reduce_each q p, length-replicate {A = ℕ} (n - length p) 0)

  All-padding : (p : Poly) (n : ℕ) → All (λ c. c < q) (reduce_each q p ++ replicate n 0)
  unfolding reduce_each
  All-padding [] zero = tt
  All-padding [] (suc n) = (positive, All-padding [] n)
  All-padding (c ∷ p) n = (mod-lt c positive, All-padding p n)

  All-padded : (n : ℕ) (p : Poly) → All (λ c. c < q) (padded q n p)
  unfolding padded
  All-padded n p = All-padding p (n - length p)

  value-zeros : (n x : ℕ) → value (replicate n 0) x ≡ 0
  value-zeros zero x = refl
  value-zeros (suc n) x = rw (value-zeros n x) (omega arith)

  value-padding :
      (p : Poly) (n x : ℕ) → Cong q (value (reduce_each q p ++ replicate n 0) x) (value p x)
  unfolding reduce_each
  value-padding [] n x = Cong-same q _ _ (value-zeros n x)
  value-padding (c ∷ p) n x =
      Cong-add q (c % q) c _ _ (Cong-mod q c) (Cong-mul q x x _ _ refl (value-padding p n x))

  pub value-padded : (n : ℕ) (p : Poly) (x : ℕ) → Cong q (value (padded q n p) x) (value p x)
  unfolding padded
  value-padded n p x = value-padding p (n - length p) x

  -- Polynomials with the same values modulo `q`.
  values-Cong :
      (p r : Poly)
      → ((x : ℕ) → Cong q (value p x) (value r x))
      → (points : List ℕ) → values_at p points q ≡ values_at r points q
  values-Cong p r h [] = refl
  values-Cong p r h (x ∷ points) = rw (h x, values-Cong p r h points) refl

  multiply_each-values :
      (a b c : Poly)
      → ((x : ℕ) → Cong q (value a x * value b x) (value c x))
      → (points : List ℕ)
      → multiply_each q (values_at a points q) (values_at b points q) ≡ values_at c points q
  unfolding multiply_each
  multiply_each-values a b c h [] = refl
  multiply_each-values a b c h (x ∷ points) =
      let first : value a x % q * (value b x % q) % q ≡ value c x % q =
        Cong-mul q _ (value a x) _ (value b x) (Cong-mod q (value a x)) (Cong-mod q (value b x))
        ∙ h x in
      rw (first, multiply_each-values a b c h points) refl

  -- The coefficients of a product, in a vector that has room for them.
  value-product :
      (n : ℕ) (a b : Poly) (x : ℕ)
      → 1 ≤ length a
      → 1 ≤ length b
      → Cong q (value (padded q n (all_rows a b)) x) (value a x * value b x)
  value-product n a b x h k =
      value-padded n (all_rows a b) x
      ∙ sym (value-reduce_each q (all_rows a b) x)
      ∙ Cong-same q _ _ (
          sym (value-poly_trim (reduce_each q (all_rows a b)) x)
          ∙ ap (λ (p : Poly). value p x) (sym (naive-all_rows a b q h k)))
      ∙ value-poly_mul_naive_mod q a b x

  take-padded : (n : ℕ) (p : Poly) → take (length p) (padded q n p) ≡ reduce_each q p
  unfolding padded
  take-padded n p =
      ap (λ (m : ℕ). take m (reduce_each q p ++ replicate (n - length p) 0))
        (sym (length-reduce_each q p))
      ∙ take-append (reduce_each q p) (replicate (n - length p) 0)

module _ (mpz : Mpz) (laws : IsMpz mpz ntt128_prime) (getenv : Env)
    (enabled : ntt_runtime_enabled getenv ≡ true) where
  abbrev q : ℕ
  q = ntt128_prime

  positive : 0 < ntt128_prime
  positive = omega (arith, prime_bound)

  padded-values :
      (k : ℕ) (p : Poly)
      → k ≤ 62
      → length p ≤ pow2 k
      → ntt_inplace mpz getenv (padded q (pow2 k) p) ntt128_prime false
        ≡ ok (values_at p (domain k) ntt128_prime)
  padded-values k p h l =
      ntt_inplace-values mpz laws getenv enabled k (padded q (pow2 k) p) h
        (length-padded q positive (pow2 k) p l) (All-padded q positive (pow2 k) p)
      ∙ ap ok (
          values-Cong q positive (padded q (pow2 k) p) p (value-padded q positive (pow2 k) p)
            (domain k))

  product-naive :
      (k : ℕ) (a b : Poly)
      → k ≤ 62
      → 1 ≤ length a
      → 1 ≤ length b
      → length a + length b - 1 ≤ pow2 k
      → multiply_in_domain mpz getenv (length a + length b - 1) (pow2 k) a b ntt128_prime
        ≡ ok (poly_mul_naive_mod a b ntt128_prime)
  unfolding multiply_in_domain
  product-naive k a b h la lb l =
      let rows = all_rows a b in
      let c = padded q (pow2 k) rows in
      let points = domain k in
      let size = length-all_rows a b la lb in
      rw
        (
          ntt_domain_supported-pow2 getenv k enabled,
          padded-values k a h (omega arith),
          padded-values k b h (omega arith),
          multiply_each-values q positive a b c
              (λ x. sym (value-product q positive (pow2 k) a b x la lb)) points,
          ntt_inplace-inverse mpz laws getenv enabled k c h
              (length-padded q positive (pow2 k) rows (omega (arith, size)))
              (All-padded q positive (pow2 k) rows),
          sym size,
          take-padded q positive (pow2 k) rows,
          naive-all_rows a b ntt128_prime la lb,
        )
        refl

  -- For the fixed prime with the transform switched on, and factors whose product has at most 2^62
  -- coefficients, the product by the transform ends without a failure, and is exactly the coefficient
  -- vector of the quadratic loop.
  pub poly_mul_ntt_mod-poly_mul_naive_mod :
      (a b : Poly)
      → length a + length b ≤ 2 ^ 62
      → poly_mul_ntt_mod mpz getenv a b ntt128_prime ≡ ok (poly_mul_naive_mod a b ntt128_prime)
  unfolding poly_mul_ntt_mod
  poly_mul_ntt_mod-poly_mul_naive_mod [] b h = unfold poly_mul_naive_mod in refl
  poly_mul_ntt_mod-poly_mul_naive_mod (c ∷ a) [] h = unfold poly_mul_naive_mod in refl
  poly_mul_ntt_mod-poly_mul_naive_mod (c ∷ a) (d ∷ b) h =
      let need = length (c ∷ a) + length (d ∷ b) - 1 in
      let (k, found, fits, least) = next_power_of_two_size-least need (omega arith) (omega arith) in
      let small : k ≤ 62 = exponent_bound k (omega arith) in
      rw found (product-naive k (c ∷ a) (d ∷ b) small (omega arith) (omega arith) fits)
    where
      exponent_bound : (k : ℕ) → pow2 k < 2 ^ 63 → k ≤ 62
      exponent_bound k h = elim (Bool-cases (ltb 62 k)) [
        | inl e ↦ absurd (omega (arith, pow2_mono 63 k (ltb→lt 62 k e)))
        | inr e ↦ ground arith
      ]

  -- For the fixed prime with the transform switched on, a power of two up to 2^62 as the number of
  -- points and no more coefficients than points, the evaluation by the transform ends without a
  -- failure, in the values of the polynomial at the points of the domain.
  pub poly_eval_batch_ntt-values :
      (k : ℕ) (p : Poly)
      → k ≤ 62
      → length p ≤ pow2 k
      → poly_eval_batch_ntt mpz getenv p (pow2 k) ntt128_prime
        ≡ ok (values_at p (domain k) ntt128_prime)
  unfolding poly_eval_batch_ntt
  poly_eval_batch_ntt-values k p h l =
      rw
        (
          ntt_domain_supported-pow2 getenv k enabled,
          le→ltb (pow2 k) (length p) l,
          padded-values k p h l,
        )
        refl

  reduce_each-values :
      (p : Poly) (points : List ℕ)
      → reduce_each ntt128_prime (values_at p points ntt128_prime) ≡ values_at p points ntt128_prime
  unfolding reduce_each
  reduce_each-values p [] = refl
  reduce_each-values p (x ∷ points) =
      rw (mod-mod (value p x) ntt128_prime, reduce_each-values p points) refl

  -- From the values of a polynomial at the 2^k points of the domain, where it has at most as many
  -- coefficients, the inverse transform gives its residues without the zeros at the back.
  pub lagrange_interpolate_ntt-values :
      (k : ℕ) (p : Poly)
      → k ≤ 62
      → length p ≤ pow2 k
      → lagrange_interpolate_ntt mpz getenv (values_at p (domain k) ntt128_prime) ntt128_prime
        ≡ ok (poly_trim (padded ntt128_prime (pow2 k) p))
  unfolding lagrange_interpolate_ntt
  lagrange_interpolate_ntt-values k p h l =
      let points = domain k in
      let size : length (values_at p points ntt128_prime) ≡ pow2 k =
        length-map points (λ x. value p x % ntt128_prime)
        ∙ length-powers_from ntt128_prime (root k) 1 (pow2 k) in
      rw
        (
          size,
          ntt_domain_supported-pow2 getenv k enabled,
          reduce_each-values p points,
          sym (
              values-Cong q positive (padded q (pow2 k) p) p (value-padded q positive (pow2 k) p)
                points),
          ntt_inplace-inverse mpz laws getenv enabled k (padded q (pow2 k) p) h
              (length-padded q positive (pow2 k) p l) (All-padded q positive (pow2 k) p),
        )
        refl
