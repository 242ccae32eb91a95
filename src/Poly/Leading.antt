-- ===== src/Poly/Leading.antt =====
-- Polynomials with leading coefficient 1: their products, their remainders' sizes and the linear
-- factors.
use rf_class_groups.Base.{
  ℕ, zero, suc, ◌+◌, ◌*◌, ◌-◌, ◌%◌, ◌≤◌, ◌≡◌, inl, inr, refl, ap, ◌∙◌, [], ◌∷◌, ◌++◌, length, take,
  length-take, ltb, Bool-cases, ok, arith,
}
use native.Mathlib.Nat.{mod-eq_of_lt}
use rf_class_groups.Poly.{
  Poly, put_below, trim_tail, poly_trim, reduce_each, poly_mod_q, monic_loop, monic_remainder,
  poly_mod_monic, poly_mul_naive_mod, poly_linear_from_root,
}
use rf_class_groups.Poly.Sizes.{length-poly_trim, length-reduce_each}
use rf_class_groups.Poly.Series.{coefficient, coefficient-beyond, cauchy, cauchy-nothing}
use rf_class_groups.Poly.Coefficients.{
  coefficient-reduce_each, all_rows, length-all_rows, coefficient-all_rows, naive-all_rows,
}
use rf_class_groups.Poly.Karatsuba.{poly_mul_mod}
use rf_class_groups.Poly.Karatsuba.Reference.{poly_mul_mod-poly_mul_naive_mod}

-- Degree at least 1 and leading coefficient 1.
abbrev pub IsMonic : Poly → Type 0
IsMonic p = (low : Poly) × (p ≡ low ++ (1 ∷ [])) × (1 ≤ length low)

last-split : (p : Poly) (n : ℕ) → length p ≡ suc n → p ≡ take n p ++ (coefficient p n ∷ [])
last-split [] n e = absurd (omega arith)
last-split (c ∷ []) zero e = refl
last-split (c ∷ d ∷ p) zero e = absurd (omega arith)
last-split (c ∷ p) (suc n) e = ap (◌∷◌ c) (last-split p n (omega arith))

trim_tail-top : (p : Poly) (n : ℕ) → length p ≡ suc n → coefficient p n ≡ 1 → trim_tail p ≡ p
unfolding trim_tail
trim_tail-top [] n e h = absurd (omega arith)
trim_tail-top (c ∷ []) zero e h = rw h refl
trim_tail-top (c ∷ []) (suc n) e h = absurd (omega arith)
trim_tail-top (c ∷ d ∷ p) zero e h = absurd (omega arith)
trim_tail-top (c ∷ d ∷ p) (suc n) e h = ap (put_below c) (trim_tail-top (d ∷ p) n (omega arith) h)

poly_trim-top : (p : Poly) (n : ℕ) → length p ≡ suc n → coefficient p n ≡ 1 → poly_trim p ≡ p
unfolding poly_trim trim_tail
poly_trim-top [] n e h = refl
poly_trim-top (c ∷ []) n e h = refl
poly_trim-top (c ∷ d ∷ p) zero e h = absurd (omega arith)
poly_trim-top (c ∷ d ∷ p) (suc n) e h = ap (◌∷◌ c) (trim_tail-top (d ∷ p) n (omega arith) h)

cauchy-top :
    (a b : Poly) (m n t : ℕ)
    → length a ≡ suc m
    → length b ≡ suc n
    → t ≡ m + n
    → cauchy (coefficient a) (coefficient b) t ≡ coefficient a m * coefficient b n
cauchy-top [] b m n t h k e = absurd (omega arith)
cauchy-top (a ∷ []) b zero n zero h k e = let same : n ≡ 0 = omega arith in rw same refl
cauchy-top (a ∷ []) b zero n (suc t) h k e =
    let same : n ≡ suc t = omega arith in rw same (omega (arith, cauchy-nothing (coefficient b) t))
cauchy-top (a ∷ []) b (suc m) n t h k e = absurd (omega arith)
cauchy-top (a ∷ a' ∷ as') b zero n t h k e = absurd (omega arith)
cauchy-top (a ∷ a' ∷ as') b (suc m) n zero h k e = absurd (omega arith)
cauchy-top (a ∷ a' ∷ as') b (suc m) n (suc t) h k e = omega (
  arith,
  ap (λ (c : ℕ). a * c) (coefficient-beyond b (suc t) (omega arith)),
  cauchy-top (a' ∷ as') b m n t (omega arith) k (omega arith),
)

length-snoc : (p : Poly) (c : ℕ) → length (p ++ (c ∷ [])) ≡ suc (length p)
length-snoc [] c = refl
length-snoc (d ∷ p) c = ap suc (length-snoc p c)

coefficient-snoc : (p : Poly) (c : ℕ) → coefficient (p ++ (c ∷ [])) (length p) ≡ c
coefficient-snoc [] c = refl
coefficient-snoc (d ∷ p) c = coefficient-snoc p c

-- What the tree needs of its multiplication besides the values.
abbrev pub IsMonicProduct : (Poly → Poly → ℕ → Poly) → ℕ → Type 0
IsMonicProduct multiply q = (a b : Poly) → IsMonic a → IsMonic b → IsMonic (multiply a b q)

-- The leading coefficient of a product.
snoc_product :
    (q : ℕ) (a b : Poly)
    → 2 ≤ q
    → 1 ≤ length a
    → IsMonic (poly_mul_naive_mod (a ++ (1 ∷ [])) (b ++ (1 ∷ [])) q)
snoc_product q a b h k =
    let a' = a ++ (1 ∷ []) in
    let b' = b ++ (1 ∷ []) in
    let n = length a + length b in
    let la = length-snoc a 1 in
    let lb = length-snoc b 1 in
    let rows = reduce_each q (all_rows a' b') in
    let one : 1 * 1 ≡ 1 = omega arith in
    let size : length rows ≡ suc n = omega (
      arith,
      length-reduce_each q (all_rows a' b'),
      la,
      lb,
      length-all_rows a' b' (omega arith) (omega arith),
    ) in
    let top : coefficient rows n ≡ 1 =
      coefficient-reduce_each q (all_rows a' b') n
      ∙ ap (λ (t : ℕ). t % q)
          (coefficient-all_rows a' b' n (omega arith) (omega arith)
            ∙ cauchy-top a' b' (length a) (length b) n la lb refl
            ∙ rw (coefficient-snoc a 1, coefficient-snoc b 1) one)
      ∙ mod-eq_of_lt h in
    (
      take n rows,
      naive-all_rows a' b' q (omega arith) (omega arith)
          ∙ poly_trim-top rows n size top
          ∙ last-split rows n size
          ∙ ap (λ (c : ℕ). take n rows ++ (c ∷ [])) top,
      omega (arith, length-take n rows, size),
    )

naive-IsMonicProduct : (q : ℕ) → 2 ≤ q → IsMonicProduct poly_mul_naive_mod q
naive-IsMonicProduct q h a b (low, e, k) (low', e', k') = rw (e, e') (snoc_product q low low' h k)

-- Products by Karatsuba's recursion keep the leading coefficient 1.
pub karatsuba-IsMonicProduct : (q : ℕ) → 2 ≤ q → IsMonicProduct poly_mul_mod q
karatsuba-IsMonicProduct q h a b m m' =
    rw (poly_mul_mod-poly_mul_naive_mod q a b (omega arith)) (naive-IsMonicProduct q h a b m m')

pub linear-IsMonic : (r q : ℕ) → IsMonic (poly_linear_from_root r q)
unfolding poly_linear_from_root
linear-IsMonic r q = (_ ∷ [], refl, omega arith)

monic_remainder-size :
    (d : ℕ) (divisor : Poly) (q : ℕ) (rem : Poly)
    → 1 ≤ d
    → length (monic_remainder d divisor q rem) ≤ d
unfolding monic_remainder
monic_remainder-size zero divisor q rem h = absurd (omega arith)
monic_remainder-size (suc d') divisor q rem h =
    let loop = monic_loop (length rem - suc d') q (suc d') (take (suc d') divisor) rem in
    omega (arith, length-poly_trim (take (suc d') loop), length-take (suc d') loop)

-- The remainder exists, and it is shorter than the divisor.
pub poly_mod_monic-size :
    (q : ℕ) (dividend low : Poly)
    → 1 ≤ length low
    → (rem : Poly) × (poly_mod_monic dividend (low ++ (1 ∷ [])) q ≡ ok rem)
      × (length rem ≤ length low)
unfolding poly_mod_monic
poly_mod_monic-size q dividend [] h = absurd (omega arith)
poly_mod_monic-size q [] (l ∷ low) h = (0 ∷ [], refl, omega arith)
poly_mod_monic-size q (a ∷ dividend) (l ∷ low) h =
    let rem = poly_mod_q (a ∷ dividend) q in
    let s = length-snoc low 1 in
    elim (Bool-cases (ltb (length rem) (suc (length (low ++ (1 ∷ [])))))) [
      | inl e ↦ (rem, rw e refl, ground (arith, e, s))
      | inr e ↦ (
        monic_remainder (length (low ++ (1 ∷ []))) (l ∷ low ++ (1 ∷ [])) q rem,
        rw e refl,
        omega (
          arith,
          s,
          monic_remainder-size (length (low ++ (1 ∷ []))) (l ∷ low ++ (1 ∷ [])) q rem
              (omega (arith, s)),
        ),
      )
    ]
