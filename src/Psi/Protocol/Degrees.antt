-- ===== src/Psi/Protocol/Degrees.antt =====
-- The polynomial that the receiver learns has no more coefficients than there are points.
use rf_class_groups.Base.{
  ℕ, zero, suc, ◌+◌, ◌*◌, ◌≤◌, ◌<◌, ◌≡◌, refl, sym, ap, ◌∙◌, List, [], ◌∷◌, length, Cong, Cong-same,
  Cong-add, Cong-mul, arith,
}
use rf_class_groups.Ole.{Draws}
use rf_class_groups.Poly.{Poly, poly_from_roots}
use rf_class_groups.Poly.Values.{value}
use rf_class_groups.Poly.Degree.{length-top_of}
use rf_class_groups.Multiplication.Unchanged.{length-poly_mul_mod}
use rf_class_groups.Poly.Functions.{IsPoly, IsPoly-same, IsPoly-add}
use rf_class_groups.Poly.Karatsuba.{poly_mul_mod}
use rf_class_groups.Poly.Karatsuba.Reference.{karatsuba-IsProduct}
use rf_class_groups.Poly.Roots.{IsProduct, differences, poly_from_roots-differences}
use rf_class_groups.Lagrange.Interpolation.{times_differences-IsPoly}
use rf_class_groups.Opa.Correct.{opa_value}
use rf_class_groups.Psi.Protocol.{random_poly, random_from}

length-random_from : (rng : Draws) (i n : ℕ) → length (random_from rng i n) ≡ n
unfolding random_from
length-random_from rng i zero = refl
length-random_from rng i (suc n) = ap suc (length-random_from rng (suc i) n)

pub length-random_poly : (degree : ℕ) (rng : Draws) → length (random_poly degree rng) ≡ suc degree
unfolding random_poly
length-random_poly degree rng = length-random_from rng 0 (suc degree)

-- The vanishing polynomial of a set, and its product with a mask.
pub length-poly_from_roots :
    (q : ℕ)
    → 0 < q
    → (set : List ℕ) → length (poly_from_roots poly_mul_mod q set) ≤ suc (length set)
unfolding poly_from_roots
length-poly_from_roots q h [] = omega arith
length-poly_from_roots q h (b ∷ set) = length-top_of q h (b ∷ set)

pub length-masked_product :
    (q : ℕ)
    → 0 < q
    → (set : List ℕ) (mask : Poly)
    → length (poly_mul_mod (poly_from_roots poly_mul_mod q set) mask q)
      ≤ suc (suc (length set) + length mask)
length-masked_product q h set mask = omega (
  arith,
  length-poly_mul_mod q h (poly_from_roots poly_mul_mod q set) mask,
  length-poly_from_roots q h set,
)

module _ (q : ℕ) (positive : 0 < q) (A B : List ℕ) (r r' : Poly) where
  abbrev pA : Poly
  pA = poly_from_roots poly_mul_mod q A

  abbrev pB : Poly
  pB = poly_from_roots poly_mul_mod q B

  -- q_A + r_A p_B, with the products of differences in the place of the vanishing polynomials.
  pub received-differences :
      (x : ℕ)
      → Cong q
          (opa_value pB (poly_mul_mod pA r' q) r x)
          (value r' x * differences q A x + value r x * differences q B x)
  unfolding IsProduct
  received-differences x =
      let product = karatsuba-IsProduct q positive in
      Cong-add q (value (poly_mul_mod pA r' q) x) (value r' x * differences q A x)
        (value r x * value pB x) (value r x * differences q B x)
        (product pA r' x
          ∙ Cong-mul q (value pA x) (differences q A x) (value r' x) (value r' x)
              (poly_from_roots-differences poly_mul_mod q product A x) refl
          ∙ Cong-same q (differences q A x * value r' x) (value r' x * differences q A x)
              (omega arith))
        (Cong-mul q (value r x) (value r x) (value pB x) (differences q B x) refl
          (poly_from_roots-differences poly_mul_mod q product B x))

  pub received-IsPoly :
      (n : ℕ)
      → n ≡ length A + length B + 1
      → length r ≡ length A + 1
      → length r' ≡ length B + 1
      → IsPoly q n (opa_value pB (poly_mul_mod pA r' q) r)
  received-IsPoly n e h k =
      IsPoly-same q n (λ x. value r' x * differences q A x + value r x * differences q B x)
        (opa_value pB (poly_mul_mod pA r' q) r) (λ x. sym (received-differences x))
        (IsPoly-add q n (λ x. value r' x * differences q A x) (λ x. value r x * differences q B x)
          (times_differences-IsPoly q A (length r') n (value r') (omega arith)
            (r', omega arith, λ x. refl))
          (times_differences-IsPoly q B (length r) n (value r) (omega arith)
            (r, omega arith, λ x. refl)))
