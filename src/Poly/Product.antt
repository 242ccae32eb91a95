-- ===== src/Poly/Product.antt =====
-- The quadratic multiplication of cg_rf_common.hpp.
use rf_class_groups.Base.{
  ℕ, zero, suc, ◌+◌, ◌*◌, ◌-◌, ◌%◌, ◌≤◌, ◌≡◌, refl, ap, ◌∙◌, [], ◌∷◌, ◌++◌, take, drop, length,
  replicate, length-replicate, Cong, arith,
}
use rf_class_groups.Poly.{Poly, add_row, mul_rows, reduce_each, poly_mul_naive_mod}
use rf_class_groups.Poly.Values.{value, value-poly_trim, value-reduce_each}

pub length-add_row : (a : ℕ) (b out : Poly) → length (add_row a b out) ≡ length out
unfolding add_row
length-add_row a [] out = refl
length-add_row a (b ∷ bs) [] = refl
length-add_row a (b ∷ bs) (o ∷ os) = ap suc (length-add_row a bs os)

value-add_row :
    (a : ℕ) (b out : Poly) (x : ℕ)
    → length b ≤ length out
    → value (add_row a b out) x ≡ value out x + a * value b x
unfolding add_row
value-add_row a [] out x h = omega arith
value-add_row a (b ∷ bs) [] x h = absurd (omega arith)
value-add_row a (b ∷ bs) (o ∷ os) x h =
    ap (λ (t : ℕ). o + a * b + x * t) (value-add_row a bs os x (omega arith)) ∙ omega arith

-- The entries below the current index are final.
value-mul_rows :
    (a b out : Poly) (x : ℕ)
    → 1 ≤ length b
    → length a + length b ≤ suc (length out)
    → value (mul_rows a b out) x ≡ value out x + value a x * value b x
unfolding mul_rows
value-mul_rows [] b out x h k = omega arith
value-mul_rows (a ∷ as') b out x h k =
    go (add_row a b out) (λ os l. value-mul_rows as' b os x h l) (length-add_row a b out)
      (value-add_row a b out x (omega arith))
  where
    go :
        (row : Poly)
        → ((os : Poly)
            → length as' + length b ≤ suc (length os)
            → value (mul_rows as' b os) x ≡ value os x + value as' x * value b x)
        → length row ≡ length out
        → value row x ≡ value out x + a * value b x
        → value (take 1 row ++ mul_rows as' b (drop 1 row)) x
          ≡ value out x + (a + x * value as' x) * value b x
    go [] later e v = absurd (omega arith)
    go (o ∷ os) later e v = ap (λ (t : ℕ). o + x * t) (later os (omega arith)) ∙ omega (arith, v)

value-zeros : (n x : ℕ) → value (replicate n 0) x ≡ 0
value-zeros zero x = refl
value-zeros (suc n) x = ap (λ (t : ℕ). 0 + x * t) (value-zeros n x) ∙ omega arith

-- `poly_mul_naive_mod` gives a polynomial that has, at every point, the product of the values of its
-- factors modulo `q`.
pub value-poly_mul_naive_mod :
    (q : ℕ) (a b : Poly) (x : ℕ)
    → Cong q (value (poly_mul_naive_mod a b q) x) (value a x * value b x)
unfolding poly_mul_naive_mod
value-poly_mul_naive_mod q [] b x =
    ap (λ (t : ℕ). t % q) {x = 0 + x * 0} {y = 0 * value b x} (omega arith)
value-poly_mul_naive_mod q (a ∷ as') [] x =
    ap (λ (t : ℕ). t % q) {x = 0 + x * 0} {y = value (a ∷ as') x * 0} (omega arith)
value-poly_mul_naive_mod q (a ∷ as') (b ∷ bs) x =
    let n = length (a ∷ as') + length (b ∷ bs) - 1 in
    let out = mul_rows (a ∷ as') (b ∷ bs) (replicate n 0) in
    rw (value-poly_trim (reduce_each q out) x) (
      value-reduce_each q out x
      ∙ ap (λ (t : ℕ). t % q)
          (value-mul_rows (a ∷ as') (b ∷ bs) (replicate n 0) x (omega arith)
              (omega (arith, length-replicate {A = ℕ} n 0))
            ∙ ap (λ (t : ℕ). t + value (a ∷ as') x * value (b ∷ bs) x) (value-zeros n x)
            ∙ omega arith))
