-- ===== src/Poly/Tree/Leaves.antt =====
-- Evaluation by the product tree, from the points to the values.
use rf_class_groups.Base.{
  ℕ, zero, suc, ◌+◌, ◌*◌, ◌-◌, ◌/◌, ◌%◌, ◌≤◌, ◌≡◌, inl, inr, refl, sym, ap, ◌∙◌, List, [], ◌∷◌, map,
  length, length-map, All, ltb, ==_refl, Bool-cases, Cong, Cong-same, Cong-multiple, complement, ok,
  arith,
}
use native.Mathlib.Nat.{zero-mod}
use rf_class_groups.Poly.{Poly, build_levels, poly_build_product_tree, poly_linear_from_root}
use rf_class_groups.Poly.Values.{value}
use rf_class_groups.Poly.Roots.{IsProduct, linear-value}
use rf_class_groups.Poly.Leading.{IsMonic, IsMonicProduct, linear-IsMonic, karatsuba-IsMonicProduct}
use rf_class_groups.Poly.Karatsuba.{poly_mul_mod}
use rf_class_groups.Poly.Karatsuba.Reference.{karatsuba-IsProduct}
use rf_class_groups.Poly.Tree.{
  leaf_value, leaf_count, poly_eval_batch_with_product_tree, poly_eval_batch_product_tree,
}
use rf_class_groups.Poly.Tree.Descent.{IsRemainder, AreRemainders, tree_remainders-AreRemainders}

-- The vanishing of X - x at x.
linear-root : (q x : ℕ) → 2 ≤ q → Cong q (value (poly_linear_from_root x q) x) 0
linear-root q x h =
    linear-value q x x
    ∙ Cong-same q (x + (q - x % q)) (0 + q * (x / q + 1))
        (omega (arith, complement q x (omega arith)))
    ∙ Cong-multiple q 0 (x / q + 1)

leaf_value-short : (q : ℕ) (r : Poly) (x : ℕ) → length r ≤ 1 → leaf_value q r ≡ value r x % q
unfolding leaf_value
leaf_value-short q [] x h = sym (zero-mod q)
leaf_value-short q (c ∷ []) x h = Cong-same q c (c + x * 0) (omega arith)
leaf_value-short q (c ∷ d ∷ r) x h = absurd (omega arith)

leaves-IsMonic :
    (q : ℕ) (points : List ℕ) → All IsMonic (map (λ x. poly_linear_from_root x q) points)
leaves-IsMonic q [] = tt
leaves-IsMonic q (x ∷ points) = (linear-IsMonic x q, leaves-IsMonic q points)

pub length-linear : (x q : ℕ) → length (poly_linear_from_root x q) ≡ 2
unfolding poly_linear_from_root
length-linear x q = refl

leaf_values :
    (q : ℕ) (coeffs : Poly) (large : 2 ≤ q) (rems : List Poly) (points : List ℕ)
    → AreRemainders q coeffs large rems (map (λ x. poly_linear_from_root x q) points)
    → map (leaf_value q) rems ≡ map (λ x. value coeffs x % q) points
unfolding AreRemainders IsRemainder
leaf_values q coeffs large [] [] h = refl
leaf_values q coeffs large [] (x ∷ points) h = absurd h
leaf_values q coeffs large (r ∷ rems) [] h = absurd h
leaf_values q coeffs large (r ∷ rems) (x ∷ points) h =
    let head =
      leaf_value-short q r x (omega (arith, h.0.0, length-linear x q))
      ∙ h.0.1 x (linear-root q x large) in
    let tail = leaf_values q coeffs large rems points h.1 in rw (head, tail) refl

module _ (multiply : Poly → Poly → ℕ → Poly) (q : ℕ) (large : 2 ≤ q)
    (product : IsProduct multiply q) (monic : IsMonicProduct multiply q) where
  pub leaf_count-build_levels :
      (fuel : ℕ) (level : List Poly)
      → leaf_count (build_levels multiply q fuel level) ≡ length level
  unfolding build_levels leaf_count
  leaf_count-build_levels zero level = refl
  leaf_count-build_levels (suc fuel) level = elim (Bool-cases (ltb 1 (length level))) [
    | inl e ↦ rw e refl
    | inr e ↦ rw e refl
  ]

  tree-values :
      (coeffs : Poly) (points : List ℕ)
      → poly_eval_batch_product_tree multiply coeffs points q
        ≡ ok (map (λ x. value coeffs x % q) points)
  unfolding poly_eval_batch_product_tree poly_eval_batch_with_product_tree poly_build_product_tree
  tree-values coeffs [] = refl
  tree-values [] (x ∷ points) = ap (λ (c : ℕ). ok (c ∷ map (λ p. c) points)) (sym (zero-mod q))
  tree-values (c ∷ coeffs) (x ∷ points) =
      let level = map (λ p. poly_linear_from_root p q) (x ∷ points) in
      let fuel = length (x ∷ points) in
      let size = length-map (x ∷ points) (λ p. poly_linear_from_root p q) in
      let (rems, e, h) =
        tree_remainders-AreRemainders q (c ∷ coeffs) large multiply product monic fuel level
          (omega (arith, size)) (omega (arith, size)) (leaves-IsMonic q (x ∷ points)) in
      rw
        (
          leaf_count-build_levels fuel level,
          size,
          ==_refl fuel,
          e,
          leaf_values q (c ∷ coeffs) large rems (x ∷ points) h,
        )
        refl

-- For every modulus of at least 2, the descent of remainders through the product tree, with products
-- by Karatsuba's recursion, ends without a failure and gives the value of the polynomial at each
-- point, reduced modulo `q`.
pub poly_eval_batch_product_tree-values :
    (q : ℕ) (coeffs : Poly) (points : List ℕ)
    → 2 ≤ q
    → poly_eval_batch_product_tree poly_mul_mod coeffs points q
      ≡ ok (map (λ x. value coeffs x % q) points)
poly_eval_batch_product_tree-values q coeffs points large =
    tree-values poly_mul_mod q large (karatsuba-IsProduct q (omega arith))
      (karatsuba-IsMonicProduct q large) coeffs points
