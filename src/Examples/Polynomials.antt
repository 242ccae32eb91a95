-- ===== src/Examples/Polynomials.antt =====
-- The theorems on polynomials at concrete inputs.
use rf_class_groups.Base.{◌%◌, ◌≡◌, refl, [], ◌∷◌, ◌++◌, replicate, Cong, ok, arith, length, ◌≤◌}
use rf_class_groups.Poly.{Poly, poly_mul_naive_mod, poly_mod_monic, poly_from_roots}
use rf_class_groups.Poly.Values.{value}
use rf_class_groups.Poly.Remainder.{poly_mod_monic-value}
use rf_class_groups.Poly.Roots.{differences, naive-IsProduct, poly_from_roots-differences}
use rf_class_groups.Poly.Karatsuba.{poly_mul_mod}
use rf_class_groups.Poly.Karatsuba.Reference.{poly_mul_mod-poly_mul_naive_mod}
use rf_class_groups.Poly.Tree.{poly_eval_batch_product_tree}
use rf_class_groups.Poly.Tree.Leaves.{poly_eval_batch_product_tree-values}

abbrev cubic : Poly
cubic = 6 ∷ 4 ∷ 2 ∷ 5 ∷ []

-- x^2 + 3 x + 2 has the value 42 at 5, a multiple of 7.
abbrev low_part : Poly
low_part = 2 ∷ 3 ∷ []

poly_mod_monic-value_example :
    (rem : Poly) × (poly_mod_monic cubic (low_part ++ (1 ∷ [])) 7 ≡ ok rem)
    × (length rem ≤ 2)
    × Cong 7 (value rem 5) (value cubic 5)
poly_mod_monic-value_example = poly_mod_monic-value 7 cubic low_part 5 (omega arith) refl

poly_from_roots-differences_example :
    Cong 7
      (value (poly_from_roots poly_mul_naive_mod 7 (3 ∷ 5 ∷ 6 ∷ [])) 2)
      (differences 7 (3 ∷ 5 ∷ 6 ∷ []) 2)
poly_from_roots-differences_example =
    poly_from_roots-differences poly_mul_naive_mod 7 (naive-IsProduct 7) (3 ∷ 5 ∷ 6 ∷ []) 2

abbrev long : Poly
long = replicate 40 3

abbrev longer : Poly
longer = replicate 70 5

poly_mul_mod-poly_mul_naive_mod_example :
    poly_mul_mod long longer 7 ≡ poly_mul_naive_mod long longer 7
poly_mul_mod-poly_mul_naive_mod_example =
    poly_mul_mod-poly_mul_naive_mod 7 long longer (omega arith)

poly_eval_batch_product_tree-values_example :
    poly_eval_batch_product_tree poly_mul_mod cubic (4 ∷ 0 ∷ 6 ∷ []) 7
    ≡ ok (value cubic 4 % 7 ∷ 6 ∷ value cubic 6 % 7 ∷ [])
poly_eval_batch_product_tree-values_example =
    poly_eval_batch_product_tree-values 7 cubic (4 ∷ 0 ∷ 6 ∷ []) (omega arith)
