-- ===== src/Interpolation/Combine.antt =====
-- The combination of constants along the product tree.
use rf_class_groups.Base.{
  ℕ, zero, suc, ◌+◌, ◌*◌, ◌-◌, ◌%◌, ◌≤◌, ◌<◌, ◌≡◌, inl, inr, refl, ap, ◌∙◌, List, [], ◌∷◌, map,
  length, ltb, max, ◌-◌, Bool-cases, Cong, Cong-same, Cong-add, Cong-mul, Cong-mul_right, arith,
}
use rf_class_groups.Poly.{Poly, poly_add_mod, pair_up, build_levels, front, poly_linear_from_root}
use rf_class_groups.Poly.Values.{value, value-poly_add_mod}
use rf_class_groups.Poly.Karatsuba.{poly_mul_mod}
use rf_class_groups.Poly.Degree.{length-poly_mul_naive_mod}
use rf_class_groups.Poly.Karatsuba.Recombine.{length-poly_add_mod}
use rf_class_groups.Poly.Karatsuba.Reference.{karatsuba-IsProduct, poly_mul_mod-poly_mul_naive_mod}
use rf_class_groups.Poly.Tree.Leaves.{length-linear}
use rf_class_groups.Poly.Roots.{
  IsProduct, all_values, differences, linear-value, leaves-differences, pair_up-values,
  length-pair_up, pair_up-nonempty, build_levels-nonempty,
}
use rf_class_groups.Lagrange.Barycentric.{interpolant}
use rf_class_groups.Interpolation.{combine_pairs, combine_levels}

-- Each entry times the product of the other polynomials, summed.
pub weighted_sum : List Poly → List Poly → ℕ → ℕ
weighted_sum (a ∷ acc) (p ∷ polys) x =
    value a x * all_values polys x + value p x * weighted_sum acc polys x
weighted_sum _ _ x = 0

module _ (q : ℕ) (positive : 0 < q) where
  product : IsProduct poly_mul_mod q
  product = karatsuba-IsProduct q positive

  combine_pairs-sum :
      (acc polys : List Poly) (x : ℕ)
      → length acc ≡ length polys
      → Cong q
          (weighted_sum (combine_pairs q acc polys) (pair_up poly_mul_mod q polys) x)
          (weighted_sum acc polys x)
  unfolding weighted_sum combine_pairs pair_up all_values IsProduct
  combine_pairs-sum [] [] x h = refl
  combine_pairs-sum [] (p ∷ polys) x h = absurd (omega arith)
  combine_pairs-sum (a ∷ acc) [] x h = absurd (omega arith)
  combine_pairs-sum (a ∷ []) (p ∷ []) x h = refl
  combine_pairs-sum (a ∷ []) (p ∷ p' ∷ polys) x h = absurd (omega arith)
  combine_pairs-sum (a ∷ a' ∷ acc) (p ∷ []) x h = absurd (omega arith)
  combine_pairs-sum (a ∷ a' ∷ acc) (p ∷ p' ∷ polys) x h =
      let left = poly_mul_mod a p' q in
      let right = poly_mul_mod a' p q in
      let rest = all_values (pair_up poly_mul_mod q polys) x in
      let sum = weighted_sum (combine_pairs q acc polys) (pair_up poly_mul_mod q polys) x in
      Cong-add q (value (poly_add_mod left right q) x * rest)
        ((value a x * value p' x + value a' x * value p x) * all_values polys x)
        (value (poly_mul_mod p p' q) x * sum) (value p x * value p' x * weighted_sum acc polys x)
        (Cong-mul q (value (poly_add_mod left right q) x)
          (value a x * value p' x + value a' x * value p x) rest (all_values polys x)
          (value-poly_add_mod q left right x
            ∙ Cong-add q (value left x) (value a x * value p' x) (value right x)
                (value a' x * value p x) (product a p' x) (product a' p x))
          (pair_up-values poly_mul_mod q product polys x))
        (Cong-mul q (value (poly_mul_mod p p' q) x) (value p x * value p' x) sum
          (weighted_sum acc polys x) (product p p' x) (combine_pairs-sum acc polys x (omega arith)))
      ∙ Cong-same q
          ((value a x * value p' x + value a' x * value p x) * all_values polys x
            + value p x * value p' x * weighted_sum acc polys x)
          (value a x * (value p' x * all_values polys x)
            + value p x * (value a' x * all_values polys x + value p' x * weighted_sum acc polys x))
          (omega arith)

  length-combine_pairs :
      (acc polys : List Poly)
      → length acc ≡ length polys
      → length (combine_pairs q acc polys) ≡ length (pair_up poly_mul_mod q polys)
  unfolding combine_pairs pair_up
  length-combine_pairs [] [] h = refl
  length-combine_pairs [] (p ∷ polys) h = absurd (omega arith)
  length-combine_pairs (a ∷ acc) [] h = absurd (omega arith)
  length-combine_pairs (a ∷ []) (p ∷ []) h = refl
  length-combine_pairs (a ∷ []) (p ∷ p' ∷ polys) h = absurd (omega arith)
  length-combine_pairs (a ∷ a' ∷ acc) (p ∷ []) h = absurd (omega arith)
  length-combine_pairs (a ∷ a' ∷ acc) (p ∷ p' ∷ polys) h =
      ap suc (length-combine_pairs acc polys (omega arith))

  single-sum :
      (acc polys : List Poly) (x : ℕ)
      → length acc ≡ length polys
      → 1 ≤ length polys
      → length polys ≤ 1
      → value (front acc) x ≡ weighted_sum acc polys x
  unfolding weighted_sum front all_values
  single-sum [] polys x h k l = absurd (omega arith)
  single-sum (a ∷ acc) [] x h k l = absurd (omega arith)
  single-sum (a ∷ []) (p ∷ []) x h k l = omega arith
  single-sum (a ∷ a' ∷ acc) (p ∷ []) x h k l = absurd (omega arith)
  single-sum (a ∷ acc) (p ∷ p' ∷ polys) x h k l = absurd (omega arith)

  combine_levels-cons :
      (acc level : List Poly) (levels : List (List Poly))
      → 1 ≤ length levels
      → combine_levels q acc (level ∷ levels) ≡ combine_levels q (combine_pairs q acc level) levels
  unfolding combine_levels
  combine_levels-cons acc level [] h = absurd (omega arith)
  combine_levels-cons acc level (level' ∷ levels) h = refl

  pub combine_levels-sum :
      (fuel : ℕ) (acc level : List Poly) (x : ℕ)
      → length acc ≡ length level
      → 1 ≤ length level
      → length level ≤ suc fuel
      → Cong q
          (value (front (combine_levels q acc (build_levels poly_mul_mod q fuel level))) x)
          (weighted_sum acc level x)
  unfolding build_levels
  combine_levels-sum zero acc level x h k l =
      Cong-same q _ _ (unfold combine_levels in single-sum acc level x h k l)
  combine_levels-sum (suc fuel) acc level x h k l = elim (Bool-cases (ltb 1 (length level))) [
    | inl e ↦
        let up = pair_up poly_mul_mod q level in
        rw
          (
            e,
            combine_levels-cons acc level (build_levels poly_mul_mod q fuel up)
                (build_levels-nonempty poly_mul_mod q product fuel up),
          )
          (combine_levels-sum fuel (combine_pairs q acc level) up x
              (length-combine_pairs acc level h) (pair_up-nonempty poly_mul_mod q product level k)
              (ground (arith, length-pair_up poly_mul_mod q product level, e))
            ∙ combine_pairs-sum acc level x h)
    | inr e ↦
        rw e (
          Cong-same q _ _ (unfold combine_levels in single-sum acc level x h k (ground (arith, e))))
  ]

  -- The degree of an entry of the combination stays within what its leaves add up to.
  abbrev pub joint_degrees : List Poly → List Poly → ℕ
  joint_degrees (a ∷ acc) (p ∷ polys) = max (length a - 1) (length p - 1) + joint_degrees acc polys
  joint_degrees _ _ = 0

  product-degree :
      (a b : Poly) (m n : ℕ)
      → length a - 1 ≤ m
      → length b - 1 ≤ n
      → length (poly_mul_mod a b q) ≤ suc (m + n)
  product-degree a b m n h k =
      rw (poly_mul_mod-poly_mul_naive_mod q a b positive)
        (omega (arith, length-poly_mul_naive_mod q a b))

  combine_pairs-joint_degrees :
      (acc polys : List Poly)
      → length acc ≡ length polys
      → joint_degrees (combine_pairs q acc polys) (pair_up poly_mul_mod q polys)
        ≤ joint_degrees acc polys
  unfolding combine_pairs pair_up
  combine_pairs-joint_degrees [] [] h = omega arith
  combine_pairs-joint_degrees [] (p ∷ polys) h = absurd (omega arith)
  combine_pairs-joint_degrees (a ∷ acc) [] h = absurd (omega arith)
  combine_pairs-joint_degrees (a ∷ []) (p ∷ []) h = omega arith
  combine_pairs-joint_degrees (a ∷ []) (p ∷ p' ∷ polys) h = absurd (omega arith)
  combine_pairs-joint_degrees (a ∷ a' ∷ acc) (p ∷ []) h = absurd (omega arith)
  combine_pairs-joint_degrees (a ∷ a' ∷ acc) (p ∷ p' ∷ polys) h =
      let m = max (length a - 1) (length p - 1) in
      let n = max (length a' - 1) (length p' - 1) in
      let left = product-degree a p' m n (omega arith) (omega arith) in
      let right = product-degree a' p n m (omega arith) (omega arith) in
      let new =
        length-poly_add_mod (poly_mul_mod a p' q) (poly_mul_mod a' p q) q (suc (m + n)) left
          (omega (arith, right)) in
      omega (
        arith,
        new,
        product-degree p p' m n (omega arith) (omega arith),
        combine_pairs-joint_degrees acc polys (omega arith),
      )

  single-joint_degrees :
      (acc polys : List Poly)
      → length acc ≡ length polys
      → 1 ≤ length polys
      → length (front acc) - 1 ≤ joint_degrees acc polys
  unfolding front
  single-joint_degrees [] polys h k = absurd (omega arith)
  single-joint_degrees (a ∷ acc) [] h k = absurd (omega arith)
  single-joint_degrees (a ∷ acc) (p ∷ polys) h k = omega arith

  pub combine_levels-joint_degrees :
      (fuel : ℕ) (acc level : List Poly)
      → length acc ≡ length level
      → 1 ≤ length level
      → length (front (combine_levels q acc (build_levels poly_mul_mod q fuel level))) - 1
        ≤ joint_degrees acc level
  unfolding build_levels
  combine_levels-joint_degrees zero acc level h k =
      unfold combine_levels in single-joint_degrees acc level h k
  combine_levels-joint_degrees (suc fuel) acc level h k = elim (Bool-cases (ltb 1 (length level))) [
    | inl e ↦
        let up = pair_up poly_mul_mod q level in
        rw
          (
            e,
            combine_levels-cons acc level (build_levels poly_mul_mod q fuel up)
                (build_levels-nonempty poly_mul_mod q product fuel up),
          )
          (omega (
            arith,
            combine_levels-joint_degrees fuel (combine_pairs q acc level) up
                (length-combine_pairs acc level h)
                (pair_up-nonempty poly_mul_mod q product level k),
            combine_pairs-joint_degrees acc level h,
          ))
    | inr e ↦ rw e (unfold combine_levels in single-joint_degrees acc level h k)
  ]

  -- Constants at the leaves.
  pub leaves-joint_degrees :
      (ws pts : List ℕ)
      → joint_degrees (map (λ w. w ∷ []) ws) (map (λ p. poly_linear_from_root p q) pts) ≤ length pts
  leaves-joint_degrees [] pts = omega arith
  leaves-joint_degrees (w ∷ ws) [] = omega arith
  leaves-joint_degrees (w ∷ ws) (p ∷ pts) =
      omega (arith, length-linear p q, leaves-joint_degrees ws pts)

  -- At the leaves the sum is the interpolant.
  pub leaves-interpolant :
      (ws pts : List ℕ) (c x : ℕ)
      → Cong q
          (c * weighted_sum (map (λ w. w ∷ []) ws) (map (λ p. poly_linear_from_root p q) pts) x)
          (interpolant q x c pts ws)
  unfolding weighted_sum
  leaves-interpolant [] [] c x = Cong-same q (c * 0) 0 (omega arith)
  leaves-interpolant [] (p ∷ pts) c x = Cong-same q (c * 0) 0 (omega arith)
  leaves-interpolant (w ∷ ws) [] c x = Cong-same q (c * 0) 0 (omega arith)
  leaves-interpolant (w ∷ ws) (p ∷ pts) c x =
      let linears = map (λ t. poly_linear_from_root t q) pts in
      let v = value (poly_linear_from_root p q) x in
      let f = x + (q - p % q) in
      let sum = weighted_sum (map (λ t. t ∷ []) ws) linears x in
      Cong-same q (c * ((w + x * 0) * all_values linears x + v * sum))
        (w * c * all_values linears x + c * v * sum) (omega arith)
      ∙ Cong-add q (w * c * all_values linears x) (w * c * differences q pts x) (c * v * sum)
          (interpolant q x (c * f) pts ws)
          (Cong-mul q (w * c) (w * c) (all_values linears x) (differences q pts x) refl
            (leaves-differences q pts x))
          (Cong-mul_right q (c * v) (c * f) sum (Cong-mul q c c v f refl (linear-value q p x))
            ∙ leaves-interpolant ws pts (c * f) x)
