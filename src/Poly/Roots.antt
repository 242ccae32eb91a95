-- ===== src/Poly/Roots.antt =====
-- The product tree of cg_rf_common.hpp and the polynomial with given roots.
use rf_class_groups.Base.{
  ℕ, zero, suc, ◌+◌, ◌*◌, ◌-◌, ◌%◌, ◌≤◌, ◌<◌, ◌≡◌, inl, inr, refl, sym, ap, ◌∙◌, List, [], ◌∷◌,
  ◌++◌, length, map, length-map, ltb, ◌==◌, Bool-cases, ==_iff, Cong, Cong-multiple, Cong-mod,
  Cong-add, Cong-mul, arith,
}
use native.Mathlib.Nat.{mod-lt}
use rf_class_groups.Poly.{
  Poly, poly_mul_naive_mod, poly_linear_from_root, pair_up, build_levels, poly_build_product_tree,
  poly_from_roots, front, top_of,
}
use rf_class_groups.Poly.Values.{value}
use rf_class_groups.Poly.Product.{value-poly_mul_naive_mod}

-- What the tree needs of its multiplication.
unfoldable pub IsProduct : (Poly → Poly → ℕ → Poly) → ℕ → Type 0
IsProduct multiply q =
    (a b : Poly) (x : ℕ) → Cong q (value (multiply a b q) x) (value a x * value b x)

-- The quadratic multiplication will do.
pub naive-IsProduct : (q : ℕ) → IsProduct poly_mul_naive_mod q
unfolding IsProduct
naive-IsProduct q a b x = value-poly_mul_naive_mod q a b x

-- The product of the differences `x - r`, as numbers modulo `q`.
abbrev pub differences : ℕ → List ℕ → ℕ → ℕ
differences q [] x = 1
differences q (r ∷ roots) x = (x + (q - r % q)) * differences q roots x

pub linear-value : (q r x : ℕ) → Cong q (value (poly_linear_from_root r q) x) (x + (q - r % q))
unfolding poly_linear_from_root
linear-value q r x = elim (Bool-cases (r % q == 0)) [
  | inl e ↦ rw e (
      ap (λ (t : ℕ). t % q) {x = 0 + x * (1 + x * 0)} {y = x} (omega arith)
      ∙ sym (Cong-multiple q x 1)
      ∙ ap (λ (t : ℕ). t % q) {x = x + q * 1} {y = x + (q - r % q)}
          (omega (arith, (==_iff (r % q) 0).0 e)))
  | inr e ↦
      rw e (
        ap (λ (t : ℕ). t % q) {x = q - r % q + x * (1 + x * 0)} {y = x + (q - r % q)} (omega arith))
]

unfoldable pub all_values : List Poly → ℕ → ℕ
all_values [] x = 1
all_values (p ∷ ps) x = value p x * all_values ps x

pub leaves-differences :
    (q : ℕ) (roots : List ℕ) (x : ℕ)
    → Cong q (all_values (map (λ r. poly_linear_from_root r q) roots) x) (differences q roots x)
unfolding all_values
leaves-differences q [] x = refl
leaves-differences q (r ∷ roots) x =
    Cong-mul q (value (poly_linear_from_root r q) x) (x + (q - r % q))
      (all_values (map (λ t. poly_linear_from_root t q) roots) x) (differences q roots x)
      (linear-value q r x) (leaves-differences q roots x)

module _ (multiply : Poly → Poly → ℕ → Poly) (q : ℕ) (product : IsProduct multiply q) where
  pub pair_up-values :
      (level : List Poly) (x : ℕ)
      → Cong q (all_values (pair_up multiply q level) x) (all_values level x)
  unfolding pair_up all_values IsProduct
  pair_up-values [] x = refl
  pair_up-values (p ∷ []) x = refl
  pair_up-values (p ∷ p' ∷ level) x =
      Cong-mul q (value (multiply p p' q) x) (value p x * value p' x)
        (all_values (pair_up multiply q level) x) (all_values level x) (product p p' x)
        (pair_up-values level x)
      ∙ ap (λ (t : ℕ). t % q) {x = value p x * value p' x * all_values level x}
          {y = value p x * (value p' x * all_values level x)} (omega arith)

  pub length-pair_up :
      (level : List Poly) → 2 * length (pair_up multiply q level) ≤ suc (length level)
  unfolding pair_up
  length-pair_up [] = omega arith
  length-pair_up (p ∷ []) = omega arith
  length-pair_up (p ∷ p' ∷ level) = omega (arith, length-pair_up level)

  pub pair_up-nonempty :
      (level : List Poly) → 1 ≤ length level → 1 ≤ length (pair_up multiply q level)
  unfolding pair_up
  pair_up-nonempty [] h = h
  pair_up-nonempty (p ∷ []) h = omega arith
  pair_up-nonempty (p ∷ p' ∷ level) h = omega arith

  pub single-value :
      (level : List Poly) (x : ℕ)
      → 1 ≤ length level
      → length level ≤ 1
      → value (front level) x ≡ all_values level x
  unfolding front all_values
  single-value [] x h k = absurd (omega arith)
  single-value (p ∷ []) x h k = omega arith
  single-value (p ∷ p' ∷ level) x h k = absurd (omega arith)

  pub top_of-cons :
      (level : List Poly) (levels : List (List Poly))
      → 1 ≤ length levels
      → top_of (level ∷ levels) ≡ top_of levels
  unfolding top_of
  top_of-cons level [] h = absurd (omega arith)
  top_of-cons level (level' ∷ levels) h = refl

  pub build_levels-nonempty :
      (fuel : ℕ) (level : List Poly) → 1 ≤ length (build_levels multiply q fuel level)
  unfolding build_levels
  build_levels-nonempty zero level = omega arith
  build_levels-nonempty (suc fuel) level = elim (Bool-cases (ltb 1 (length level))) [
    | inl e ↦ rw e (omega arith)
    | inr e ↦ rw e (omega arith)
  ]

  pub top-build_levels :
      (fuel : ℕ) (level : List Poly) (x : ℕ)
      → 1 ≤ length level
      → length level ≤ suc fuel
      → Cong q (value (top_of (build_levels multiply q fuel level)) x) (all_values level x)
  unfolding build_levels
  top-build_levels zero level x h k =
      ap (λ (t : ℕ). t % q) (unfold top_of in single-value level x h k)
  top-build_levels (suc fuel) level x h k = elim (Bool-cases (ltb 1 (length level))) [
    | inl e ↦
        rw
          (
            e,
            top_of-cons level (build_levels multiply q fuel (pair_up multiply q level))
                (build_levels-nonempty fuel (pair_up multiply q level)),
          )
          (top-build_levels fuel (pair_up multiply q level) x (pair_up-nonempty level h)
              (ground (arith, length-pair_up level, e))
            ∙ pair_up-values level x)
    | inr e ↦
        rw e (ap (λ (t : ℕ). t % q) (unfold top_of in single-value level x h (ground (arith, e))))
  ]

  -- With a multiplication that keeps values, the polynomial that is built from roots has at every
  -- point the product of the differences to the roots, modulo `q`.
  pub poly_from_roots-differences :
      (roots : List ℕ) (x : ℕ)
      → Cong q (value (poly_from_roots multiply q roots) x) (differences q roots x)
  unfolding poly_from_roots poly_build_product_tree
  poly_from_roots-differences [] x = ap (λ (t : ℕ). t % q) {x = 1 + x * 0} {y = 1} (omega arith)
  poly_from_roots-differences (r ∷ roots) x =
      let leaves = map (λ t. poly_linear_from_root t q) (r ∷ roots) in
      top-build_levels (length (r ∷ roots)) leaves x (omega arith)
        (omega (arith, length-map (r ∷ roots) (λ t. poly_linear_from_root t q)))
      ∙ leaves-differences q (r ∷ roots) x

  differences-zero :
      (before after : List ℕ) (r x : ℕ)
      → 0 < q
      → Cong q x r
      → Cong q (differences q (before ++ (r ∷ after)) x) 0
  differences-zero [] after r x h e =
      Cong-mul q (x + (q - r % q)) 0 (differences q after x) (differences q after x)
        (Cong-add q x (r % q) (q - r % q) (q - r % q) (e ∙ sym (Cong-mod q r)) refl
          ∙ ap (λ (t : ℕ). t % q) {x = r % q + (q - r % q)} {y = 0 + q * 1}
              (omega (arith, mod-lt r h))
          ∙ Cong-multiple q 0 1)
        refl
      ∙ ap (λ (t : ℕ). t % q) {x = 0 * differences q after x} {y = 0} (omega arith)
  differences-zero (b ∷ before) after r x h e =
      Cong-mul q (x + (q - b % q)) (x + (q - b % q)) (differences q (before ++ (r ∷ after)) x) 0
        refl (differences-zero before after r x h e)
      ∙ ap (λ (t : ℕ). t % q) {x = (x + (q - b % q)) * 0} {y = 0} (omega arith)

  -- With a multiplication that keeps values and `q` above 0, the polynomial that is built from roots
  -- vanishes modulo `q` at every point that is congruent to one of them.
  pub poly_from_roots-root :
      (before after : List ℕ) (r x : ℕ)
      → 0 < q
      → Cong q x r
      → Cong q (value (poly_from_roots multiply q (before ++ (r ∷ after))) x) 0
  poly_from_roots-root before after r x h e =
      poly_from_roots-differences (before ++ (r ∷ after)) x ∙ differences-zero before after r x h e
