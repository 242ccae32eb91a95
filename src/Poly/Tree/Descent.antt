-- ===== src/Poly/Tree/Descent.antt =====
-- The remainders at the leaves are the values at the points.
use rf_class_groups.Base.{
  ℕ, zero, suc, ◌*◌, ◌%◌, ◌≤◌, ◌≡◌, ◌⊎◌, inl, inr, refl, sym, ap, ◌∙◌, List, [], ◌∷◌, length,
  length-append, All, ltb, Bool-cases, Cong, Cong-same, Cong-mul, Cong-mul_right, ok, ◌>>=◌,
  ok_injective, arith,
}
use rf_class_groups.Poly.{Poly, front, poly_mod_monic, pair_up, build_levels}
use rf_class_groups.Poly.Values.{value}
use rf_class_groups.Poly.Remainder.{poly_mod_monic-value}
use rf_class_groups.Poly.Roots.{IsProduct, length-pair_up, pair_up-nonempty, build_levels-nonempty}
use rf_class_groups.Poly.Leading.{IsMonic, IsMonicProduct, poly_mod_monic-size}
use rf_class_groups.Poly.Tree.{child_remainders, tree_remainders}

module _ (q : ℕ) (coeffs : Poly) (large : 2 ≤ q) where
  -- Where the divisor vanishes, the remainder has the value of the polynomial.
  unfoldable pub IsRemainder : Poly → Poly → Type 0
  IsRemainder r d =
      (suc (length r) ≤ length d)
      × ((x : ℕ) → Cong q (value d x) 0 → Cong q (value r x) (value coeffs x))

  unfoldable pub AreRemainders : List Poly → List Poly → Type 0
  AreRemainders [] [] = Unit {0}
  AreRemainders [] (d ∷ ds) = ⊥
  AreRemainders (r ∷ rs) [] = ⊥
  AreRemainders (r ∷ rs) (d ∷ ds) = IsRemainder r d × AreRemainders rs ds

  monic_step :
      (dividend d : Poly)
      → IsMonic d
      → ((x : ℕ) → Cong q (value d x) 0 → Cong q (value dividend x) (value coeffs x))
      → (r : Poly) × (poly_mod_monic dividend d q ≡ ok r) × IsRemainder r d
  unfolding IsRemainder
  monic_step dividend d (low, same, long) h =
      let (r, e, size) = poly_mod_monic-size q dividend low long in
      (
        r,
        rw same e,
        (
          omega (arith, size, ap (λ (p : Poly). length p) same, length-append low (1 ∷ [])),
          λ x z.
              let (r', e', _, v) =
                poly_mod_monic-value q dividend low x (omega arith) (rw same at z) in
              ap (λ (p : Poly). value p x % q) (ok_injective (sym e ∙ e')) ∙ v ∙ h x z,
        ),
      )

  -- Where one factor vanishes, the product does.
  factor_vanishes :
      (multiply : Poly → Poly → ℕ → Poly) (a b : Poly) (x : ℕ)
      → IsProduct multiply q
      → (Cong q (value a x) 0) ⊎ (Cong q (value b x) 0)
      → Cong q (value (multiply a b q) x) 0
  unfolding IsProduct
  factor_vanishes multiply a b x product (inl z) =
      product a b x
      ∙ Cong-mul_right q (value a x) 0 (value b x) z
      ∙ Cong-same q (0 * value b x) 0 (omega arith)
  factor_vanishes multiply a b x product (inr z) =
      product a b x
      ∙ Cong-mul q (value a x) (value a x) (value b x) 0 refl z
      ∙ Cong-same q (value a x * 0) 0 (omega arith)

  module _ (multiply : Poly → Poly → ℕ → Poly) (product : IsProduct multiply q)
      (monic : IsMonicProduct multiply q) where
    -- One level down.
    child_remainders-AreRemainders :
        (rems level : List Poly)
        → All IsMonic level
        → AreRemainders rems (pair_up multiply q level)
        → (children : List Poly) × (child_remainders q rems level ≡ ok children)
          × AreRemainders children level
    unfolding child_remainders AreRemainders pair_up IsRemainder
    child_remainders-AreRemainders [] [] m h = ([], refl, tt)
    child_remainders-AreRemainders [] (d ∷ []) m h = absurd h
    child_remainders-AreRemainders [] (d ∷ d' ∷ level) m h = absurd h
    child_remainders-AreRemainders (r ∷ rems) [] m h = absurd h
    child_remainders-AreRemainders (r ∷ []) (d ∷ []) m h =
        let (left, e, k) = monic_step r d m.0 h.0.1 in (left ∷ [], rw e refl, (k, tt))
    child_remainders-AreRemainders (r ∷ r' ∷ rems) (d ∷ []) m h = absurd h.1
    child_remainders-AreRemainders (r ∷ rems) (d ∷ d' ∷ level) m h =
        let (left, e, k) =
          monic_step r d m.0 (λ x z. h.0.1 x (factor_vanishes multiply d d' x product (inl z))) in
        let (right, e', k') =
          monic_step r d' m.1.0
            (λ x z. h.0.1 x (factor_vanishes multiply d d' x product (inr z))) in
        let (rest, e'', k'') = child_remainders-AreRemainders rems level m.1.1 h.1 in
        (left ∷ right ∷ rest, rw (e, e', e'') refl, (k, (k', k'')))

    pair_up-IsMonic :
        (level : List Poly) → All IsMonic level → All IsMonic (pair_up multiply q level)
    unfolding pair_up
    pair_up-IsMonic [] m = tt
    pair_up-IsMonic (d ∷ []) m = m
    pair_up-IsMonic (d ∷ d' ∷ level) m = (monic d d' m.0 m.1.0, pair_up-IsMonic level m.1.1)

    single-AreRemainders :
        (level : List Poly)
        → 1 ≤ length level
        → length level ≤ 1
        → All IsMonic level
        → (rems : List Poly) × (tree_remainders q coeffs (level ∷ []) ≡ ok rems)
          × AreRemainders rems level
    unfolding tree_remainders AreRemainders front
    single-AreRemainders [] h k m = absurd (omega arith)
    single-AreRemainders (d ∷ []) h k m =
        let (r, e, l) = monic_step coeffs d m.0 (λ x z. refl) in (r ∷ [], rw e refl, (l, tt))
    single-AreRemainders (d ∷ d' ∷ level) h k m = absurd (omega arith)

    tree_remainders-cons :
        (level : List Poly) (levels : List (List Poly))
        → 1 ≤ length levels
        → tree_remainders q coeffs (level ∷ levels)
          ≡ (tree_remainders q coeffs levels >>= (λ rems. child_remainders q rems level))
    unfolding tree_remainders
    tree_remainders-cons level [] h = absurd (omega arith)
    tree_remainders-cons level (level' ∷ levels) h = refl

    -- From the root to the level that the tree was built from.
    pub tree_remainders-AreRemainders :
        (fuel : ℕ) (level : List Poly)
        → 1 ≤ length level
        → length level ≤ suc fuel
        → All IsMonic level
        → (rems : List Poly) × (tree_remainders q coeffs (build_levels multiply q fuel level)
            ≡ ok rems)
          × AreRemainders rems level
    unfolding build_levels
    tree_remainders-AreRemainders zero level h k m = single-AreRemainders level h k m
    tree_remainders-AreRemainders (suc fuel) level h k m =
        elim (Bool-cases (ltb 1 (length level))) [
          | inl e ↦
              let up = pair_up multiply q level in
              let (rems, f, r) =
                tree_remainders-AreRemainders fuel up (pair_up-nonempty multiply q product level h)
                  (ground (arith, length-pair_up multiply q product level, e))
                  (pair_up-IsMonic level m) in
              let (children, g, s) = child_remainders-AreRemainders rems level m r in
              (
                children,
                rw
                    (
                      e,
                      tree_remainders-cons level (build_levels multiply q fuel up)
                          (build_levels-nonempty multiply q product fuel up),
                      f,
                      g,
                    )
                    refl,
                s,
              )
          | inr e ↦
              let (rems, f, r) = single-AreRemainders level h (ground (arith, e)) m in
              (rems, rw (e, f) refl, r)
        ]
