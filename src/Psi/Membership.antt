-- ===== src/Psi/Membership.antt =====
-- The product of the differences to a set vanishes exactly at its elements.
use rf_class_groups.Base.{
  ℕ, ◌+◌, ◌*◌, ◌-◌, ◌/◌, ◌%◌, ◌<◌, ◌≡◌, inl, inr, Bool, true, false, ◌||◌, ◌==◌, ==_iff, Bool-cases,
  if◌then◌else◌, refl, sym, ap, ◌∙◌, List, [], ◌∷◌, All, Cong, Cong-same, Cong-mod, Cong-add,
  Cong-mul_right, Cong-mul, Cong-multiple, complement, IsField, field-nonzero_product,
  field-small_nonzero, arith,
}
use native.Mathlib.Nat.{mod-lt, mod-eq_of_lt, zero-mod}
use rf_class_groups.Poly.Roots.{differences}

unfoldable pub is_member : ℕ → List ℕ → Bool
is_member x [] = false
is_member x (a ∷ set) = if x == a then true else is_member x set

module _ (mod_inverse : ℕ → ℕ → ℕ) (q : ℕ) (field : IsField mod_inverse q) where
  own_difference : (x : ℕ) → Cong q (x + (q - x % q)) 0
  own_difference x =
      Cong-same q (x + (q - x % q)) (0 + q * (x / q + 1))
        (omega (arith, complement q x (omega (arith, field.0))))
      ∙ Cong-multiple q 0 (x / q + 1)

  other_difference : (a x : ℕ) → a < q → x < q → ¬ (x ≡ a) → ¬ Cong q (x + (q - a % q)) 0
  other_difference a x h k different z = different (
      sym (mod-eq_of_lt k)
      ∙ Cong-same q x (x + 0) (omega arith)
      ∙ sym (Cong-multiple q (x + 0) 1)
      ∙ Cong-same q (x + 0 + q * 1) (x + (q - a % q) + a % q) (omega (arith, mod-lt a (positive)))
      ∙ Cong-add q (x + (q - a % q)) 0 (a % q) a z (Cong-mod q a)
      ∙ Cong-same q (0 + a) a (omega arith)
      ∙ mod-eq_of_lt h)
    where
      positive : 0 < q
      positive = omega (arith, field.0)

  member_vanishes : (x : ℕ) (set : List ℕ) → is_member x set ≡ true → Cong q (differences q set x) 0
  unfolding is_member
  member_vanishes x [] h = absurd (no h)
    where
      no : false ≡ true → ⊥
      no e = cc
  member_vanishes x (a ∷ set) h = elim (Bool-cases (x == a)) [
    | inl e ↦
        let same = (==_iff x a).0 e in
        ap (λ (t : ℕ). (x + (q - t % q)) * differences q set x % q) (sym same)
        ∙ Cong-mul_right q (x + (q - x % q)) 0 (differences q set x) (own_difference x)
        ∙ Cong-same q (0 * differences q set x) 0 (omega arith)
    | inr e ↦
        Cong-mul q (x + (q - a % q)) (x + (q - a % q)) (differences q set x) 0 refl
          (member_vanishes x set (rw e at h))
        ∙ Cong-same q ((x + (q - a % q)) * 0) 0 (omega arith)
  ]

  other_remains :
      (x : ℕ) (set : List ℕ)
      → x < q
      → All (λ a. a < q) set
      → is_member x set ≡ false
      → ¬ Cong q (differences q set x) 0
  unfolding is_member
  other_remains x [] h k e = field-small_nonzero mod_inverse q field 1 (omega arith) field.0
  other_remains x (a ∷ set) h k e = elim (Bool-cases (x == a)) [
    | inl b ↦ absurd (no (rw b at e))
    | inr b ↦
        field-nonzero_product mod_inverse q field (x + (q - a % q)) (differences q set x)
          (other_difference a x k.0 h (λ same. no (sym ((==_iff x a).1 same) ∙ b)))
          (other_remains x set h k.1 (rw b at e))
  ]
    where
      no : true ≡ false → ⊥
      no z = cc

  zero_test : (a : ℕ) → Cong q a 0 → (a % q == 0) ≡ true
  zero_test a h = (==_iff (a % q) 0).1 (h ∙ zero-mod q)

  nonzero_test : (a : ℕ) → ¬ Cong q a 0 → (a % q == 0) ≡ false
  nonzero_test a h = elim (Bool-cases (a % q == 0)) [
    | inl e ↦ absurd (h ((==_iff (a % q) 0).0 e ∙ sym (zero-mod q)))
    | inr e ↦ e
  ]

  -- With a factor in front: zero exactly at the elements and at the roots of the factor.
  pub product-is_member :
      (r x : ℕ) (set : List ℕ)
      → x < q
      → All (λ a. a < q) set
      → (r * differences q set x % q == 0) ≡ (is_member x set || r % q == 0)
  product-is_member r x set h k = elim (Bool-cases (is_member x set)) [
    | inl m ↦ rw m (
        zero_test (r * d)
          (Cong-mul q r r d 0 refl (member_vanishes x set m) ∙ Cong-same q (r * 0) 0 (omega arith)))
    | inr m ↦ elim (Bool-cases (r % q == 0)) [
      | inl e ↦
          rw (m, e)
            (zero_test (r * d) (
              Cong-mul_right q r 0 d ((==_iff (r % q) 0).0 e ∙ sym (zero-mod q))
              ∙ Cong-same q (0 * d) 0 (omega arith)))
      | inr e ↦
          rw (m, e)
            (nonzero_test (r * d) (
              field-nonzero_product mod_inverse q field r d (λ z. clash e (zero_test r z))
                (other_remains x set h k m)))
    ]
  ]
    where
      d : ℕ
      d = differences q set x

      clash : {b : Bool} → b ≡ false → b ≡ true → ⊥
      clash e f = cc

-- The elements of a set that pass a test, in its order.
unfoldable pub select : (ℕ → Bool) → List ℕ → List ℕ
select test [] = []
select test (b ∷ set) = let rest = select test set in if test b then b ∷ rest else rest

pub select-same :
    (f g : ℕ → Bool) (set : List ℕ) → All (λ b. f b ≡ g b) set → select f set ≡ select g set
unfolding select
select-same f g [] h = refl
select-same f g (b ∷ set) h =
    let rest = select-same f g set h.1 in let head = h.0 in rw (head, rest) refl
