-- ===== src/Poly/Karatsuba/Split.antt =====
-- The parts of one step of Karatsuba's recursion, by their coefficients.
use rf_class_groups.Base.{
  ℕ, zero, suc, ◌+◌, ◌-◌, ◌%◌, min, max, ◌≤◌, ◌<◌, ◌≡◌, ◌⊎◌, inl, inr, refl, sym, ap, ◌∙◌, [], ◌∷◌,
  length, length-take, length-drop, take, drop, Cong, Cong-same, Cong-mod, Bool-cases, leb, arith,
}
use native.Mathlib.Nat.{mod-mod}
use rf_class_groups.Poly.{Poly}
use rf_class_groups.Poly.Series.{coefficient, coefficient-beyond, delay}
use rf_class_groups.Poly.Karatsuba.{slice_between, poly_slice, add_range, add_at}

delay-nothing : (h i : ℕ) → delay h (coefficient []) i ≡ 0
delay-nothing zero i = refl
delay-nothing (suc h) zero = refl
delay-nothing (suc h) (suc i) = delay-nothing h i

-- Cutting at `h`.
coefficient-cut :
    (h : ℕ) (p : Poly) (i : ℕ)
    → coefficient p i ≡ coefficient (take h p) i + delay h (coefficient (drop h p)) i
coefficient-cut zero p i = omega arith
coefficient-cut (suc h) [] zero = omega arith
coefficient-cut (suc h) [] (suc i) = omega (arith, delay-nothing h i)
coefficient-cut (suc h) (c ∷ p) zero = omega arith
coefficient-cut (suc h) (c ∷ p) (suc i) = coefficient-cut h p i

take-enough : (n : ℕ) (p : Poly) → length p ≤ n → take n p ≡ p
take-enough zero [] h = refl
take-enough zero (c ∷ p) h = absurd (omega arith)
take-enough (suc n) [] h = refl
take-enough (suc n) (c ∷ p) h = ap (λ (t : Poly). c ∷ t) (take-enough n p (omega arith))

zero_or_nothing : (p : Poly) → length p ≤ 0 → (i : ℕ) → coefficient (0 ∷ []) i ≡ coefficient p i
zero_or_nothing [] h zero = refl
zero_or_nothing [] h (suc i) = refl
zero_or_nothing (c ∷ p) h i = absurd (omega arith)

coefficient-slice_between :
    (p : Poly) (begin end i : ℕ)
    → coefficient (slice_between p begin end) i ≡ coefficient (take (end - begin) (drop begin p)) i
unfolding slice_between
coefficient-slice_between p begin end i = elim (Bool-cases (leb end begin)) [
  | inl e ↦ rw e (
      zero_or_nothing (take (end - begin) (drop begin p))
        (ground (arith, length-take (end - begin) (drop begin p), e)) i)
  | inr e ↦ rw e refl
]

take-bounded : (h : ℕ) (p : Poly) → take (min h (length p)) p ≡ take h p
take-bounded h p = elim (shorter_or_longer) [
  | inl shorter ↦ let same : min h (length p) ≡ h = omega arith in rw same refl
  | inr longer ↦
      let same : min h (length p) ≡ length p = omega arith in
      rw (same, take-enough h p longer) (take-enough (length p) p (omega arith))
]
  where
    shorter_or_longer : (h ≤ length p) ⊎ (length p ≤ h)
    shorter_or_longer = ground arith

-- The slice below `h` holds the first `h` coefficients.
coefficient-low :
    (h : ℕ) (p : Poly) (i : ℕ) → coefficient (poly_slice p 0 h) i ≡ coefficient (take h p) i
unfolding poly_slice
coefficient-low h p i =
    let none : min 0 (length p) ≡ 0 = omega arith in
    let same : min h (length p) - 0 ≡ min h (length p) = omega arith in
    coefficient-slice_between p (min 0 (length p)) (min h (length p)) i
    ∙ rw (none, same, take-bounded h p) refl

-- The slice from `h` on holds the others.
coefficient-high :
    (h : ℕ) (p : Poly) (i : ℕ)
    → coefficient (poly_slice p h (length p)) i ≡ coefficient (drop h p) i
unfolding poly_slice
coefficient-high h p i = elim (shorter_or_longer) [
  | inl shorter ↦
      let same : min h (length p) ≡ h = omega arith in
      let whole : min (length p) (length p) ≡ length p = omega arith in
      coefficient-slice_between p (min h (length p)) (min (length p) (length p)) i
      ∙ rw (same, whole, take-enough (length p - h) (drop h p) (omega (arith, length-drop h p)))
          refl
  | inr longer ↦
      let none : min (length p) (length p) - min h (length p) ≡ 0 = omega arith in
      coefficient-slice_between p (min h (length p)) (min (length p) (length p)) i
      ∙ rw none (sym (coefficient-beyond (drop h p) i (omega (arith, length-drop h p))))
]
  where
    shorter_or_longer : (h ≤ length p) ⊎ (length p ≤ h)
    shorter_or_longer = ground arith

-- The two slices put together.
pub coefficient-slices :
    (h : ℕ) (p : Poly) (i : ℕ)
    → coefficient p i
      ≡ coefficient (poly_slice p 0 h) i + delay h (coefficient (poly_slice p h (length p))) i
coefficient-slices h p i =
    coefficient-cut h p i
    ∙ ap (λ (t : ℕ). t + delay h (coefficient (drop h p)) i) (sym (coefficient-low h p i))
    ∙ ap (λ (f : ℕ → ℕ). coefficient (poly_slice p 0 h) i + delay h f i)
        (λ k j. sym (coefficient-high h p j) k)

length-slice_between :
    (p : Poly) (begin end : ℕ) → length (slice_between p begin end) ≤ max 1 (end - begin)
unfolding slice_between
length-slice_between p begin end = elim (Bool-cases (leb end begin)) [
  | inl e ↦ rw e (omega arith)
  | inr e ↦ rw e (omega (arith, length-take (end - begin) (drop begin p)))
]

pub length-low : (h : ℕ) (p : Poly) → length (poly_slice p 0 h) ≤ max 1 h
unfolding poly_slice
length-low h p = omega (arith, length-slice_between p (min 0 (length p)) (min h (length p)))

pub length-high : (h : ℕ) (p : Poly) → length (poly_slice p h (length p)) ≤ max 1 (length p - h)
unfolding poly_slice
length-high h p =
    omega (arith, length-slice_between p (min h (length p)) (min (length p) (length p)))

-- All coefficients are reduced.
abbrev pub IsReduced : ℕ → Poly → Type 0
IsReduced q p = (i : ℕ) → coefficient p i % q ≡ coefficient p i

length-add_range : (q : ℕ) (z out : Poly) → length (add_range q z out) ≡ length out
unfolding add_range
length-add_range q [] out = refl
length-add_range q (z ∷ zs) [] = refl
length-add_range q (z ∷ zs) (o ∷ os) = ap suc (length-add_range q zs os)

pub length-add_at : (offset q : ℕ) (z out : Poly) → length (add_at offset q z out) ≡ length out
unfolding add_at
length-add_at zero q z out = length-add_range q z out
length-add_at (suc offset) q z [] = refl
length-add_at (suc offset) q z (o ∷ os) = ap suc (length-add_at offset q z os)

coefficient-add_range :
    (q : ℕ) (z out : Poly) (i : ℕ)
    → i < length out
    → Cong q (coefficient (add_range q z out) i) (coefficient out i + coefficient z i)
unfolding add_range
coefficient-add_range q [] out i h =
    Cong-same q (coefficient out i) (coefficient out i + 0) (omega arith)
coefficient-add_range q (z ∷ zs) [] i h = absurd (omega arith)
coefficient-add_range q (z ∷ zs) (o ∷ os) zero h = Cong-mod q (o + z)
coefficient-add_range q (z ∷ zs) (o ∷ os) (suc i) h = coefficient-add_range q zs os i (omega arith)

pub coefficient-add_at :
    (offset q : ℕ) (z out : Poly) (i : ℕ)
    → i < length out
    → Cong q
        (coefficient (add_at offset q z out) i)
        (coefficient out i + delay offset (coefficient z) i)
unfolding add_at
coefficient-add_at zero q z out i h = coefficient-add_range q z out i h
coefficient-add_at (suc offset) q z [] i h = absurd (omega arith)
coefficient-add_at (suc offset) q z (o ∷ os) zero h = Cong-same q o (o + 0) (omega arith)
coefficient-add_at (suc offset) q z (o ∷ os) (suc i) h =
    coefficient-add_at offset q z os i (omega arith)

add_range-IsReduced : (q : ℕ) (z out : Poly) → IsReduced q out → IsReduced q (add_range q z out)
unfolding add_range
add_range-IsReduced q [] out h i = h i
add_range-IsReduced q (z ∷ zs) [] h i = h i
add_range-IsReduced q (z ∷ zs) (o ∷ os) h zero = mod-mod (o + z) q
add_range-IsReduced q (z ∷ zs) (o ∷ os) h (suc i) = add_range-IsReduced q zs os (λ j. h (suc j)) i

pub add_at-IsReduced :
    (offset q : ℕ) (z out : Poly) → IsReduced q out → IsReduced q (add_at offset q z out)
unfolding add_at
add_at-IsReduced zero q z out h i = add_range-IsReduced q z out h i
add_at-IsReduced (suc offset) q z [] h i = h i
add_at-IsReduced (suc offset) q z (o ∷ os) h zero = h 0
add_at-IsReduced (suc offset) q z (o ∷ os) h (suc i) =
    add_at-IsReduced offset q z os (λ j. h (suc j)) i
