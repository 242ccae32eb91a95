-- ===== src/Poly/Remainder.antt =====
-- The remainder by a monic polynomial of cg_rf_common.hpp.
use rf_class_groups.Base.{
  ℕ, zero, suc, ◌+◌, ◌*◌, ◌-◌, ◌%◌, ◌^◌, max, ◌≤◌, ◌<◌, ◌≡◌, true, false, refl, sym, ap, ◌∙◌, [],
  ◌∷◌, ◌++◌, length, take, length-take, take-append, if◌then◌else◌, Bool, get_or, ltb, Bool-cases,
  inl, inr, ◌==◌, ==_iff, Cong, Cong-mul_right, ok, arith,
}
use rf_class_groups.Poly.{Poly, poly_mod_q, sub_row_at, monic_loop, monic_remainder, poly_mod_monic}
use rf_class_groups.Poly.Sizes.{length-poly_trim}
use rf_class_groups.Poly.Values.{value, value-poly_trim, value-poly_mod_q}
use native.Mathlib.Nat.{pow-zero, pow-suc}
use rf_class_groups.Poly.Division.{
  length-sub_row_at, value-sub_row_at, value-take-suc, vanishing_step, add-nothing, pow-add,
}

module _ (q : ℕ) (low : Poly) (x : ℕ) (positive : 0 < q)
    (root : Cong q (value low x + x ^ length low) 0) where
  window : ℕ → Poly → ℕ
  window w rem = value (take w rem) x

  window-suc :
      (n : ℕ) (rem : Poly)
      → length low + suc n ≤ length rem
      → window (length low + suc n) rem
        ≡ window (length low + n) rem + get_or rem (length low + n) 0 * (x ^ length low * x ^ n)
  unfolding window
  window-suc n rem h =
      ap (λ (w : ℕ). value (take w rem) x) {x = length low + suc n} {y = suc (length low + n)}
        (omega arith)
      ∙ value-take-suc (length low + n) rem x (omega arith)
      ∙ rw (pow-add x (length low) n)

  step_taken :
      (n : ℕ) (rem : Poly)
      → length low + suc n ≤ length rem
      → Cong q
          (window (length low + n) (sub_row_at n q (get_or rem (length low + n) 0) low rem))
          (window (length low + suc n) rem)
  step_taken n rem h =
      let c = get_or rem (length low + n) 0 in
      rw (window-suc n rem h) (
        vanishing_step q (window (length low + n) (sub_row_at n q c low rem))
          (window (length low + n) rem) c (value low x) (x ^ length low) (x ^ n) positive root
          (unfold window in
            value-sub_row_at n (length low + n) q c low rem x positive (omega arith) (omega arith)))

  monic_loop-value :
      (n : ℕ) (rem : Poly)
      → length low + n ≤ length rem
      → Cong q
          (window (length low) (monic_loop n q (length low) low rem))
          (window (length low + n) rem)
  unfolding monic_loop
  monic_loop-value zero rem h =
      ap (λ (w : ℕ). window w rem % q) {x = length low} {y = length low + 0} (omega arith)
  monic_loop-value (suc n) rem h = elim (Bool-cases (get_or rem (length low + n) 0 == 0)) [
    | inl e ↦ rw e (
        monic_loop-value n rem (omega arith)
        ∙ ap (λ (t : ℕ). t % q)
            (add-nothing (window (length low + n) rem) (x ^ length low * x ^ n)
              ∙ ap (λ (c : ℕ). window (length low + n) rem + c * (x ^ length low * x ^ n)) {x = 0}
                  (sym ((==_iff (get_or rem (length low + n) 0) 0).0 e))
              ∙ sym (window-suc n rem h)))
    | inr e ↦ rw e (
        monic_loop-value n (sub_row_at n q (get_or rem (length low + n) 0) low rem)
          (omega (arith, length-sub_row_at n q (get_or rem (length low + n) 0) low rem))
        ∙ step_taken n rem h)
  ]

-- Taking all of a vector.
pub take-all : (p : Poly) → take (length p) p ≡ p
take-all [] = refl
take-all (c ∷ p) = ap (◌∷◌ c) (take-all p)

length-snoc : (p : Poly) (c : ℕ) → length (p ++ (c ∷ [])) ≡ suc (length p)
length-snoc [] c = refl
length-snoc (d ∷ p) c = ap suc (length-snoc p c)

value-snoc : (p : Poly) (c x : ℕ) → value (p ++ (c ∷ [])) x ≡ value p x + c * x ^ length p
value-snoc [] c x = rw (pow-zero x) (omega arith)
value-snoc (d ∷ p) c x =
    ap (λ (t : ℕ). d + x * t) (value-snoc p c x) ∙ rw (pow-suc x (length p)) (omega arith)

-- Where 1 is congruent to 0 everything is.
collapse : (q v : ℕ) → Cong q 1 0 → Cong q 0 v
collapse q v h =
    ap (λ (t : ℕ). t % q) {x = 0} {y = 0 * v} (omega arith)
    ∙ sym (Cong-mul_right q 1 0 v h)
    ∙ ap (λ (t : ℕ). t % q) {x = 1 * v} {y = v} (omega arith)

-- The remainder loop, for a divisor with leading coefficient 1.
monic_remainder-value :
    (q : ℕ) (low rem : Poly) (x : ℕ)
    → 0 < q
    → Cong q (value low x + x ^ length low) 0
    → length low ≤ length rem
    → Cong q (value (monic_remainder (length low) (low ++ (1 ∷ [])) q rem) x) (value rem x)
unfolding monic_remainder
monic_remainder-value q [] rem x h z k =
    ap (λ (t : ℕ). t % q) {x = 0 + x * 0} {y = 0} (omega arith)
    ∙ collapse q (value rem x)
        (ap (λ (t : ℕ). t % q) {x = 1} {y = 0 + x ^ zero} (rw (pow-zero x)) ∙ z)
monic_remainder-value q (l ∷ low) rem x h z k =
    let d = suc (length low) in
    rw
      (
        take-append (l ∷ low) (1 ∷ []),
        value-poly_trim (take d (monic_loop (length rem - d) q d (l ∷ low) rem)) x,
      )
      (unfold window in
        monic_loop-value q (l ∷ low) x h z (length rem - d) rem (omega arith)
        ∙ ap (λ (w : ℕ). value (take w rem) x % q) {x = d + (length rem - d)} {y = length rem}
            (omega arith)
        ∙ ap (λ (p : Poly). value p x % q) (take-all rem))

monic_remainder-length :
    (d : ℕ) (divisor : Poly) (q : ℕ) (rem : Poly)
    → length (monic_remainder d divisor q rem) ≤ max 1 d
unfolding monic_remainder
monic_remainder-length zero divisor q rem = omega arith
monic_remainder-length (suc d') divisor q rem =
    let loop = monic_loop (length rem - suc d') q (suc d') (take (suc d') divisor) rem in
    omega (arith, length-poly_trim (take (suc d') loop), length-take (suc d') loop)

remaindered :
    (q : ℕ) (low rem : Poly) (x : ℕ) (b : Bool)
    → 0 < q
    → Cong q (value (low ++ (1 ∷ [])) x) 0
    → ltb (length rem) (suc (length low)) ≡ b
    → (r : Poly) × ((if b
          then ok rem
          else ok (monic_remainder (length low) (low ++ (1 ∷ [])) q rem))
        ≡ ok r)
      × (length r ≤ max 1 (length low))
      × Cong q (value r x) (value rem x)
remaindered q low rem x true h z e = (rem, refl, ground (arith, e), refl)
remaindered q low rem x false h z e = (
  monic_remainder (length low) (low ++ (1 ∷ [])) q rem,
  refl,
  monic_remainder-length (length low) (low ++ (1 ∷ [])) q rem,
  monic_remainder-value q low rem x h
      (ap (λ (t : ℕ). t % q) {x = value low x + x ^ length low}
          {y = value low x + 1 * x ^ length low} (omega arith)
        ∙ ap (λ (t : ℕ). t % q) (sym (value-snoc low 1 x))
        ∙ z)
      (ground (arith, e)),
)

-- For a divisor with leading coefficient 1 that vanishes at `x` modulo `q`, the remainder exists, it has
-- fewer coefficients than the divisor (at most one, if the divisor is constant), and it has the value of the
-- dividend at `x` modulo `q`.
pub poly_mod_monic-value :
    (q : ℕ) (dividend low : Poly) (x : ℕ)
    → 0 < q
    → Cong q (value (low ++ (1 ∷ [])) x) 0
    → (rem : Poly) × (poly_mod_monic dividend (low ++ (1 ∷ [])) q ≡ ok rem)
      × (length rem ≤ max 1 (length low))
      × Cong q (value rem x) (value dividend x)
unfolding poly_mod_monic
poly_mod_monic-value q [] [] x h z =
    (0 ∷ [], refl, omega arith, ap (λ (t : ℕ). t % q) {x = 0 + x * 0} {y = 0} (omega arith))
poly_mod_monic-value q [] (l ∷ low) x h z =
    (0 ∷ [], refl, omega arith, ap (λ (t : ℕ). t % q) {x = 0 + x * 0} {y = 0} (omega arith))
poly_mod_monic-value q (a ∷ dividend) [] x h z =
    let rem = poly_mod_q (a ∷ dividend) q in
    let (r, e, size, v) = remaindered q [] rem x (ltb (length rem) 1) h z refl in
    (r, e, size, v ∙ value-poly_mod_q q (a ∷ dividend) x)
poly_mod_monic-value q (a ∷ dividend) (l ∷ low) x h z =
    let rem = poly_mod_q (a ∷ dividend) q in
    let (r, e, size, v) =
      remaindered q (l ∷ low) rem x (ltb (length rem) (suc (suc (length low)))) h z refl in
    (r, rw (length-snoc low 1) e, size, v ∙ value-poly_mod_q q (a ∷ dividend) x)
