-- ===== src/Poly/Division.antt =====
-- One step of the division loop of poly_mod_monic in cg_rf_common.hpp, and what it does to the value.
use rf_class_groups.Base.{
  ℕ, zero, suc, ◌+◌, ◌*◌, ◌%◌, ◌^◌, ◌≤◌, ◌<◌, ◌≡◌, refl, sym, ap, ◌∙◌, [], ◌∷◌, length, take,
  get_or, Cong, Cong-add, Cong-mul_right, sub_mod, sub_mod-add, arith,
}
use rf_class_groups.Poly.{Poly, sub_row, sub_row_at}
use rf_class_groups.Poly.Values.{value, Cong-cons}
use native.Mathlib.Nat.{pow-zero, pow-suc}

length-sub_row : (q coeff : ℕ) (low rem : Poly) → length (sub_row q coeff low rem) ≡ length rem
unfolding sub_row
length-sub_row q coeff [] rem = refl
length-sub_row q coeff (l ∷ low) [] = refl
length-sub_row q coeff (l ∷ low) (r ∷ rem) = ap suc (length-sub_row q coeff low rem)

pub length-sub_row_at :
    (n q coeff : ℕ) (low rem : Poly) → length (sub_row_at n q coeff low rem) ≡ length rem
unfolding sub_row_at
length-sub_row_at zero q coeff low rem = length-sub_row q coeff low rem
length-sub_row_at (suc n) q coeff low [] = refl
length-sub_row_at (suc n) q coeff low (r ∷ rem) = ap suc (length-sub_row_at n q coeff low rem)

-- One row that is subtracted, in the window of the first `length low` entries.
value-sub_row :
    (q coeff : ℕ) (low rem : Poly) (x : ℕ)
    → 0 < q
    → length low ≤ length rem
    → Cong q
        (value (take (length low) (sub_row q coeff low rem)) x + coeff * value low x)
        (value (take (length low) rem) x)
unfolding sub_row
value-sub_row q coeff [] rem x h k = ap (λ (t : ℕ). t % q) {x = 0 + coeff * 0} {y = 0} (omega arith)
value-sub_row q coeff (l ∷ low) [] x h k = absurd (omega arith)
value-sub_row q coeff (l ∷ low) (r ∷ rem) x h k =
    let v = value (take (length low) (sub_row q coeff low rem)) x in
    let w = value low x in
    ap (λ (t : ℕ). t % q) {x = sub_mod r (coeff * l) q + x * v + coeff * (l + x * w)}
      {y = (sub_mod r (coeff * l) q + coeff * l) + x * (v + coeff * w)} (omega arith)
    ∙ Cong-cons q (sub_mod r (coeff * l) q + coeff * l) r (v + coeff * w)
        (value (take (length low) rem) x) x (sub_mod-add r (coeff * l) q h)
        (value-sub_row q coeff low rem x h (omega arith))

pub value-sub_row_at :
    (n w q coeff : ℕ) (low rem : Poly) (x : ℕ)
    → 0 < q
    → w ≡ n + length low
    → w ≤ length rem
    → Cong q
        (value (take w (sub_row_at n q coeff low rem)) x + x ^ n * (coeff * value low x))
        (value (take w rem) x)
unfolding sub_row_at
value-sub_row_at zero w q coeff low rem x h e k =
    let e' : w ≡ length low = omega arith in
    rw (e') (
      ap (λ (t : ℕ). t % q)
        {x = value (take (length low) (sub_row q coeff low rem)) x + x ^ 0 * (coeff * value low x)}
        {y = value (take (length low) (sub_row q coeff low rem)) x + coeff * value low x}
        (rw (pow-zero x) (omega arith))
      ∙ value-sub_row q coeff low rem x h (omega arith))
value-sub_row_at (suc n) zero q coeff low rem x h e k = absurd (omega arith)
value-sub_row_at (suc n) (suc w) q coeff low [] x h e k = absurd (omega arith)
value-sub_row_at (suc n) (suc w) q coeff low (r ∷ rem) x h e k =
    let v = value (take w (sub_row_at n q coeff low rem)) x in
    ap (λ (t : ℕ). t % q) {x = r + x * v + x ^ suc n * (coeff * value low x)}
      {y = r + x * (v + x ^ n * (coeff * value low x))} (rw (pow-suc x n) (omega arith))
    ∙ Cong-cons q r r (v + x ^ n * (coeff * value low x)) (value (take w rem) x) x refl
        (value-sub_row_at n w q coeff low rem x h (omega arith) (omega arith))

-- The window of one more entry.
pub value-take-suc :
    (w : ℕ) (rem : Poly) (x : ℕ)
    → w < length rem
    → value (take (suc w) rem) x ≡ value (take w rem) x + get_or rem w 0 * x ^ w
value-take-suc zero [] x h = absurd (omega arith)
value-take-suc zero (r ∷ rem) x h = rw (pow-zero x) (omega arith)
value-take-suc (suc w) [] x h = absurd (omega arith)
value-take-suc (suc w) (r ∷ rem) x h =
    ap (λ (t : ℕ). r + x * t) (value-take-suc w rem x (omega arith))
    ∙ rw (pow-suc x w) (omega arith)

-- One step of the loop, where the divisor `low + x ^ d` vanishes.
pub vanishing_step :
    (q new old c low xd xn : ℕ)
    → 0 < q
    → Cong q (low + xd) 0
    → Cong q (new + xn * (c * low)) old
    → Cong q new (old + c * (xd * xn))
vanishing_step q new old c low xd xn h z k =
    ap (λ (t : ℕ). t % q) {x = new} {y = new + 0 * (c * xn)} (omega arith)
    ∙ Cong-add q new new (0 * (c * xn)) ((low + xd) * (c * xn)) refl
        (sym (Cong-mul_right q (low + xd) 0 (c * xn) z))
    ∙ ap (λ (t : ℕ). t % q) {x = new + (low + xd) * (c * xn)}
        {y = new + xn * (c * low) + c * (xd * xn)} (omega arith)
    ∙ Cong-add q (new + xn * (c * low)) old (c * (xd * xn)) (c * (xd * xn)) k refl

pub add-nothing : (a b : ℕ) → a ≡ a + 0 * b
add-nothing a b = omega arith

pub pow-add : (x m n : ℕ) → x ^ (m + n) ≡ x ^ m * x ^ n
pow-add x zero n =
    ap (λ (k : ℕ). x ^ k) {x = zero + n} {y = n} (omega arith) ∙ rw (pow-zero x) (omega arith)
pow-add x (suc m) n =
    ap (λ (k : ℕ). x ^ k) {x = suc m + n} {y = suc (m + n)} (omega arith)
    ∙ rw (pow-suc x (m + n), pow-suc x m, pow-add x m n) (omega arith)
