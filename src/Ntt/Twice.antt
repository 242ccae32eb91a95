-- ===== src/Ntt/Twice.antt =====
-- What a polynomial and its transform add up to over the two halves of a vector of powers.
use rf_class_groups.Base.{
  ℕ, zero, suc, ◌+◌, ◌*◌, ◌%◌, ◌≤◌, ◌≡◌, refl, sym, ap, ◌∙◌, [], ◌∷◌, ◌++◌, length, Cong, Cong-mod,
  Cong-add, Cong-mul, Cong-same, power, power-zero, power-suc, arith,
}
use rf_class_groups.Poly.{Poly}
use rf_class_groups.Poly.Values.{value, values_at}
use rf_class_groups.Ntt.{powers_from}
use rf_class_groups.Ntt.Reorder.{evens, odds}
use rf_class_groups.Ntt.Forward.{negative-square, value-split}

-- A vector in two parts.
pub value-append :
    (xs ys : Poly) (x : ℕ) → value (xs ++ ys) x ≡ value xs x + power x (length xs) * value ys x
value-append [] ys x = sym (rw (power-zero x) (omega arith))
value-append (c ∷ xs) ys x =
    ap (λ (t : ℕ). c + x * t) (value-append xs ys x)
    ∙ sym (rw (power-suc x (length xs)) (omega arith))

pub length-powers_from : (q w c n : ℕ) → length (powers_from q w c n) ≡ n
unfolding powers_from
length-powers_from q w c zero = refl
length-powers_from q w c (suc n) = ap suc (length-powers_from q w (c * w % q) n)

module _ (q : ℕ) (positive : 2 ≤ q) where
  pub next_square :
      (w w' c d : ℕ)
      → Cong q (w * w) w'
      → Cong q (c * c) d
      → Cong q (c * w % q * (c * w % q)) (d * w' % q)
  next_square w w' c d e h =
      Cong-mul q _ (c * w) _ (c * w) (Cong-mod q (c * w)) (Cong-mod q (c * w))
      ∙ Cong-same q (c * w * (c * w)) (c * c * (w * w)) (omega arith)
      ∙ Cong-mul q (c * c) d (w * w) w' h e
      ∙ sym (Cong-mod q (d * w'))

  pub next_negative : (w c c' : ℕ) → Cong q (c + c') 0 → Cong q (c * w % q + c' * w % q) 0
  next_negative w c c' k =
      Cong-add q _ (c * w) _ (c' * w) (Cong-mod q (c * w)) (Cong-mod q (c' * w))
      ∙ Cong-same q (c * w + c' * w) ((c + c') * w) (omega arith)
      ∙ Cong-mul q (c + c') 0 w w k refl
      ∙ Cong-same q (0 * w) 0 (omega arith)

  module _ (a : Poly) (w w' : ℕ) (e : Cong q (w * w) w') where
    -- The values at a point and at its negative.
    value-pair :
        (c c' d : ℕ)
        → Cong q (c * c) d
        → Cong q (c + c') 0
        → Cong q (value a c + value a c') (2 * value (evens a) d)
    value-pair c c' d h k =
        let even = value (evens a) d in
        let odd = value (odds a) d in
        Cong-add q (value a c) (even + c * odd) (value a c') (even + c' * odd)
          (value-split q positive a c d h)
          (value-split q positive a c' d (negative-square q positive c c' k ∙ h))
        ∙ Cong-same q (even + c * odd + (even + c' * odd)) ((c + c') * odd + 2 * even) (omega arith)
        ∙ Cong-add q ((c + c') * odd) (0 * odd) (2 * even) (2 * even)
            (Cong-mul q (c + c') 0 odd odd k refl) refl
        ∙ Cong-same q (0 * odd + 2 * even) (2 * even) (omega arith)

    -- Their difference.
    value-opposite :
        (c c' d : ℕ)
        → Cong q (c * c) d
        → Cong q (c + c') 0
        → Cong q (value a c) (value a c' + 2 * (c * value (odds a) d))
    value-opposite c c' d h k =
        let even = value (evens a) d in
        let odd = value (odds a) d in
        value-split q positive a c d h
        ∙ sym (
            Cong-add q (value a c') (even + c' * odd) _ _
              (value-split q positive a c' d (negative-square q positive c c' k ∙ h)) refl
            ∙ Cong-same q (even + c' * odd + 2 * (c * odd)) ((c + c') * odd + (even + c * odd))
                (omega arith)
            ∙ Cong-add q ((c + c') * odd) (0 * odd) (even + c * odd) (even + c * odd)
                (Cong-mul q (c + c') 0 odd odd k refl) refl
            ∙ Cong-same q (0 * odd + (even + c * odd)) (even + c * odd) (omega arith))

    -- The two halves of the values, added as polynomials.
    pub halves-added :
        (n c c' d z : ℕ)
        → Cong q (c * c) d
        → Cong q (c + c') 0
        → Cong q
            (value (values_at a (powers_from q w c n) q) z
              + value (values_at a (powers_from q w c' n) q) z)
            (2 * value (values_at (evens a) (powers_from q w' d n) q) z)
    unfolding powers_from
    halves-added zero c c' d z h k = Cong-same q (0 + 0) (2 * 0) (omega arith)
    halves-added (suc n) c c' d z h k =
        let y = value (values_at a (powers_from q w (c * w % q) n) q) z in
        let y' = value (values_at a (powers_from q w (c' * w % q) n) q) z in
        let g = value (values_at (evens a) (powers_from q w' (d * w' % q) n) q) z in
        let rest =
          halves-added n (c * w % q) (c' * w % q) (d * w' % q) z (next_square w w' c d e h)
            (next_negative w c c' k) in
        Cong-same q (value a c % q + z * y + (value a c' % q + z * y'))
          (value a c % q + value a c' % q + z * (y + y')) (omega arith)
        ∙ Cong-add q (value a c % q + value a c' % q) (2 * (value (evens a) d % q)) (z * (y + y'))
            (z * (2 * g))
            (Cong-add q _ (value a c) _ (value a c') (Cong-mod q (value a c))
                (Cong-mod q (value a c'))
              ∙ value-pair c c' d h k
              ∙ Cong-mul q 2 2 _ _ refl (sym (Cong-mod q (value (evens a) d))))
            (Cong-mul q z z (y + y') (2 * g) refl rest)
        ∙ Cong-same q (2 * (value (evens a) d % q) + z * (2 * g))
            (2 * (value (evens a) d % q + z * g)) (omega arith)

    -- Their difference at a point that carries the inverse of the root.
    pub halves-opposite :
        (v : ℕ)
        → Cong q (v * w) 1
        → (n c c' d z : ℕ) → Cong q (c * c) d
        → Cong q (c + c') 0
        → Cong q (value (values_at a (powers_from q w c n) q) (z * v)) (
            value (values_at a (powers_from q w c' n) q) (z * v)
            + 2 * (c * value (values_at (odds a) (powers_from q w' d n) q) z))
    unfolding powers_from
    halves-opposite v inv zero c c' d z h k = Cong-same q 0 (0 + 2 * (c * 0)) (omega arith)
    halves-opposite v inv (suc n) c c' d z h k =
        let y = value (values_at a (powers_from q w (c * w % q) n) q) (z * v) in
        let y' = value (values_at a (powers_from q w (c' * w % q) n) q) (z * v) in
        let g = value (values_at (odds a) (powers_from q w' (d * w' % q) n) q) z in
        let o = value (odds a) d in
        let rest : Cong q y (y' + 2 * (c * w % q * g)) =
          halves-opposite v inv n (c * w % q) (c' * w % q) (d * w' % q) z (next_square w w' c d e h)
            (next_negative w c c' k) in
        Cong-add q (value a c % q) (value a c' + 2 * (c * o)) (z * v * y)
          (z * v * (y' + 2 * (c * w % q * g))) (Cong-mod q (value a c) ∙ value-opposite c c' d h k)
          (Cong-mul q (z * v) (z * v) y _ refl rest)
        ∙ Cong-same q (value a c' + 2 * (c * o) + z * v * (y' + 2 * (c * w % q * g)))
            (value a c' + z * v * y' + 2 * (c * o + z * (v * (c * w % q) * g))) (omega arith)
        ∙ Cong-add q (value a c' + z * v * y') (value a c' % q + z * v * y')
            (2 * (c * o + z * (v * (c * w % q) * g))) (2 * (c * (o % q + z * g)))
            (Cong-add q (value a c') _ _ _ (sym (Cong-mod q (value a c'))) refl)
            (Cong-mul q 2 2 _ _ refl (
              Cong-add q (c * o) (c * (o % q)) (z * (v * (c * w % q) * g)) (z * (c * g))
                (Cong-mul q c c o (o % q) refl (sym (Cong-mod q o)))
                (Cong-mul q z z _ _ refl (Cong-mul q _ c g g carried refl))
              ∙ Cong-same q (c * (o % q) + z * (c * g)) (c * (o % q + z * g)) (omega arith)))
      where
        carried : Cong q (v * (c * w % q)) c
        carried =
            Cong-mul q v v _ (c * w) refl (Cong-mod q (c * w))
            ∙ Cong-same q (v * (c * w)) (v * w * c) (omega arith)
            ∙ Cong-mul q (v * w) 1 c c inv refl
            ∙ Cong-same q (1 * c) c (omega arith)
