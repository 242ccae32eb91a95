-- ===== src/Ntt/Inverse.antt =====
-- Transforming the values with the inverse roots gives back the coefficients, times their number.
use rf_class_groups.Base.{
  ℕ, zero, suc, ◌+◌, ◌*◌, ◌-◌, ◌%◌, ◌≤◌, ◌<◌, ◌≡◌, refl, sym, ap, ◌∙◌, List, [], ◌∷◌, ◌++◌, map,
  length, length-map, Cong, Cong-mod, Cong-add, Cong-mul, Cong-same, Cong-multiple, power,
  product-power, one-power, Cong-power, arith,
}
use rf_class_groups.Base.Bits.{pow2}
use rf_class_groups.Poly.{Poly}
use rf_class_groups.Poly.Values.{value, values_at}
use rf_class_groups.Ntt.{powers_from}
use rf_class_groups.Ntt.Reorder.{evens, odds, length-evens, length-odds}
use rf_class_groups.Ntt.Roots.{minus_one-square}
use rf_class_groups.Ntt.Forward.{value-Cong, IsRoots, powers_from-halves, values-append}
use rf_class_groups.Ntt.Twice.{halves-added, halves-opposite, value-append, length-powers_from}

-- The coefficients times a number.
abbrev pub times : ℕ → ℕ → Poly → List ℕ
times q h a = map (λ c. h * c % q) a

module _ (q : ℕ) (positive : 2 ≤ q) (h v v' : ℕ) (e : Cong q (v * v) v')
    (whole : Cong q (power v' h) 1) (f g_even g_odd : ℕ → ℕ)
    (at_even : (z x : ℕ) → Cong q (power z h) 1 → Cong q x z → Cong q (f x) (2 * g_even z))
    (at_odd : (z x : ℕ)
      → Cong q (power z h) 1
      → Cong q x (z * v)
      → Cong q (f x) (2 * g_odd z)) where
  doubled : (x g c : ℕ) → Cong q x (2 * g) → g % q ≡ h * c % q → x % q ≡ 2 * h * c % q
  doubled x g c k l =
      k ∙ Cong-mul q 2 2 g (h * c) refl l ∙ Cong-same q (2 * (h * c)) (2 * h * c) (omega arith)

  -- The entries at the even and odd powers, in turns.
  in_turns :
      (n c d : ℕ) (a : Poly)
      → length a ≡ 2 * n
      → Cong q (power d h) 1
      → Cong q c d
      → map (λ z. g_even z % q) (powers_from q v' d n) ≡ times q h (evens a)
      → map (λ z. g_odd z % q) (powers_from q v' d n) ≡ times q h (odds a)
      → map (λ x. f x % q) (powers_from q v c (2 * n)) ≡ times q (2 * h) a
  unfolding powers_from
  in_turns zero c d [] l k m even odd = refl
  in_turns zero c d (x ∷ a) l k m even odd = absurd (omega arith)
  in_turns (suc n) c d [] l k m even odd = absurd (omega arith)
  in_turns (suc n) c d (x ∷ []) l k m even odd = absurd (omega arith)
  in_turns (suc n) c d (x ∷ y ∷ a) l k m even odd =
      let count : 2 * suc n ≡ suc (suc (2 * n)) = omega arith in
      let second : Cong q (c * v % q) (d * v) = Cong-mod q (c * v) ∙ Cong-mul q c d v v m refl in
      let rest =
        in_turns n (c * v % q * v % q) (d * v' % q) a (omega arith) next_root next_pair (tail even)
          (tail odd) in
      rw
        (
          count,
          doubled (f c) (g_even d) x (at_even d c k m) (head even),
          doubled (f (c * v % q)) (g_odd d) y (at_odd d (c * v % q) k second) (head odd),
          rest,
        )
        refl
    where
      head : {x y : ℕ} {xs ys : List ℕ} → x ∷ xs ≡ y ∷ ys → x ≡ y
      head h = cc

      tail : {x y : ℕ} {xs ys : List ℕ} → x ∷ xs ≡ y ∷ ys → xs ≡ ys
      tail h = cc

      next_root : Cong q (power (d * v' % q) h) 1
      next_root =
          Cong-power q _ (d * v') h (Cong-mod q (d * v'))
          ∙ Cong-same q _ _ (product-power d v' h)
          ∙ Cong-mul q (power d h) 1 (power v' h) 1 k whole
          ∙ Cong-same q (1 * 1) 1 (omega arith)

      next_pair : Cong q (c * v % q * v % q) (d * v' % q)
      next_pair =
          Cong-mod q (c * v % q * v)
          ∙ Cong-mul q _ (c * v) v v (Cong-mod q (c * v)) refl
          ∙ Cong-same q (c * v * v) (c * (v * v)) (omega arith)
          ∙ Cong-mul q c d (v * v) v' m e
          ∙ sym (Cong-mod q (d * v'))

module _ (q : ℕ) (positive : 2 ≤ q) (W V : ℕ → ℕ) (top : ℕ) (forward : IsRoots q W top)
    (backward : IsRoots q V top)
    (inverse : (s : ℕ) → s < top → Cong q (V (suc s) * W (suc s)) 1) where
  module _ (k : ℕ) (l : k < top) (a : Poly) (c' : ℕ) (negative : Cong q (1 + c') 0) where
    abbrev w : ℕ
    w = W (suc k)

    abbrev v : ℕ
    v = V (suc k)

    abbrev first_values : List ℕ
    first_values = values_at a (powers_from q w 1 (pow2 k)) q

    abbrev second_values : List ℕ
    second_values = values_at a (powers_from q w c' (pow2 k)) q

    first_size : length first_values ≡ pow2 k
    first_size =
        length-map (powers_from q w 1 (pow2 k)) (λ x. value a x % q)
        ∙ length-powers_from q w 1 (pow2 k)

    one-square : Cong q (1 * 1) 1
    one-square = Cong-same q (1 * 1) 1 (omega arith)

    whole_power : Cong q (power (V k) (pow2 k)) 1
    whole_power =
        sym (Cong-power q (v * v) (V k) (pow2 k) (backward.square k l))
        ∙ Cong-same q _ _ (product-power v v (pow2 k))
        ∙ minus_one-square q positive (power v (pow2 k)) (backward.half k l)

    split :
        (x : ℕ)
        → Cong q
            (value (first_values ++ second_values) x)
            (value first_values x + power x (pow2 k) * value second_values x)
    split x = Cong-same q _ _ (
        value-append first_values second_values x
        ∙ ap (λ (n : ℕ). value first_values x + power x n * value second_values x) first_size)

    value-even :
        (z x : ℕ)
        → Cong q (power z (pow2 k)) 1
        → Cong q x z
        → Cong q
            (value (first_values ++ second_values) x)
            (2 * value (values_at (evens a) (powers_from q (W k) 1 (pow2 k)) q) z)
    value-even z x h e =
        split x
        ∙ Cong-add q _ (value first_values z) _ (value second_values z)
            (value-Cong q positive first_values x z e)
            (Cong-mul q _ 1 _ (value second_values z) (Cong-power q x z (pow2 k) e ∙ h)
                (value-Cong q positive second_values x z e)
              ∙ Cong-same q (1 * value second_values z) (value second_values z) (omega arith))
        ∙ halves-added q positive a w (W k) (forward.square k l) (pow2 k) 1 c' 1 z one-square
            negative

    value-odd :
        (z x : ℕ)
        → Cong q (power z (pow2 k)) 1
        → Cong q x (z * v)
        → Cong q
            (value (first_values ++ second_values) x)
            (2 * value (values_at (odds a) (powers_from q (W k) 1 (pow2 k)) q) z)
    value-odd z x h e =
        let y = value second_values (z * v) in
        let g = value (values_at (odds a) (powers_from q (W k) 1 (pow2 k)) q) z in
        split x
        ∙ Cong-add q _ (y + 2 * (1 * g)) _ ((q - 1) * y)
            (value-Cong q positive first_values x (z * v) e
              ∙ halves-opposite q positive a w (W k) (forward.square k l) v (inverse k l) (pow2 k) 1
                  c' 1 z one-square negative)
            (Cong-mul q _ (q - 1) _ y
              (Cong-power q x (z * v) (pow2 k) e
                ∙ Cong-same q _ _ (product-power z v (pow2 k))
                ∙ Cong-mul q _ 1 _ (q - 1) h (backward.half k l)
                ∙ Cong-same q (1 * (q - 1)) (q - 1) (omega arith))
              (value-Cong q positive second_values x (z * v) e))
        ∙ Cong-same q (y + 2 * (1 * g) + (q - 1) * y) (2 * g + q * y)
            (cleared g y (q - 1) q (omega arith))
        ∙ Cong-multiple q (2 * g) y
      where
        cleared : (g y m n : ℕ) → m + 1 ≡ n → y + 2 * (1 * g) + m * y ≡ 2 * g + n * y
        cleared g y m n s = rw (sym s) (omega arith)

  -- The values at the powers of a root, transformed with its inverse.
  pub values-times :
      (k : ℕ) (a : Poly)
      → k ≤ top
      → length a ≡ pow2 k
      → values_at
          (values_at a (powers_from q (W k) 1 (pow2 k)) q)
          (powers_from q (V k) 1 (pow2 k))
          q
        ≡ times q (pow2 k) a
  values-times zero [] h l = absurd (omega arith)
  values-times zero (c ∷ d ∷ a) h l = absurd (omega arith)
  values-times zero (c ∷ []) h l =
      let only : Cong q ((c + 1 * 0) % q + 1 * 0) (1 * c) =
        Cong-same q ((c + 1 * 0) % q + 1 * 0) ((c + 1 * 0) % q) (omega arith)
        ∙ Cong-mod q (c + 1 * 0)
        ∙ Cong-same q (c + 1 * 0) (1 * c) (omega arith) in
      unfold powers_from in rw only refl
  values-times (suc k) a h l =
      let (c', points, negative) = powers_from-halves q positive W top forward k h in
      rw
        (
          points,
          values-append q positive a (powers_from q (W (suc k)) 1 (pow2 k))
              (powers_from q (W (suc k)) c' (pow2 k)),
        )
        (in_turns q positive (pow2 k) (V (suc k)) (V k) (backward.square k h)
          (whole_power k h a c' negative)
          (value (first_values k h a c' negative ++ second_values k h a c' negative))
          (value (values_at (evens a) (powers_from q (W k) 1 (pow2 k)) q))
          (value (values_at (odds a) (powers_from q (W k) 1 (pow2 k)) q))
          (value-even k h a c' negative) (value-odd k h a c' negative) (pow2 k) 1 1 a l
          (Cong-same q _ _ (one-power (pow2 k))) refl
          (values-times k (evens a) (omega arith) (length-evens (pow2 k) a l))
          (values-times k (odds a) (omega arith) (length-odds (pow2 k) a l)))
