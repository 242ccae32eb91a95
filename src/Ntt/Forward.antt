-- ===== src/Ntt/Forward.antt =====
-- The stages compute the values of a polynomial at the powers of a root of unity.
use rf_class_groups.Base.{
  ℕ, zero, suc, ◌+◌, ◌*◌, ◌-◌, ◌%◌, ◌≤◌, ◌<◌, ◌≡◌, refl, sym, ap, ◌∙◌, List, [], ◌∷◌, ◌++◌, length,
  All, Cong, Cong-mod, Cong-add, Cong-mul, Cong-same, Cong-cancel, Cong-multiple, sub_mod,
  sub_mod-add, sub_mod-lt, power, power-zero, power-suc, arith,
}
use native.Mathlib.Nat.{mod-eq_of_lt}
use rf_class_groups.Base.Bits.{pow2}
use rf_class_groups.Poly.{Poly}
use rf_class_groups.Poly.Values.{value, values_at}
use rf_class_groups.Ntt.{butterflies, powers_from}
use rf_class_groups.Ntt.Reorder.{evens, odds, reorder, length-evens, length-odds, length-reorder}
use rf_class_groups.Ntt.Stages.{staged, staged-last}

-- The even and the odd coefficients.
pub value-evens-odds :
    (a : Poly) (x : ℕ) → value a x ≡ value (evens a) (x * x) + x * value (odds a) (x * x)
value-evens-odds [] x = omega arith
value-evens-odds (c ∷ []) x = omega arith
value-evens-odds (c ∷ d ∷ a) x = rw (value-evens-odds a x) (omega arith)

module _ (q : ℕ) (positive : 2 ≤ q) where
  pub value-Cong : (a : Poly) (x y : ℕ) → Cong q x y → Cong q (value a x) (value a y)
  value-Cong [] x y h = refl
  value-Cong (c ∷ a) x y h =
      Cong-add q c c (x * value a x) (y * value a y) refl
        (Cong-mul q x y (value a x) (value a y) h (value-Cong a x y h))

  -- A number and its negative have the same square.
  pub negative-square : (c c' : ℕ) → Cong q (c + c') 0 → Cong q (c' * c') (c * c)
  negative-square c c' h = Cong-cancel q (c' * c') (c * c) (c * c') (omega arith) (
      Cong-same q (c' * c' + c * c') ((c + c') * c') (omega arith)
      ∙ Cong-mul q (c + c') 0 c' c' h refl
      ∙ Cong-same q (0 * c') (0 * c) (omega arith)
      ∙ sym (Cong-mul q (c + c') 0 c c h refl)
      ∙ Cong-same q ((c + c') * c) (c * c + c * c') (omega arith))

  module _ (a : Poly) (c d : ℕ) (h : Cong q (c * c) d) where
    abbrev pub E : ℕ
    E = value (evens a) d

    abbrev pub O : ℕ
    O = value (odds a) d

    product : Cong q (O % q * c % q) (c * O)
    product =
        Cong-mod q (O % q * c)
        ∙ Cong-mul q (O % q) O c c (Cong-mod q O) refl
        ∙ Cong-same q (O * c) (c * O) (omega arith)

    pub value-split : Cong q (value a c) (E + c * O)
    value-split =
        Cong-same q _ _ (value-evens-odds a c)
        ∙ Cong-add q _ E _ (c * O) (value-Cong (evens a) (c * c) d h)
            (Cong-mul q c c _ O refl (value-Cong (odds a) (c * c) d h))

    sum-value : (E % q + O % q * c % q) % q ≡ value a c % q
    sum-value = Cong-add q (E % q) E _ (c * O) (Cong-mod q E) product ∙ sym value-split

    difference-value :
        (c' : ℕ)
        → Cong q (c' * c') d
        → Cong q (c + c') 0
        → Cong q (value a c') (E + c' * O)
        → sub_mod (E % q) (O % q * c % q) q ≡ value a c' % q
    difference-value c' h' k split =
        let v = O % q * c % q in
        sym (mod-eq_of_lt (sub_mod-lt (E % q) v q (omega arith)))
        ∙ Cong-cancel q (sub_mod (E % q) v q) (value a c') v (omega arith) (
            sub_mod-add (E % q) v q (omega arith)
            ∙ Cong-mod q E
            ∙ sym (
                Cong-add q (value a c') (E + c' * O) v (c * O) split product
                ∙ Cong-same q (E + c' * O + c * O) ((c + c') * O + E) (omega arith)
                ∙ Cong-add q ((c + c') * O) (0 * O) E E (Cong-mul q (c + c') 0 O O k refl) refl
                ∙ Cong-same q (0 * O + E) E (omega arith)))

  -- One pass of butterflies: the entries are the values of the halves at the squares, and the results
  -- are the values at the points and at their negatives.
  butterflies-values :
      (a : Poly) (w w' : ℕ)
      → Cong q (w * w) w'
      → (n c c' d : ℕ) → Cong q (c * c) d
      → Cong q (c + c') 0
      → butterflies q w c
          (values_at (evens a) (powers_from q w' d n) q)
          (values_at (odds a) (powers_from q w' d n) q)
        ≡ (values_at a (powers_from q w c n) q, values_at a (powers_from q w c' n) q)
  unfolding butterflies powers_from
  butterflies-values a w w' e zero c c' d h k = refl
  butterflies-values a w w' e (suc n) c c' d h k =
      let h' = negative-square c c' k ∙ h in
      let squares : Cong q (c * w % q * (c * w % q)) (d * w' % q) =
        Cong-mul q _ (c * w) _ (c * w) (Cong-mod q (c * w)) (Cong-mod q (c * w))
        ∙ Cong-same q (c * w * (c * w)) (c * c * (w * w)) (omega arith)
        ∙ Cong-mul q (c * c) d (w * w) w' h e
        ∙ sym (Cong-mod q (d * w')) in
      let negatives : Cong q (c * w % q + c' * w % q) 0 =
        Cong-add q _ (c * w) _ (c' * w) (Cong-mod q (c * w)) (Cong-mod q (c' * w))
        ∙ Cong-same q (c * w + c' * w) ((c + c') * w) (omega arith)
        ∙ Cong-mul q (c + c') 0 w w k refl
        ∙ Cong-same q (0 * w) 0 (omega arith) in
      rw
        (
          butterflies-values a w w' e n (c * w % q) (c' * w % q) (d * w' % q) squares negatives,
          sum-value a c d h,
          difference-value a c d h c' h' k (value-split a c' d h'),
        )
        refl

  -- The entry that follows `n` of them.
  after : ℕ → ℕ → ℕ → ℕ
  after w c zero = c
  after w c (suc n) = after w (c * w % q) n

  after-power : (w c n : ℕ) → Cong q (after w c n) (c * power w n)
  unfolding after
  after-power w c zero = Cong-same q _ _ (sym (rw (power-zero w) (omega arith)))
  after-power w c (suc n) =
      after-power w (c * w % q) n
      ∙ Cong-mul q _ (c * w) (power w n) _ (Cong-mod q (c * w)) refl
      ∙ Cong-same q (c * w * power w n) (c * power w (suc n)) (rw (power-suc w n) (omega arith))

  powers_from-add :
      (w c n m : ℕ)
      → powers_from q w c (n + m) ≡ powers_from q w c n ++ powers_from q w (after w c n) m
  unfolding powers_from after
  powers_from-add w c zero m = ap (powers_from q w c) {x = 0 + m} {y = m} (omega arith)
  powers_from-add w c (suc n) m =
      ap (powers_from q w c) {x = suc n + m} {y = suc (n + m)} (omega arith)
      ∙ ap (◌∷◌ c) (powers_from-add w (c * w % q) n m)

  pub values-append :
      (a : Poly) (xs ys : List ℕ) → values_at a (xs ++ ys) q ≡ values_at a xs q ++ values_at a ys q
  values-append a [] ys = refl
  values-append a (x ∷ xs) ys = ap (◌∷◌ (value a x % q)) (values-append a xs ys)

  All-evens : (a : Poly) → All (λ c. c < q) a → All (λ c. c < q) (evens a)
  All-evens [] h = tt
  All-evens (c ∷ []) h = h
  All-evens (c ∷ d ∷ a) h = (h.0, All-evens a h.1.1)

  All-odds : (a : Poly) → All (λ c. c < q) a → All (λ c. c < q) (odds a)
  All-odds [] h = tt
  All-odds (c ∷ []) h = tt
  All-odds (c ∷ d ∷ a) h = (h.1.0, All-odds a h.1.1)

-- Roots of unity: `W s` is the square of `W (s + 1)`, and the power of that to 2^s is -1.
pub record IsRoots (q : ℕ) (W : ℕ → ℕ) (top : ℕ) : Type 0 where
  pub square : (s : ℕ) → s < top → Cong q (W (suc s) * W (suc s)) (W s)
  pub half : (s : ℕ) → s < top → Cong q (power (W (suc s)) (pow2 s)) (q - 1)

module _ (q : ℕ) (positive : 2 ≤ q) (W : ℕ → ℕ) (top : ℕ) (roots : IsRoots q W top) where
  -- The negative of 1 starts the second half of the points.
  pub powers_from-halves :
      (k : ℕ)
      → k < top
      → (c' : ℕ) × (powers_from q (W (suc k)) 1 (pow2 (suc k))
          ≡ powers_from q (W (suc k)) 1 (pow2 k) ++ powers_from q (W (suc k)) c' (pow2 k))
        × Cong q (1 + c') 0
  powers_from-halves k h =
      let w = W (suc k) in
      (
        after q positive w 1 (pow2 k),
        ap (powers_from q w 1) {x = pow2 (suc k)} {y = pow2 k + pow2 k} (omega arith)
            ∙ powers_from-add q positive w 1 (pow2 k) (pow2 k),
        Cong-add q 1 1 _ (q - 1) refl (
              after-power q positive w 1 (pow2 k)
              ∙ Cong-same q (1 * power w (pow2 k)) (power w (pow2 k)) (omega arith)
              ∙ roots.half k h)
            ∙ Cong-same q (1 + (q - 1)) (0 + q * 1) (omega arith)
            ∙ Cong-multiple q 0 1,
      )

  -- On the reordered coefficients the stages give the values at the powers of the root, in order.
  pub staged-values :
      (k : ℕ) (a : Poly)
      → k ≤ top
      → length a ≡ pow2 k
      → All (λ c. c < q) a
      → staged q W k k (reorder k a) ≡ values_at a (powers_from q (W k) 1 (pow2 k)) q
  unfolding reorder
  staged-values zero [] l h k = absurd (omega arith)
  staged-values zero (c ∷ d ∷ a) l h k = absurd (omega arith)
  staged-values zero (c ∷ []) l h k =
      let only : (c + 1 * 0) % q ≡ c = Cong-same q (c + 1 * 0) c (omega arith) ∙ mod-eq_of_lt k.0 in
      unfold staged in unfold powers_from in rw only refl
  staged-values (suc k) a l h m =
      let low = length-evens (pow2 k) a h in
      let high = length-odds (pow2 k) a h in
      let (c', points, negative) = powers_from-halves k l in
      staged-last q W k (reorder k (evens a)) (reorder k (odds a)) (length-reorder k (evens a) low)
        (length-reorder k (odds a) high)
      ∙ rw
          (
            staged-values k (evens a) (omega arith) low (All-evens q positive a m),
            staged-values k (odds a) (omega arith) high (All-odds q positive a m),
            butterflies-values q positive a (W (suc k)) (W k) (roots.square k l) (pow2 k) 1 c' 1
                (Cong-same q (1 * 1) 1 (omega arith)) negative,
            points,
          )
          (sym (
            values-append q positive a (powers_from q (W (suc k)) 1 (pow2 k))
              (powers_from q (W (suc k)) c' (pow2 k))))
