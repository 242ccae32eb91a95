-- ===== src/Poly/Values.antt =====
-- The value of a polynomial, and the operations that keep it: reduction, trimming, sum, difference and
-- the two Horner loops.
use rf_class_groups.Base.{
  ℕ, ◌+◌, ◌*◌, ◌%◌, ◌<◌, ◌≡◌, refl, ap, ◌∙◌, List, [], ◌∷◌, map, Cong, Cong-mod, Cong-add, Cong-mul,
  sub_mod, sub_mod-add, arith,
}
use rf_class_groups.Poly.{
  Poly, put_below, trim_tail, poly_trim, reduce_each, poly_mod_q, add_each, poly_add_mod, sub_each,
  poly_sub_mod,
}

-- The sum of the coefficients times the powers of `x`, not reduced.
abbrev pub value : Poly → ℕ → ℕ
value [] x = 0
value (c ∷ cs) x = c + x * value cs x

-- The values of a polynomial at a list of points, reduced.
abbrev pub values_at : Poly → List ℕ → ℕ → List ℕ
values_at coeffs points q = map (λ x. value coeffs x % q) points

-- Congruent tails.
pub Cong-cons : (q c c' v v' x : ℕ) → Cong q c c' → Cong q v v' → Cong q (c + x * v) (c' + x * v')
Cong-cons q c c' v v' x h k = Cong-add q c c' (x * v) (x * v') h (Cong-mul q x x v v' refl k)

value-put_below : (c : ℕ) (p : Poly) (x : ℕ) → value (put_below c p) x ≡ c + x * value p x
value-put_below c [] x = ground arith
value-put_below c (d ∷ ds) x = refl

value-trim_tail : (p : Poly) (x : ℕ) → value (trim_tail p) x ≡ value p x
unfolding trim_tail
value-trim_tail [] x = refl
value-trim_tail (c ∷ cs) x =
    value-put_below c (trim_tail cs) x ∙ ap (λ (t : ℕ). c + x * t) (value-trim_tail cs x)

-- Trimming keeps the value.
pub value-poly_trim : (p : Poly) (x : ℕ) → value (poly_trim p) x ≡ value p x
unfolding poly_trim
value-poly_trim [] x = refl
value-poly_trim (c ∷ cs) x = ap (λ (t : ℕ). c + x * t) (value-trim_tail cs x)

pub value-reduce_each : (q : ℕ) (p : Poly) (x : ℕ) → Cong q (value (reduce_each q p) x) (value p x)
unfolding reduce_each
value-reduce_each q [] x = refl
value-reduce_each q (c ∷ cs) x =
    Cong-cons q (c % q) c _ _ x (Cong-mod q c) (value-reduce_each q cs x)

-- Reducing the coefficients keeps the value modulo `q`.
pub value-poly_mod_q : (q : ℕ) (p : Poly) (x : ℕ) → Cong q (value (poly_mod_q p q) x) (value p x)
unfolding poly_mod_q
value-poly_mod_q q p x = rw (value-poly_trim (reduce_each q p) x) (value-reduce_each q p x)

pub value-add_each :
    (q : ℕ) (a b : Poly) (x : ℕ) → Cong q (value (add_each q a b) x) (value a x + value b x)
unfolding add_each
value-add_each q [] bs x =
    value-reduce_each q bs x
    ∙ ap (λ (t : ℕ). t % q) {x = value bs x} {y = 0 + value bs x} (omega arith)
value-add_each q (a ∷ as') [] x =
    value-reduce_each q (a ∷ as') x
    ∙ ap (λ (t : ℕ). t % q) {x = value (a ∷ as') x} {y = value (a ∷ as') x + 0} (omega arith)
value-add_each q (a ∷ as') (b ∷ bs) x =
    Cong-cons q ((a + b) % q) (a + b) _ (value as' x + value bs x) x (Cong-mod q (a + b))
      (value-add_each q as' bs x)
    ∙ ap (λ (t : ℕ). t % q) {x = a + b + x * (value as' x + value bs x)}
        {y = a + x * value as' x + (b + x * value bs x)} (omega arith)

-- `poly_add_mod` gives a polynomial that has, at every point, the sum of the values modulo `q`.
pub value-poly_add_mod :
    (q : ℕ) (a b : Poly) (x : ℕ) → Cong q (value (poly_add_mod a b q) x) (value a x + value b x)
unfolding poly_add_mod
value-poly_add_mod q a b x = rw (value-poly_trim (add_each q a b) x) (value-add_each q a b x)

-- One coefficient of a difference.
sub_cons :
    (q a b d v u x : ℕ)
    → 0 < q
    → Cong q (d + v) u
    → Cong q (sub_mod a b q + x * d + (b + x * v)) (a + x * u)
sub_cons q a b d v u x h k =
    ap (λ (t : ℕ). t % q) {x = sub_mod a b q + x * d + (b + x * v)}
      {y = (sub_mod a b q + b) + x * (d + v)} (omega arith)
    ∙ Cong-cons q (sub_mod a b q + b) a (d + v) u x (sub_mod-add a b q h) k

pub value-sub_each :
    (q : ℕ) (a b : Poly) (x : ℕ) → 0 < q → Cong q (value (sub_each q a b) x + value b x) (value a x)
unfolding sub_each
value-sub_each q [] [] x h = refl
value-sub_each q [] (b ∷ bs) x h =
    sub_cons q 0 b (value (sub_each q [] bs) x) (value bs x) 0 x h (value-sub_each q [] bs x h)
    ∙ ap (λ (t : ℕ). t % q) {x = 0 + x * 0} {y = 0} (omega arith)
value-sub_each q (a ∷ as') [] x h =
    ap (λ (t : ℕ). t % q) {x = value (reduce_each q (a ∷ as')) x + 0}
      {y = value (reduce_each q (a ∷ as')) x} (omega arith)
    ∙ value-reduce_each q (a ∷ as') x
value-sub_each q (a ∷ as') (b ∷ bs) x h =
    sub_cons q a b (value (sub_each q as' bs) x) (value bs x) (value as' x) x h
      (value-sub_each q as' bs x h)

-- For `q` above 0, `poly_sub_mod` gives a polynomial whose value at any point, added to the value of
-- the subtrahend, is the value of the minuend modulo `q`.
pub value-poly_sub_mod :
    (q : ℕ) (a b : Poly) (x : ℕ)
    → 0 < q
    → Cong q (value (poly_sub_mod a b q) x + value b x) (value a x)
unfolding poly_sub_mod
value-poly_sub_mod q a b x h = rw (value-poly_trim (sub_each q a b) x) (value-sub_each q a b x h)
