-- ===== src/Poly/Sizes.antt =====
-- The sizes of trimmed and reduced coefficient vectors.
use rf_class_groups.Base.{ℕ, zero, suc, ◌%◌, ◌≤◌, ◌≡◌, [], ◌∷◌, length, length-map, arith}
use rf_class_groups.Poly.{Poly, put_below, trim_tail, poly_trim, reduce_each, add_each, sub_each}

length-put_below : (c : ℕ) (p : Poly) → length (put_below c p) ≤ suc (length p)
length-put_below c [] = ground arith
length-put_below c (d ∷ ds) = omega arith

length-trim_tail : (p : Poly) → length (trim_tail p) ≤ length p
unfolding trim_tail
length-trim_tail [] = omega arith
length-trim_tail (c ∷ p) = omega (arith, length-put_below c (trim_tail p), length-trim_tail p)

pub length-poly_trim : (p : Poly) → length (poly_trim p) ≤ length p
unfolding poly_trim
length-poly_trim [] = omega arith
length-poly_trim (c ∷ p) = omega (arith, length-trim_tail p)

pub length-reduce_each : (q : ℕ) (p : Poly) → length (reduce_each q p) ≡ length p
unfolding reduce_each
length-reduce_each q p = length-map p (λ c. c % q)

pub length-add_each :
    (q : ℕ) (a b : Poly) (n : ℕ) → length a ≤ n → length b ≤ n → length (add_each q a b) ≤ n
unfolding add_each
length-add_each q [] bs n h k = omega (arith, length-reduce_each q bs)
length-add_each q (a ∷ as') [] n h k = omega (arith, length-reduce_each q (a ∷ as'))
length-add_each q (a ∷ as') (b ∷ bs) zero h k = absurd (omega arith)
length-add_each q (a ∷ as') (b ∷ bs) (suc n) h k =
    omega (arith, length-add_each q as' bs n (omega arith) (omega arith))

pub length-sub_each :
    (q : ℕ) (a b : Poly) (n : ℕ) → length a ≤ n → length b ≤ n → length (sub_each q a b) ≤ n
unfolding sub_each
length-sub_each q [] [] n h k = h
length-sub_each q [] (b ∷ bs) zero h k = absurd (omega arith)
length-sub_each q [] (b ∷ bs) (suc n) h k =
    omega (arith, length-sub_each q [] bs n (omega arith) (omega arith))
length-sub_each q (a ∷ as') [] n h k = omega (arith, length-reduce_each q (a ∷ as'))
length-sub_each q (a ∷ as') (b ∷ bs) zero h k = absurd (omega arith)
length-sub_each q (a ∷ as') (b ∷ bs) (suc n) h k =
    omega (arith, length-sub_each q as' bs n (omega arith) (omega arith))
