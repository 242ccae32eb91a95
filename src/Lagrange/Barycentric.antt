-- ===== src/Lagrange/Barycentric.antt =====
-- The loops of one barycentric evaluation, as a sum over the public points.
use rf_class_groups.Base.{
  ◌<◌, int_pred, int_pred-small, ◌^◌, ℕ, zero, suc, ◌+◌, ◌*◌, ◌-◌, ◌%◌, ◌≡◌, refl, sym, ◌∙◌, List,
  [], ◌∷◌, length, Cong, Cong-same, Cong-mod, Cong-add, Cong-mul, Cong-mul_right, Cong-zero_add,
  sub_mod, sub_mod-Cong, arith,
}
use native.Mathlib.Nat.{mod-mod, zero-mod}
use rf_class_groups.Poly.Roots.{differences}
use rf_class_groups.Lagrange.{
  points_from, left_products, right_products, barycentric_sum, evaluate_at,
}

module _ (q x : ℕ) where
  -- The sum of the weights times the products of the differences to the other points; `c` is the
  -- product of the differences to the points before.
  abbrev pub interpolant : ℕ → List ℕ → List ℕ → ℕ
  interpolant c [] ws = 0
  interpolant c (p ∷ pts) [] = 0
  interpolant c (p ∷ pts) (w ∷ ws) =
      w * c * differences q pts x + interpolant (c * (x + (q - p % q))) pts ws

  interpolant-Cong :
      (pts ws : List ℕ) (c c' : ℕ)
      → Cong q c c'
      → Cong q (interpolant c pts ws) (interpolant c' pts ws)
  interpolant-Cong [] ws c c' h = refl
  interpolant-Cong (p ∷ pts) [] c c' h = refl
  interpolant-Cong (p ∷ pts) (w ∷ ws) c c' h =
      let d = differences q pts x in
      let f = x + (q - p % q) in
      Cong-add q (w * c * d) (w * c' * d) (interpolant (c * f) pts ws) (interpolant (c' * f) pts ws)
        (Cong-mul_right q (w * c) (w * c') d (Cong-mul q w w c c' refl h))
        (interpolant-Cong pts ws (c * f) (c' * f) (Cong-mul_right q c c' f h))

  pub interpolant-vanishes :
      (pts ws : List ℕ) (c : ℕ) → Cong q c 0 → Cong q (interpolant c pts ws) 0
  interpolant-vanishes pts ws c h = interpolant-Cong pts ws c 0 h ∙ at_zero pts ws
    where
      at_zero : (pts ws : List ℕ) → Cong q (interpolant 0 pts ws) 0
      at_zero [] ws = refl
      at_zero (p ∷ pts) [] = refl
      at_zero (p ∷ pts) (w ∷ ws) =
          let f = x + (q - p % q) in
          Cong-same q (w * 0 * differences q pts x + interpolant (0 * f) pts ws)
            (interpolant (0 * f) pts ws) (omega arith)
          ∙ interpolant-Cong pts ws (0 * f) 0 (Cong-same q (0 * f) 0 (omega arith))
          ∙ at_zero pts ws

  -- Each entry is the product of the differences to the points after its own.
  AreSuffixes : List ℕ → List ℕ → Type 0
  AreSuffixes [] [] = Unit {0}
  AreSuffixes [] (p ∷ pts) = ⊥
  AreSuffixes (r ∷ rs) [] = ⊥
  AreSuffixes (r ∷ rs) (p ∷ pts) = Cong q r (differences q pts x) × AreSuffixes rs pts

  right_products-AreSuffixes :
      (i m cur : ℕ) (out : List ℕ)
      → AreSuffixes (cur ∷ out) (points_from i (suc m))
      → (n : ℕ) → n ≡ suc i + m
      → AreSuffixes (right_products q x i cur out) (points_from 0 n)
  unfolding AreSuffixes right_products points_from
  right_products-AreSuffixes zero m cur out h n e = let same : n ≡ suc m = omega arith in rw same h
  right_products-AreSuffixes (suc i) m cur out h n e =
      let f = x + (q - suc (suc i) % q) in
      let d = differences q (points_from (suc (suc i)) m) x in
      right_products-AreSuffixes i (suc m) (cur * sub_mod x (suc (suc i)) q % q) (cur ∷ out)
        (
          Cong-mod q (cur * sub_mod x (suc (suc i)) q)
              ∙ Cong-mul q cur d (sub_mod x (suc (suc i)) q) f h.0 (sub_mod-Cong x (suc (suc i)) q)
              ∙ Cong-same q (d * f) (f * d) (omega arith),
          h,
        )
        n (omega arith)

  added :
      (res w cur c r d : ℕ)
      → Cong q cur c
      → Cong q r d
      → Cong q ((res + w * cur % q * r % q) % q) (res + w * c * d)
  added res w cur c r d h k =
      Cong-mod q (res + w * cur % q * r % q)
      ∙ Cong-add q res res (w * cur % q * r % q) (w * c * d) refl (
          Cong-mod q (w * cur % q * r)
          ∙ Cong-mul q (w * cur % q) (w * c) r d
              (Cong-mod q (w * cur) ∙ Cong-mul q w w cur c refl h) k)

  barycentric_sum-interpolant :
      (i n res cur c : ℕ) (ws rs : List ℕ)
      → Cong q cur c
      → length ws ≡ suc n
      → AreSuffixes rs (points_from i (suc n))
      → Cong q
          (barycentric_sum q res ws (left_products q x i cur n) rs)
          (res + interpolant c (points_from i (suc n)) ws)
  unfolding AreSuffixes barycentric_sum left_products points_from
  barycentric_sum-interpolant i n res cur c [] rs h e s = absurd (omega arith)
  barycentric_sum-interpolant i n res cur c (w ∷ ws) [] h e s = absurd s
  barycentric_sum-interpolant i zero res cur c (w ∷ []) (r ∷ rs) h e s =
      added res w cur c r 1 h s.0
      ∙ Cong-same q (res + w * c * 1) (res + (w * c * 1 + 0)) (omega arith)
  barycentric_sum-interpolant i zero res cur c (w ∷ w' ∷ ws) (r ∷ rs) h e s = absurd (omega arith)
  barycentric_sum-interpolant i (suc n) res cur c (w ∷ ws) (r ∷ rs) h e s =
      let f = x + (q - suc i % q) in
      let d = differences q (points_from (suc i) (suc n)) x in
      let res' = (res + w * cur % q * r % q) % q in
      let rest = interpolant (c * f) (points_from (suc i) (suc n)) ws in
      barycentric_sum-interpolant (suc i) n res' (cur * sub_mod x (suc i) q % q) (c * f) ws rs
        (Cong-mod q (cur * sub_mod x (suc i) q)
          ∙ Cong-mul q cur c (sub_mod x (suc i) q) f h (sub_mod-Cong x (suc i) q))
        (omega arith) s.1
      ∙ Cong-add q res' (res + w * c * d) rest rest (added res w cur c r d h s.0) refl
      ∙ Cong-same q (res + w * c * d + rest) (res + (w * c * d + rest)) (omega arith)

  barycentric_sum-reduced :
      (res : ℕ) (ws ls rs : List ℕ)
      → res % q ≡ res
      → barycentric_sum q res ws ls rs % q ≡ barycentric_sum q res ws ls rs
  unfolding barycentric_sum
  barycentric_sum-reduced res [] ls rs h = h
  barycentric_sum-reduced res (w ∷ ws) [] rs h = h
  barycentric_sum-reduced res (w ∷ ws) (l ∷ ls) [] h = h
  barycentric_sum-reduced res (w ∷ ws) (l ∷ ls) (r ∷ rs) h =
      barycentric_sum-reduced ((res + w * l % q * r % q) % q) ws ls rs (mod-mod _ q)

  -- The loops at one target compute the sum over the points.
  pub evaluate_at-interpolant :
      (n : ℕ) (ws : List ℕ)
      → length ws ≡ suc n
      → n < 2 ^ 31 - 1
      → evaluate_at q ws x ≡ interpolant 1 (points_from 0 (suc n)) ws % q
  unfolding evaluate_at AreSuffixes points_from
  evaluate_at-interpolant n ws e small =
      let same : length ws - 1 ≡ n = omega arith in
      let start : int_pred (length ws) ≡ n = int_pred-small (length ws) (omega arith) ∙ same in
      let above : n - n ≡ 0 = omega arith in
      rw (same, start, above)
        (sym (
            barycentric_sum-reduced 0 ws (left_products q x 0 1 n) (right_products q x n 1 [])
              (zero-mod q))
          ∙ barycentric_sum-interpolant 0 n 0 1 1 ws (right_products q x n 1 []) refl e
              (right_products-AreSuffixes n 0 1 [] (refl, tt) (suc n) (omega arith))
          ∙ Cong-zero_add q (interpolant 1 (points_from 0 (suc n)) ws))
