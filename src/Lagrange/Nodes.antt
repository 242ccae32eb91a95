-- ===== src/Lagrange/Nodes.antt =====
-- The denominators of the barycentric weights: the factorials with their signs are the products of the
-- differences between one public point and the others.
use rf_class_groups.Base.{
  ℕ, zero, suc, ◌+◌, ◌*◌, ◌-◌, ◌%◌, ◌/◌, ◌^◌, ◌≤◌, ◌<◌, ◌≡◌, refl, sym, ap, ◌∙◌, List, get_or, ◌==◌,
  if◌then◌else◌, Cong, Cong-same, Cong-mod, Cong-mul, Cong-multiple, Cong-cancel, complement,
  IsField, field-nonzero_product, field-small_nonzero, arith,
}
use native.Mathlib.Nat.{pow-zero, pow-suc, mod-lt}
use rf_class_groups.Poly.Roots.{differences}
use rf_class_groups.Lagrange.{points_from, factorials, denominator}

abbrev pub factorial : ℕ → ℕ
factorial zero = 1
factorial (suc n) = factorial n * suc n

-- The product of the differences to the first `i` points.
abbrev pub below : ℕ → ℕ → ℕ → ℕ
below q x zero = 1
below q x (suc i) = below q x i * (x + (q - suc i % q))

twice_negated : (q u m t : ℕ) → q ≡ u + 2 → m ≡ u + 1 → m * (m * t) ≡ t + q * (u * t)
twice_negated q u m t h k = rw (h, k) (omega arith)

module _ (q : ℕ) (large : 2 ≤ q) where
  pub difference_above : (r k : ℕ) → Cong q (r + k + (q - r % q)) k
  difference_above r k =
      Cong-same q (r + k + (q - r % q)) (k + q * (r / q + 1))
        (omega (arith, complement q r (omega arith)))
      ∙ Cong-multiple q k (r / q + 1)

  negation : (d : ℕ) → d ≤ q → Cong q ((q - 1) * d) (q - d)
  negation d h = Cong-cancel q ((q - 1) * d) (q - d) d (omega arith) (
      Cong-same q ((q - 1) * d + d) (0 + q * d) (whole q (q - 1) (omega arith))
      ∙ Cong-multiple q 0 d
      ∙ sym (Cong-multiple q 0 1)
      ∙ Cong-same q (0 + q * 1) (q - d + d) (omega arith))
    where
      whole : (n m : ℕ) → n ≡ m + 1 → m * d + d ≡ 0 + n * d
      whole n m e = rw e (omega arith)

  difference_below : (r k : ℕ) → Cong q (r + (q - (r + k) % q)) ((q - 1) * k)
  difference_below r k = Cong-cancel q (r + (q - (r + k) % q)) ((q - 1) * k) k (omega arith) (
      Cong-same q (r + (q - (r + k) % q) + k) (0 + (r + k) + (q - (r + k) % q)) (omega arith)
      ∙ ap (λ (t : ℕ). (t + (q - (r + k) % q)) % q) {x = 0 + (r + k)} {y = r + k + 0} (omega arith)
      ∙ difference_above (r + k) 0
      ∙ sym (Cong-multiple q 0 k)
      ∙ Cong-same q (0 + q * k) ((q - 1) * k + k) (whole q (q - 1) (omega arith)))
    where
      whole : (n m : ℕ) → n ≡ m + 1 → 0 + n * k ≡ m * k + k
      whole n m e = rw e (omega arith)

  -- i (i-1) ... (i-k+1) m! = i! for i = k + m.
  below-factorial : (i k m : ℕ) → i ≡ k + m → Cong q (below q (suc i) k * factorial m) (factorial i)
  below-factorial i zero m e =
      let same : i ≡ m = omega arith in
      Cong-same q (1 * factorial m) (factorial i) (rw same (omega arith))
  below-factorial i (suc k) m e =
      let b = below q (suc i) k in
      Cong-same q (b * (suc i + (q - suc k % q)) * factorial m)
        (b * (factorial m * (suc i + (q - suc k % q)))) (omega arith)
      ∙ Cong-mul q b b (factorial m * (suc i + (q - suc k % q))) (factorial m * suc m) refl (
          Cong-mul q (factorial m) (factorial m) (suc i + (q - suc k % q)) (suc m) refl (
            ap (λ (t : ℕ). (t + (q - suc k % q)) % q) {x = suc i} {y = suc k + suc m} (omega arith)
            ∙ difference_above (suc k) (suc m)))
      ∙ below-factorial i k (suc m) (omega arith)

  -- The differences to the `n` points that start `m + 1` above the node.
  differences-factorial :
      (i j m n t : ℕ)
      → j ≡ i + suc m
      → t ≡ m + n
      → Cong q (differences q (points_from j n) (suc i) * factorial m) ((q - 1) ^ n * factorial t)
  unfolding points_from
  differences-factorial i j m zero t e h =
      let same : t ≡ m = omega arith in
      Cong-same q (1 * factorial m) ((q - 1) ^ zero * factorial t)
        (rw (pow-zero (q - 1), same) refl)
  differences-factorial i j m (suc n) t e h =
      let d = differences q (points_from (suc j) n) (suc i) in
      let f = suc i + (q - suc j % q) in
      let minus = q - 1 in
      Cong-same q (f * d * factorial m) (f * (d * factorial m)) (omega arith)
      ∙ Cong-mul q f (minus * suc m) (d * factorial m) (d * factorial m)
          (ap (λ (k : ℕ). (suc i + (q - k % q)) % q) {x = suc j} {y = suc i + suc m} (omega arith)
            ∙ difference_below (suc i) (suc m))
          refl
      ∙ Cong-same q (minus * suc m * (d * factorial m)) (minus * (d * (factorial m * suc m)))
          (omega arith)
      ∙ Cong-mul q minus minus (d * factorial (suc m)) (minus ^ n * factorial t) refl
          (differences-factorial i (suc j) (suc m) n t (omega arith) (omega arith))
      ∙ Cong-same q (minus * (minus ^ n * factorial t)) (minus ^ suc n * factorial t)
          (rw (pow-suc minus n) (omega arith))

  -- The sign that the code writes with a subtraction.
  signed : (n d : ℕ) → d ≤ q → Cong q ((q - 1) ^ n * d) (if n % 2 == 0 then d else (q - d))
  signed zero d h = Cong-same q ((q - 1) ^ zero * d) d (rw (pow-zero (q - 1)) (omega arith))
  signed (suc zero) d h =
      Cong-same q ((q - 1) ^ suc zero * d) ((q - 1) * d)
        (rw (pow-suc (q - 1) zero, pow-zero (q - 1)) (omega arith))
      ∙ negation d h
  signed (suc (suc n)) d h =
      let minus = q - 1 in
      Cong-same q (minus ^ suc (suc n) * d) (minus ^ n * d + q * ((q - 2) * (minus ^ n * d))) (
        rw (pow-suc minus (suc n), pow-suc minus n)
          (omega
            (arith, twice_negated q (q - 2) minus (minus ^ n * d) (omega arith) (omega arith))))
      ∙ Cong-multiple q (minus ^ n * d) ((q - 2) * (minus ^ n * d))
      ∙ signed n d h
      ∙ ap (λ (k : ℕ). (if k == 0 then d else (q - d)) % q) {x = n % 2} {y = suc (suc n) % 2}
          (omega arith)

  get_or-factorials :
      (f i n k t : ℕ)
      → Cong q f (factorial i)
      → k < n
      → t ≡ i + k
      → Cong q (get_or (factorials q f i n) k 0) (factorial t)
  unfolding factorials
  get_or-factorials f i zero k t h l e = absurd (omega arith)
  get_or-factorials f i (suc n) zero t h l e = let same : t ≡ i = omega arith in rw same h
  get_or-factorials f i (suc n) (suc k) t h l e =
      get_or-factorials (f * suc i % q) (suc i) n k t
        (Cong-mod q (f * suc i) ∙ Cong-mul q f (factorial i) (suc i) (suc i) h refl) (omega arith)
        (omega arith)

  fact : ℕ → List ℕ
  fact N = factorials q 1 0 N

  signed-denominator :
      (N i n : ℕ)
      → N ≡ i + suc n
      → Cong q (denominator q (fact N) i n) ((q - 1) ^ n * (factorial i * factorial n))
  unfolding denominator fact
  signed-denominator N i n e =
      let d = get_or (fact N) i 0 * get_or (fact N) n 0 in
      let positive : 0 < q = omega arith in
      sym (signed n (d % q) (omega (arith, mod-lt d positive)))
      ∙ Cong-mul q ((q - 1) ^ n) ((q - 1) ^ n) (d % q) (factorial i * factorial n) refl (
          Cong-mod q d
          ∙ Cong-mul q (get_or (fact N) i 0) (factorial i) (get_or (fact N) n 0) (factorial n)
              (get_or-factorials 1 0 N i i refl (omega arith) (omega arith))
              (get_or-factorials 1 0 N n n refl (omega arith) (omega arith)))

  -- The denominator at index `i` of `N` points is, modulo `q`, the product of the differences between
  -- the point of that index and the others.
  pub denominator-differences :
      (N i n : ℕ)
      → N ≡ i + suc n
      → Cong q
          (denominator q (factorials q 1 0 N) i n)
          (below q (suc i) i * differences q (points_from (suc i) n) (suc i))
  unfolding fact
  denominator-differences N i n e =
      let d = differences q (points_from (suc i) n) (suc i) in
      let b = below q (suc i) i in
      signed-denominator N i n e
      ∙ Cong-same q ((q - 1) ^ n * (factorial i * factorial n))
          (factorial i * ((q - 1) ^ n * factorial n)) (omega arith)
      ∙ sym (
          Cong-mul q (b * 1) (factorial i) (d * 1) ((q - 1) ^ n * factorial n)
            (below-factorial i i 0 (omega arith))
            (differences-factorial i (suc i) 0 n n (omega arith) (omega arith)))
      ∙ Cong-same q (b * 1 * (d * 1)) (b * d) (omega arith)

module _ (mod_inverse : ℕ → ℕ → ℕ) (q : ℕ) (field : IsField mod_inverse q) where
  factorial-nonzero : (n : ℕ) → n < q → ¬ Cong q (factorial n) 0
  factorial-nonzero zero h = field-small_nonzero mod_inverse q field 1 (omega arith) field.0
  factorial-nonzero (suc n) h =
      field-nonzero_product mod_inverse q field (factorial n) (suc n)
        (factorial-nonzero n (omega arith))
        (field-small_nonzero mod_inverse q field (suc n) (omega arith) h)

  power-nonzero : (n : ℕ) → ¬ Cong q ((q - 1) ^ n) 0
  power-nonzero zero =
      rw (pow-zero (q - 1)) (field-small_nonzero mod_inverse q field 1 (omega arith) field.0)
  power-nonzero (suc n) = rw (pow-suc (q - 1) n) (
      field-nonzero_product mod_inverse q field ((q - 1) ^ n) (q - 1) (power-nonzero n) (
        field-small_nonzero mod_inverse q field (q - 1) (omega (arith, field.0))
          (omega (arith, field.0))))

  -- A denominator can be inverted if there are at most `q` points.
  pub denominator-nonzero :
      (N i n : ℕ) → N ≡ i + suc n → N ≤ q → ¬ Cong q (denominator q (factorials q 1 0 N) i n) 0
  unfolding fact
  denominator-nonzero N i n e h z =
      field-nonzero_product mod_inverse q field ((q - 1) ^ n) (factorial i * factorial n)
        (power-nonzero n)
        (field-nonzero_product mod_inverse q field (factorial i) (factorial n)
          (factorial-nonzero i (omega arith)) (factorial-nonzero n (omega arith)))
        (sym (signed-denominator q field.0 N i n e) ∙ z)
