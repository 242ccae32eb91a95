-- ===== src/Psi/Protocol/Correct.antt =====
-- What PSI outputs.
use rf_class_groups.Base.{
  ℕ, ◌+◌, ◌*◌, ◌%◌, ◌≤◌, ◌<◌, ◌≡◌, refl, sym, ap, ◌∙◌, Bool, true, false, Bool-cases, inl, inr,
  ==_iff, ◌||◌, ◌==◌, if◌then◌else◌, List, [], ◌∷◌, map, length, length-map, All, All-combine, pos,
  Cong, Cong-same, Cong-add, Cong-mul, IsField, ok, arith, ◌^◌, Mpz, IsMpz,
}
use native.Mathlib.Nat.{zero-mod}
use rf_class_groups.Config.{Env, cg_max_items}
use rf_class_groups.Config.Limits.{cg_max_items_range}
use rf_class_groups.Ole.{Draws}
use rf_class_groups.Multiplication.Reference.{poly_mul_mod_auto-poly_mul_mod}
use rf_class_groups.Multiplication.Unchanged.{poly_from_roots_auto-same}
use rf_class_groups.Poly.{Poly, poly_from_roots}
use rf_class_groups.Poly.Values.{values_at, value}
use rf_class_groups.Poly.Karatsuba.{poly_mul_mod}
use rf_class_groups.Poly.Roots.{differences}
use rf_class_groups.Evaluation.Policy.{CanEvaluate}
use rf_class_groups.Lagrange.Interpolation.{differences-members}
use rf_class_groups.Interpolation.{psi_lagrange_to_coeff_threshold, lagrange_eval_batch_auto}
use rf_class_groups.Interpolation.Policy.{lagrange_eval_batch_auto-values}
use rf_class_groups.Ntt.{ntt128_prime, ntt_runtime_enabled}
use rf_class_groups.Public.{public_eval_points_cached}
use rf_class_groups.Opa.{OleBatch}
use rf_class_groups.Opa.Correct.{IsOleBatch, AreShort, opa_value, opa-values}
use rf_class_groups.Psi.{validate_psi_set}
use rf_class_groups.Psi.Validation.{IsElement, IsDistinct, validate_psi_set_iff}
use rf_class_groups.Psi.Membership.{is_member, product-is_member, select, select-same}
use rf_class_groups.Psi.Protocol.{random_poly, psi_sender, zero_elements, psi_receiver, psi}
use rf_class_groups.Psi.Protocol.Points.{
  points_for, points_for-bound, points_for-agree, psi_points-points_for,
}
use rf_class_groups.Psi.Protocol.Degrees.{
  length-random_poly, length-poly_from_roots, length-masked_product, received-differences,
  received-IsPoly,
}

-- A set of numbers that the programs accept.
abbrev pub IsInput : ℕ → ℕ → List ℕ → Type 0
IsInput limit q set =
    (1 ≤ length set) × (length set ≤ limit) × All (λ a. a < q) set × IsDistinct (map pos set)

elements : (q : ℕ) (set : List ℕ) → All (λ a. a < q) set → All (IsElement q) (map pos set)
elements q [] h = tt
elements q (a ∷ set) h = (h.0, elements q set h.1)

pub IsInput-accepted :
    (getenv : Env) (limit q : ℕ) (set : List ℕ)
    → cg_max_items getenv ≡ ok limit
    → IsInput limit q set
    → validate_psi_set getenv (map pos set) q ≡ ok tt
IsInput-accepted getenv limit q set e (h, k, l, m) =
    let size = length-map set pos in
    (validate_psi_set_iff getenv limit q (map pos set) e).1
      (omega (arith, size), omega (arith, size), elements q set l, m)

zero_elements-select :
    (f : ℕ → ℕ) (set : List ℕ) → zero_elements set (map f set) ≡ select (λ b. f b == 0) set
unfolding zero_elements select
zero_elements-select f [] = refl
zero_elements-select f (b ∷ set) =
    ap (λ (rest : List ℕ). if f b == 0 then b ∷ rest else rest) (zero_elements-select f set)

-- In the sender's set, or a root of its mask.
abbrev pub is_output : ℕ → List ℕ → Poly → ℕ → Bool
is_output q set_A rA_prime b = is_member b set_A || value rA_prime b % q == 0

module _ (mpz : Mpz) (q : ℕ) (field : IsField mpz.mod_inverse q) (A B : List ℕ) (mask mask' : Draws)
    (below_A : All (λ a. a < q) A) (below_B : All (λ b. b < q) B) where
  abbrev rA : Poly
  rA = random_poly (length A) mask

  abbrev rA' : Poly
  rA' = random_poly (length B) mask'

  abbrev pB : Poly
  pB = poly_from_roots poly_mul_mod q B

  abbrev qA : Poly
  qA = poly_mul_mod (poly_from_roots poly_mul_mod q A) rA' q

  abbrev n_pts : ℕ
  n_pts = length A + length B + 1

  positive : 0 < q
  positive = omega (arith, field.0)

  received_poly :
      (p : Poly) × (length p ≤ n_pts) × ((x : ℕ) → Cong q (value p x) (opa_value pB qA rA x))
  received_poly =
      let l = length-random_poly (length A) mask in
      let l' = length-random_poly (length B) mask' in
      received-IsPoly q positive A B rA rA' n_pts refl (omega (arith, l)) (omega (arith, l'))

  -- On the receiver's own set the second summand is zero.
  own_value :
      (b : ℕ)
      → Cong q (differences q B b) 0
      → Cong q (value received_poly.0 b) (value rA' b * differences q A b)
  own_value b z =
      let v = value rA' b * differences q A b in
      received_poly.2 b
      ∙ received-differences q positive A B rA rA' b
      ∙ Cong-add q v v (value rA b * differences q B b) 0 refl (
          Cong-mul q (value rA b) (value rA b) (differences q B b) 0 refl z
          ∙ Cong-same q (value rA b * 0) 0 (omega arith))
      ∙ Cong-same q (v + 0) v (omega arith)

  own_tests : All (λ b. (value received_poly.0 b % q == 0) ≡ is_output q A rA' b) B
  own_tests =
      All-combine (λ b. Cong q (differences q B b) 0) (λ b. b < q)
        (λ b. (value received_poly.0 b % q == 0) ≡ is_output q A rA' b) B
        (λ b z h.
          ap (λ (t : ℕ). t == 0) (own_value b z)
          ∙ product-is_member mpz.mod_inverse q field (value rA' b) b A h below_A)
        (differences-members q field.0 B) below_B

  reconstructed :
      (laws : IsMpz mpz ntt128_prime) (env_r : Env) (threshold N : ℕ) (alpha : List ℕ)
      → public_eval_points_cached mpz env_r N q ≡ ok alpha
      → CanEvaluate env_r
      → psi_lagrange_to_coeff_threshold env_r ≡ ok threshold
      → n_pts ≤ N
      → N < q
      → N ≤ 2 ^ 24
      → lagrange_eval_batch_auto mpz env_r (map (λ p. opa_value pB qA rA p % q) alpha) B q
        ≡ ok (values_at received_poly.0 B q)
  reconstructed laws env_r threshold N alpha named can e h k l =
      ap (λ (f : ℕ → ℕ). lagrange_eval_batch_auto mpz env_r (map f alpha) B q)
        (λ i x. sym (received_poly.2 x) i)
      ∙ lagrange_eval_batch_auto-values mpz laws q field received_poly.0 env_r threshold N alpha B
          named can e (omega (arith, received_poly.1)) k l (omega arith)

masked :
    (q : ℕ) (A : List ℕ) (r : Poly) (B : List ℕ)
    → All (λ b. is_member b A ≡ false → ¬ Cong q (value r b) 0) B
    → All (λ b. is_output q A r b ≡ is_member b A) B
masked q A r [] h = tt
masked q A r (b ∷ B) h = (own (is_member b A) h.0, masked q A r B h.1)
  where
    own : (m : Bool) → (m ≡ false → ¬ Cong q (value r b) 0) → (m || value r b % q == 0) ≡ m
    own true k = refl
    own false k = elim (Bool-cases (value r b % q == 0)) [
      | inl e ↦ absurd (k refl ((==_iff (value r b % q) 0).0 e ∙ sym (zero-mod q)))
      | inr e ↦ e
    ]

module _ (mpz : Mpz) (laws : IsMpz mpz ntt128_prime) (ole_batch : OleBatch) (q : ℕ)
    (env_r env_s : Env) (limit_r limit_s threshold : ℕ) (A B : List ℕ) (mask mask' : Draws)
    (field : IsField mpz.mod_inverse q) (can_r : CanEvaluate env_r) (can_s : CanEvaluate env_s)
    (items_r : cg_max_items env_r ≡ ok limit_r) (items_s : cg_max_items env_s ≡ ok limit_s)
    (e : psi_lagrange_to_coeff_threshold env_r ≡ ok threshold) (accepted_A : IsInput limit_s q A)
    (accepted_B : IsInput limit_r q B) (N : ℕ) (batch : IsOleBatch ole_batch q N)
    (count : points_for env_r q (length A + length B + 1) ≡ ok N)
    (alike : ntt_runtime_enabled env_r ≡ ntt_runtime_enabled env_s) (bound_s : N ≤ limit_s)
    (bound_r : N ≤ limit_r) (points : N < q) where
  -- Modulo a prime `q`, for two accepted sets, in environments that allow the evaluation and agree on
  -- the switch of the transform, whose thresholds for products by the transform parse, and with the
  -- receiver's threshold for barycentric evaluation parsing, where the number of points is within both
  -- item limits and below `q`, and over a batch that computes OLE for vectors of that length, PSI ends without a failure. The number of points is the size of both sets and one more,
  -- or the next power of two in the domain of the transform. The receiver outputs, in the order of its
  -- set, those of its elements that are in the sender's set or are roots of the mask r'_A.
  pub psi-output :
      psi mpz ole_batch env_r env_s A B (length A) (length B) mask mask' q
      ≡ ok (select (is_output q A (random_poly (length B) mask')) B)
  unfolding psi psi_sender psi_receiver
  psi-output =
      let below_A = accepted_A.2 in
      let below_B = accepted_B.2 in
      let few : N ≤ 2 ^ 24 = omega (arith, bound_r, (cg_max_items_range env_r limit_r items_r).1) in
      let large = points_for-bound env_r q (length A + length B + 1) N count in
      let size = length-random_poly (length A) mask in
      let size' = length-random_poly (length B) mask' in
      let size_B = length-poly_from_roots q (omega (arith, field.0)) B in
      let size_A = length-poly_from_roots q (omega (arith, field.0)) A in
      let size_product =
        length-masked_product q (omega (arith, field.0)) A (random_poly (length B) mask') in
      let short : AreShort (poly_from_roots poly_mul_mod q B)
          (poly_mul_mod (poly_from_roots poly_mul_mod q A) (random_poly (length B) mask') q)
          (random_poly (length A) mask) =
        (
          omega (arith, size_B, large, few),
          omega (arith, size_product, size', large, few),
          omega (arith, size, large, few),
        ) in
      let p = (received_poly mpz q field A B mask mask' below_A below_B).0 in
      let (alpha, named, _, run) =
        opa-values mpz laws ole_batch q field.0 N batch env_r env_s
          (poly_from_roots poly_mul_mod q B)
          (poly_mul_mod (poly_from_roots poly_mul_mod q A) (random_poly (length B) mask') q)
          (random_poly (length A) mask) can_r can_s alike (omega arith) few short in
      rw
        (
          IsInput-accepted env_s limit_s q A items_s accepted_A,
          psi_points-points_for env_s limit_s (length A) (length B) q N items_s
              (sym (points_for-agree env_r env_s q (length A + length B + 1) alike) ∙ count)
              bound_s,
          poly_from_roots_auto-same mpz laws env_s can_s.2.0 q (omega (arith, field.0)) can_s.2.1 A
              (omega (arith, large, few)),
          poly_mul_mod_auto-poly_mul_mod mpz laws env_s can_s.2.0 q (omega (arith, field.0))
              can_s.2.1 (poly_from_roots poly_mul_mod q A) (random_poly (length B) mask')
              (omega (arith, size_A, large, few)) (omega (arith, size', large, few)),
          IsInput-accepted env_r limit_r q B items_r accepted_B,
          psi_points-points_for env_r limit_r (length A) (length B) q N items_r count bound_r,
          poly_from_roots_auto-same mpz laws env_r can_r.2.0 q (omega (arith, field.0)) can_r.2.1 B
              (omega (arith, large, few)),
          run,
          reconstructed mpz q field A B mask mask' below_A below_B laws env_r threshold N alpha
              named can_r e (points_for-bound env_r q (length A + length B + 1) N count) points few,
        )
        (ap ok (
          zero_elements-select (λ x. value p x % q) B
          ∙ select-same (λ x. value p x % q == 0) (is_output q A (random_poly (length B) mask')) B
              (own_tests mpz q field A B mask mask' below_A below_B)))

  -- Under the same conditions, if the mask r'_A has no root among the receiver's elements that are not in
  -- the sender's set, the output is the intersection, in the order of the receiver's set.
  pub psi-intersection :
      All (λ b. is_member b A ≡ false → ¬ Cong q (value (random_poly (length B) mask') b) 0) B
      → psi mpz ole_batch env_r env_s A B (length A) (length B) mask mask' q
        ≡ ok (select (λ b. is_member b A) B)
  psi-intersection h =
      psi-output
      ∙ ap ok (
          select-same (is_output q A (random_poly (length B) mask')) (λ b. is_member b A) B
            (masked q A (random_poly (length B) mask') B h))
