-- ===== src/Ope/Reduction.antt =====
-- The masked Horner steps of sender and receiver add up to the value of the polynomial.
use rf_class_groups.Base.{
  ℕ, zero, suc, ◌+◌, ◌*◌, ◌%◌, ◌<◌, ◌≡◌, refl, sym, ap, ◌∙◌, List, [], ◌∷◌, length, get_or,
  replicate, All, Cong, Cong-mod, Cong-add, Cong-mul_right, sub_mod, sub_mod-add, sub_mod-lt, ok,
  ◌>>=◌, ◌≤◌, ◌-◌, arith,
}
use rf_class_groups.Ole.{Draws, ole}
use rf_class_groups.Ope.{
  add_mod, mul_mod, horner_loop, eval_poly_horner, masked_steps, build_ope_sender_ole_inputs,
  build_of_size, horner_of_size, finish_loop, finish_ope_receiver,
}

-- One step of the receiver, before the reductions.
receiver_step :
    (q alpha s a b : ℕ)
    → Cong q (add_mod ((a * alpha + b) % q) (mul_mod alpha s q) q) ((a + s) * alpha + b)
unfolding add_mod mul_mod
receiver_step q alpha s a b =
    Cong-mod q _
    ∙ Cong-add q ((a * alpha + b) % q) (a * alpha + b) (alpha * s % q) (alpha * s) (Cong-mod q _)
        (Cong-mod q _)
    ∙ ap (λ (t : ℕ). t % q) {x = a * alpha + b + alpha * s} {y = (a + s) * alpha + b} (omega arith)

-- The masked state and the mask add up to the state of Horner's rule.
masked_step :
    (q alpha s a c r acc : ℕ)
    → 0 < q
    → Cong q (a + s) acc
    → Cong q
        (r + add_mod ((a * alpha + sub_mod c r q) % q) (mul_mod alpha s q) q)
        ((acc * alpha + c) % q)
masked_step q alpha s a c r acc h inv =
    Cong-add q r r _ _ refl (receiver_step q alpha s a (sub_mod c r q))
    ∙ ap (λ (t : ℕ). t % q) {x = r + ((a + s) * alpha + sub_mod c r q)}
        {y = (a + s) * alpha + (sub_mod c r q + r)} (omega arith)
    ∙ Cong-add q ((a + s) * alpha) (acc * alpha) (sub_mod c r q + r) c
        (Cong-mul_right q (a + s) acc alpha inv) (sub_mod-add c r q h)
    ∙ sym (Cong-mod q _)

last_step :
    (q alpha s a c acc : ℕ)
    → Cong q (a + s) acc
    → add_mod ((a * alpha + c) % q) (mul_mod alpha s q) q ≡ (acc * alpha + c) % q
last_step q alpha s a c acc inv =
    unfold add_mod in
    (sym (Cong-mod q _)
      ∙ receiver_step q alpha s a c
      ∙ Cong-add q ((a + s) * alpha) (acc * alpha) c c (Cong-mul_right q (a + s) acc alpha inv)
          refl)

-- The receiver's recurrence, a step for each output.
steps : ℕ → ℕ → ℕ → List ℕ → ℕ
steps alpha q s [] = s
steps alpha q s (y ∷ ys) = steps alpha q (add_mod y (mul_mod alpha s q) q) ys

finish_loop-steps :
    (alpha q s y : ℕ) (ys : List ℕ)
    → finish_loop alpha q s y ys ≡ steps alpha q (add_mod y (mul_mod alpha s q) q) ys
unfolding finish_loop steps
finish_loop-steps alpha q s y [] = refl
finish_loop-steps alpha q s y (y' ∷ ys) =
    finish_loop-steps alpha q (add_mod y (mul_mod alpha s q) q) y' ys

module _ (coeffs : List ℕ) (alpha q : ℕ) (rho : Draws) (positive : 0 < q) where
  -- What batched OLE gives for the transitions that are left.
  outputs : ℕ → ℕ → ℕ → List ℕ
  outputs left i a =
      let (a_vals, b_vals) = masked_steps coeffs q rho left i a in
      ole q (replicate (suc left) alpha) a_vals b_vals

  steps-outputs :
      (left i a s acc : ℕ)
      → Cong q (a + s) acc
      → steps alpha q s (outputs left i a) ≡ horner_loop coeffs alpha q (suc left) acc
  unfolding outputs masked_steps ole steps horner_loop
  steps-outputs zero i a s acc inv = last_step q alpha s a (get_or coeffs 0 0) acc inv
  steps-outputs (suc left) i a s acc inv =
      steps-outputs left (suc i) (rho i) _ _
        (masked_step q alpha s a (get_or coeffs (suc left) 0) (rho i) acc positive inv)

  finish-outputs :
      (left i a : ℕ)
      → finish_ope_receiver (outputs left i a) alpha q ≡ ok (steps alpha q 0 (outputs left i a))
  unfolding outputs masked_steps ole steps finish_ope_receiver
  finish-outputs zero i a = ap ok (finish_loop-steps alpha q 0 _ _)
  finish-outputs (suc left) i a = ap ok (finish_loop-steps alpha q 0 _ _)

  horner-mod :
      (d c : ℕ) → horner_loop coeffs alpha q (suc d) c ≡ horner_loop coeffs alpha q (suc d) (c % q)
  unfolding horner_loop
  horner-mod d c = ap (horner_loop coeffs alpha q d) (
      Cong-add q (c * alpha) (c % q * alpha) _ _
        (Cong-mul_right q c (c % q) alpha (sym (Cong-mod q c))) (λ i. get_or coeffs d 0 % q))

-- The sender's vectors, for a polynomial of degree `suc d`.
pub built :
    (coeffs : List ℕ) (q : ℕ) (rho : Draws) (d : ℕ)
    → length coeffs ≡ suc (suc d)
    → build_ope_sender_ole_inputs coeffs q rho
      ≡ ok (masked_steps coeffs q rho d 1 (get_or coeffs (suc d) 0))
unfolding build_ope_sender_ole_inputs build_of_size
built coeffs q rho d e = rw e

pub length-masked_steps :
    (coeffs : List ℕ) (q : ℕ) (rho : Draws) (left i a : ℕ)
    → (length (masked_steps coeffs q rho left i a).0 ≡ suc left)
      × (length (masked_steps coeffs q rho left i a).1 ≡ suc left)
unfolding masked_steps
length-masked_steps coeffs q rho zero i a = (refl, refl)
length-masked_steps coeffs q rho (suc left) i a =
    let (h, k) = length-masked_steps coeffs q rho left (suc i) (rho i) in (ap suc h, ap suc k)

-- The offsets are plaintexts.
pub masked_steps-lt :
    (coeffs : List ℕ) (q : ℕ) (rho : Draws) (left i a : ℕ)
    → 0 < q
    → get_or coeffs 0 0 < q
    → All (λ b. b < q) (masked_steps coeffs q rho left i a).1
unfolding masked_steps
masked_steps-lt coeffs q rho zero i a h k = (k, tt)
masked_steps-lt coeffs q rho (suc left) i a h k =
    (sub_mod-lt _ _ q h, masked_steps-lt coeffs q rho left (suc i) (rho i) h k)

pub finish-masked_steps :
    (coeffs : List ℕ) (alpha q : ℕ) (rho : Draws) (d : ℕ)
    → 0 < q
    → length coeffs ≡ suc (suc d)
    → finish_ope_receiver
        (ole q
          (replicate (suc d) alpha)
          (masked_steps coeffs q rho d 1 (get_or coeffs (suc d) 0)).0
          (masked_steps coeffs q rho d 1 (get_or coeffs (suc d) 0)).1)
        alpha
        q
      ≡ ok (eval_poly_horner coeffs alpha q)
finish-masked_steps coeffs alpha q rho d h e =
    let top = get_or coeffs (suc d) 0 in
    let finished = finish-outputs coeffs alpha q rho h d 1 top in
    let stepped =
      steps-outputs coeffs alpha q rho h d 1 top 0 top
        (ap (λ (t : ℕ). t % q) {x = top + 0} {y = top} (omega arith)) in
    unfold outputs eval_poly_horner horner_of_size in
    finished
    ∙ ap ok (
        stepped
        ∙ horner-mod coeffs alpha q rho h d top
        ∙ sym (ap (horner_of_size coeffs alpha q) e))

-- For `q` above 0, a polynomial with at least two coefficients and any masks, the sender's OLE inputs, evaluated
-- at `alpha` by a batched OLE modulo `q` and folded by the receiver, give the value of the polynomial
-- at `alpha` modulo `q` that Horner's rule computes.
pub finish-build_ope_sender_ole_inputs :
    (coeffs : List ℕ) (alpha q : ℕ) (rho : Draws)
    → 0 < q
    → 2 ≤ length coeffs
    → (build_ope_sender_ole_inputs coeffs q rho >>= λ (a_vals, b_vals).
        finish_ope_receiver (ole q (replicate (length a_vals) alpha) a_vals b_vals) alpha q)
      ≡ ok (eval_poly_horner coeffs alpha q)
finish-build_ope_sender_ole_inputs coeffs alpha q rho h k =
    let d = length coeffs - 2 in
    let e : length coeffs ≡ suc (suc d) = omega arith in
    rw (built coeffs q rho d e, (length-masked_steps coeffs q rho d 1 (get_or coeffs (suc d) 0)).0)
      (finish-masked_steps coeffs alpha q rho d h e)
