-- ===== src/Ope.antt =====
-- Oblivious polynomial evaluation: the Horner-to-OLE reduction of cg_ope_common.hpp.
pub mod Reduction
pub mod Protocol
use rf_class_groups.Base.{
  ℕ, zero, suc, ◌+◌, ◌*◌, ◌-◌, ◌%◌, List, [], ◌∷◌, length, get_or, sub_mod, Result, ok, err,
  degree_too_small, size_mismatch, ◌>>=◌, ◌>>◌, reject_if, ◌==◌, not, replicate,
}
use rf_class_groups.Scheme.{ClassGroups}
use rf_class_groups.Config.{Env}
use rf_class_groups.Ole.{Draws, Processes, Randomness, direct_ole_batch, rf_ole_batch}

pub add_mod : ℕ → ℕ → ℕ → ℕ
add_mod a b q = (a + b) % q

pub mul_mod : ℕ → ℕ → ℕ → ℕ
mul_mod a b q = a * b % q

module _ (coeffs : List ℕ) (alpha q : ℕ) where
  -- `for (idx = size - 1; idx-- > 0;)`: the coefficients below `idx`, downward.
  unfoldable pub horner_loop : ℕ → ℕ → ℕ
  horner_loop zero acc = acc
  horner_loop (suc idx) acc = horner_loop idx ((acc * alpha + get_or coeffs idx 0) % q)

  unfoldable pub horner_of_size : ℕ → ℕ
  horner_of_size zero = 0
  horner_of_size (suc d) = horner_loop d (get_or coeffs d 0 % q)

  unfoldable pub eval_poly_horner : ℕ
  eval_poly_horner = horner_of_size (length coeffs)

module _ (coeffs : List ℕ) (q : ℕ) (rho : Draws) where
  -- The OLE inputs from transition `i` on, where `left` is d - i and `s_prev` is the mask of the state
  -- before; the last transition is not masked.
  pub masked_steps : ℕ → ℕ → ℕ → List ℕ × List ℕ
  masked_steps zero i s_prev = (s_prev ∷ [], get_or coeffs 0 0 ∷ [])
  masked_steps (suc left) i s_prev =
      let (a_vals, b_vals) = masked_steps left (suc i) (rho i) in
      (s_prev ∷ a_vals, sub_mod (get_or coeffs (suc left) 0) (rho i) q ∷ b_vals)

  pub build_of_size : ℕ → Result (List ℕ × List ℕ)
  build_of_size zero = err degree_too_small
  build_of_size (suc zero) = err degree_too_small
  build_of_size (suc (suc d)) = ok (masked_steps d 1 (get_or coeffs (suc d) 0))

  -- `build_ope_sender_ole_inputs`: the vectors a_vals and b_vals.
  pub build_ope_sender_ole_inputs : Result (List ℕ × List ℕ)
  build_ope_sender_ole_inputs = build_of_size (length coeffs)

-- The receiver's recurrence over the outputs that are left.
pub finish_loop : ℕ → ℕ → ℕ → ℕ → List ℕ → ℕ
finish_loop alpha q s_b y [] = add_mod y (mul_mod alpha s_b q) q
finish_loop alpha q s_b y (y' ∷ ys) = finish_loop alpha q (add_mod y (mul_mod alpha s_b q) q) y' ys

pub finish_ope_receiver : List ℕ → ℕ → ℕ → Result ℕ
finish_ope_receiver [] alpha q = err size_mismatch
finish_ope_receiver (y ∷ ys) alpha q = ok (finish_loop alpha q 0 y ys)

module _ (cs : ClassGroups) where
  -- cg_ope_receiver and cg_ope_sender. The upper limit on `degree` is that of the batch.
  pub direct_ope : ℕ → Env → Env → ℕ → Draws → Draws → Draws → ℕ → List ℕ → ℕ → Result ℕ
  direct_ope chunk env_r env_s sk rx rb rho degree coeffs alpha = do
    let q = cs.cleartext_bound
    reject_if (degree == 0) degree_too_small
    reject_if (not (length coeffs == degree + 1)) size_mismatch
    (a_vals, b_vals) ← build_ope_sender_ole_inputs coeffs q rho
    y_vals ← direct_ole_batch cs chunk env_r env_s sk rx rb (replicate degree alpha) a_vals b_vals
    finish_ope_receiver y_vals alpha q

  -- cg_rf_ope_receiver and cg_rf_ope_sender, with the two firewalls between them. The upper limit that
  -- both programs put on `degree` when they parse it is the one that the batch checks again.
  pub rf_ope : ℕ → Processes → Randomness → Draws → ℕ → List ℕ → ℕ → Result ℕ
  rf_ope chunk p r rho degree coeffs alpha = do
    let q = cs.cleartext_bound
    reject_if (degree == 0) degree_too_small
    reject_if (not (length coeffs == degree + 1)) size_mismatch
    (a_vals, b_vals) ← build_ope_sender_ole_inputs coeffs q rho
    y_vals ← rf_ole_batch cs chunk p r (replicate degree alpha) a_vals b_vals
    finish_ope_receiver y_vals alpha q
