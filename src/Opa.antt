-- ===== src/Opa.antt =====
-- Oblivious polynomial addition: cg_opa.hpp over the direct batch and cg_rf_opa.hpp over the batch with
-- the firewalls. The two headers differ in the batch that they call, which is a parameter here.
pub mod Correct
use rf_class_groups.Base.{ℕ, List, [], ◌∷◌, Mpz, Result, ok, err, ◌>>=◌, ◌>>◌}
use rf_class_groups.Config.{Env}
use rf_class_groups.Scheme.{ClassGroups}
use rf_class_groups.Ole.{Draws, Processes, Randomness, direct_ole_batch, rf_ole_batch}
use rf_class_groups.Poly.{Poly}
use rf_class_groups.Evaluation.{poly_eval_batch_auto}
use rf_class_groups.Lagrange.{require_public_eval_points_distinct}
use rf_class_groups.Public.{rf_opa_eval_points}

-- The receiver's inputs, the sender's slopes and offsets; the receiver's outputs.
abbrev pub OleBatch : Type 0
OleBatch = List ℕ → List ℕ → List ℕ → Result (List ℕ)

pub record OpaResult : Type 0 where
  pub alpha : List ℕ
  pub input_evals : List ℕ
  pub y_vals : List ℕ
  pub q : ℕ

pub record OpaSendEvals : Type 0 where
  pub alpha : List ℕ
  pub b_vals : List ℕ
  pub a_vals : List ℕ
  pub q : ℕ

module _ (mpz : Mpz) where
  -- `opa_send_with_q` up to its call of the batch.
  pub opa_send_evals : Env → ℕ → Poly → Poly → ℕ → Result OpaSendEvals
  opa_send_evals getenv n_pts b_poly_coeffs a_poly_coeffs q = do
    require_public_eval_points_distinct n_pts q
    alpha ← rf_opa_eval_points mpz getenv n_pts q
    b_vals ← poly_eval_batch_auto mpz getenv b_poly_coeffs alpha q
    a_vals ← poly_eval_batch_auto mpz getenv a_poly_coeffs alpha q
    ok (record { alpha = alpha; b_vals = b_vals; a_vals = a_vals; q = q })

module _ (mpz : Mpz) (ole_batch : OleBatch) where
  -- `opa_receive_with_q`, with what the sender's half passes to the batch.
  pub opa_receive_with_q : Env → ℕ → Poly → ℕ → OpaSendEvals → Result OpaResult
  opa_receive_with_q getenv n_pts receiver_poly_coeffs q sent = do
    require_public_eval_points_distinct n_pts q
    alpha ← rf_opa_eval_points mpz getenv n_pts q
    x_vals ← poly_eval_batch_auto mpz getenv receiver_poly_coeffs alpha q
    y_vals ← ole_batch x_vals sent.a_vals sent.b_vals
    ok (record { alpha = alpha; input_evals = x_vals; y_vals = y_vals; q = q })

  -- Both parties of one run, each with its environment and its number of points.
  pub opa : Env → Env → ℕ → ℕ → Poly → Poly → Poly → ℕ → Result OpaResult
  opa env_r env_s n_r n_s receiver_poly b_poly a_poly q = do
    sent ← opa_send_evals mpz env_s n_s b_poly a_poly q
    opa_receive_with_q env_r n_r receiver_poly q sent

module _ (cs : ClassGroups) where
  -- cg_opa.hpp: the batch is `direct_ole_batch_receive` with `direct_ole_batch_send`.
  pub direct_batch : ℕ → Env → Env → ℕ → Draws → Draws → OleBatch
  direct_batch chunk env_r env_s sk rx rb xs as' bs =
      direct_ole_batch cs chunk env_r env_s sk rx rb xs as' bs

  -- cg_rf_opa.hpp: the batch is `rf_ole_batch_receive` with `rf_ole_batch_send`.
  pub firewalled_batch : ℕ → Processes → Randomness → OleBatch
  firewalled_batch chunk p r xs as' bs = rf_ole_batch cs chunk p r xs as' bs

  -- `opa_receive` with `opa_send`, whose modulus is the plaintext bound.
  abbrev pub direct_opa :
      Mpz → ℕ → ℕ → Draws → Draws → Env → Env → ℕ → ℕ → Poly → Poly → Poly → Result OpaResult
  direct_opa mpz chunk sk rx rb env_r env_s n_r n_s x b a =
      opa mpz (direct_batch chunk env_r env_s sk rx rb) env_r env_s n_r n_s x b a cs.cleartext_bound

  -- `rf_opa_receive` with `rf_opa_send`.
  abbrev pub rf_opa :
      Mpz → ℕ → Processes → Randomness → ℕ → ℕ → Poly → Poly → Poly → Result OpaResult
  rf_opa mpz chunk p r n_r n_s x b a =
      opa mpz (firewalled_batch chunk p r) p.receiver p.sender n_r n_s x b a cs.cleartext_bound
