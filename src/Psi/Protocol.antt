-- ===== src/Psi/Protocol.antt =====
-- One-way PSI: cg_psi_sender.cpp with cg_psi_receiver.cpp over the direct batch, and
-- cg_rf_psi_sender.cpp with cg_rf_psi_receiver.cpp over the batch with the firewalls. The programs differ
-- in the batch, which is a parameter here. Arguments, files and timings are left out.
pub mod Degrees
pub mod Points
pub mod Correct
pub mod Firewalled
use rf_class_groups.Base.{
  ℕ, zero, suc, ◌+◌, false, List, [], ◌∷◌, map, length, ◌==◌, if◌then◌else◌, pos, Result, ok, err,
  ◌>>=◌, ◌>>◌, Bool, ◌&&◌, Mpz,
}
use rf_class_groups.Config.{Env, cg_checked_add, cg_validate_count}
use rf_class_groups.Scheme.{ClassGroups}
use rf_class_groups.Ole.{Draws, Processes, Randomness}
use rf_class_groups.Poly.{Poly}
use rf_class_groups.Multiplication.{poly_mul_mod_auto}
use rf_class_groups.Multiplication.Trees.{poly_from_roots_auto}
use rf_class_groups.Interpolation.{lagrange_eval_batch_auto}
use rf_class_groups.Ntt.{ntt_runtime_enabled, is_ntt128_prime, next_power_of_two_size}
use rf_class_groups.Opa.{OleBatch, OpaResult, opa, direct_batch, firewalled_batch}
use rf_class_groups.Psi.{validate_psi_set}

-- `rng.random_mpz(q)` for every coefficient, from index `i` on.
unfoldable pub random_from : Draws → ℕ → ℕ → Poly
random_from rng i zero = []
random_from rng i (suc n) = rng i ∷ random_from rng (suc i) n

unfoldable pub random_poly : ℕ → Draws → Poly
random_poly degree rng = random_from rng 0 (suc degree)

-- The points are to be those of the transform's domain.
unfoldable pub selects_domain : Env → ℕ → Bool
selects_domain getenv q = ntt_runtime_enabled getenv && is_ntt128_prime q

unfoldable pub domain_count : Env → ℕ → Result ℕ
domain_count getenv degree_bound_plus_one = do
  count ← next_power_of_two_size degree_bound_plus_one
  cg_validate_count getenv count false
  ok count

pub psi_opa_point_count : Env → ℕ → ℕ → Result ℕ
psi_opa_point_count getenv degree_bound_plus_one q = do
  cg_validate_count getenv degree_bound_plus_one false
  (if selects_domain getenv q
      then domain_count getenv degree_bound_plus_one
      else ok degree_bound_plus_one)

-- `psi_opa_point_count(cg_checked_add(cg_checked_add(m_A, m_B), 1), q)`.
pub psi_points : Env → ℕ → ℕ → ℕ → Result ℕ
psi_points getenv m_A m_B q = do
  elements ← cg_checked_add getenv m_A m_B
  bound ← cg_checked_add getenv elements 1
  psi_opa_point_count getenv bound q

-- What the sender puts into its OPA call.
pub record PsiSender : Type 0 where
  pub n_pts : ℕ
  pub q_a : Poly
  pub r_a : Poly

-- The sender up to its OPA call; `mask` and `mask'` are the draws for r_A and r'_A.
pub psi_sender : Mpz → Env → List ℕ → ℕ → Draws → Draws → ℕ → Result PsiSender
psi_sender mpz getenv set_A m_B mask mask' q = do
  validate_psi_set getenv (map pos set_A) q
  n_pts ← psi_points getenv (length set_A) m_B q
  pA ← poly_from_roots_auto mpz getenv set_A q
  let rA = random_poly (length set_A) mask
  let rA_prime = random_poly m_B mask'
  qA ← poly_mul_mod_auto mpz getenv pA rA_prime q
  ok (record { n_pts = n_pts; q_a = qA; r_a = rA })

-- The elements with the value 0, in the order of the set.
pub zero_elements : List ℕ → List ℕ → List ℕ
zero_elements (b ∷ set) (v ∷ vals) =
    let rest = zero_elements set vals in if v == 0 then b ∷ rest else rest
zero_elements _ _ = []

module _ (mpz : Mpz) (ole_batch : OleBatch) where
  -- The receiver, with what the sender put into the common OPA call.
  pub psi_receiver : Env → Env → List ℕ → ℕ → PsiSender → ℕ → Result (List ℕ)
  psi_receiver env_r env_s set_B m_A sent q = do
    validate_psi_set env_r (map pos set_B) q
    n_pts ← psi_points env_r m_A (length set_B) q
    pB ← poly_from_roots_auto mpz env_r set_B q
    received ← opa mpz ole_batch env_r env_s n_pts sent.n_pts pB sent.q_a sent.r_a q
    eval_vals ← lagrange_eval_batch_auto mpz env_r received.y_vals set_B received.q
    ok (zero_elements set_B eval_vals)

  -- Both programs; `m_A` and `m_B` are the sizes of the other side's set on the command lines.
  pub psi : Env → Env → List ℕ → List ℕ → ℕ → ℕ → Draws → Draws → ℕ → Result (List ℕ)
  psi env_r env_s set_A set_B m_A m_B mask mask' q = do
    sent ← psi_sender mpz env_s set_A m_B mask mask' q
    psi_receiver env_r env_s set_B m_A sent q

module _ (mpz : Mpz) (cs : ClassGroups) where
  -- cg_psi_receiver.cpp with cg_psi_sender.cpp.
  abbrev pub direct_psi :
      ℕ → ℕ → Draws → Draws → Env → Env → List ℕ → List ℕ → ℕ → ℕ → Draws → Draws → Result (List ℕ)
  direct_psi chunk sk rx rb env_r env_s set_A set_B m_A m_B mask mask' =
      psi mpz (direct_batch cs chunk env_r env_s sk rx rb) env_r env_s set_A set_B m_A m_B mask
        mask' cs.cleartext_bound

  -- cg_rf_psi_receiver.cpp with cg_rf_psi_sender.cpp and the two firewalls.
  abbrev pub rf_psi :
      ℕ → Processes → Randomness → List ℕ → List ℕ → ℕ → ℕ → Draws → Draws → Result (List ℕ)
  rf_psi chunk p r set_A set_B m_A m_B mask mask' =
      psi mpz (firewalled_batch cs chunk p r) p.receiver p.sender set_A set_B m_A m_B mask mask'
        cs.cleartext_bound
