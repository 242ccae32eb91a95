-- ===== src/Ope/Protocol.antt =====
-- The OPE programs, direct and through the reverse firewalls, compute the value of the polynomial.
use rf_class_groups.Base.{
  ℕ, zero, suc, ◌+◌, ◌≤◌, ◌<◌, ◌≡◌, false, sym, ◌∙◌, List, length, length-replicate, All-replicate,
  get_or, replicate, ==_refl, suc-==_zero, ok, arith,
}
use rf_class_groups.Scheme.{ClassGroups}
use rf_class_groups.Scheme.Laws.{IsClassGroups}
use rf_class_groups.Config.{Env}
use rf_class_groups.Config.Limits.{AcceptsCount}
use rf_class_groups.Ole.{Draws, Processes, Randomness}
use rf_class_groups.Ole.Counts.{AcceptCount}
use rf_class_groups.Ole.Direct.{direct_ole_batch-ole}
use rf_class_groups.Ole.Firewalled.{rf_ole_batch-ole}
use rf_class_groups.Ope.{eval_poly_horner, masked_steps, direct_ope, rf_ope}
use rf_class_groups.Ope.Reduction.{built, length-masked_steps, masked_steps-lt, finish-masked_steps}

module _ (cs : ClassGroups) (laws : IsClassGroups cs) where
  -- With `degree` at least 1 and within the item limits of both processes, `degree + 1` coefficients, a constant coefficient and an evaluation
  -- point below the plaintext bound, and a chunk size of at least 1, the direct OPE ends without a
  -- failure with the value of the polynomial at that point, whatever the masks, keys and randomness.
  pub direct_ope-eval_poly_horner :
      (chunk : ℕ) (env_r env_s : Env) (sk : ℕ) (rx rb rho : Draws) (degree : ℕ) (coeffs : List ℕ)
      (alpha : ℕ)
      → 1 ≤ chunk
      → AcceptsCount env_r degree
      → AcceptsCount env_s degree
      → length coeffs ≡ degree + 1
      → get_or coeffs 0 0 < cs.cleartext_bound
      → alpha < cs.cleartext_bound
      → direct_ope cs chunk env_r env_s sk rx rb rho degree coeffs alpha
        ≡ ok (eval_poly_horner coeffs alpha cs.cleartext_bound)
  unfolding direct_ope
  direct_ope-eval_poly_horner chunk env_r env_s sk rx rb rho zero coeffs alpha l c c' e h k =
      absurd (omega (arith, c.2))
  direct_ope-eval_poly_horner chunk env_r env_s sk rx rb rho (suc d) coeffs alpha l c c' e h k =
      let many = length-replicate (suc d) alpha in
      let q = cs.cleartext_bound in
      let e' : length coeffs ≡ suc (suc d) = omega arith in
      let (la, lb) = length-masked_steps coeffs q rho d 1 (get_or coeffs (suc d) 0) in
      rw
        (
          e,
          ==_refl (suc d + 1),
          suc-==_zero d,
          built coeffs q rho d e',
          direct_ole_batch-ole cs laws chunk env_r env_s sk rx rb (replicate (suc d) alpha)
              (masked_steps coeffs q rho d 1 (get_or coeffs (suc d) 0)).0
              (masked_steps coeffs q rho d 1 (get_or coeffs (suc d) 0)).1 l (rw many c) (rw many c')
              (length-replicate (suc d) alpha ∙ sym la) (la ∙ sym lb)
              (All-replicate _ (suc d) alpha k)
              (masked_steps-lt coeffs q rho d 1 _ laws.bound_pos h),
        )
        (finish-masked_steps coeffs alpha q rho d laws.bound_pos e')

  -- In the non-compact variant, with `degree` at least 1 and within the item limits of all
  -- four processes, `degree + 1` coefficients, a constant
  -- coefficient and an evaluation point below the plaintext bound, and a chunk size of at least 1, the
  -- OPE through both firewalls ends without a failure with the value of the polynomial at that point,
  -- whatever the masks, keys, key shifts and randomness.
  pub rf_ope-eval_poly_horner :
      (chunk : ℕ) (p : Processes) (r : Randomness) (rho : Draws) (degree : ℕ) (coeffs : List ℕ)
      (alpha : ℕ)
      → 1 ≤ chunk
      → AcceptCount p degree
      → cs.compact ≡ false
      → length coeffs ≡ degree + 1
      → get_or coeffs 0 0 < cs.cleartext_bound
      → alpha < cs.cleartext_bound
      → rf_ope cs chunk p r rho degree coeffs alpha
        ≡ ok (eval_poly_horner coeffs alpha cs.cleartext_bound)
  unfolding rf_ope
  rf_ope-eval_poly_horner chunk processes r rho zero coeffs alpha l count p e h k =
      absurd (omega (arith, count.0.2))
  rf_ope-eval_poly_horner chunk processes r rho (suc d) coeffs alpha l count p e h k =
      let many = length-replicate (suc d) alpha in
      let q = cs.cleartext_bound in
      let e' : length coeffs ≡ suc (suc d) = omega arith in
      let (la, lb) = length-masked_steps coeffs q rho d 1 (get_or coeffs (suc d) 0) in
      rw
        (
          e,
          ==_refl (suc d + 1),
          suc-==_zero d,
          built coeffs q rho d e',
          rf_ole_batch-ole cs laws chunk processes r (replicate (suc d) alpha)
              (masked_steps coeffs q rho d 1 (get_or coeffs (suc d) 0)).0
              (masked_steps coeffs q rho d 1 (get_or coeffs (suc d) 0)).1 l (rw many count) p
              (length-replicate (suc d) alpha ∙ sym la) (la ∙ sym lb)
              (All-replicate _ (suc d) alpha k)
              (masked_steps-lt coeffs q rho d 1 _ laws.bound_pos h),
        )
        (finish-masked_steps coeffs alpha q rho d laws.bound_pos e')
