-- ===== src/Psi/Protocol/Firewalled.antt =====
-- PSI through the reverse firewalls: cg_rf_psi_sender.cpp and cg_rf_psi_receiver.cpp with the two firewalls.
use rf_class_groups.Base.{
  ℕ, ◌+◌, ◌≤◌, ◌<◌, ◌≡◌, sym, ◌∙◌, false, List, length, IsField, Mpz, IsMpz, ok,
}
use rf_class_groups.Config.{cg_max_items}
use rf_class_groups.Scheme.{ClassGroups}
use rf_class_groups.Scheme.Laws.{IsClassGroups}
use rf_class_groups.Ole.{Draws, Processes, Randomness}
use rf_class_groups.Ole.Counts.{AcceptCount}
use rf_class_groups.Evaluation.Policy.{CanEvaluate}
use rf_class_groups.Interpolation.{psi_lagrange_to_coeff_threshold}
use rf_class_groups.Opa.{direct_batch, firewalled_batch}
use rf_class_groups.Opa.Correct.{direct_batch-IsOleBatch, firewalled_batch-IsOleBatch}
use rf_class_groups.Ntt.{ntt128_prime, ntt_runtime_enabled}
use rf_class_groups.Psi.Protocol.Points.{points_for}
use rf_class_groups.Psi.Protocol.{direct_psi, rf_psi}
use rf_class_groups.Psi.Protocol.Correct.{IsInput, psi-output}

module _ (mpz : Mpz) (numbers : IsMpz mpz ntt128_prime) (cs : ClassGroups) (laws : IsClassGroups cs)
    (p : Processes) (limit_r limit_s threshold : ℕ) (A B : List ℕ) (mask mask' : Draws)
    (field : IsField mpz.mod_inverse cs.cleartext_bound) (can_r : CanEvaluate p.receiver)
    (can_s : CanEvaluate p.sender) (items_r : cg_max_items p.receiver ≡ ok limit_r)
    (items_s : cg_max_items p.sender ≡ ok limit_s)
    (e : psi_lagrange_to_coeff_threshold p.receiver ≡ ok threshold)
    (accepted_A : IsInput limit_s cs.cleartext_bound A)
    (accepted_B : IsInput limit_r cs.cleartext_bound B) (N : ℕ)
    (count : points_for p.receiver cs.cleartext_bound (length A + length B + 1) ≡ ok N)
    (alike : ntt_runtime_enabled p.receiver ≡ ntt_runtime_enabled p.sender) (bound_s : N ≤ limit_s)
    (bound_r : N ≤ limit_r) (accepted_N : AcceptCount p N) (points : N < cs.cleartext_bound) where
  -- The reverse firewalls do not change PSI: in the non-compact variant, under the conditions of PSI
  -- with the plaintext bound as the prime, and with the number of points within the item limits of all
  -- four processes, the run through them gives the receiver what the direct run
  -- gives it, whatever the keys and the randomness of either, for the same masks.
  pub psi-firewalled :
      (chunk chunk' sk : ℕ) (r : Randomness) (rx rb : Draws)
      → 1 ≤ chunk
      → 1 ≤ chunk'
      → cs.compact ≡ false
      → rf_psi mpz cs chunk p r A B (length A) (length B) mask mask'
        ≡ direct_psi mpz cs chunk' sk rx rb p.receiver p.sender A B (length A) (length B) mask mask'
  psi-firewalled chunk chunk' sk r rx rb l l' plain =
      psi-output mpz numbers (firewalled_batch cs chunk p r) cs.cleartext_bound p.receiver p.sender
        limit_r limit_s threshold A B mask mask' field can_r can_s items_r items_s e accepted_A
        accepted_B N (firewalled_batch-IsOleBatch cs laws chunk p r N l accepted_N plain) count
        alike bound_s bound_r points
      ∙ sym (
          psi-output mpz numbers (direct_batch cs chunk' p.receiver p.sender sk rx rb)
            cs.cleartext_bound p.receiver p.sender limit_r limit_s threshold A B mask mask' field
            can_r can_s items_r items_s e accepted_A accepted_B N
            (direct_batch-IsOleBatch cs laws chunk' p.receiver p.sender sk rx rb N l' accepted_N.0
              accepted_N.3)
            count alike bound_s bound_r points)
