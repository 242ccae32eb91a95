-- ===== src/Psi/Reveal/Encrypted/Intersection.antt =====
-- What both sides of two-way PSI through the reverse firewalls output.
use rf_class_groups.Base.{
  ℕ, ◌+◌, ◌≤◌, ◌<◌, ◌≡◌, ◌≢◌, refl, inl, inr, Bool, false, Bool-cases, List, [], ◌∷◌, map, length,
  All, Cong, IsField, Mpz, IsMpz, pos, ok, arith,
}
use rf_class_groups.Config.{cg_max_items}
use rf_class_groups.Scheme.{ClassGroups}
use rf_class_groups.Scheme.Laws.{IsClassGroups}
use rf_class_groups.Ole.{Draws, Processes, Randomness}
use rf_class_groups.Ole.Counts.{AcceptCount, validate_counts-AcceptCount}
use rf_class_groups.Poly.Values.{value}
use rf_class_groups.Evaluation.Policy.{CanEvaluate}
use rf_class_groups.Interpolation.{psi_lagrange_to_coeff_threshold}
use rf_class_groups.Opa.{firewalled_batch}
use rf_class_groups.Opa.Correct.{firewalled_batch-IsOleBatch}
use rf_class_groups.Psi.Membership.{is_member, select}
use rf_class_groups.Psi.Validation.{IsDistinct}
use rf_class_groups.Ntt.{ntt128_prime, ntt_runtime_enabled}
use rf_class_groups.Psi.Protocol.Points.{points_for}
use rf_class_groups.Psi.Protocol.{random_poly}
use rf_class_groups.Psi.Protocol.Correct.{IsInput, psi-intersection}
use rf_class_groups.Psi.Reveal.Filter.{
  IsDistinct-AreDifferent, select-AreDifferent, select-All, length-select, keep_own-reveal_slots,
}
use rf_class_groups.Psi.Reveal.Correct.{intersection, reveal_send-slots, reveal_receive-slots}
use rf_class_groups.Psi.Reveal.Encrypted.{RevealRandomness, rf_psi2}
use rf_class_groups.Psi.Reveal.Encrypted.Sanitized.{IsRevealed, rf_reveal-clear}

module _ (test : ℕ → Bool) where
  select-keeps : (P : ℕ → Type 0) (xs : List ℕ) → All P xs → All P (select test xs)
  unfolding select
  select-keeps P [] h = tt
  select-keeps P (x ∷ xs) (h, hs) = elim (Bool-cases (test x)) [
    | inl t ↦ rw t (h, select-keeps P xs hs)
    | inr t ↦ rw t (select-keeps P xs hs)
  ]

  select-apart :
      (x : ℕ) (xs : List ℕ)
      → All (λ y. pos x ≢ y) (map pos xs)
      → All (λ y. pos x ≢ y) (map pos (select test xs))
  unfolding select
  select-apart x [] h = tt
  select-apart x (y ∷ xs) (h, hs) = elim (Bool-cases (test y)) [
    | inl t ↦ rw t (h, select-apart x xs hs)
    | inr t ↦ rw t (select-apart x xs hs)
  ]

  select-IsDistinct :
      (xs : List ℕ) → IsDistinct (map pos xs) → IsDistinct (map pos (select test xs))
  unfolding select
  select-IsDistinct [] h = tt
  select-IsDistinct (x ∷ xs) (h, hs) = elim (Bool-cases (test x)) [
    | inl t ↦ rw t (select-apart x xs h, select-IsDistinct xs hs)
    | inr t ↦ rw t (select-IsDistinct xs hs)
  ]

  input :
      (limit q : ℕ) (xs : List ℕ)
      → length xs ≤ limit
      → All (λ x. x < q) xs
      → IsDistinct (map pos xs)
      → IsRevealed limit q xs
  input limit q [] l h k = tt
  input limit q (x ∷ xs) l h k = (omega arith, l, h, k)

  -- A part of an input set can be revealed.
  select-IsRevealed :
      (limit q : ℕ) (xs : List ℕ) → IsInput limit q xs → IsRevealed limit q (select test xs)
  select-IsRevealed limit q xs (_, l, h, k) =
      input limit q (select test xs) (omega (arith, length-select test xs))
        (select-keeps (λ x. x < q) xs h) (select-IsDistinct xs k)

module _ (mpz : Mpz) (numbers : IsMpz mpz ntt128_prime) (cs : ClassGroups) (laws : IsClassGroups cs)
    (p : Processes) (limit_r limit_s threshold : ℕ) (A B : List ℕ) (mask mask' : Draws)
    (field : IsField mpz.mod_inverse cs.cleartext_bound) (can_r : CanEvaluate p.receiver)
    (can_s : CanEvaluate p.sender) (items_r : cg_max_items p.receiver ≡ ok limit_r)
    (items_s : cg_max_items p.sender ≡ ok limit_s)
    (e : psi_lagrange_to_coeff_threshold p.receiver ≡ ok threshold)
    (accepted_A : IsInput limit_s cs.cleartext_bound A)
    (accepted_B : IsInput limit_r cs.cleartext_bound B) (N : ℕ)
    (count : points_for p.receiver cs.cleartext_bound (length A + length B + 1) ≡ ok N)
    (alike : ntt_runtime_enabled p.receiver ≡ ntt_runtime_enabled p.sender) (bound_s : N ≤ limit_s)
    (bound_r : N ≤ limit_r) (accepted_N : AcceptCount p N) (points : N < cs.cleartext_bound) where
  -- In the non-compact variant, under the conditions of PSI with the plaintext bound as the prime,
  -- where the mask r'_A has no root among the receiver's elements that are not in the sender's set,
  -- 0 is not in the sender's set, the number of points and the number of slots are within the item
  -- limits of all four processes and there is a slot for every element of the intersection, two-way
  -- PSI through the reverse firewalls ends without a failure, and both sides output the intersection,
  -- in the order of the receiver's set, whatever the keys, the key shifts and the randomness.
  pub rf_psi2-intersection :
      (chunk reveal_bound : ℕ) (r : Randomness) (r' : RevealRandomness)
      → 1 ≤ chunk
      → cs.compact ≡ false
      → All
          (λ b.
            is_member b A ≡ false
            → ¬ Cong cs.cleartext_bound (value (random_poly (length B) mask') b) 0)
          B
      → is_member 0 A ≡ false
      → AcceptCount p reveal_bound
      → length (intersection A B) ≤ reveal_bound
      → rf_psi2 cs mpz chunk p r r' A B reveal_bound mask mask'
        ≡ ok (intersection A B, intersection A B)
  unfolding rf_psi2
  rf_psi2-intersection chunk reveal_bound r r' l plain h z accepted fits =
      let common = λ (b : ℕ). is_member b A in
      let d = IsDistinct-AreDifferent B accepted_B.3 in
      rw
        (
          psi-intersection mpz numbers (firewalled_batch cs chunk p r) cs.cleartext_bound p.receiver
              p.sender limit_r limit_s threshold A B mask mask' field can_r can_s items_r items_s e
              accepted_A accepted_B N
              (firewalled_batch-IsOleBatch cs laws chunk p r N l accepted_N plain) count alike
              bound_s bound_r points h,
          rf_reveal-clear cs laws chunk chunk p r' limit_r limit_s A reveal_bound (intersection A B)
              l l plain items_r items_s accepted_A
              (select-IsRevealed common limit_r cs.cleartext_bound B accepted_B),
          validate_counts-AcceptCount p reveal_bound accepted,
          reveal_send-slots reveal_bound A (intersection A B) fits,
          reveal_receive-slots reveal_bound A (intersection A B) fits,
          keep_own-reveal_slots A (intersection A B) reveal_bound (select-AreDifferent common B d)
              (select-All common B) fits z,
        )
        refl
