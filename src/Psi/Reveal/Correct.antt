-- ===== src/Psi/Reveal/Correct.antt =====
-- What both sides of two-way PSI output.
use rf_class_groups.Base.{
  ℕ, ◌+◌, ◌≤◌, ◌<◌, ◌≡◌, min, refl, sym, ap, ◌∙◌, true, false, le→ltb, List, [], ◌∷◌, ◌++◌, length,
  take, All, Cong, IsField, Mpz, IsMpz, ok, arith,
}
use rf_class_groups.Config.{Env, cg_max_items}
use rf_class_groups.Ole.{Draws}
use rf_class_groups.Poly.Values.{value}
use rf_class_groups.Poly.Remainder.{take-all}
use rf_class_groups.Evaluation.Policy.{CanEvaluate}
use rf_class_groups.Interpolation.{psi_lagrange_to_coeff_threshold}
use rf_class_groups.Opa.{OleBatch}
use rf_class_groups.Opa.Correct.{IsOleBatch}
use rf_class_groups.Psi.Membership.{is_member, select}
use rf_class_groups.Ntt.{ntt128_prime, ntt_runtime_enabled}
use rf_class_groups.Psi.Protocol.Points.{points_for}
use rf_class_groups.Psi.Protocol.{random_poly}
use rf_class_groups.Psi.Protocol.Correct.{IsInput, psi-intersection}
use rf_class_groups.Psi.Reveal.{reveal_slots, reveal_send, keep_own, reveal_receive, psi2}
use rf_class_groups.Psi.Reveal.Filter.{
  AreDifferent, IsDistinct-AreDifferent, select-AreDifferent, select-All, length-select,
  length-members, length-reveal_slots, keep_own-reveal_slots, keep_own-false_zero,
}

-- The elements of the second set that are in the first.
abbrev pub intersection : List ℕ → List ℕ → List ℕ
intersection A B = select (λ b. is_member b A) B

-- An intersection fits into the slots.
pub length-intersection :
    (A B : List ℕ) → AreDifferent B → length (intersection A B) ≤ min (length A) (length B)
length-intersection A B d = omega (
  arith,
  length-select (λ b. is_member b A) B,
  length-members (intersection A B) A (select-AreDifferent (λ b. is_member b A) B d)
      (select-All (λ b. is_member b A) B),
)

module _ (n : ℕ) (A xs : List ℕ) (fits : length xs ≤ n) where
  -- What fits into the slots is sent.
  pub reveal_send-slots : reveal_send n xs ≡ ok (reveal_slots n xs)
  unfolding reveal_send
  reveal_send-slots = rw (le→ltb n (length xs) fits) refl

  -- All slots are read and filtered.
  pub reveal_receive-slots :
      reveal_receive n A (reveal_slots n xs) ≡ ok (keep_own A [] (reveal_slots n xs))
  unfolding reveal_receive
  reveal_receive-slots =
      let size = length-reveal_slots n xs in
      let whole : take n (reveal_slots n xs) ≡ reveal_slots n xs =
        ap (λ (m : ℕ). take m (reveal_slots n xs)) (sym size) ∙ take-all (reveal_slots n xs) in
      rw (size, le→ltb n n (omega arith), whole) refl

module _ (mpz : Mpz) (laws : IsMpz mpz ntt128_prime) (ole_batch : OleBatch) (q : ℕ)
    (env_r env_s : Env) (limit_r limit_s threshold : ℕ) (A B : List ℕ) (mask mask' : Draws)
    (field : IsField mpz.mod_inverse q) (can_r : CanEvaluate env_r) (can_s : CanEvaluate env_s)
    (items_r : cg_max_items env_r ≡ ok limit_r) (items_s : cg_max_items env_s ≡ ok limit_s)
    (e : psi_lagrange_to_coeff_threshold env_r ≡ ok threshold) (accepted_A : IsInput limit_s q A)
    (accepted_B : IsInput limit_r q B) (N : ℕ) (batch : IsOleBatch ole_batch q N)
    (count : points_for env_r q (length A + length B + 1) ≡ ok N)
    (alike : ntt_runtime_enabled env_r ≡ ntt_runtime_enabled env_s) (bound_s : N ≤ limit_s)
    (bound_r : N ≤ limit_r) (points : N < q) where
  two_way :
      All (λ b. is_member b A ≡ false → ¬ Cong q (value (random_poly (length B) mask') b) 0) B
      → psi2 mpz ole_batch env_r env_s A B (length A) (length B) mask mask' q
        ≡ ok (
          intersection A B,
          keep_own A [] (reveal_slots (min (length A) (length B)) (intersection A B)),
        )
  unfolding psi2
  two_way h =
      let n = min (length A) (length B) in
      let fits = length-intersection A B (IsDistinct-AreDifferent B accepted_B.3) in
      rw
        (
          psi-intersection mpz laws ole_batch q env_r env_s limit_r limit_s threshold A B mask mask'
              field can_r can_s items_r items_s e accepted_A accepted_B N batch count alike bound_s
              bound_r points h,
          reveal_send-slots n A (intersection A B) fits,
          reveal_receive-slots n A (intersection A B) fits,
        )
        refl

  -- Under the conditions of PSI, where the mask r'_A has no root among the receiver's elements that are
  -- not in the sender's set and 0 is not in the sender's set, two-way PSI ends without a failure: the
  -- intersection fits into the slots, and both sides output it, in the order of the receiver's set.
  pub psi2-intersection :
      All (λ b. is_member b A ≡ false → ¬ Cong q (value (random_poly (length B) mask') b) 0) B
      → is_member 0 A ≡ false
      → psi2 mpz ole_batch env_r env_s A B (length A) (length B) mask mask' q
        ≡ ok (intersection A B, intersection A B)
  psi2-intersection h z =
      let d = IsDistinct-AreDifferent B accepted_B.3 in
      two_way h
      ∙ ap (λ (own : List ℕ). ok (intersection A B, own))
          (keep_own-reveal_slots A (intersection A B) (min (length A) (length B))
            (select-AreDifferent (λ b. is_member b A) B d) (select-All (λ b. is_member b A) B)
            (length-intersection A B d) z)

  -- Under the same conditions, but with 0 in the sender's set, not in the intersection and with fewer
  -- elements in the intersection than slots, the sender outputs a 0 behind the intersection.
  pub psi2-false_zero :
      All (λ b. is_member b A ≡ false → ¬ Cong q (value (random_poly (length B) mask') b) 0) B
      → is_member 0 A ≡ true
      → is_member 0 (intersection A B) ≡ false
      → length (intersection A B) < min (length A) (length B)
      → psi2 mpz ole_batch env_r env_s A B (length A) (length B) mask mask' q
        ≡ ok (intersection A B, intersection A B ++ (0 ∷ []))
  psi2-false_zero h z k l =
      let d = IsDistinct-AreDifferent B accepted_B.3 in
      two_way h
      ∙ ap (λ (own : List ℕ). ok (intersection A B, own))
          (keep_own-false_zero A (intersection A B) (min (length A) (length B))
            (select-AreDifferent (λ b. is_member b A) B d) (select-All (λ b. is_member b A) B) l z
            k)
