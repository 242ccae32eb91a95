-- ===== src/Examples/Intersections.antt =====
-- The PSI protocols at concrete inputs, over what Examples.Sets has.
use rf_class_groups.Base.{
  ℕ, ◌<◌, ◌≡◌, refl, ap, false, true, List, [], ◌∷◌, ◌++◌, length, All, Cong, magnitude, ok, ◌>>=◌,
  ◌>>◌, ◌≤◌, arith,
}
use rf_class_groups.Scheme.Model.{small, small-IsClassGroups}
use rf_class_groups.Ole.{Draws, Randomness, validate_counts}
use rf_class_groups.Opa.Correct.{IsOleBatch}
use rf_class_groups.Poly.Values.{value}
use rf_class_groups.Psi.Membership.{is_member, select}
use rf_class_groups.Psi.Protocol.{random_from, random_poly, psi, direct_psi, rf_psi}
use rf_class_groups.Psi.Protocol.Correct.{IsInput, is_output, psi-output, psi-intersection}
use rf_class_groups.Psi.Protocol.Firewalled.{psi-firewalled}
use rf_class_groups.Psi.Reveal.{psi2, reveal_send, reveal_receive}
use rf_class_groups.Psi.Reveal.Encrypted.{RevealRandomness, rf_reveal, rf_psi2}
use rf_class_groups.Psi.Reveal.Encrypted.Sanitized.{rf_reveal-clear}
use rf_class_groups.Psi.Reveal.Encrypted.Intersection.{rf_psi2-intersection}
use rf_class_groups.Psi.Reveal.Correct.{intersection, psi2-intersection, psi2-false_zero}
use rf_class_groups.Ntt.{is_ntt128_prime, ntt128_prime, ntt_runtime_enabled, is_zero_text}
use rf_class_groups.Psi.Protocol.{selects_domain}
use rf_class_groups.Psi.Protocol.Points.{points_for}
use rf_class_groups.Examples.Transforms.{searching, searching-IsMpz}
use rf_class_groups.Examples.Sets.{
  seven-IsField, empty_environment, batch, batch-IsOleBatch, default-CanEvaluate, default_items,
  default_threshold, unset, few-AcceptCount,
}

abbrev set_A : List ℕ
set_A = 3 ∷ 5 ∷ []

abbrev set_B : List ℕ
set_B = 5 ∷ 6 ∷ []

abbrev with_zero : List ℕ
with_zero = 0 ∷ 5 ∷ []

-- The coefficients of both masks; 5 + 5 x + 5 x^2 has no root in `set_B`.
abbrev fives : Draws
fives i = 5

accepted : (a b : ℕ) → a < 7 → b < 7 → ¬ (a ≡ b) → IsInput 1048576 7 (a ∷ b ∷ [])
accepted a b h k d =
    (omega arith, omega arith, (h, (k, tt)), ((λ e. d (ap magnitude e), tt), (tt, tt)))

five_points : points_for empty_environment 7 5 ≡ ok 5
unfolding selects_domain is_ntt128_prime ntt128_prime ntt_runtime_enabled is_zero_text
five_points = refl

five_batch : IsOleBatch batch 7 5
five_batch = batch-IsOleBatch 5 (omega arith) (omega arith)

psi-output_example :
    psi searching batch empty_environment empty_environment set_A set_B 2 2 fives fives 7
    ≡ ok (select (is_output 7 set_A (random_poly 2 fives)) set_B)
psi-output_example =
    psi-output searching searching-IsMpz batch 7 empty_environment empty_environment 1048576 1048576
      4096 set_A set_B fives fives seven-IsField default-CanEvaluate default-CanEvaluate
      default_items default_items default_threshold
      (accepted 3 5 (omega arith) (omega arith) (λ e. omega (arith, e)))
      (accepted 5 6 (omega arith) (omega arith) (λ e. omega (arith, e))) 5 five_batch five_points
      refl (omega arith) (omega arith) (omega arith)

no_root : All (λ b. is_member b set_A ≡ false → ¬ Cong 7 (value (random_poly 2 fives) b) 0) set_B
unfolding random_poly random_from
no_root = (λ e z. omega (arith, z), (λ e z. omega (arith, z), tt))

psi-intersection_example :
    psi searching batch empty_environment empty_environment set_A set_B 2 2 fives fives 7
    ≡ ok (select (λ b. is_member b set_A) set_B)
psi-intersection_example =
    psi-intersection searching searching-IsMpz batch 7 empty_environment empty_environment 1048576
      1048576 4096 set_A set_B fives fives seven-IsField default-CanEvaluate default-CanEvaluate
      default_items default_items default_threshold
      (accepted 3 5 (omega arith) (omega arith) (λ e. omega (arith, e)))
      (accepted 5 6 (omega arith) (omega arith) (λ e. omega (arith, e))) 5 five_batch five_points
      refl (omega arith) (omega arith) (omega arith) no_root

no_zero : is_member 0 set_A ≡ false
unfolding is_member
no_zero = refl

psi2-intersection_example :
    psi2 searching batch empty_environment empty_environment set_A set_B 2 2 fives fives 7
    ≡ ok (intersection set_A set_B, intersection set_A set_B)
psi2-intersection_example =
    psi2-intersection searching searching-IsMpz batch 7 empty_environment empty_environment 1048576
      1048576 4096 set_A set_B fives fives seven-IsField default-CanEvaluate default-CanEvaluate
      default_items default_items default_threshold
      (accepted 3 5 (omega arith) (omega arith) (λ e. omega (arith, e)))
      (accepted 5 6 (omega arith) (omega arith) (λ e. omega (arith, e))) 5 five_batch five_points
      refl (omega arith) (omega arith) (omega arith) no_root no_zero

no_root_zero :
    All (λ b. is_member b with_zero ≡ false → ¬ Cong 7 (value (random_poly 2 fives) b) 0) set_B
unfolding random_poly random_from
no_root_zero = (λ e z. omega (arith, z), (λ e z. omega (arith, z), tt))

has_zero : is_member 0 with_zero ≡ true
unfolding is_member
has_zero = refl

zero_outside : is_member 0 (intersection with_zero set_B) ≡ false
unfolding is_member select
zero_outside = refl

one_common : length (intersection with_zero set_B) < 2
unfolding is_member select
one_common = omega arith

psi2-false_zero_example :
    psi2 searching batch empty_environment empty_environment with_zero set_B 2 2 fives fives 7
    ≡ ok (intersection with_zero set_B, intersection with_zero set_B ++ (0 ∷ []))
psi2-false_zero_example =
    psi2-false_zero searching searching-IsMpz batch 7 empty_environment empty_environment 1048576
      1048576 4096 with_zero set_B fives fives seven-IsField default-CanEvaluate default-CanEvaluate
      default_items default_items default_threshold
      (accepted 0 5 (omega arith) (omega arith) (λ e. omega (arith, e)))
      (accepted 5 6 (omega arith) (omega arith) (λ e. omega (arith, e))) 5 five_batch five_points
      refl (omega arith) (omega arith) (omega arith) no_root_zero has_zero zero_outside one_common

abbrev run : Randomness
run = record {
  sk = 4;
  gamma = 3;
  rho = 6;
  receiver = fives;
  sender = fives;
  rrf_1 = fives;
  rrf_2 = fives;
  srf_1 = fives;
  srf_2 = fives;
}

psi-firewalled_example :
    rf_psi searching (small false) 2 unset run set_A set_B 2 2 fives fives
    ≡ direct_psi searching
        (small false)
        3
        4
        fives
        fives
        empty_environment
        empty_environment
        set_A
        set_B
        2
        2
        fives
        fives
psi-firewalled_example =
    psi-firewalled searching searching-IsMpz (small false) (small-IsClassGroups false) unset 1048576
      1048576 4096 set_A set_B fives fives seven-IsField default-CanEvaluate default-CanEvaluate
      default_items default_items default_threshold
      (accepted 3 5 (omega arith) (omega arith) (λ e. omega (arith, e)))
      (accepted 5 6 (omega arith) (omega arith) (λ e. omega (arith, e))) 5 five_points refl
      (omega arith) (omega arith) (few-AcceptCount 5 (omega arith) (omega arith)) (omega arith) 2 3
      4 run fives fives (omega arith) (omega arith) refl

abbrev reveal_run : RevealRandomness
reveal_run = record { sk = 2; srf_rho = 5; rrf_rho = 1; receiver = fives; rrf = fives; srf = fives }

-- Three slots, one of them used.
rf_reveal-clear_example : rf_reveal (small false) 2 1 unset reveal_run set_A 3 (5 ∷ []) ≡ (
    validate_counts unset 3 >> (reveal_send 3 (5 ∷ []) >>= λ slots. reveal_receive 3 set_A slots))
rf_reveal-clear_example =
    rf_reveal-clear (small false) (small-IsClassGroups false) 2 1 unset reveal_run 1048576 1048576
      set_A 3 (5 ∷ []) (omega arith) (omega arith) refl default_items default_items
      (accepted 3 5 (omega arith) (omega arith) (λ e. omega (arith, e)))
      (omega arith, omega arith, (omega arith, tt), (tt, tt))

all_common : length (intersection set_A set_B) ≤ 3
unfolding is_member select
all_common = omega arith

rf_psi2-intersection_example :
    rf_psi2 (small false) searching 2 unset run reveal_run set_A set_B 3 fives fives
    ≡ ok (intersection set_A set_B, intersection set_A set_B)
rf_psi2-intersection_example =
    rf_psi2-intersection searching searching-IsMpz (small false) (small-IsClassGroups false) unset
      1048576 1048576 4096 set_A set_B fives fives seven-IsField default-CanEvaluate
      default-CanEvaluate default_items default_items default_threshold
      (accepted 3 5 (omega arith) (omega arith) (λ e. omega (arith, e)))
      (accepted 5 6 (omega arith) (omega arith) (λ e. omega (arith, e))) 5 five_points refl
      (omega arith) (omega arith) (few-AcceptCount 5 (omega arith) (omega arith)) (omega arith) 2 3
      run reveal_run (omega arith) refl no_root no_zero
      (few-AcceptCount 3 (omega arith) (omega arith)) all_common
