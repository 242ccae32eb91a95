-- ===== src/Examples/Sets.antt =====
-- Interpolation and OPA at concrete inputs: plaintexts below 7, an environment in
-- which no variable is set.
use rf_class_groups.Base.{
  ℕ, zero, suc, ◌+◌, ◌*◌, ◌%◌, ◌≤◌, ◌<◌, ◌≡◌, refl, sym, ◌∙◌, false, none, List, [], ◌∷◌, map, Cong,
  Cong-mod, Cong-mul_right, get_or, IsField, ok, arith, true, length,
}
use native.Mathlib.Nat.{mod-lt}
use rf_class_groups.Config.{Env, size_or, cg_max_items, check_limit}
use rf_class_groups.Config.Limits.{AcceptsCount}
use rf_class_groups.Ole.{Processes}
use rf_class_groups.Ole.Counts.{AcceptCount}
use rf_class_groups.Multiplication.{ntt_poly_threshold}
use rf_class_groups.Scheme.Model.{small, small-IsClassGroups}
use rf_class_groups.Poly.{Poly}
use rf_class_groups.Poly.Values.{values_at, value}
use rf_class_groups.Evaluation.{
  EvalMethod, poly_eval_auto_horner_max_points, selected_method, poly_eval_method_env,
  poly_eval_batch_auto,
}
use rf_class_groups.Evaluation.Policy.{CanEvaluate, poly_eval_batch_auto-values}
use rf_class_groups.Lagrange.{public_eval_points, lagrange_eval_batch}
use rf_class_groups.Lagrange.Interpolation.{lagrange_eval_batch-values}
use rf_class_groups.Interpolation.{
  lagrange_interpolate_public_points, psi_lagrange_to_coeff_threshold, lagrange_eval_batch_auto,
}
use rf_class_groups.Interpolation.Coefficients.{lagrange_interpolate_public_points-value}
use rf_class_groups.Interpolation.Policy.{lagrange_eval_batch_auto-values}
use rf_class_groups.Ntt.{ntt128_prime, is_ntt128_prime, ntt_domain_supported, ntt_runtime_enabled}
use rf_class_groups.Public.{public_eval_points_cached}
use rf_class_groups.Examples.Transforms.{
  searching, searching-IsMpz, search_inverse-found, switched_on,
}
use rf_class_groups.Opa.{OleBatch, opa, direct_batch}
use rf_class_groups.Opa.Correct.{IsOleBatch, direct_batch-IsOleBatch, opa_value, opa-values}

abbrev inverses : List ℕ
inverses = 0 ∷ 1 ∷ 4 ∷ 5 ∷ 2 ∷ 3 ∷ 6 ∷ []

residue-inverse :
    (r : ℕ) → r < 7 → ¬ (r ≡ 0) → (get_or inverses r 0 < 7) × (r * get_or inverses r 0 % 7 ≡ 1)
residue-inverse zero h k = absurd (k refl)
residue-inverse (suc zero) h k = (omega arith, refl)
residue-inverse (suc (suc zero)) h k = (omega arith, refl)
residue-inverse (suc (suc (suc zero))) h k = (omega arith, refl)
residue-inverse (suc (suc (suc (suc zero)))) h k = (omega arith, refl)
residue-inverse (suc (suc (suc (suc (suc zero))))) h k = (omega arith, refl)
residue-inverse (suc (suc (suc (suc (suc (suc zero)))))) h k = (omega arith, refl)
residue-inverse (suc (suc (suc (suc (suc (suc (suc r))))))) h k = absurd (omega arith)

pub seven-IsField : IsField searching.mod_inverse 7
seven-IsField = (
  omega arith,
  λ a h.
      let (small, product) = residue-inverse (a % 7) (mod-lt a (omega arith)) h in
      search_inverse-found 7 a 7 (get_or inverses (a % 7) 0) small
        (sym (Cong-mul_right 7 (a % 7) a (get_or inverses (a % 7) 0) (Cong-mod 7 a)) ∙ product),
)

abbrev pub empty_environment : Env
empty_environment name = none

pub default_items : cg_max_items empty_environment ≡ ok 1048576
unfolding cg_max_items check_limit
default_items = refl

-- Four processes in which no variable is set: the item limit of each is 2^20.
abbrev pub unset : Processes
unset = record {
  receiver = empty_environment;
  rrf = empty_environment;
  srf = empty_environment;
  sender = empty_environment;
}

pub few-AcceptsCount : (n : ℕ) → 1 ≤ n → n ≤ 1048576 → AcceptsCount empty_environment n
few-AcceptsCount n h k = (1048576, default_items, h, k)

pub few-AcceptCount : (n : ℕ) → 1 ≤ n → n ≤ 1048576 → AcceptCount unset n
few-AcceptCount n h k =
    let accepted = few-AcceptsCount n h k in (accepted, accepted, accepted, accepted)

pub default_product : ntt_poly_threshold empty_environment ≡ ok 512
default_product = unfold ntt_poly_threshold in unfold size_or in refl

pub default-CanEvaluate : CanEvaluate empty_environment
default-CanEvaluate = (automatic, (65536, default_limit), (512, default_product))
  where
    automatic : ¬ (poly_eval_method_env empty_environment ≡ EvalMethod.ntt)
    automatic h = unfold poly_eval_method_env in unfold selected_method in cc

    default_limit : poly_eval_auto_horner_max_points empty_environment ≡ ok 65536
    default_limit = unfold poly_eval_auto_horner_max_points in unfold size_or in refl

pub default_threshold : psi_lagrange_to_coeff_threshold empty_environment ≡ ok 4096
unfolding psi_lagrange_to_coeff_threshold size_or
default_threshold = refl

pub batch : OleBatch
batch = direct_batch (small false) 2 empty_environment empty_environment 4 (λ i. i + 2) (λ i. i + 3)

pub batch-IsOleBatch : (n : ℕ) → 1 ≤ n → n ≤ 1048576 → IsOleBatch batch 7 n
unfolding batch
batch-IsOleBatch n h k =
    direct_batch-IsOleBatch (small false) (small-IsClassGroups false) 2 empty_environment
      empty_environment 4 (λ i. i + 2) (λ i. i + 3) n (omega arith) (few-AcceptsCount n h k)
      (few-AcceptsCount n h k)

-- x^2 + 4 x + 2.
abbrev square : Poly
square = 2 ∷ 4 ∷ 1 ∷ []

abbrev line : Poly
line = 6 ∷ 5 ∷ []

-- 7 is another modulus than that of the transform.
pub outside_domain : (n : ℕ) → ntt_domain_supported empty_environment 7 n ≡ false
unfolding ntt_domain_supported
outside_domain n = rw (on, other) refl
  where
    on : ntt_runtime_enabled empty_environment ≡ true
    on = switched_on

    other : is_ntt128_prime 7 ≡ false
    other = unfold is_ntt128_prime in unfold ntt128_prime in refl

four_points : public_eval_points_cached searching empty_environment 4 7 ≡ ok (public_eval_points 4)
unfolding public_eval_points_cached
four_points = rw (outside_domain 4) refl

poly_eval_batch_auto-values_example :
    poly_eval_batch_auto searching empty_environment square (3 ∷ 0 ∷ 5 ∷ []) 7 ≡ ok (2 ∷ 2 ∷ 5 ∷ [])
poly_eval_batch_auto-values_example =
    poly_eval_batch_auto-values searching searching-IsMpz empty_environment square (3 ∷ 0 ∷ 5 ∷ [])
      7 (omega arith) default-CanEvaluate (omega arith, omega arith)

-- The values 0, 0, 2, 6 of the polynomial at 1, 2, 3, 4.
lagrange_eval_batch-values_example :
    lagrange_eval_batch searching.mod_inverse
      (map (λ a. value square a % 7) (public_eval_points 4))
      (0 ∷ 6 ∷ [])
      7
    ≡ ok (2 ∷ 6 ∷ [])
lagrange_eval_batch-values_example =
    lagrange_eval_batch-values searching.mod_inverse 7 seven-IsField square 4 (0 ∷ 6 ∷ [])
      (omega arith) (omega arith) (omega arith)

lagrange_interpolate_public_points-value_example :
    (c : Poly) × (lagrange_interpolate_public_points searching empty_environment
        (values_at square (public_eval_points 4) 7)
        7
      ≡ ok c)
    × (length c ≤ 5)
    × ((x : ℕ) → Cong 7 (value c x) (value square x))
lagrange_interpolate_public_points-value_example =
    lagrange_interpolate_public_points-value searching searching-IsMpz empty_environment 512 7 4
      (public_eval_points 4) square default_product seven-IsField (omega arith) (omega arith)
      (omega arith) four_points (omega arith)

lagrange_eval_batch_auto-values_example :
    lagrange_eval_batch_auto searching empty_environment
      (values_at square (public_eval_points 4) 7)
      (0 ∷ 6 ∷ [])
      7
    ≡ ok (2 ∷ 6 ∷ [])
lagrange_eval_batch_auto-values_example =
    lagrange_eval_batch_auto-values searching searching-IsMpz 7 seven-IsField square
      empty_environment 4096 4 (public_eval_points 4) (0 ∷ 6 ∷ []) four_points default-CanEvaluate
      default_threshold (omega arith) (omega arith) (omega arith) (omega arith)

opa-values_example :
    (alpha : List ℕ) × (public_eval_points_cached searching empty_environment 3 7 ≡ ok alpha)
    × (length alpha ≡ 3)
    × (opa searching batch empty_environment empty_environment 3 3 line square line 7
        ≡ ok (record {
          alpha = alpha;
          input_evals = values_at line alpha 7;
          y_vals = map (λ p. opa_value line square line p % 7) alpha;
          q = 7;
        }))
opa-values_example =
    opa-values searching searching-IsMpz batch 7 (omega arith) 3
      (batch-IsOleBatch 3 (omega arith) (omega arith)) empty_environment empty_environment line
      square line default-CanEvaluate default-CanEvaluate refl (omega arith) (omega arith)
      (omega arith, omega arith, omega arith)
