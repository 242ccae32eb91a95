-- ===== src/Psi/Protocol/Points.antt =====
-- The number of points of a run.
use rf_class_groups.Base.{
  ℕ, ◌+◌, ◌≤◌, ◌≡◌, inl, inr, refl, Bool-cases, if◌then◌else◌, Result, ok, arith,
}
use rf_class_groups.Config.{Env, cg_max_items}
use rf_class_groups.Config.Limits.{cg_checked_add_iff, cg_validate_count_iff}
use rf_class_groups.Ntt.{ntt_runtime_enabled, next_power_of_two_size}
use rf_class_groups.Ntt.Domain.{next_power_of_two_size-bound}
use rf_class_groups.Psi.Protocol.{selects_domain, domain_count, psi_opa_point_count, psi_points}

-- A number of points for a bound: the bound itself, or the power of two that is taken for it.
abbrev pub points_for : Env → ℕ → ℕ → Result ℕ
points_for getenv q bound =
    if selects_domain getenv q then next_power_of_two_size bound else ok bound

pub points_for-bound : (getenv : Env) (q bound N : ℕ) → points_for getenv q bound ≡ ok N → bound ≤ N
points_for-bound getenv q bound N h = elim (Bool-cases (selects_domain getenv q)) [
  | inl on ↦ next_power_of_two_size-bound bound N (rw on at h)
  | inr off ↦ let same : bound ≡ N = returned (rw off at h) in omega arith
]
  where
    returned : ok bound ≡ ok N → bound ≡ N
    returned e = cc

-- Processes that agree on the switch of the transform take the same number.
pub points_for-agree :
    (getenv getenv' : Env) (q bound : ℕ)
    → ntt_runtime_enabled getenv ≡ ntt_runtime_enabled getenv'
    → points_for getenv q bound ≡ points_for getenv' q bound
unfolding selects_domain
points_for-agree getenv getenv' q bound alike = rw alike refl

-- Within the item limit, the number of points for both sets and one more is returned.
pub psi_points-points_for :
    (getenv : Env) (limit m n q N : ℕ)
    → cg_max_items getenv ≡ ok limit
    → points_for getenv q (m + n + 1) ≡ ok N
    → N ≤ limit
    → psi_points getenv m n q ≡ ok N
unfolding psi_points psi_opa_point_count domain_count
psi_points-points_for getenv limit m n q N e c l =
    let large = points_for-bound getenv q (m + n + 1) N c in
    let few = (cg_checked_add_iff getenv limit m n (m + n) e).1 (refl, omega arith) in
    let sum = (cg_checked_add_iff getenv limit (m + n) 1 (m + n + 1) e).1 (refl, omega arith) in
    let bound = (cg_validate_count_iff getenv limit (m + n + 1) e).1 (omega arith, omega arith) in
    let count = (cg_validate_count_iff getenv limit N e).1 (omega arith, l) in
    elim (Bool-cases (selects_domain getenv q)) [
      | inl on ↦
          let size : next_power_of_two_size (m + n + 1) ≡ ok N = rw on at c in
          rw (few, sum, bound, on, size, count) refl
      | inr off ↦ rw (few, sum, bound, off) (rw off at c)
    ]
