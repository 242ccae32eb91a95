-- ===== src/Config/Limits.antt =====
-- The item-count limits of cg_config.hpp: what the checks let through.
use rf_class_groups.Base.{
  ℕ, ◌+◌, ◌≤◌, ◌<◌, ◌≡◌, ◌↔◌, Bool, false, Option, List, ok, arith, >>=-eq-ok,
}
use Prim.Native.String.{String}
use rf_class_groups.Config.{
  Env, cg_parse_u64, check_limit, cg_max_items, size_bound, cg_parse_size, cg_checked_add,
  cg_validate_count, cg_config_size, hard_limit, u64_bound,
}

check_limit_range : (m n : ℕ) → check_limit m ≡ ok n → (1 ≤ n) × (n ≤ hard_limit)
unfolding check_limit
check_limit_range m n h = ground arith

-- Whatever CG_MAX_ITEMS holds, a limit that is in force lies between 1 and 2^24.
pub cg_max_items_range :
    (getenv : Env) (n : ℕ) → cg_max_items getenv ≡ ok n → (1 ≤ n) × (n ≤ hard_limit)
unfolding cg_max_items
cg_max_items_range getenv n h =
    let (m, _, e) = >>=-eq-ok _ (λ limit. check_limit limit) h in check_limit_range m n e

-- With an item limit in force, `cg_checked_add` succeeds exactly when the sum is within the limit, and returns the sum.
pub cg_checked_add_iff :
    (getenv : Env) (limit a b c : ℕ)
    → cg_max_items getenv ≡ ok limit
    → (cg_checked_add getenv a b ≡ ok c) ↔ ((c ≡ a + b) × (a + b ≤ limit))
unfolding cg_checked_add
cg_checked_add_iff getenv limit a b c h = (λ k. ground arith, λ k. ground arith)

size_bound_given :
    (getenv : Env) (maximum : ℕ) → 0 < maximum → size_bound getenv maximum ≡ ok maximum
unfolding size_bound
size_bound_given getenv maximum h = ground arith

sized :
    (getenv : Env) (value : Option (List ℕ)) (allow_zero : Bool) (maximum bound n : ℕ)
    → size_bound getenv maximum ≡ ok bound
    → cg_parse_size getenv value allow_zero maximum ≡ ok n
    → (cg_parse_u64 value ≡ ok n) × (n ≤ bound) × (n < u64_bound) × (allow_zero ≡ false → 1 ≤ n)
unfolding cg_parse_size
sized getenv value allow_zero maximum bound n h = ground arith

-- With a bound in force, `cg_parse_size` returns `n` exactly where the text is read as `n`, `n` is
-- at most the bound and fits 64 bits, and `n` is positive unless zero is allowed.
pub cg_parse_size_iff :
    (getenv : Env) (value : Option (List ℕ)) (allow_zero : Bool) (maximum bound n : ℕ)
    → size_bound getenv maximum ≡ ok bound
    → (cg_parse_size getenv value allow_zero maximum ≡ ok n)
      ↔ ((cg_parse_u64 value ≡ ok n) × (n ≤ bound) × (n < u64_bound) × (allow_zero ≡ false → 1 ≤ n))
unfolding cg_parse_size
cg_parse_size_iff getenv value allow_zero maximum bound n h =
    (sized getenv value allow_zero maximum bound n h, λ k. ground arith)

pub cg_validate_count_iff :
    (getenv : Env) (limit n : ℕ)
    → cg_max_items getenv ≡ ok limit
    → (cg_validate_count getenv n false ≡ ok tt) ↔ ((1 ≤ n) × (n ≤ limit))
unfolding cg_validate_count
cg_validate_count_iff getenv limit n h = (λ k. ground arith, λ k. ground arith)

-- A number of items that a process accepts.
abbrev pub AcceptsCount : Env → ℕ → Type 0
AcceptsCount getenv n = (limit : ℕ) × (cg_max_items getenv ≡ ok limit) × (1 ≤ n) × (n ≤ limit)

pub accepted_count :
    (getenv : Env) (n : ℕ) → AcceptsCount getenv n → cg_validate_count getenv n false ≡ ok tt
accepted_count getenv n (limit, e, h, k) = (cg_validate_count_iff getenv limit n e).1 (h, k)

-- A setting that is in force lies within its bounds, if its fallback does.
pub cg_config_size_range :
    (getenv : Env) (name : String) (fallback maximum n : ℕ)
    → 1 ≤ fallback
    → fallback ≤ maximum
    → cg_config_size getenv name fallback maximum false ≡ ok n
    → (1 ≤ n) × (n ≤ maximum)
unfolding cg_config_size
cg_config_size_range getenv name fallback maximum n lo hi h =
    ground (arith, (cg_parse_size_iff getenv (getenv name) false maximum maximum n bounded).0)
  where
    bounded : size_bound getenv maximum ≡ ok maximum
    bounded = size_bound_given getenv maximum (omega arith)
