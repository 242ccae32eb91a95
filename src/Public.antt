-- ===== src/Public.antt =====
-- The public evaluation points of cg_rf_common.hpp: the points of the NTT domain where it is supported,
-- 1, 2, ..., N otherwise. Caches are left out.
pub mod Points
use rf_class_groups.Base.{
  ℕ, Bool, true, false, ◌==◌, if◌then◌else◌, List, [], ◌∷◌, length, Mpz, Result, ok, err, ◌>>=◌,
}
use rf_class_groups.Config.{Env}
use rf_class_groups.Lagrange.{public_eval_points}
use rf_class_groups.Ntt.{ntt_domain_supported, ntt_domain_points}

-- `points[i] != public_points[i]` for no index of `points`; the vectors have one length.
unfoldable pub same_entries : List ℕ → List ℕ → Bool
same_entries [] public_points = true
same_entries (p ∷ points) [] = false
same_entries (p ∷ points) (r ∷ public_points) =
    if p == r then same_entries points public_points else false

module _ (mpz : Mpz) (getenv : Env) where
  unfoldable pub public_eval_points_cached : ℕ → ℕ → Result (List ℕ)
  public_eval_points_cached n q =
      if ntt_domain_supported getenv q n
      then ntt_domain_points mpz getenv n q
      else ok (public_eval_points n)

  unfoldable pub is_public_eval_points : List ℕ → ℕ → Result Bool
  is_public_eval_points points q = do
    public_points ← public_eval_points_cached (length points) q
    ok (same_entries points public_points)

  -- A copy of the vector.
  unfoldable pub rf_opa_eval_points : ℕ → ℕ → Result (List ℕ)
  rf_opa_eval_points n_pts q = public_eval_points_cached n_pts q
