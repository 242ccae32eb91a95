-- ===== src/Multiplication.antt =====
-- The whole of `poly_mul_mod` of cg_rf_common.hpp: the transform from its threshold on where the domain
-- supports the size, Karatsuba's recursion above the cutoff, the quadratic loop below. NTL is not
-- compiled in. Poly.Karatsuba has the same recursion without the transform.
pub mod Reference
pub mod Trees
pub mod Unchanged
use rf_class_groups.Base.{
  ℕ, zero, suc, ◌+◌, ◌-◌, ◌*◌, Bool, max, leb, ltb, ◌&&◌, ◌||◌, if◌then◌else◌, List, [], ◌∷◌,
  length, Mpz, Result, ok, err, ◌>>=◌, out_of_fuel,
}
use rf_class_groups.Config.{Env, size_or}
use rf_class_groups.Poly.{Poly, poly_add_mod, poly_sub_mod, poly_mul_naive_mod}
use rf_class_groups.Poly.Karatsuba.{poly_slice, half_of, recombine, karatsuba_cutoff}
use rf_class_groups.Ntt.{next_power_of_two_size, ntt_domain_supported, poly_mul_ntt_mod}

unfoldable pub ntt_poly_threshold : Env → Result ℕ
ntt_poly_threshold getenv = size_or getenv (getenv "CG_NTT_POLY_THRESHOLD") 512

-- Karatsuba's step, where `multiply` is the call of itself, which may throw.
unfoldable pub split_step : (Poly → Poly → Result Poly) → Poly → Poly → ℕ → Result Poly
split_step multiply a b q = do
  let half = half_of a b
  z0 ← multiply (poly_slice a 0 half) (poly_slice b 0 half)
  z2 ← multiply (poly_slice a half (length a)) (poly_slice b half (length b))
  z1 ←
      multiply (poly_add_mod (poly_slice a 0 half) (poly_slice a half (length a)) q)
        (poly_add_mod (poly_slice b 0 half) (poly_slice b half (length b)) q)
  ok (recombine q (length a + length b - 1) half z0 (poly_sub_mod (poly_sub_mod z1 z0 q) z2 q) z2)

unfoldable pub is_below_cutoff : Poly → Poly → Bool
is_below_cutoff a b = ltb (length a) karatsuba_cutoff || ltb (length b) karatsuba_cutoff

module _ (mpz : Mpz) (getenv : Env) where
  -- Two factors that are not empty; `step` is what Karatsuba's step gives.
  unfoldable pub choose_product : Poly → Poly → ℕ → Result Poly → Result Poly
  choose_product a b q step = do
    ntt_n ← next_power_of_two_size (length a + length b - 1)
    threshold ← ntt_poly_threshold getenv
    (if leb threshold (max (length a) (length b)) && ntt_domain_supported getenv q ntt_n
        then poly_mul_ntt_mod mpz getenv a b q
        else if is_below_cutoff a b
        then ok (poly_mul_naive_mod a b q)
        else step)

  unfoldable pub choose_on_fuel : ℕ → Poly → Poly → ℕ → Result Poly
  choose_on_fuel zero a b q = err out_of_fuel
  choose_on_fuel (suc fuel) [] b q = ok (0 ∷ [])
  choose_on_fuel (suc fuel) (a ∷ as') [] q = ok (0 ∷ [])
  choose_on_fuel (suc fuel) (a ∷ as') (b ∷ bs) q =
      let step = split_step (λ s t. choose_on_fuel fuel s t q) (a ∷ as') (b ∷ bs) q in
      choose_product (a ∷ as') (b ∷ bs) q step

  -- `poly_mul_mod`; the halves are smaller than the larger factor, so its size is enough fuel.
  unfoldable pub poly_mul_mod_auto : Poly → Poly → ℕ → Result Poly
  poly_mul_mod_auto a b q = choose_on_fuel (suc (max (length a) (length b))) a b q
