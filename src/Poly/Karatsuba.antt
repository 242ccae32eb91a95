-- ===== src/Poly/Karatsuba.antt =====
-- `poly_mul_mod` of cg_rf_common.hpp without the branch that takes the transform (Multiplication has
-- it): Karatsuba's recursion above the cutoff. NTL is not compiled in.
pub mod Split
pub mod Recombine
pub mod Reference
use rf_class_groups.Base.{
  ℕ, zero, suc, ◌+◌, ◌*◌, ◌-◌, ◌/◌, ◌%◌, min, max, List, [], ◌∷◌, length, take, drop, replicate,
  ltb, leb, ◌||◌, if◌then◌else◌,
}
use rf_class_groups.Poly.{Poly, poly_trim, poly_add_mod, poly_sub_mod, poly_mul_naive_mod}

abbrev pub karatsuba_cutoff : ℕ
karatsuba_cutoff = 32

pub slice_between : Poly → ℕ → ℕ → Poly
slice_between p begin end = if leb end begin then (0 ∷ []) else take (end - begin) (drop begin p)

pub poly_slice : Poly → ℕ → ℕ → Poly
poly_slice p begin end = slice_between p (min begin (length p)) (min end (length p))

-- `out[i + offset] += z[i]` with its reduction, up to the size of `out`.
pub add_range : ℕ → Poly → Poly → Poly
add_range q [] out = out
add_range q (z ∷ zs) [] = []
add_range q (z ∷ zs) (o ∷ os) = ((o + z) % q) ∷ add_range q zs os

pub add_at : ℕ → ℕ → Poly → Poly → Poly
add_at zero q z out = add_range q z out
add_at (suc offset) q z [] = []
add_at (suc offset) q z (o ∷ os) = o ∷ add_at offset q z os

-- The last part: the three products into their places.
pub recombine : ℕ → ℕ → ℕ → Poly → Poly → Poly → Poly
recombine q size half z0 z1 z2 =
    let out₀ = add_at 0 q z0 (replicate size 0) in
    let out₁ = add_at half q z1 out₀ in poly_trim (add_at (2 * half) q z2 out₁)

abbrev pub half_of : Poly → Poly → ℕ
half_of a b = (max (length a) (length b) + 1) / 2

-- One step of the recursion, where `multiply` is the call of itself.
unfoldable pub karatsuba_step : (Poly → Poly → Poly) → Poly → Poly → ℕ → Poly
karatsuba_step multiply a b q =
    let half = half_of a b in
    let a0 = poly_slice a 0 half in
    let a1 = poly_slice a half (length a) in
    let b0 = poly_slice b 0 half in
    let b1 = poly_slice b half (length b) in
    let z0 = multiply a0 b0 in
    let z2 = multiply a1 b1 in
    let z1 = multiply (poly_add_mod a0 a1 q) (poly_add_mod b0 b1 q) in
    let z1' = poly_sub_mod (poly_sub_mod z1 z0 q) z2 q in
    recombine q (length a + length b - 1) half z0 z1' z2

-- `poly_mul_mod` on fuel.
pub multiply_on_fuel : ℕ → Poly → Poly → ℕ → Poly
multiply_on_fuel zero a b q = []
multiply_on_fuel (suc fuel) [] b q = 0 ∷ []
multiply_on_fuel (suc fuel) (a ∷ as') [] q = 0 ∷ []
multiply_on_fuel (suc fuel) (a ∷ as') (b ∷ bs) q =
    let step = karatsuba_step (λ s t. multiply_on_fuel fuel s t q) (a ∷ as') (b ∷ bs) q in
    if ltb (length (a ∷ as')) karatsuba_cutoff || ltb (length (b ∷ bs)) karatsuba_cutoff
    then poly_mul_naive_mod (a ∷ as') (b ∷ bs) q
    else step

-- The halves are smaller than the larger factor, so its size is enough fuel.
pub poly_mul_mod : Poly → Poly → ℕ → Poly
poly_mul_mod a b q = multiply_on_fuel (suc (max (length a) (length b))) a b q
