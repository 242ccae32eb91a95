-- ===== src/Poly.antt =====
-- Polynomials over Z_q of cg_rf_common.hpp: a vector holds the coefficients, the constant one first,
-- with values at least 0.
pub mod Values
pub mod Sizes
pub mod Product
pub mod Division
pub mod Remainder
pub mod Roots
pub mod Horner
pub mod Identity
pub mod Functions
pub mod Series
pub mod Coefficients
pub mod Karatsuba
pub mod Leading
pub mod Degree
pub mod Tree
use rf_class_groups.Base.{
  ℕ, zero, suc, ◌+◌, ◌*◌, ◌-◌, ◌%◌, List, [], ◌∷◌, ◌++◌, map, length, take, drop, get_or, replicate,
  ltb, ◌==◌, if◌then◌else◌, sub_mod, Result, ok, err, ◌>>=◌, empty_divisor,
}

abbrev pub Poly : Type 0
Poly = List ℕ

-- A coefficient below what is left of the ones above it.
abbrev pub put_below : ℕ → Poly → Poly
put_below c [] = if c == 0 then [] else (c ∷ [])
put_below c (d ∷ ds) = c ∷ d ∷ ds

-- What is left above the constant coefficient when the zeros at the back are popped.
pub trim_tail : Poly → Poly
trim_tail [] = []
trim_tail (c ∷ cs) = put_below c (trim_tail cs)

-- `while (p.size() > 1 && p.back() == 0) p.pop_back();`
unfoldable pub poly_trim : Poly → Poly
poly_trim [] = []
poly_trim (c ∷ cs) = c ∷ trim_tail cs

unfoldable pub reduce_each : ℕ → Poly → Poly
reduce_each q p = map (λ c. c % q) p

pub poly_mod_q : Poly → ℕ → Poly
poly_mod_q p q = poly_trim (reduce_each q p)

-- One coefficient for each index below the larger size.
pub add_each : ℕ → Poly → Poly → Poly
add_each q [] bs = reduce_each q bs
add_each q (a ∷ as') [] = reduce_each q (a ∷ as')
add_each q (a ∷ as') (b ∷ bs) = ((a + b) % q) ∷ add_each q as' bs

pub poly_add_mod : Poly → Poly → ℕ → Poly
poly_add_mod a b q = poly_trim (add_each q a b)

pub sub_each : ℕ → Poly → Poly → Poly
sub_each q [] [] = []
sub_each q [] (b ∷ bs) = sub_mod 0 b q ∷ sub_each q [] bs
sub_each q (a ∷ as') [] = reduce_each q (a ∷ as')
sub_each q (a ∷ as') (b ∷ bs) = sub_mod a b q ∷ sub_each q as' bs

pub poly_sub_mod : Poly → Poly → ℕ → Poly
poly_sub_mod a b q = poly_trim (sub_each q a b)

-- The inner loop for one `i`: `out[i + j] += a[i] * b[j]`, with `out` from index `i` on.
pub add_row : ℕ → Poly → Poly → Poly
add_row a [] out = out
add_row a (b ∷ bs) [] = []
add_row a (b ∷ bs) (o ∷ os) = (o + a * b) ∷ add_row a bs os

-- The outer loop; the entry below index `i` is finished.
pub mul_rows : Poly → Poly → Poly → Poly
mul_rows [] b out = out
mul_rows (a ∷ as') b out = let row = add_row a b out in take 1 row ++ mul_rows as' b (drop 1 row)

unfoldable pub poly_mul_naive_mod : Poly → Poly → ℕ → Poly
poly_mul_naive_mod [] b q = 0 ∷ []
poly_mul_naive_mod (a ∷ as') [] q = 0 ∷ []
poly_mul_naive_mod (a ∷ as') (b ∷ bs) q = poly_trim (
    reduce_each q
      (mul_rows (a ∷ as') (b ∷ bs) (replicate (length (a ∷ as') + length (b ∷ bs) - 1) 0)))

-- X - root: the coefficients [-root, 1].
pub poly_linear_from_root : ℕ → ℕ → Poly
poly_linear_from_root root q =
    let x_mod = root % q in (if x_mod == 0 then 0 else (q - x_mod)) ∷ 1 ∷ []

-- `levels.back().front()`.
unfoldable pub front : List Poly → Poly
front [] = []
front (p ∷ ps) = p

unfoldable pub top_of : List (List Poly) → Poly
top_of [] = []
top_of (level ∷ []) = front level
top_of (level ∷ level' ∷ levels) = top_of (level' ∷ levels)

-- `rem[dst] -= coeff * divisor[j]` for every `j < d`, from index `n` on.
pub sub_row : ℕ → ℕ → Poly → Poly → Poly
sub_row q coeff [] rem = rem
sub_row q coeff (l ∷ low) [] = []
sub_row q coeff (l ∷ low) (r ∷ rem) = sub_mod r (coeff * l) q ∷ sub_row q coeff low rem

pub sub_row_at : ℕ → ℕ → ℕ → Poly → Poly → Poly
sub_row_at zero q coeff low rem = sub_row q coeff low rem
sub_row_at (suc n) q coeff low [] = []
sub_row_at (suc n) q coeff low (r ∷ rem) = r ∷ sub_row_at n q coeff low rem

-- `for (k = size - 1; k >= d; --k)`, with `steps` = k - d + 1 and `low` the first `d` coefficients of
-- the divisor.
pub monic_loop : ℕ → ℕ → ℕ → Poly → Poly → Poly
monic_loop zero q d low rem = rem
monic_loop (suc n) q d low rem =
    let coeff = get_or rem (d + n) 0 in
    let rest = monic_loop n q d low (sub_row_at n q coeff low rem) in
    let same = monic_loop n q d low rem in if coeff == 0 then same else rest

-- `rem.resize(d); if (rem.empty()) ...; poly_trim(rem)` after the loop, for d >= 1.
pub monic_remainder : ℕ → Poly → ℕ → Poly → Poly
monic_remainder zero divisor q rem = 0 ∷ []
monic_remainder (suc d') divisor q rem =
    let d = suc d' in poly_trim (take d (monic_loop (length rem - d) q d (take d divisor) rem))

pub poly_mod_monic : Poly → Poly → ℕ → Result Poly
poly_mod_monic dividend [] q = err empty_divisor
poly_mod_monic [] (c ∷ divisor) q = ok (0 ∷ [])
poly_mod_monic (a ∷ dividend) (c ∷ divisor) q =
    let rem = poly_mod_q (a ∷ dividend) q in
    if ltb (length rem) (length (c ∷ divisor))
    then ok rem
    else ok (monic_remainder (length divisor) (c ∷ divisor) q rem)

module _ (multiply : Poly → Poly → ℕ → Poly) (q : ℕ) where
  -- One level of the product tree: `next[i]` from `prev[2 * i]` and, where it is there,
  -- `prev[2 * i + 1]`.
  unfoldable pub pair_up : List Poly → List Poly
  pair_up [] = []
  pair_up (p ∷ []) = p ∷ []
  pair_up (p ∷ p' ∷ prev) = multiply p p' q ∷ pair_up prev

  -- `while (levels.back().size() > 1)`, on fuel.
  unfoldable pub build_levels : ℕ → List Poly → List (List Poly)
  build_levels zero level = level ∷ []
  build_levels (suc fuel) level =
      let rest = build_levels fuel (pair_up level) in
      if ltb 1 (length level) then level ∷ rest else (level ∷ [])

  -- A level is shorter than the one below it, so the number of points is enough fuel.
  unfoldable pub poly_build_product_tree : List ℕ → List (List Poly)
  poly_build_product_tree [] = []
  poly_build_product_tree (x ∷ points) =
      build_levels (length (x ∷ points)) (map (λ r. poly_linear_from_root r q) (x ∷ points))

  unfoldable pub poly_from_roots : List ℕ → Poly
  poly_from_roots [] = 1 ∷ []
  poly_from_roots (r ∷ roots) = top_of (poly_build_product_tree (r ∷ roots))
