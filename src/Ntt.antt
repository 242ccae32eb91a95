-- ===== src/Ntt.antt =====
-- The number-theoretic transform of cg_rf_common.hpp: the domain, its points, the transform in place,
-- and what is computed by it. `mpz` stands for the operations of BICYCL::Mpz; caches are left out.
pub mod Domain
pub mod Roots
pub mod Order
pub mod Reorder
pub mod Reversal
pub mod Stages
pub mod Forward
pub mod Twice
pub mod Inverse
pub mod Transform
pub mod Product
use Prim.Native.Nat.{bit_and, bit_xor}
use rf_class_groups.Base.{
  ℕ, zero, suc, ◌+◌, ◌*◌, ◌-◌, ◌/◌, ◌%◌, ◌^◌, Bool, true, false, ◌&&◌, not, ltb, leb, ◌==◌,
  if◌then◌else◌, Option, none, some, List, [], ◌∷◌, ◌++◌, map, length, take, drop, set, get_or,
  replicate, sub_mod, Mpz, Result, ok, err, ◌>>=◌, ◌>>◌, reject_if, unsupported_domain, root_order,
  size_overflow, out_of_fuel, domain_too_small,
}
use rf_class_groups.Config.{Env}
use rf_class_groups.Poly.{Poly, poly_trim, reduce_each}

-- CG_NTT128_PRIME_DEC.
unfoldable pub ntt128_prime : ℕ
ntt128_prime = 170141183460469232709364739622490341377

unfoldable pub is_power_of_two_size : ℕ → Bool
is_power_of_two_size n = not (n == 0) && bit_and n (n - 1) == 0

-- `while (p < n)`, on fuel; `p > SIZE_MAX >> 1` is refused.
unfoldable pub double_until : ℕ → ℕ → ℕ → Result ℕ
double_until zero n p = err out_of_fuel
double_until (suc fuel) n p =
    let rest = reject_if (ltb (2 ^ 63 - 1) p) size_overflow >> double_until fuel n (p * 2) in
    if ltb p n then rest else (ok p)

-- From 1, 64 doublings reach the bound.
unfoldable pub next_power_of_two_size : ℕ → Result ℕ
next_power_of_two_size n = if leb n 1 then ok 1 else double_until 65 n 1

-- `!(env && *env && std::string(env) == "0")`.
unfoldable pub is_zero_text : Option (List ℕ) → Bool
is_zero_text (some (c ∷ [])) = c == b'0'
is_zero_text _ = false

unfoldable pub ntt_runtime_enabled : Env → Bool
ntt_runtime_enabled getenv = not (is_zero_text (getenv "CG_USE_NTT_POLY"))

unfoldable pub is_ntt128_prime : ℕ → Bool
is_ntt128_prime q = q == ntt128_prime

unfoldable pub ntt_domain_supported : Env → ℕ → ℕ → Bool
ntt_domain_supported getenv q n =
    ntt_runtime_enabled getenv && is_ntt128_prime q && is_power_of_two_size n

-- `std::swap(a[i], a[j])`.
unfoldable pub swap : List ℕ → ℕ → ℕ → List ℕ
swap a i j = set (set a i (get_or a j 0)) j (get_or a i 0)

-- `for (; j & bit; bit >>= 1) j ^= bit;` and `j ^= bit`, on fuel.
unfoldable pub next_reversed : ℕ → ℕ → ℕ → ℕ
next_reversed zero bit j = j
next_reversed (suc fuel) bit j =
    let rest = next_reversed fuel (bit / 2) (bit_xor j bit) in
    if bit_and j bit == 0 then bit_xor j bit else rest

-- The permutation loop from index `i` on, for `steps` indices; `j` belongs to the index before `i`.
-- A size of 64 bits has no more than 64 of them.
unfoldable pub reverse_loop : ℕ → ℕ → ℕ → ℕ → List ℕ → List ℕ
reverse_loop n zero i j a = a
reverse_loop n (suc steps) i j a =
    let j' = next_reversed 65 (n / 2) j in
    reverse_loop n steps (suc i) j' (if ltb i j' then swap a i j' else a)

unfoldable pub bit_reverse : List ℕ → List ℕ
bit_reverse a = reverse_loop (length a) (length a - 1) 1 0 a

-- The inner loop over one block: `a[i + j]` are the first entries, `a[i + j + len / 2]` the second, and
-- `w` is the power of `wlen` that belongs to the first of them. The new first and second entries.
unfoldable pub butterflies : ℕ → ℕ → ℕ → List ℕ → List ℕ → List ℕ × List ℕ
butterflies q wlen w (u ∷ us) (x ∷ xs) =
    let v = x * w % q in
    let rest = butterflies q wlen (w * wlen % q) us xs in
    (((u + v) % q) ∷ rest.0, sub_mod u v q ∷ rest.1)
butterflies q wlen w _ _ = ([], [])

unfoldable pub transform_block : ℕ → ℕ → ℕ → List ℕ → List ℕ
transform_block q wlen half block =
    let r = butterflies q wlen 1 (take half block) (drop half block) in r.0 ++ r.1

-- `for (i = 0; i < n; i += len)`, on what is left from `i` on; fuel `n` is enough.
unfoldable pub transform_blocks : ℕ → ℕ → ℕ → ℕ → List ℕ → List ℕ
transform_blocks fuel q wlen len [] = []
transform_blocks zero q wlen len (x ∷ a) = x ∷ a
transform_blocks (suc fuel) q wlen len (x ∷ a) =
    transform_block q wlen (len / 2) (take len (x ∷ a))
    ++ transform_blocks fuel q wlen len (drop len (x ∷ a))

-- `points[i] = points[i - 1] * omega`, for `n` points.
unfoldable pub powers_from : ℕ → ℕ → ℕ → ℕ → List ℕ
powers_from q omega c zero = []
powers_from q omega c (suc n) = c ∷ powers_from q omega (c * omega % q) n

-- A vector of `n` zeros with the residues of the coefficients at its front.
unfoldable pub padded : ℕ → ℕ → Poly → Poly
padded q n p = reduce_each q p ++ replicate (n - length p) 0

-- `fa[i] = fa[i] * fb[i]`.
unfoldable pub multiply_each : ℕ → List ℕ → List ℕ → List ℕ
multiply_each q (x ∷ xs) (y ∷ ys) = (x * y % q) ∷ multiply_each q xs ys
multiply_each q _ _ = []

module _ (mpz : Mpz) (getenv : Env) where
  -- The two checks of the root's order.
  unfoldable pub checked_root : ℕ → ℕ → ℕ → Result ℕ
  checked_root root n q = do
    reject_if (not (mpz.pow_mod root n q == 1)) root_order
    reject_if (mpz.pow_mod root (n / 2) q == 1) root_order
    ok root

  unfoldable pub ntt_primitive_root : ℕ → ℕ → Result ℕ
  ntt_primitive_root n q = do
    reject_if (not (ntt_domain_supported getenv q n)) unsupported_domain
    (if n == 1 then ok 1 else checked_root (mpz.pow_mod 3 ((q - 1) / n) q) n q)

  unfoldable pub ntt_domain_points : ℕ → ℕ → Result (List ℕ)
  ntt_domain_points zero q = ok []
  ntt_domain_points (suc n) q = do
    root ← ntt_primitive_root (suc n) q
    ok (powers_from q root 1 (suc n))

  abbrev pub direction : Bool → ℕ → ℕ → ℕ
  direction inverse w q = if inverse then mpz.mod_inverse w q else w

  -- `for (len = 2; len <= n; len <<= 1)`, on fuel, with the shift of a 64-bit size.
  unfoldable pub stage_loop : ℕ → ℕ → Bool → ℕ → ℕ → List ℕ → Result (List ℕ)
  stage_loop zero q inverse n len a = err out_of_fuel
  stage_loop (suc fuel) q inverse n len a =
      let rest = ntt_primitive_root len q >>= λ root.
      stage_loop fuel q inverse n (len * 2 % 2 ^ 64)
        (transform_blocks n q (direction inverse root q) len a) in
      if leb len n then rest else (ok a)

  abbrev pub scale : ℕ → ℕ → List ℕ → List ℕ
  scale q n_inv a = map (λ x. x * n_inv % q) a

  -- Before `len` has passed a size of 64 bits there are at most 64 rounds.
  unfoldable pub ntt_inplace : List ℕ → ℕ → Bool → Result (List ℕ)
  ntt_inplace a q inverse = do
    reject_if (not (ntt_domain_supported getenv q (length a))) unsupported_domain
    b ← stage_loop 65 q inverse (length a) 2 (bit_reverse a)
    ok (if inverse then scale q (mpz.mod_inverse (length a) q) b else b)

  -- The product of two vectors that are not empty, in a domain of `n` points.
  unfoldable pub multiply_in_domain : ℕ → ℕ → Poly → Poly → ℕ → Result Poly
  multiply_in_domain need n a b q = do
    reject_if (not (ntt_domain_supported getenv q n)) unsupported_domain
    fa ← ntt_inplace (padded q n a) q false
    fb ← ntt_inplace (padded q n b) q false
    product ← ntt_inplace (multiply_each q fa fb) q true
    ok (poly_trim (take need product))

  unfoldable pub poly_mul_ntt_mod : Poly → Poly → ℕ → Result Poly
  poly_mul_ntt_mod [] b q = ok (0 ∷ [])
  poly_mul_ntt_mod (a ∷ as') [] q = ok (0 ∷ [])
  poly_mul_ntt_mod (a ∷ as') (b ∷ bs) q = do
    let need = length (a ∷ as') + length (b ∷ bs) - 1
    n ← next_power_of_two_size need
    multiply_in_domain need n (a ∷ as') (b ∷ bs) q

  unfoldable pub poly_eval_batch_ntt : Poly → ℕ → ℕ → Result (List ℕ)
  poly_eval_batch_ntt coeffs n_points q = do
    reject_if (not (ntt_domain_supported getenv q n_points)) unsupported_domain
    reject_if (ltb n_points (length coeffs)) domain_too_small
    ntt_inplace (padded q n_points coeffs) q false

  unfoldable pub lagrange_interpolate_ntt : List ℕ → ℕ → Result Poly
  lagrange_interpolate_ntt y q = do
    reject_if (not (ntt_domain_supported getenv q (length y))) unsupported_domain
    coeffs ← ntt_inplace (reduce_each q y) q true
    ok (poly_trim coeffs)
