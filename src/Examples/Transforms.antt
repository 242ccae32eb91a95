-- ===== src/Examples/Transforms.antt =====
-- The number-theoretic transform at concrete inputs, with the fixed prime.
use rf_class_groups.Base.{
  ℕ, zero, suc, ◌*◌, ◌%◌, ◌/◌, ◌≤◌, ◌<◌, ◌≡◌, inl, inr, refl, ◌∙◌, Bool, true, false, ◌==◌, ==_iff,
  Bool-cases, if◌then◌else◌, none, List, [], ◌∷◌, All, Cong, Cong-mod, Cong-mul, Mpz, IsMpz, ok,
  ◌>>=◌, arith,
}
use native.Mathlib.Nat.{mod-lt}
use rf_class_groups.Base.Bits.{pow2}
use rf_class_groups.Base.Powers.{square_multiply, square_multiply-power, halved}
use rf_class_groups.Config.{Env, size_or}
use rf_class_groups.Poly.{Poly, poly_mul_naive_mod}
use rf_class_groups.Poly.Values.{values_at}
use rf_class_groups.Ntt.{
  ntt128_prime, ntt_runtime_enabled, is_zero_text, ntt_domain_points, ntt_inplace,
  next_power_of_two_size,
}
use rf_class_groups.Ntt.Domain.{next_power_of_two_size-least}
use rf_class_groups.Ntt.Roots.{prime_bound}
use rf_class_groups.Ntt.Transform.{ntt_inplace-ntt_domain_points, ntt_inplace-ntt_inplace}
use rf_class_groups.Multiplication.{ntt_poly_threshold, poly_mul_mod_auto}
use rf_class_groups.Multiplication.Reference.{poly_mul_mod_auto-poly_mul_naive_mod}

-- The inverse as the first number below `n` that is one.
pub search_inverse : ℕ → ℕ → ℕ → ℕ
search_inverse zero a q = 0
search_inverse (suc n) a q =
    let rest = search_inverse n a q in if a * n % q == 1 % q then n else rest

pub search_inverse-found :
    (n a q b : ℕ) → b < n → Cong q (a * b) 1 → Cong q (a * search_inverse n a q) 1
unfolding search_inverse
search_inverse-found zero a q b h e = absurd (omega arith)
search_inverse-found (suc n) a q b h e = elim (Bool-cases (a * n % q == 1 % q)) [
  | inl f ↦ rw f ((==_iff (a * n % q) (1 % q)).0 f)
  | inr f ↦ rw f (search_inverse-found n a q b (smaller f) e)
]
  where
    smaller : (a * n % q == 1 % q) ≡ false → b < n
    smaller f = elim (Bool-cases (b == n)) [
      | inl same ↦ absurd (clash f ((==_iff _ _).1 (rw ((==_iff b n).0 same) at e)))
      | inr other ↦ ground arith
    ]
      where
        clash : {c : Bool} → c ≡ false → c ≡ true → ⊥
        clash h k = cc

abbrev pub searching : Mpz
searching = record {
  mod_inverse = λ a q. search_inverse q a q;
  pow_mod = λ b e q. square_multiply e q b e % q;
}

halved-enough : (fuel e : ℕ) → e ≤ fuel → halved fuel e ≡ 0
halved-enough zero e h = omega arith
halved-enough (suc fuel) e h = halved-enough fuel (e / 2) (omega arith)

pub searching-IsMpz : IsMpz searching ntt128_prime
searching-IsMpz = record {
  inverse = λ a b e.
      search_inverse-found ntt128_prime a ntt128_prime (b % ntt128_prime)
        (mod-lt b (omega (arith, prime_bound)))
        (Cong-mul ntt128_prime a a _ b refl (Cong-mod ntt128_prime b) ∙ e);
  residue = λ b e. square_multiply-power e ntt128_prime b e (halved-enough e e (omega arith));
}

abbrev pub no_variables : Env
no_variables name = none

pub switched_on : ntt_runtime_enabled no_variables ≡ true
unfolding ntt_runtime_enabled is_zero_text
switched_on = refl

abbrev four : Poly
four = 3 ∷ 1 ∷ 4 ∷ 1 ∷ []

four-small : All (λ c. c < ntt128_prime) four
unfolding ntt128_prime
four-small = omega arith

ntt_inplace-ntt_domain_points_example :
    (points : List ℕ) × (ntt_domain_points searching no_variables (pow2 2) ntt128_prime ≡ ok points)
    × (ntt_inplace searching no_variables four ntt128_prime false
        ≡ ok (values_at four points ntt128_prime))
ntt_inplace-ntt_domain_points_example =
    ntt_inplace-ntt_domain_points searching searching-IsMpz no_variables switched_on 2 four
      (omega arith) (omega arith) four-small

ntt_inplace-ntt_inplace_example :
    (ntt_inplace searching no_variables four ntt128_prime false >>= λ y.
    ntt_inplace searching no_variables y ntt128_prime true)
    ≡ ok four
ntt_inplace-ntt_inplace_example =
    ntt_inplace-ntt_inplace searching searching-IsMpz no_variables switched_on 2 four (omega arith)
      (omega arith) four-small

default_threshold : ntt_poly_threshold no_variables ≡ ok 512
unfolding ntt_poly_threshold size_or
default_threshold = refl

poly_mul_mod_auto-poly_mul_naive_mod_example :
    poly_mul_mod_auto searching no_variables four (2 ∷ 7 ∷ []) ntt128_prime
    ≡ ok (poly_mul_naive_mod four (2 ∷ 7 ∷ []) ntt128_prime)
poly_mul_mod_auto-poly_mul_naive_mod_example =
    poly_mul_mod_auto-poly_mul_naive_mod searching searching-IsMpz no_variables 512 ntt128_prime
      (omega (arith, prime_bound)) default_threshold four (2 ∷ 7 ∷ []) (omega arith) (omega arith)

next_power_of_two_size-least_example :
    (k : ℕ) × (next_power_of_two_size 37 ≡ ok (pow2 k)) × (37 ≤ pow2 k) × (pow2 k < 2 * 37)
next_power_of_two_size-least_example = next_power_of_two_size-least 37 (omega arith) (omega arith)
