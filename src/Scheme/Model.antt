-- ===== src/Scheme/Model.antt =====
-- A small cryptosystem with the documented laws, on which the theorems are tried: both groups are the
-- numbers under addition, h is 3, f is 1, and the cleartexts are the numbers below 7.
use rf_class_groups.Base.{ℕ, ◌+◌, ◌-◌, ◌*◌, ◌%◌, ◌≡◌, Bool, true, false, refl, ap, ◌∙◌, arith}
use rf_class_groups.Scheme.{ClassGroups, to_delta}
use rf_class_groups.Scheme.Laws.{IsClassGroups}

abbrev lifted : Bool → ℕ → ℕ
lifted true x = 2 * x
lifted false x = x

-- In the compact variant the map to Cl_Delta() doubles.
abbrev pub small : Bool → ClassGroups
small compact = record {
  Qfi = ℕ;
  compact = compact;
  nucomp_g = λ x y. x + y;
  nupow_g = λ x n. n * x;
  exponentiation = λ pk s. s * pk;
  nucomp_delta = λ x y. x + y;
  nucompinv_delta = λ x y. x - y;
  nupow_delta = λ x n. n * x;
  from_delta_k = λ x. 2 * x;
  power_of_h = λ n. n * 3;
  power_of_f = λ n. n;
  cleartext_bound = 7;
  keygen = λ sk. sk * 3;
  encrypt = λ pk m r. record { c1 = r * 3; c2 = lifted compact (r * pk) + m };
  decrypt = λ sk c. (c.c2 - lifted compact (sk * c.c1)) % 7;
}

to_delta-lifted : (compact : Bool) (x : ℕ) → to_delta (small compact) x ≡ lifted compact x
unfolding to_delta
to_delta-lifted true x = refl
to_delta-lifted false x = refl

lifted-comp :
    (compact : Bool) (x y : ℕ) → lifted compact (x + y) ≡ lifted compact x + lifted compact y
lifted-comp true x y = omega arith
lifted-comp false x y = refl

lifted-zero : (compact : Bool) → lifted compact 0 ≡ 0
lifted-zero true = refl
lifted-zero false = refl

pub small-IsClassGroups : (compact : Bool) → IsClassGroups (small compact)
small-IsClassGroups compact = record {
  one_g = 0;
  one_delta = 0;
  assoc_g = λ x y z. omega arith;
  comm_g = λ x y. omega arith;
  one-comp_g = λ x. omega arith;
  pow-zero_g = λ x. omega arith;
  pow-suc_g = λ x n. omega arith;
  assoc_delta = λ x y z. omega arith;
  comm_delta = λ x y. omega arith;
  one-comp_delta = λ x. omega arith;
  pow-zero_delta = λ x. omega arith;
  pow-suc_delta = λ x n. omega arith;
  compinv-comp = λ x y. omega arith;
  delta-one = to_delta-lifted compact 0 ∙ lifted-zero compact;
  delta-comp = λ x y.
      rw (to_delta-lifted compact (x + y), to_delta-lifted compact x, to_delta-lifted compact y)
        (lifted-comp compact x y);
  power-zero_h = refl;
  power-add_h = λ m n. omega arith;
  power-zero_f = refl;
  power-add_f = λ m n. refl;
  exponentiation-pow = λ pk s. refl;
  keygen-power = λ sk. refl;
  encrypt-c1 = λ pk m r. refl;
  encrypt-c2 = λ pk m r. rw (to_delta-lifted compact);
  decrypt-power = λ sk c m h. ap (λ (t : ℕ). t % 7) (rw (← to_delta-lifted compact) h);
  bound_pos = omega arith;
}
