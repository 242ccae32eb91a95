-- ===== src/Public/Points.antt =====
-- The points exist, as many as were asked for, and are the same for processes that agree on the transform.
use rf_class_groups.Base.{
  ℕ, ◌^◌, ◌≤◌, ◌≡◌, ◌⊎◌, inl, inr, refl, sym, ◌∙◌, true, false, leb, ◌==◌, ==_iff, Bool-cases, List,
  [], ◌∷◌, length, Mpz, IsMpz, ok, ok_injective, arith,
}
use rf_class_groups.Base.Bits.{pow2, pow2_mono}
use rf_class_groups.Config.{Env}
use rf_class_groups.Lagrange.{public_eval_points}
use rf_class_groups.Lagrange.Points.{length-public_eval_points}
use rf_class_groups.Ntt.{ntt128_prime, ntt_runtime_enabled, ntt_domain_supported}
use rf_class_groups.Ntt.Domain.{ntt_domain_supported-pow2, ntt_domain_supported-parts}
use rf_class_groups.Ntt.Roots.{root}
use rf_class_groups.Ntt.Twice.{length-powers_from}
use rf_class_groups.Ntt.Transform.{domain, ntt_domain_points-domain}
use rf_class_groups.Public.{same_entries, public_eval_points_cached}

pub same_entries-same :
    (xs ys : List ℕ) → length xs ≡ length ys → same_entries xs ys ≡ true → xs ≡ ys
unfolding same_entries
same_entries-same [] [] l h = refl
same_entries-same [] (y ∷ ys) l h = absurd (omega (arith, l))
same_entries-same (x ∷ xs) [] l h = absurd (omega (arith, l))
same_entries-same (x ∷ xs) (y ∷ ys) l h = elim (Bool-cases (x == y)) [
  | inl e ↦
      let rest = same_entries-same xs ys (omega (arith, l)) (rw e at h) in
      rw ((==_iff x y).0 e, rest) refl
  | inr e ↦ absurd (clash (rw e at h))
]
  where
    clash : false ≡ true → ⊥
    clash k = cc

pub length-domain : (k : ℕ) → length (domain k) ≡ pow2 k
length-domain k = length-powers_from ntt128_prime (root k) 1 (pow2 k)

small_exponent : (k : ℕ) → pow2 k ≤ 2 ^ 62 → k ≤ 62
small_exponent k h = elim (Bool-cases (leb k 62)) [
  | inl e ↦ ground arith
  | inr e ↦ let far : 63 ≤ k = ground arith in absurd (omega (arith, h, pow2_mono 63 k far))
]

-- Inside the domain, where its size is 2^k, and outside of it.
abbrev pub InDomain : Env → ℕ → ℕ → Type 0
InDomain getenv q n =
    (k : ℕ) × (k ≤ 62) × (n ≡ pow2 k) × (q ≡ ntt128_prime) × (ntt_runtime_enabled getenv ≡ true)

pub domain-cases :
    (getenv : Env) (q n : ℕ)
    → n ≤ 2 ^ 62
    → InDomain getenv q n ⊎ (ntt_domain_supported getenv q n ≡ false)
domain-cases getenv q n h = elim (Bool-cases (ntt_domain_supported getenv q n)) [
  | inl e ↦
      let (on, prime, (k, size)) = ntt_domain_supported-parts getenv q n e in
      inl (k, small_exponent k (rw size at h), size, prime, on)
  | inr e ↦ inr e
]

module _ (mpz : Mpz) (laws : IsMpz mpz ntt128_prime) (getenv : Env) where
  pub points_in_domain :
      (k : ℕ)
      → k ≤ 62
      → ntt_runtime_enabled getenv ≡ true
      → public_eval_points_cached mpz getenv (pow2 k) ntt128_prime ≡ ok (domain k)
  unfolding public_eval_points_cached
  points_in_domain k h on =
      rw (ntt_domain_supported-pow2 getenv k on) (ntt_domain_points-domain mpz laws getenv on k h)

  pub points_outside :
      (q n : ℕ)
      → ntt_domain_supported getenv q n ≡ false
      → public_eval_points_cached mpz getenv n q ≡ ok (public_eval_points n)
  unfolding public_eval_points_cached
  points_outside q n off = rw off refl

-- Processes that agree on the switch of the transform have the same public points, as many as were
-- asked for, up to 2^62.
pub public_points-agree :
    (mpz : Mpz)
    → IsMpz mpz ntt128_prime
    → (getenv getenv' : Env) (q n : ℕ) → ntt_runtime_enabled getenv ≡ ntt_runtime_enabled getenv'
    → n ≤ 2 ^ 62
    → (alpha : List ℕ) × (public_eval_points_cached mpz getenv n q ≡ ok alpha)
      × (public_eval_points_cached mpz getenv' n q ≡ ok alpha)
      × (length alpha ≡ n)
public_points-agree mpz laws getenv getenv' q n alike h = elim (domain-cases getenv q n h) [
  | inl (k, l, size, prime, on) ↦
      rw (size, prime)
        (
          domain k,
          points_in_domain mpz laws getenv k l on,
          points_in_domain mpz laws getenv' k l (sym alike ∙ on),
          length-domain k,
        )
  | inr off ↦ (
    public_eval_points n,
    points_outside mpz laws getenv q n off,
    points_outside mpz laws getenv' q n
        (unfold ntt_domain_supported in rw (sym alike) (unfold ntt_domain_supported in off)),
    length-public_eval_points n,
  )
]

pub length-public_points :
    (mpz : Mpz)
    → IsMpz mpz ntt128_prime
    → (getenv : Env) (q n : ℕ) (alpha : List ℕ)
    → public_eval_points_cached mpz getenv n q ≡ ok alpha
    → n ≤ 2 ^ 62
    → length alpha ≡ n
length-public_points mpz laws getenv q n alpha named h =
    let (beta, e, _, l) = public_points-agree mpz laws getenv getenv q n refl h in
    rw (ok_injective (sym named ∙ e)) l
