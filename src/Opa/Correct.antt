-- ===== src/Opa/Correct.antt =====
-- OPA gives the receiver the sum b + a * x of the polynomials at the public points.
use rf_class_groups.Base.{
  ℕ, ◌+◌, ◌*◌, ◌%◌, ◌≤◌, ◌<◌, ◌≡◌, refl, sym, ap, ◌∙◌, List, [], ◌∷◌, map, length, length-map, All,
  false, ◌^◌, Mpz, IsMpz, Cong-mod, Cong-add, Cong-mul, ok, arith,
}
use native.Mathlib.Nat.{mod-lt}
use rf_class_groups.Config.{Env}
use rf_class_groups.Config.Limits.{AcceptsCount}
use rf_class_groups.Scheme.{ClassGroups}
use rf_class_groups.Scheme.Laws.{IsClassGroups}
use rf_class_groups.Ole.{Draws, Processes, Randomness, ole}
use rf_class_groups.Ole.Counts.{AcceptCount}
use rf_class_groups.Ole.Direct.{direct_ole_batch-ole}
use rf_class_groups.Ole.Firewalled.{rf_ole_batch-ole}
use rf_class_groups.Poly.{Poly}
use rf_class_groups.Poly.Values.{values_at, value}
use rf_class_groups.Evaluation.Policy.{CanEvaluate, poly_eval_batch_auto-values}
use rf_class_groups.Lagrange.Points.{points-accepted}
use rf_class_groups.Ntt.{ntt128_prime, ntt_runtime_enabled}
use rf_class_groups.Public.{public_eval_points_cached, rf_opa_eval_points}
use rf_class_groups.Public.Points.{public_points-agree}
use rf_class_groups.Opa.{
  OleBatch, opa_send_evals, opa_receive_with_q, opa, direct_batch, firewalled_batch,
}

-- What OPA needs of its batch, for vectors of the length `n`.
abbrev pub IsOleBatch : OleBatch → ℕ → ℕ → Type 0
IsOleBatch ole_batch q n =
    (xs as' bs : List ℕ)
    → length xs ≡ n
    → length xs ≡ length as'
    → length as' ≡ length bs
    → All (λ x. x < q) xs
    → All (λ b. b < q) bs
    → ole_batch xs as' bs ≡ ok (ole q xs as' bs)

pub direct_batch-IsOleBatch :
    (cs : ClassGroups)
    → IsClassGroups cs
    → (chunk : ℕ) (env_r env_s : Env) (sk : ℕ) (rx rb : Draws) (n : ℕ) → 1 ≤ chunk
    → AcceptsCount env_r n
    → AcceptsCount env_s n
    → IsOleBatch (direct_batch cs chunk env_r env_s sk rx rb) cs.cleartext_bound n
unfolding direct_batch
direct_batch-IsOleBatch cs laws chunk env_r env_s sk rx rb n l c c' xs as' bs size e f h k =
    direct_ole_batch-ole cs laws chunk env_r env_s sk rx rb xs as' bs l (rw size c) (rw size c') e f
      h k

pub firewalled_batch-IsOleBatch :
    (cs : ClassGroups)
    → IsClassGroups cs
    → (chunk : ℕ) (p : Processes) (r : Randomness) (n : ℕ) → 1 ≤ chunk
    → AcceptCount p n
    → cs.compact ≡ false
    → IsOleBatch (firewalled_batch cs chunk p r) cs.cleartext_bound n
unfolding firewalled_batch
firewalled_batch-IsOleBatch cs laws chunk processes r n l count p xs as' bs size e f h k =
    rf_ole_batch-ole cs laws chunk processes r xs as' bs l (rw size count) p e f h k

-- Fewer coefficients than an int counts.
abbrev pub AreShort : Poly → Poly → Poly → Type 0
AreShort x b a = (length x < 2 ^ 31) × (length b < 2 ^ 31) × (length a < 2 ^ 31)

-- The value of the sum at one point.
abbrev pub opa_value : Poly → Poly → Poly → ℕ → ℕ
opa_value x b a p = value b p + value a p * value x p

module _ (q : ℕ) (large : 2 ≤ q) where
  values_at-bound : (p : Poly) (points : List ℕ) → All (λ v. v < q) (values_at p points q)
  values_at-bound p [] = tt
  values_at-bound p (a ∷ points) = (mod-lt (value p a) (omega arith), values_at-bound p points)

  ole-values :
      (x b a : Poly) (points : List ℕ)
      → ole q (values_at x points q) (values_at a points q) (values_at b points q)
        ≡ map (λ p. opa_value x b a p % q) points
  unfolding ole
  ole-values x b a [] = refl
  ole-values x b a (p ∷ points) =
      let head : (value a p % q * (value x p % q) + value b p % q) % q ≡ opa_value x b a p % q =
        Cong-add q (value a p % q * (value x p % q)) (value a p * value x p) (value b p % q)
          (value b p)
          (Cong-mul q (value a p % q) (value a p) (value x p % q) (value x p)
            (Cong-mod q (value a p)) (Cong-mod q (value x p)))
          (Cong-mod q (value b p))
        ∙ ap (λ (t : ℕ). t % q) {x = value a p * value x p + value b p} {y = opa_value x b a p}
            (omega arith) in
      let tail = ole-values x b a points in rw (head, tail) refl

module _ (mpz : Mpz) (laws : IsMpz mpz ntt128_prime) (ole_batch : OleBatch) (q : ℕ) (large : 2 ≤ q)
    (n : ℕ) (batch : IsOleBatch ole_batch q n) where
  -- With the points that both parties computed.
  opa_at :
      (env_r env_s : Env) (alpha : List ℕ) (x b a : Poly)
      → CanEvaluate env_r
      → CanEvaluate env_s
      → n ≤ q
      → length alpha ≡ n
      → n ≤ 2 ^ 24
      → AreShort x b a
      → public_eval_points_cached mpz env_r n q ≡ ok alpha
      → public_eval_points_cached mpz env_s n q ≡ ok alpha
      → opa mpz ole_batch env_r env_s n n x b a q
        ≡ ok (record {
          alpha = alpha;
          input_evals = values_at x alpha q;
          y_vals = map (λ p. opa_value x b a p % q) alpha;
          q = q;
        })
  unfolding opa opa_send_evals opa_receive_with_q rf_opa_eval_points
  opa_at env_r env_s alpha x b a can_r can_s h size l (lx, lb, la) r s =
      let few : length alpha ≤ 2 ^ 24 = rw size l in
      let len = λ (p : Poly). length-map alpha (λ v. value p v % q) in
      rw
        (
          points-accepted n q h,
          s,
          poly_eval_batch_auto-values mpz laws env_s b alpha q large can_s (lb, few),
          poly_eval_batch_auto-values mpz laws env_s a alpha q large can_s (la, few),
          r,
          poly_eval_batch_auto-values mpz laws env_r x alpha q large can_r (lx, few),
          batch (values_at x alpha q) (values_at a alpha q) (values_at b alpha q) (len x ∙ size)
              (len x ∙ sym (len a)) (len a ∙ sym (len b)) (values_at-bound q large x alpha)
              (values_at-bound q large b alpha),
          ole-values q large x b a alpha,
        )
        refl

  -- Modulo `q` at least 2, with at most `q` and at most 2^24 points, over a batch that computes OLE for
  -- vectors with an entry per point, with fewer than 2^31 coefficients in each polynomial, and in
  -- environments that allow the evaluation and agree on the switch of the transform, one run of OPA ends without a failure; the receiver then holds as many public points as were asked for, its own
  -- values there, and b + a * x modulo `q` at each of them.
  pub opa-values :
      (env_r env_s : Env) (x b a : Poly)
      → CanEvaluate env_r
      → CanEvaluate env_s
      → ntt_runtime_enabled env_r ≡ ntt_runtime_enabled env_s
      → n ≤ q
      → n ≤ 2 ^ 24
      → AreShort x b a
      → (alpha : List ℕ) × (public_eval_points_cached mpz env_r n q ≡ ok alpha)
        × (length alpha ≡ n)
        × (opa mpz ole_batch env_r env_s n n x b a q
            ≡ ok (record {
              alpha = alpha;
              input_evals = values_at x alpha q;
              y_vals = map (λ p. opa_value x b a p % q) alpha;
              q = q;
            }))
  opa-values env_r env_s x b a can_r can_s alike h l short =
      let (alpha, r, s, size) =
        public_points-agree mpz laws env_r env_s q n alike (omega (arith, l)) in
      (alpha, r, size, opa_at env_r env_s alpha x b a can_r can_s h size l short r s)
