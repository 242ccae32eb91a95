-- ===== src/Evaluation.antt =====
-- Evaluation at many points in cg_rf_common.hpp: Horner at each point, the product tree,
-- the transform, and the choice between them. NTL is not compiled in.
pub mod Policy
use rf_class_groups.Base.{
  ℕ, ◌%◌, get_or, int_pred, zero, suc, ◌<◌, leb, Bool, true, false, ◌||◌, not, ◌==◌, if◌then◌else◌,
  Option, none, some, List, [], ◌∷◌, map, length, max, ltb, Result, ok, err, ◌>>=◌, ◌>>◌, reject_if,
  ◌&&◌, Mpz, points_not_public,
}
use rf_class_groups.Config.{Env, size_or}
use rf_class_groups.Ope.{horner_loop}
use rf_class_groups.Poly.{Poly}
use rf_class_groups.Multiplication.Trees.{poly_eval_batch_product_tree_auto}
use rf_class_groups.Ntt.{ntt_domain_supported, poly_eval_batch_ntt}
use rf_class_groups.Public.{is_public_eval_points}

-- `poly_eval`, whose index is an int that starts at `(int)coeffs.size() - 2`.
unfoldable pub poly_eval : Poly → ℕ → ℕ → ℕ
poly_eval [] x q = 0
poly_eval (c ∷ coeffs) x q =
    horner_loop (c ∷ coeffs) x q (int_pred (length (c ∷ coeffs)))
      (get_or (c ∷ coeffs) (length coeffs) 0 % q)

-- `parallel_for` writes each slot once; an empty polynomial leaves the zeros.
pub poly_eval_batch_horner : Poly → List ℕ → ℕ → List ℕ
poly_eval_batch_horner [] points q = map (λ x. 0) points
poly_eval_batch_horner (c ∷ coeffs) points q = map (λ x. poly_eval (c ∷ coeffs) x q) points

unfoldable pub poly_eval_auto_horner_max_points : Env → Result ℕ
poly_eval_auto_horner_max_points getenv = size_or getenv (getenv "CG_POLY_HORNER_MAX_POINTS") 65536

-- What the texts of CG_POLY_EVAL_METHOD select; a text that is not known selects `auto`.
pub data EvalMethod : Type 0 where
  ntt horner product_tree auto : EvalMethod

pub has_bytes : List ℕ → List ℕ → Bool
has_bytes [] [] = true
has_bytes [] (d ∷ ds) = false
has_bytes (c ∷ cs) [] = false
has_bytes (c ∷ cs) (d ∷ ds) = if c == d then has_bytes cs ds else false

abbrev pub ntt_text : List ℕ
ntt_text = b'n' ∷ b't' ∷ b't' ∷ []

abbrev pub horner_text : List ℕ
horner_text = b'h' ∷ b'o' ∷ b'r' ∷ b'n' ∷ b'e' ∷ b'r' ∷ []

abbrev pub multipoint_text : List ℕ
multipoint_text = b'm' ∷ b'u' ∷ b'l' ∷ b't' ∷ b'i' ∷ b'p' ∷ b'o' ∷ b'i' ∷ b'n' ∷ b't' ∷ []

abbrev pub product_tree_text : List ℕ
product_tree_text =
    b'p' ∷ b'r' ∷ b'o' ∷ b'd' ∷ b'u' ∷ b'c' ∷ b't' ∷ b'_' ∷ b't' ∷ b'r' ∷ b'e' ∷ b'e' ∷ []

pub named_method : List ℕ → EvalMethod
named_method text =
    if has_bytes text ntt_text
    then ntt
    else if has_bytes text horner_text
    then horner
    else if has_bytes text multipoint_text || has_bytes text product_tree_text
    then product_tree
    else auto

unfoldable pub selected_method : Option (List ℕ) → EvalMethod
selected_method none = auto
selected_method (some []) = auto
selected_method (some (c ∷ text)) = named_method (c ∷ text)

unfoldable pub poly_eval_method_env : Env → EvalMethod
poly_eval_method_env getenv = selected_method (getenv "CG_POLY_EVAL_METHOD")

module _ (mpz : Mpz) where
  -- What `auto` does where the points are not those of the domain.
  pub evaluate_outside : Env → Poly → List ℕ → ℕ → Result (List ℕ)
  evaluate_outside getenv coeffs points q = do
    limit ← poly_eval_auto_horner_max_points getenv
    (if leb (length points) limit
        then ok (poly_eval_batch_horner coeffs points q)
        else poly_eval_batch_product_tree_auto mpz getenv coeffs points q)

  -- `ntt_domain_supported(...) && coeffs.size() <= points.size() && is_public_eval_points(...)`.
  pub fits_domain : Env → Poly → List ℕ → ℕ → Result Bool
  fits_domain getenv coeffs points q =
      if ntt_domain_supported getenv q (length points) && leb (length coeffs) (length points)
      then is_public_eval_points mpz getenv points q
      else ok false

  -- The branches of `poly_eval_batch_auto`.
  pub evaluate_by : EvalMethod → Env → Poly → List ℕ → ℕ → Result (List ℕ)
  evaluate_by ntt getenv coeffs points q = do
    is_public ← is_public_eval_points mpz getenv points q
    reject_if (not is_public) points_not_public
    poly_eval_batch_ntt mpz getenv coeffs (length points) q
  evaluate_by horner getenv coeffs points q = ok (poly_eval_batch_horner coeffs points q)
  evaluate_by product_tree getenv coeffs points q =
      poly_eval_batch_product_tree_auto mpz getenv coeffs points q
  evaluate_by auto getenv coeffs points q = do
    transform ← fits_domain getenv coeffs points q
    (if transform
        then poly_eval_batch_ntt mpz getenv coeffs (length points) q
        else evaluate_outside getenv coeffs points q)

  pub poly_eval_batch_auto : Env → Poly → List ℕ → ℕ → Result (List ℕ)
  poly_eval_batch_auto getenv coeffs points q =
      evaluate_by (poly_eval_method_env getenv) getenv coeffs points q
