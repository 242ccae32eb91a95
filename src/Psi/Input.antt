-- ===== src/Psi/Input.antt =====
-- The reader of set files in cg_rf_common.hpp, over the integers that the file's tokens stand for.
use rf_class_groups.Base.{
  ℕ, suc, ◌+◌, ◌≤◌, ◌<◌, ◌≡◌, false, refl, not, List, [], ◌∷◌, map, length, All, ℤ, pos, lt→ltb,
  Result, ok, ◌>>◌, reject_if, element_outside_field, empty_input, arith,
}
use rf_class_groups.Config.{Env, is_empty, cg_max_items, cg_validate_count}
use rf_class_groups.Config.Limits.{cg_validate_count_iff}
use rf_class_groups.Psi.{is_in_field, validate_psi_set}
use rf_class_groups.Psi.Protocol.Correct.{IsInput, IsInput-accepted}

-- `while (in >> token)`, with `size` values read before.
pub read_values : Env → ℕ → ℕ → List ℤ → Result (Unit {0})
read_values getenv q size [] = ok tt
read_values getenv q size (x ∷ tokens) = do
  reject_if (not (is_in_field q x)) element_outside_field
  cg_validate_count getenv (suc size) false
  read_values getenv q (suc size) tokens

pub read_mpz_list_file : Env → List ℤ → ℕ → Result (Unit {0})
read_mpz_list_file getenv tokens q = do
  read_values getenv q 0 tokens
  reject_if (is_empty tokens) empty_input
  validate_psi_set getenv tokens q

-- Field elements within the limit are read.
pub read_values-ok :
    (getenv : Env) (limit q size : ℕ) (set : List ℕ)
    → cg_max_items getenv ≡ ok limit
    → All (λ a. a < q) set
    → size + length set ≤ limit
    → read_values getenv q size (map pos set) ≡ ok tt
unfolding read_values
read_values-ok getenv limit q size [] e h l = refl
read_values-ok getenv limit q size (a ∷ set) e (h, hs) l =
    rw
      (lt→ltb a q h, (cg_validate_count_iff getenv limit (suc size) e).1 (omega arith, omega arith))
      (read_values-ok getenv limit q (suc size) set e hs (omega arith))

-- An input set of an allowed size is read.
pub read_mpz_list_file-ok :
    (getenv : Env) (limit q : ℕ) (set : List ℕ)
    → cg_max_items getenv ≡ ok limit
    → IsInput limit q set
    → read_mpz_list_file getenv (map pos set) q ≡ ok tt
unfolding read_mpz_list_file
read_mpz_list_file-ok getenv limit q [] e h = absurd (omega (arith, h.0))
read_mpz_list_file-ok getenv limit q (a ∷ set) e h =
    rw
      (
        read_values-ok getenv limit q 0 (a ∷ set) e h.2 (omega (arith, h.1)),
        IsInput-accepted getenv limit q (a ∷ set) e h,
      )
      refl
