-- ===== src/Psi.antt =====
-- Private set intersection: the validation of an input set in cg_rf_common.hpp.
pub mod Validation
pub mod Membership
pub mod Protocol
pub mod Input
pub mod Reveal
use rf_class_groups.Base.{
  ℕ, suc, Bool, true, false, not, List, [], ◌∷◌, length, ltb, ◌==◌, if◌then◌else◌, ℤ, pos, negsuc,
  Result, ok, ◌>>=◌, ◌>>◌, reject_if, element_outside_field, duplicate_element,
}
use rf_class_groups.Config.{Env, cg_validate_count}

-- Not `x.sgn() < 0 || x >= q`.
abbrev pub is_in_field : ℕ → ℤ → Bool
is_in_field q (pos n) = ltb n q
is_in_field q (negsuc n) = false

-- The decimal texts of two integers are the same exactly if the integers are.
abbrev pub has_same_text : ℤ → ℤ → Bool
has_same_text (pos m) (pos n) = m == n
has_same_text (negsuc m) (negsuc n) = m == n
has_same_text _ _ = false

-- Whether `seen.insert` finds the text there.
pub was_seen : ℤ → List ℤ → Bool
was_seen x [] = false
was_seen x (s ∷ seen) = if has_same_text x s then true else was_seen x seen

-- `for (const auto& x : values)`.
pub validate_each : ℕ → List ℤ → List ℤ → Result (Unit {0})
validate_each q seen [] = ok tt
validate_each q seen (x ∷ values) = do
  reject_if (not (is_in_field q x)) element_outside_field
  reject_if (was_seen x seen) duplicate_element
  validate_each q (x ∷ seen) values

pub validate_psi_set : Env → List ℤ → ℕ → Result (Unit {0})
validate_psi_set getenv values q = do
  cg_validate_count getenv (length values) false
  validate_each q [] values
