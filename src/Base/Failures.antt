-- ===== src/Base/Failures.antt =====
-- Exceptions as values: a C++ `throw` is `err` with the failure that the message names.
use mathlib.Core.Path.{◌≡◌, refl}
use mathlib.Core.Bool.{Bool, true, false}

pub data Failure : Type 0 where
  invalid_integer overflowing_integer : Failure
  limit_out_of_range count_out_of_range combined_count : Failure
  write_failed read_failed short_read oversized_encoding noncanonical_encoding negative_zero :
      Failure
  invalid_lane_range invalid_io_range : Failure
  element_outside_field duplicate_element : Failure
  size_mismatch degree_too_small empty_divisor : Failure
  cleartext_range points_collide not_invertible : Failure
  intersection_too_large domain_too_small unsupported_domain : Failure
  empty_input out_of_fuel root_order size_overflow : Failure
  points_not_public lane_mismatch invalid_lane_id : Failure

-- A value, or the exception that replaced it.
pub data Result {κ} (T : Type κ) : Type κ where
  err : Failure → Result T
  ok : T → Result T

module _ {κ μ} {S : Type κ} {T : Type μ} where
  infixl 5 ◌>>=◌
  -- What follows a call that may throw.
  abbrev pub ◌>>=◌ : Result S → (S → Result T) → Result T
  err thrown >>= next = err thrown
  ok value >>= next = next value

  infixl 5 ◌>>◌
  abbrev pub ◌>>◌ : Result S → Result T → Result T
  err thrown >> next = err thrown
  ok value >> next = next

  -- Both halves of a computation that returned have returned.
  pub >>=-eq-ok :
      (first : Result S) (next : S → Result T) {t : T}
      → (first >>= next) ≡ ok t
      → (s : S) × (first ≡ ok s) × (next s ≡ ok t)
  >>=-eq-ok (err thrown) next returned = cc
  >>=-eq-ok (ok value) next returned = (value, refl, returned)

-- `if (bad) throw ...;`
abbrev pub reject_if : Bool → Failure → Result (Unit {0})
reject_if false failure = ok tt
reject_if true failure = err failure

pub ok_injective {κ} : {T : Type κ} {s t : T} → ok s ≡ ok t → s ≡ t
ok_injective same = cc
