-- ===== src/Config.antt =====
-- cg_config.hpp: strict parsing of unsigned integers and the item-count limits.
pub mod Parse
pub mod Limits
use rf_class_groups.Base.{
  ℕ, zero, suc, ◌+◌, ◌-◌, ◌*◌, ◌^◌, ◌≡◌, Bool, true, false, ◌||◌, ◌&&◌, not, Option, none, some,
  List, [], ◌∷◌, ltb, ◌==◌, if◌then◌else◌, Result, ok, err, ◌>>=◌, ◌>>◌, reject_if,
}
use rf_class_groups.Base.{invalid_integer, overflowing_integer}
use rf_class_groups.Base.{limit_out_of_range, count_out_of_range, combined_count}
use Prim.Native.String.{String}

-- `std::getenv`: the bytes of a variable, or a null pointer.
abbrev pub Env : Type 0
Env = String → Option (List ℕ)

abbrev pub is_digit : ℕ → Bool
is_digit c = not (ltb c b'0') && not (ltb b'9' c)

-- The digits that `strtoull` takes in base 10, with no bound on the value, and where it stops.
pub scan_digits : ℕ → List ℕ → ℕ × List ℕ
scan_digits acc [] = (acc, [])
scan_digits acc (c ∷ cs) = elim (is_digit c) [
  | true ↦ scan_digits (acc * 10 + (c - b'0')) cs
  | false ↦ (acc, c ∷ cs)
]

abbrev pub is_empty {ℓ} : {A : Type ℓ} → List A → Bool
is_empty [] = true
is_empty (x ∷ xs) = false

abbrev pub u64_bound : ℕ
u64_bound = 2 ^ 64

-- The check behind `strtoull`: `errno == ERANGE || *end`. The first byte is a digit, so `end` has
-- moved.
pub finish_u64 : ℕ × List ℕ → Result ℕ
finish_u64 (v, rest) =
    if not (ltb v u64_bound) || not (is_empty rest) then err overflowing_integer else ok v

-- `cg_parse_u64` in base 10, the one base that is used; a null pointer is `none`.
pub cg_parse_u64 : Option (List ℕ) → Result ℕ
cg_parse_u64 none = err invalid_integer
cg_parse_u64 (some []) = err invalid_integer
cg_parse_u64 (some (c ∷ cs)) =
    if c == b'-' || c == b'+' || ltb c b'0' || ltb b'9' c
    then err invalid_integer
    else finish_u64 (scan_digits 0 (c ∷ cs))

-- `value && *value`.
abbrev pub is_set : Option (List ℕ) → Bool
is_set none = false
is_set (some []) = false
is_set (some (c ∷ cs)) = true

abbrev pub default_items : ℕ
default_items = 2 ^ 20

abbrev pub hard_limit : ℕ
hard_limit = 2 ^ 24

unfoldable pub check_limit : ℕ → Result ℕ
check_limit n = if n == 0 || ltb hard_limit n then err limit_out_of_range else ok n

unfoldable pub cg_max_items : Env → Result ℕ
cg_max_items getenv = do
  limit ←
      if is_set (getenv "CG_MAX_ITEMS")
      then cg_parse_u64 (getenv "CG_MAX_ITEMS")
      else ok default_items
  check_limit limit

-- `maximum ? maximum : cg_max_items()`.
unfoldable pub size_bound : Env → ℕ → Result ℕ
size_bound getenv maximum = if maximum == 0 then cg_max_items getenv else ok maximum

pub cg_parse_size : Env → Option (List ℕ) → Bool → ℕ → Result ℕ
cg_parse_size getenv value allow_zero maximum = do
  n ← cg_parse_u64 value
  reject_if (not allow_zero && n == 0) count_out_of_range
  bound ← size_bound getenv maximum
  reject_if (ltb bound n || not (ltb n u64_bound)) count_out_of_range
  ok n

unfoldable pub cg_config_size : Env → String → ℕ → ℕ → Bool → Result ℕ
cg_config_size getenv name fallback maximum allow_zero =
    if is_set (getenv name)
    then cg_parse_size getenv (getenv name) allow_zero maximum
    else ok fallback

pub cg_checked_add : Env → ℕ → ℕ → Result ℕ
cg_checked_add getenv a b = do
  limit ← cg_max_items getenv
  reject_if (ltb limit a) combined_count
  reject_if (ltb (limit - a) b) combined_count
  ok (a + b)

unfoldable pub cg_validate_count : Env → ℕ → Bool → Result (Unit {0})
cg_validate_count getenv n allow_zero = do
  reject_if (not allow_zero && n == 0) count_out_of_range
  limit ← cg_max_items getenv
  reject_if (ltb limit n) count_out_of_range

-- A size from the environment, or what stands for it.
unfoldable pub size_or : Env → Option (List ℕ) → ℕ → Result ℕ
size_or getenv variable fallback =
    if is_set variable then cg_parse_size getenv variable true 0 else ok fallback
