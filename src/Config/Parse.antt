-- ===== src/Config/Parse.antt =====
-- What `cg_parse_u64` of cg_config.hpp accepts: decimal digits and nothing else, below 2^64.
use rf_class_groups.Base.{
  ℕ, ◌+◌, ◌-◌, ◌*◌, ◌≤◌, ◌<◌, ◌≡◌, refl, ◌≢◌, ◌↔◌, some, List, [], ◌∷◌, All, ok, arith,
}
use rf_class_groups.Config.{scan_digits, finish_u64, cg_parse_u64, u64_bound}

abbrev pub IsDigit : ℕ → Type 0
IsDigit c = (b'0' ≤ c) × (c ≤ b'9')

-- The number that a row of digits stands for, the highest digit first.
abbrev pub decimal : ℕ → List ℕ → ℕ
decimal acc [] = acc
decimal acc (c ∷ cs) = decimal (acc * 10 + (c - b'0')) cs

scan_digits-All : (s : List ℕ) (acc : ℕ) → All IsDigit s → scan_digits acc s ≡ (decimal acc s, [])
unfolding scan_digits
scan_digits-All [] acc h = refl
scan_digits-All (c ∷ cs) acc h = ground (arith, scan_digits-All cs (acc * 10 + (c - b'0')) h.1)

scan_digits_done :
    (s : List ℕ) (acc v : ℕ) → scan_digits acc s ≡ (v, []) → All IsDigit s × (decimal acc s ≡ v)
unfolding scan_digits
scan_digits_done [] acc v h = (tt, ground arith)
scan_digits_done (c ∷ cs) acc v h = ground (arith, scan_digits_done cs (acc * 10 + (c - b'0')) v)

finish_u64_iff :
    (p : ℕ × List ℕ) (n : ℕ) → (finish_u64 p ≡ ok n) ↔ ((p ≡ (n, [])) × (n < u64_bound))
unfolding finish_u64
finish_u64_iff (v, []) n = (λ h. ground arith, λ h. ground arith)
finish_u64_iff (v, x ∷ xs) n = (λ h. ground arith, λ h. ground arith)

accepts :
    (c : ℕ) (cs : List ℕ) (n : ℕ)
    → cg_parse_u64 (some (c ∷ cs)) ≡ ok n
    → All IsDigit (c ∷ cs) × (decimal 0 (c ∷ cs) ≡ n) × (n < u64_bound)
unfolding cg_parse_u64
accepts c cs n h =
    ground (arith, (finish_u64_iff (scan_digits 0 (c ∷ cs)) n).0, scan_digits_done (c ∷ cs) 0 n)

reads :
    (c : ℕ) (cs : List ℕ) (n : ℕ)
    → All IsDigit (c ∷ cs)
    → decimal 0 (c ∷ cs) ≡ n
    → n < u64_bound
    → cg_parse_u64 (some (c ∷ cs)) ≡ ok n
unfolding cg_parse_u64
reads c cs n h e b =
    ground (arith, (finish_u64_iff (scan_digits 0 (c ∷ cs)) n).1, scan_digits-All (c ∷ cs) 0 h)

-- `cg_parse_u64` returns `n` exactly for the nonempty rows of decimal digits that stand for `n`,
-- with `n` below 2^64: no sign, no space, no suffix, no wrap-around.
pub cg_parse_u64_iff :
    (s : List ℕ) (n : ℕ)
    → (cg_parse_u64 (some s) ≡ ok n)
      ↔ ((s ≢ []) × All IsDigit s × (decimal 0 s ≡ n) × (n < u64_bound))
cg_parse_u64_iff [] n = (λ h. absurd (unfold cg_parse_u64 in cc), λ h. absurd (h.0 refl))
cg_parse_u64_iff (c ∷ cs) n =
    (λ h. let (d, e, b) = accepts c cs n h in (λ p. cc, d, e, b), λ h. reads c cs n h.1 h.2 h.3)
