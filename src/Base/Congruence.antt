-- ===== src/Base/Congruence.antt =====
-- Congruence modulo `q` on the natural numbers, and `Mpz::sub` followed by `Mpz::mod`.
use Prim.Native.Nat.{ℕ, ◌+◌, ◌-◌, ◌*◌, ◌/◌, ◌%◌, ◌<◌}
use mathlib.Core.Path.{◌≡◌, sym, ap, ◌∙◌}
use native.Mathlib.Omega.{arith}
use native.Mathlib.Nat.{mod-mod, add-mod, div-add-mod, add-mul-mod_self_left, mul_comm, mod-lt}

abbrev pub Cong : ℕ → ℕ → ℕ → Type 0
Cong q a b = a % q ≡ b % q

-- Equal numbers are congruent.
pub Cong-same : (q a b : ℕ) → a ≡ b → Cong q a b
Cong-same q a b e = ap (λ (t : ℕ). t % q) e

pub Cong-zero_add : (q b : ℕ) → Cong q (0 + b) b
Cong-zero_add q b = Cong-same q (0 + b) b (omega arith)

pub Cong-mod : (q a : ℕ) → Cong q (a % q) a
Cong-mod q a = mod-mod a q

pub Cong-add : (q a b c d : ℕ) → Cong q a b → Cong q c d → Cong q (a + c) (b + d)
Cong-add q a b c d h k = add-mod a c q ∙ rw (h, k) (sym (add-mod b d q))

-- A multiple of the modulus does not count.
pub Cong-multiple : (q a k : ℕ) → Cong q (a + q * k) a
Cong-multiple q a k = add-mul-mod_self_left a q k

Cong-mul_left : (q a c : ℕ) → Cong q (a * c) (a % q * c)
Cong-mul_left q a c =
    ap (λ (t : ℕ). t % q) {x = a * c} {y = a % q * c + q * (a / q * c)}
      (omega (arith, ap (λ (t : ℕ). t * c) (div-add-mod a q)))
    ∙ Cong-multiple q (a % q * c) (a / q * c)

pub Cong-mul_right : (q a b c : ℕ) → Cong q a b → Cong q (a * c) (b * c)
Cong-mul_right q a b c h = Cong-mul_left q a c ∙ rw h (sym (Cong-mul_left q b c))

pub Cong-mul : (q a b c d : ℕ) → Cong q a b → Cong q c d → Cong q (a * c) (b * d)
Cong-mul q a b c d h k =
    Cong-mul_right q a b c h
    ∙ rw (mul_comm b c) (Cong-mul_right q c d b k)
    ∙ ap (λ (t : ℕ). t % q) (mul_comm d b)

-- `c` and what completes it to a multiple of `q`.
pub complement : (q c : ℕ) → 0 < q → c + (q - c % q) ≡ q * (c / q + 1)
complement q c h = omega (arith, div-add-mod c q, mod-lt c h)

pub Cong-cancel : (q a b c : ℕ) → 0 < q → Cong q (a + c) (b + c) → Cong q a b
Cong-cancel q a b c h e =
    sym (completed a) ∙ Cong-add q (a + c) (b + c) d d e (λ i. d % q) ∙ completed b
  where
    d : ℕ
    d = q - c % q

    completed : (n : ℕ) → Cong q (n + c + d) n
    completed n =
        ap (λ (t : ℕ). t % q) {x = n + c + d} {y = n + q * (c / q + 1)}
          (omega (arith, complement q c h))
        ∙ Cong-multiple q n (c / q + 1)

-- `Mpz::sub(r, a, b); Mpz::mod(r, r, q)` at nonnegative values.
unfoldable pub sub_mod : ℕ → ℕ → ℕ → ℕ
sub_mod a b q = (a + (q - b % q)) % q

pub sub_mod-add : (a b q : ℕ) → 0 < q → Cong q (sub_mod a b q + b) a
unfolding sub_mod
sub_mod-add a b q h =
    Cong-add q _ (a + (q - b % q)) b b (Cong-mod q _) (λ i. b % q)
    ∙ ap (λ (t : ℕ). t % q) {x = a + (q - b % q) + b} {y = a + q * (b / q + 1)}
        (omega (arith, complement q b h))
    ∙ Cong-multiple q a (b / q + 1)

pub sub_mod-Cong : (a b q : ℕ) → Cong q (sub_mod a b q) (a + (q - b % q))
unfolding sub_mod
sub_mod-Cong a b q = Cong-mod q (a + (q - b % q))

pub sub_mod-lt : (a b q : ℕ) → 0 < q → sub_mod a b q < q
unfolding sub_mod
sub_mod-lt a b q h = mod-lt _ h
