-- ===== src/Base/Powers.antt =====
-- The modular arithmetic of BICYCL::Mpz that the code calls, as parameters, and powers modulo `q`.
use Prim.Native.Nat.{ℕ, zero, suc, ◌+◌, ◌*◌, ◌/◌, ◌%◌}
use mathlib.Core.Path.{◌≡◌, refl, sym, ap, ◌∙◌}
use mathlib.Core.Logic.{inl, inr}
use native.Mathlib.Omega.{arith}
use rf_class_groups.Base.Tests.{◌==◌, if◌then◌else◌, Bool-cases}
use rf_class_groups.Base.Congruence.{Cong, Cong-mod, Cong-mul, Cong-same}

pub record Mpz : Type 0 where
  -- `Mpz::mod_inverse(r, a, q)`.
  pub mod_inverse : ℕ → ℕ → ℕ
  -- `Mpz::pow_mod(r, b, e, q)`.
  pub pow_mod : ℕ → ℕ → ℕ → ℕ

-- b to the e, never computed.
pub power : ℕ → ℕ → ℕ
power b zero = 1
power b (suc e) = b * power b e

-- What the two operations are documented to compute, modulo `q`: an inverse where there is one, and
-- the residue of a power.
pub record IsMpz (mpz : Mpz) (q : ℕ) : Type 0 where
  pub inverse : (a b : ℕ) → Cong q (a * b) 1 → Cong q (a * mpz.mod_inverse a q) 1
  pub residue : (b e : ℕ) → mpz.pow_mod b e q ≡ power b e % q

pub power-zero : (b : ℕ) → power b 0 ≡ 1
unfolding power
power-zero b = refl

pub power-suc : (b e : ℕ) → power b (suc e) ≡ b * power b e
unfolding power
power-suc b e = refl

pub power-one : (b : ℕ) → power b 1 ≡ b
power-one b = power-suc b 0 ∙ ap (λ (t : ℕ). b * t) (power-zero b) ∙ omega arith

pub power-add : (b d e : ℕ) → power b (d + e) ≡ power b d * power b e
power-add b zero e =
    ap (power b) {x = 0 + e} {y = e} (omega arith) ∙ sym (rw (power-zero b) (omega arith))
power-add b (suc d) e =
    ap (power b) {x = suc d + e} {y = suc (d + e)} (omega arith)
    ∙ power-suc b (d + e)
    ∙ rw (power-add b d e, power-suc b d) (omega arith)

pub power-mul : (b d e : ℕ) → power b (d * e) ≡ power (power b d) e
power-mul b d zero =
    ap (power b) {x = d * 0} {y = 0} (omega arith) ∙ power-zero b ∙ sym (power-zero (power b d))
power-mul b d (suc e) =
    ap (power b) {x = d * suc e} {y = d + d * e} (omega arith)
    ∙ power-add b d (d * e)
    ∙ rw (power-mul b d e) (sym (power-suc (power b d) e))

pub one-power : (e : ℕ) → power 1 e ≡ 1
one-power zero = power-zero 1
one-power (suc e) = power-suc 1 e ∙ rw (one-power e) (omega arith)

pub product-power : (a b e : ℕ) → power (a * b) e ≡ power a e * power b e
product-power a b zero = power-zero (a * b) ∙ sym (rw (power-zero a, power-zero b) (omega arith))
product-power a b (suc e) =
    power-suc (a * b) e ∙ rw (product-power a b e, power-suc a e, power-suc b e) (omega arith)

pub Cong-power : (q a b e : ℕ) → Cong q a b → Cong q (power a e) (power b e)
Cong-power q a b zero h = Cong-same q _ _ (power-zero a ∙ sym (power-zero b))
Cong-power q a b (suc e) h =
    Cong-same q _ _ (power-suc a e)
    ∙ Cong-mul q a b (power a e) (power b e) h (Cong-power q a b e h)
    ∙ Cong-same q _ _ (sym (power-suc b e))

-- The residue of a power by repeated squaring, which does compute; `fuel` bounds the exponent's bits.
unfoldable pub square_multiply : ℕ → ℕ → ℕ → ℕ → ℕ
square_multiply zero q b e = 1
square_multiply (suc fuel) q b e =
    let rest = square_multiply fuel q (b * b % q) (e / 2) in
    if e % 2 == 0 then rest else (b * rest % q)

-- Fuel that reaches exponent 0.
abbrev pub halved : ℕ → ℕ → ℕ
halved zero e = e
halved (suc fuel) e = halved fuel (e / 2)

pub square_multiply-power :
    (fuel q b e : ℕ) → halved fuel e ≡ 0 → Cong q (square_multiply fuel q b e) (power b e)
unfolding square_multiply
square_multiply-power zero q b e h = Cong-same q _ _ (sym (rw h (power-zero b)))
square_multiply-power (suc fuel) q b e h =
    let rest =
      square_multiply-power fuel q (b * b % q) (e / 2) h
      ∙ Cong-power q (b * b % q) (b * b) (e / 2) (Cong-mod q (b * b))
      ∙ Cong-same q _ _ (product-power b b (e / 2) ∙ sym (power-add b (e / 2) (e / 2))) in
    elim (Bool-cases (e % 2 == 0)) [
      | inl even ↦
          rw even (rest ∙ Cong-same q _ _ (ap (power b) {x = e / 2 + e / 2} {y = e} (ground arith)))
      | inr odd ↦ rw odd (
          Cong-mod q _
          ∙ Cong-mul q b b _ _ refl rest
          ∙ Cong-same q _ _ (
              sym (power-suc b (e / 2 + e / 2))
              ∙ ap (power b) {x = suc (e / 2 + e / 2)} {y = e} (ground arith)))
    ]
