-- ===== src/Base/Field.antt =====
-- `Mpz::mod_inverse` modulo the prime `q`, as a parameter, and what an inverse allows.
use Prim.Native.Nat.{ℕ, ◌+◌, ◌-◌, ◌*◌, ◌%◌, ◌≤◌, ◌<◌}
use mathlib.Core.Path.{◌≡◌, refl, sym, ap, ◌∙◌}
use native.Mathlib.Omega.{arith}
use native.Mathlib.Nat.{mod-lt, mod-eq_of_lt, zero-mod}
use rf_class_groups.Base.Congruence.{
  Cong, Cong-mod, Cong-add, Cong-mul, Cong-mul_right, Cong-multiple, Cong-cancel,
}

-- Z_q is a field, and `mod_inverse` gives the inverse of what is not 0 in it.
abbrev pub IsField : (ℕ → ℕ → ℕ) → ℕ → Type 0
IsField mod_inverse q = (2 ≤ q) × ((a : ℕ) → ¬ Cong q a 0 → Cong q (a * mod_inverse a q) 1)

module _ (mod_inverse : ℕ → ℕ → ℕ) (q : ℕ) (field : IsField mod_inverse q) where
  -- There are no divisors of zero.
  pub field-no_divisors : (a b : ℕ) → ¬ Cong q a 0 → Cong q (a * b) 0 → Cong q b 0
  field-no_divisors a b nonzero h =
      let c = mod_inverse a q in
      ap (λ (t : ℕ). t % q) {x = b} {y = 1 * b} (omega arith)
      ∙ sym (Cong-mul_right q (a * c) 1 b (field.1 a nonzero))
      ∙ ap (λ (t : ℕ). t % q) {x = a * c * b} {y = a * b * c} (omega arith)
      ∙ Cong-mul_right q (a * b) 0 c h
      ∙ ap (λ (t : ℕ). t % q) {x = 0 * c} {y = 0} (omega arith)

  pub field-nonzero_product : (a b : ℕ) → ¬ Cong q a 0 → ¬ Cong q b 0 → ¬ Cong q (a * b) 0
  field-nonzero_product a b h k z = k (field-no_divisors a b h z)

  -- The nonzero residues.
  pub field-small_nonzero : (a : ℕ) → 1 ≤ a → a < q → ¬ Cong q a 0
  field-small_nonzero a h k z = absurd (omega (arith, mod-eq_of_lt k, zero-mod q, z))

  -- Two different factors that give the same product.
  pub field-cancel : (a b t : ℕ) → ¬ Cong q a b → Cong q (a * t) (b * t) → Cong q t 0
  field-cancel a b t different h =
      field-no_divisors (a + (q - b % q)) t
        (λ z. different (
          ap (λ (n : ℕ). n % q) {x = a} {y = a + 0} (omega arith)
          ∙ sym (Cong-multiple q (a + 0) 1)
          ∙ ap (λ (n : ℕ). n % q) {x = a + 0 + q * 1} {y = a + (q - b % q) + b % q}
              (omega (arith, mod-lt b (positive)))
          ∙ Cong-add q (a + (q - b % q)) 0 (b % q) b z (Cong-mod q b)
          ∙ ap (λ (n : ℕ). n % q) {x = 0 + b} {y = b} (omega arith)))
        (Cong-cancel q ((a + (q - b % q)) * t) 0 (b % q * t) positive (
          ap (λ (n : ℕ). n % q) {x = (a + (q - b % q)) * t + b % q * t} {y = a * t + q * t}
            (rebuilt (q - b % q) (b % q) (omega (arith, mod-lt b positive)))
          ∙ Cong-multiple q (a * t) t
          ∙ h
          ∙ sym (Cong-mul_right q (b % q) b t (Cong-mod q b))
          ∙ ap (λ (n : ℕ). n % q) {x = b % q * t} {y = 0 + b % q * t} (omega arith)))
    where
      positive : 0 < q
      positive = omega (arith, field.0)

      rebuilt : (u v : ℕ) → u + v ≡ q → (a + u) * t + v * t ≡ a * t + q * t
      rebuilt u v e = rw (sym e) (omega arith)

  -- A nonzero factor can be taken away.
  pub field-cancel_left : (d a b : ℕ) → ¬ Cong q d 0 → Cong q (d * a) (d * b) → Cong q a b
  field-cancel_left d a b nonzero h =
      sym (undone a)
      ∙ Cong-mul q (mod_inverse d q) (mod_inverse d q) (d * a) (d * b) refl h
      ∙ undone b
    where
      undone : (n : ℕ) → Cong q (mod_inverse d q * (d * n)) n
      undone n =
          ap (λ (t : ℕ). t % q) {x = mod_inverse d q * (d * n)} {y = d * mod_inverse d q * n}
            (omega arith)
          ∙ Cong-mul_right q (d * mod_inverse d q) 1 n (field.1 d nonzero)
          ∙ ap (λ (t : ℕ). t % q) {x = 1 * n} {y = n} (omega arith)

  -- Congruent numbers have congruent inverses.
  pub field-inverse :
      (a b : ℕ) → ¬ Cong q a 0 → Cong q a b → Cong q (mod_inverse a q) (mod_inverse b q)
  field-inverse a b nonzero h = field-cancel_left a (mod_inverse a q) (mod_inverse b q) nonzero (
      field.1 a nonzero
      ∙ sym (field.1 b (λ z. nonzero (h ∙ z)))
      ∙ sym (Cong-mul_right q a b (mod_inverse b q) h))
