-- ===== src/Poly/Functions.antt =====
-- Functions that are polynomials modulo `q` with a bounded number of coefficients.
use rf_class_groups.Base.{
  ℕ, suc, ◌+◌, ◌*◌, ◌≤◌, ◌≡◌, refl, ap, ◌∙◌, [], ◌∷◌, length, map, length-map, Cong, Cong-same,
  Cong-add, Cong-mul, arith,
}
use rf_class_groups.Poly.{Poly, add_each}
use rf_class_groups.Poly.Values.{value, value-add_each}
use rf_class_groups.Poly.Sizes.{length-add_each}

module _ (q : ℕ) where
  -- A polynomial with at most `n` coefficients that has the values of `f`.
  abbrev pub IsPoly : ℕ → (ℕ → ℕ) → Type 0
  IsPoly n f = (p : Poly) × (length p ≤ n) × ((x : ℕ) → Cong q (value p x) (f x))

  pub IsPoly-same : (n : ℕ) (f g : ℕ → ℕ) → ((x : ℕ) → Cong q (f x) (g x)) → IsPoly n f → IsPoly n g
  IsPoly-same n f g same h = (h.0, h.1, λ x. h.2 x ∙ same x)

  pub IsPoly-zero : (n : ℕ) → IsPoly n (λ x. 0)
  IsPoly-zero n = ([], omega arith, λ x. refl)

  pub IsPoly-constant : (c : ℕ) → IsPoly 1 (λ x. c)
  IsPoly-constant c = (c ∷ [], omega arith, λ x. Cong-same q (c + x * 0) c (omega arith))

  pub IsPoly-add : (n : ℕ) (f g : ℕ → ℕ) → IsPoly n f → IsPoly n g → IsPoly n (λ x. f x + g x)
  IsPoly-add n f g h k = (
    add_each q h.0 k.0,
    length-add_each q h.0 k.0 n h.1 k.1,
    λ x.
        value-add_each q h.0 k.0 x
        ∙ Cong-add q (value h.0 x) (f x) (value k.0 x) (g x) (h.2 x) (k.2 x),
  )

  value-scaled : (c : ℕ) (p : Poly) (x : ℕ) → value (map (λ d. c * d) p) x ≡ c * value p x
  value-scaled c [] x = omega arith
  value-scaled c (d ∷ p) x = omega (arith, ap (λ (t : ℕ). x * t) (value-scaled c p x))

  pub IsPoly-scale : (c n : ℕ) (f : ℕ → ℕ) → IsPoly n f → IsPoly n (λ x. c * f x)
  IsPoly-scale c n f h = (
    map (λ d. c * d) h.0,
    omega (arith, length-map h.0 (λ d. c * d), h.1),
    λ x. rw (value-scaled c h.0 x) (Cong-mul q c c (value h.0 x) (f x) refl (h.2 x)),
  )

  -- Multiplication by X + c.
  pub IsPoly-linear : (c n : ℕ) (f : ℕ → ℕ) → IsPoly n f → IsPoly (suc n) (λ x. f x * (x + c))
  IsPoly-linear c n f h =
      IsPoly-same (suc n) (λ x. x * f x + c * f x) (λ x. f x * (x + c))
        (λ x. Cong-same q (x * f x + c * f x) (f x * (x + c)) (omega arith))
        (IsPoly-add (suc n) (λ x. x * f x) (λ x. c * f x)
          (
            0 ∷ h.0,
            omega (arith, h.1),
            λ x.
                Cong-same q (0 + x * value h.0 x) (x * value h.0 x) (omega arith)
                ∙ Cong-mul q x x (value h.0 x) (f x) refl (h.2 x),
          )
          (IsPoly-weaken (IsPoly-scale c n f h)))
    where
      IsPoly-weaken : IsPoly n (λ x. c * f x) → IsPoly (suc n) (λ x. c * f x)
      IsPoly-weaken k = (k.0, omega (arith, k.1), k.2)
