-- ===== src/Poly/Series.antt =====
-- The coefficients of a polynomial as a function of the index, and the Cauchy product.
use rf_class_groups.Base.{
  ℕ, zero, suc, ◌+◌, ◌*◌, ◌≤◌, ◌≡◌, refl, ap, ◌∙◌, [], ◌∷◌, length, get_or, Cong, Cong-add,
  Cong-mul, arith,
}
use rf_class_groups.Poly.{Poly}

-- Beyond its size a polynomial has the coefficient 0.
abbrev pub coefficient : Poly → ℕ → ℕ
coefficient p i = get_or p i 0

abbrev pub cauchy : (ℕ → ℕ) → (ℕ → ℕ) → ℕ → ℕ
cauchy f g zero = f 0 * g 0
cauchy f g (suc k) = f 0 * g (suc k) + cauchy (λ i. f (suc i)) g k

-- Multiplication by the power X^h.
abbrev pub delay : ℕ → (ℕ → ℕ) → ℕ → ℕ
delay zero f i = f i
delay (suc h) f zero = 0
delay (suc h) f (suc i) = delay h f i

-- All coefficients are congruent.
abbrev pub AreSame : ℕ → (ℕ → ℕ) → (ℕ → ℕ) → Type 0
AreSame q f g = (i : ℕ) → Cong q (f i) (g i)

pub cauchy-AreSame :
    (q : ℕ) (f f' g g' : ℕ → ℕ)
    → AreSame q f f'
    → AreSame q g g'
    → AreSame q (cauchy f g) (cauchy f' g')
cauchy-AreSame q f f' g g' h k zero = Cong-mul q (f 0) (f' 0) (g 0) (g' 0) (h 0) (k 0)
cauchy-AreSame q f f' g g' h k (suc i) =
    Cong-add q (f 0 * g (suc i)) (f' 0 * g' (suc i)) (cauchy (λ j. f (suc j)) g i)
      (cauchy (λ j. f' (suc j)) g' i)
      (Cong-mul q (f 0) (f' 0) (g (suc i)) (g' (suc i)) (h 0) (k (suc i)))
      (cauchy-AreSame q (λ j. f (suc j)) (λ j. f' (suc j)) g g' (λ j. h (suc j)) k i)

pub delay-AreSame : (q h : ℕ) (f g : ℕ → ℕ) → AreSame q f g → AreSame q (delay h f) (delay h g)
delay-AreSame q zero f g e i = e i
delay-AreSame q (suc h) f g e zero = refl
delay-AreSame q (suc h) f g e (suc i) = delay-AreSame q h f g e i

pub delay-sum :
    (h : ℕ) (f g : ℕ → ℕ) (i : ℕ) → delay h (λ j. f j + g j) i ≡ delay h f i + delay h g i
delay-sum zero f g i = refl
delay-sum (suc h) f g zero = omega arith
delay-sum (suc h) f g (suc i) = delay-sum h f g i

pub delay-twice : (h k : ℕ) (f : ℕ → ℕ) (i : ℕ) → delay h (delay k f) i ≡ delay (h + k) f i
delay-twice zero k f i = ap (λ (n : ℕ). delay n f i) {x = k} {y = zero + k} (omega arith)
delay-twice (suc h) k f zero =
    ap (λ (n : ℕ). delay n f 0) {x = suc (h + k)} {y = suc h + k} (omega arith)
delay-twice (suc h) k f (suc i) =
    delay-twice h k f i
    ∙ ap (λ (n : ℕ). delay n f (suc i)) {x = suc (h + k)} {y = suc h + k} (omega arith)

pub cauchy-sum_left :
    (f f' g : ℕ → ℕ) (k : ℕ) → cauchy (λ i. f i + f' i) g k ≡ cauchy f g k + cauchy f' g k
cauchy-sum_left f f' g zero = omega arith
cauchy-sum_left f f' g (suc k) =
    omega (arith, cauchy-sum_left (λ i. f (suc i)) (λ i. f' (suc i)) g k)

pub cauchy-sum_right :
    (f g g' : ℕ → ℕ) (k : ℕ) → cauchy f (λ i. g i + g' i) k ≡ cauchy f g k + cauchy f g' k
cauchy-sum_right f g g' zero = omega arith
cauchy-sum_right f g g' (suc k) = omega (arith, cauchy-sum_right (λ i. f (suc i)) g g' k)

pub cauchy-delay_left :
    (h : ℕ) (f g : ℕ → ℕ) (k : ℕ) → cauchy (delay h f) g k ≡ delay h (cauchy f g) k
cauchy-delay_left zero f g k = refl
cauchy-delay_left (suc h) f g zero = omega arith
cauchy-delay_left (suc h) f g (suc k) = omega (arith, cauchy-delay_left h f g k)

cauchy-delay-suc :
    (h : ℕ) (f g : ℕ → ℕ) (k : ℕ) → cauchy f (delay (suc h) g) (suc k) ≡ cauchy f (delay h g) k
cauchy-delay-suc h f g zero = omega arith
cauchy-delay-suc h f g (suc k) = omega (arith, cauchy-delay-suc h (λ i. f (suc i)) g k)

pub cauchy-delay_right :
    (h : ℕ) (f g : ℕ → ℕ) (k : ℕ) → cauchy f (delay h g) k ≡ delay h (cauchy f g) k
cauchy-delay_right zero f g k = refl
cauchy-delay_right (suc h) f g zero = omega arith
cauchy-delay_right (suc h) f g (suc k) = cauchy-delay-suc h f g k ∙ cauchy-delay_right h f g k

pub cauchy-nothing : (g : ℕ → ℕ) (k : ℕ) → cauchy (λ i. 0) g k ≡ 0
cauchy-nothing g zero = omega arith
cauchy-nothing g (suc k) = omega (arith, cauchy-nothing g k)

pub cauchy-nothing_right : (f : ℕ → ℕ) (k : ℕ) → cauchy f (λ i. 0) k ≡ 0
cauchy-nothing_right f zero = omega arith
cauchy-nothing_right f (suc k) = omega (arith, cauchy-nothing_right (λ i. f (suc i)) k)

pub coefficient-beyond : (p : Poly) (i : ℕ) → length p ≤ i → coefficient p i ≡ 0
coefficient-beyond [] i h = refl
coefficient-beyond (c ∷ p) zero h = absurd (omega arith)
coefficient-beyond (c ∷ p) (suc i) h = coefficient-beyond p i (omega arith)

-- A product has no coefficients beyond the two sizes.
pub cauchy-beyond :
    (a b : Poly) (i : ℕ)
    → length a + length b ≤ suc i
    → cauchy (coefficient a) (coefficient b) i ≡ 0
cauchy-beyond [] b i h = cauchy-nothing (coefficient b) i
cauchy-beyond (a ∷ as') b zero h =
    omega (arith, ap (λ (t : ℕ). a * t) (coefficient-beyond b 0 (omega arith)))
cauchy-beyond (a ∷ as') b (suc i) h = omega (
  arith,
  ap (λ (t : ℕ). a * t) (coefficient-beyond b (suc i) (omega arith)),
  cauchy-beyond as' b i (omega arith),
)

-- A polynomial is known by its size and its coefficients.
pub coefficients-determine :
    (a b : Poly) → length a ≡ length b → ((i : ℕ) → coefficient a i ≡ coefficient b i) → a ≡ b
coefficients-determine [] [] h e = refl
coefficients-determine [] (b ∷ bs) h e = absurd (omega arith)
coefficients-determine (a ∷ as') [] h e = absurd (omega arith)
coefficients-determine (a ∷ as') (b ∷ bs) h e =
    let head = e 0 in
    let tail = coefficients-determine as' bs (omega arith) (λ i. e (suc i)) in rw (head, tail) refl
