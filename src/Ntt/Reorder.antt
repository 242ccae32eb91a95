-- ===== src/Ntt/Reorder.antt =====
-- The entries of a vector in the order of the reversed bits of their indices.
use rf_class_groups.Base.{
  ℕ, zero, suc, ◌+◌, ◌*◌, ◌-◌, ◌≤◌, ◌<◌, ◌≡◌, inl, inr, refl, sym, ap, ◌∙◌, ltb, ltb→lt, Bool-cases,
  List, [], ◌∷◌, ◌++◌, length, length-append, get_or, arith,
}
use rf_class_groups.Base.Bits.{pow2}
use rf_class_groups.Ntt.Order.{reversed, reversed-low, reversed-high}

-- The entries at even and at odd indices.
abbrev pub evens : List ℕ → List ℕ
evens [] = []
evens (x ∷ []) = x ∷ []
evens (x ∷ y ∷ xs) = x ∷ evens xs

abbrev pub odds : List ℕ → List ℕ
odds [] = []
odds (x ∷ []) = []
odds (x ∷ y ∷ xs) = y ∷ odds xs

-- The order in which the stages take their entries.
unfoldable pub reorder : ℕ → List ℕ → List ℕ
reorder zero a = a
reorder (suc k) a = reorder k (evens a) ++ reorder k (odds a)

pub length-evens : (n : ℕ) (a : List ℕ) → length a ≡ 2 * n → length (evens a) ≡ n
length-evens n [] h = omega arith
length-evens n (x ∷ []) h = absurd (omega arith)
length-evens zero (x ∷ y ∷ a) h = absurd (omega arith)
length-evens (suc n) (x ∷ y ∷ a) h = ap suc (length-evens n a (omega arith))

pub length-odds : (n : ℕ) (a : List ℕ) → length a ≡ 2 * n → length (odds a) ≡ n
length-odds n [] h = omega arith
length-odds n (x ∷ []) h = absurd (omega arith)
length-odds zero (x ∷ y ∷ a) h = absurd (omega arith)
length-odds (suc n) (x ∷ y ∷ a) h = ap suc (length-odds n a (omega arith))

pub length-reorder : (k : ℕ) (a : List ℕ) → length a ≡ pow2 k → length (reorder k a) ≡ pow2 k
unfolding reorder
length-reorder zero a h = h
length-reorder (suc k) a h =
    length-append (reorder k (evens a)) (reorder k (odds a))
    ∙ omega (
      arith,
      length-reorder k (evens a) (length-evens (pow2 k) a h),
      length-reorder k (odds a) (length-odds (pow2 k) a h),
    )

pub get_or-evens : (a : List ℕ) (i : ℕ) → get_or (evens a) i 0 ≡ get_or a (2 * i) 0
get_or-evens [] i = refl
get_or-evens (x ∷ []) zero = refl
get_or-evens (x ∷ []) (suc i) =
    ap (λ (j : ℕ). get_or (x ∷ []) j 0) {x = suc (suc (2 * i))} {y = 2 * suc i} (omega arith)
get_or-evens (x ∷ y ∷ a) zero = refl
get_or-evens (x ∷ y ∷ a) (suc i) =
    get_or-evens a i
    ∙ ap (λ (j : ℕ). get_or (x ∷ y ∷ a) j 0) {x = suc (suc (2 * i))} {y = 2 * suc i} (omega arith)

pub get_or-odds : (a : List ℕ) (i : ℕ) → get_or (odds a) i 0 ≡ get_or a (suc (2 * i)) 0
get_or-odds [] i = refl
get_or-odds (x ∷ []) i = refl
get_or-odds (x ∷ y ∷ a) zero = refl
get_or-odds (x ∷ y ∷ a) (suc i) =
    get_or-odds a i
    ∙ ap (λ (j : ℕ). get_or (x ∷ y ∷ a) j 0) {x = suc (suc (suc (2 * i)))} {y = suc (2 * suc i)}
        (omega arith)

pub get_or-append_left :
    (xs ys : List ℕ) (i : ℕ) → i < length xs → get_or (xs ++ ys) i 0 ≡ get_or xs i 0
get_or-append_left [] ys i h = absurd (omega arith)
get_or-append_left (x ∷ xs) ys zero h = refl
get_or-append_left (x ∷ xs) ys (suc i) h = get_or-append_left xs ys i (omega arith)

pub get_or-append_right :
    (xs ys : List ℕ) (i : ℕ) → length xs ≤ i → get_or (xs ++ ys) i 0 ≡ get_or ys (i - length xs) 0
get_or-append_right [] ys i h = ap (λ (j : ℕ). get_or ys j 0) {x = i} {y = i - 0} (omega arith)
get_or-append_right (x ∷ xs) ys zero h = absurd (omega arith)
get_or-append_right (x ∷ xs) ys (suc i) h =
    get_or-append_right xs ys i (omega arith)
    ∙ ap (λ (j : ℕ). get_or ys j 0) {x = i - length xs} {y = suc i - suc (length xs)} (omega arith)

-- The entry of the reordered vector.
pub get_or-reorder :
    (k : ℕ) (a : List ℕ) (i : ℕ)
    → length a ≡ pow2 k
    → i < pow2 k
    → get_or (reorder k a) i 0 ≡ get_or a (reversed k i) 0
unfolding reorder
get_or-reorder zero a i l h =
    ap (λ (j : ℕ). get_or a j 0) {x = i} {y = reversed 0 i} (unfold reversed in omega arith)
get_or-reorder (suc k) a i l h =
    let size = length-reorder k (evens a) (length-evens (pow2 k) a l) in
    elim (Bool-cases (ltb i (pow2 k))) [
      | inl low ↦
          let below = ltb→lt i (pow2 k) low in
          get_or-append_left (reorder k (evens a)) (reorder k (odds a)) i (omega (arith, size))
          ∙ get_or-reorder k (evens a) i (length-evens (pow2 k) a l) below
          ∙ get_or-evens a (reversed k i)
          ∙ ap (λ (j : ℕ). get_or a j 0) (sym (reversed-low k i below))
      | inr high ↦
          let above : pow2 k ≤ i = ground arith in
          let rest : i - pow2 k < pow2 k = omega arith in
          get_or-append_right (reorder k (evens a)) (reorder k (odds a)) i (omega (arith, size))
          ∙ ap (λ (j : ℕ). get_or (reorder k (odds a)) j 0) {x = i - length (reorder k (evens a))}
              {y = i - pow2 k} (omega (arith, size))
          ∙ get_or-reorder k (odds a) (i - pow2 k) (length-odds (pow2 k) a l) rest
          ∙ get_or-odds a (reversed k (i - pow2 k))
          ∙ ap (λ (j : ℕ). get_or a j 0) {x = suc (2 * reversed k (i - pow2 k))}
              {y = reversed (suc k) i}
              (omega (
                arith,
                reversed-high k (i - pow2 k) rest,
                ap (reversed (suc k)) {x = pow2 k + (i - pow2 k)} {y = i} (omega arith),
              ))
    ]

-- Vectors of one length with the same entries are the same.
pub entries-determine :
    (xs ys : List ℕ)
    → length xs ≡ length ys
    → ((i : ℕ) → i < length xs → get_or xs i 0 ≡ get_or ys i 0)
    → xs ≡ ys
entries-determine [] [] l h = refl
entries-determine [] (y ∷ ys) l h = absurd (omega arith)
entries-determine (x ∷ xs) [] l h = absurd (omega arith)
entries-determine (x ∷ xs) (y ∷ ys) l h =
    let first : x ≡ y = h 0 (omega arith) in
    let rest = entries-determine xs ys (omega arith) (λ i below. h (suc i) (omega arith)) in
    rw (first, rest) refl
