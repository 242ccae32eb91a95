-- ===== src/Psi/Reveal/Filter.antt =====
-- The sender's filter on the revealed slots.
use rf_class_groups.Base.{
  ℕ, zero, suc, ◌-◌, ◌≤◌, ◌<◌, ◌≡◌, ◌≢◌, refl, sym, ap, ◌∙◌, inl, inr, Bool, true, false, ◌==◌,
  ==_iff, Bool-cases, Bool-clash, ≢→==, ==→≢, if◌then◌else◌, List, [], ◌∷◌, ◌++◌, map, length, All,
  All-combine, pos, arith,
}
use rf_class_groups.Psi.Validation.{IsDistinct}
use rf_class_groups.Psi.Membership.{is_member, select}
use rf_class_groups.Psi.Reveal.{reveal_slots, keep_own}

-- No element again later in the list.
abbrev pub AreDifferent : List ℕ → Type 0
AreDifferent [] = Unit {0}
AreDifferent (x ∷ xs) = (is_member x xs ≡ false) × AreDifferent xs

absent : (x : ℕ) (xs : List ℕ) → All (λ y. pos x ≢ y) (map pos xs) → is_member x xs ≡ false
unfolding is_member
absent x [] h = refl
absent x (y ∷ xs) h = rw (≢→== x y (λ e. h.0 (ap pos e))) (absent x xs h.1)

pub IsDistinct-AreDifferent : (xs : List ℕ) → IsDistinct (map pos xs) → AreDifferent xs
IsDistinct-AreDifferent [] h = tt
IsDistinct-AreDifferent (x ∷ xs) h = (absent x xs h.0, IsDistinct-AreDifferent xs h.1)

-- A value that is not in a list is none of its elements.
absent-All : (x : ℕ) (xs : List ℕ) → is_member x xs ≡ false → All (λ y. (y == x) ≡ false) xs
unfolding is_member
absent-All x [] h = tt
absent-All x (y ∷ xs) h = elim (Bool-cases (x == y)) [
  | inl e ↦ absurd (Bool-clash refl (rw e at h))
  | inr e ↦ (≢→== y x (λ same. ==→≢ x y e (sym same)), absent-All x xs (rw e at h))
]

select-absent :
    (test : ℕ → Bool) (x : ℕ) (xs : List ℕ)
    → is_member x xs ≡ false
    → is_member x (select test xs) ≡ false
unfolding is_member select
select-absent test x [] h = refl
select-absent test x (y ∷ xs) h = elim (Bool-cases (x == y)) [
  | inl e ↦ absurd (Bool-clash refl (rw e at h))
  | inr e ↦ elim (Bool-cases (test y)) [
    | inl t ↦ rw (t, e) (select-absent test x xs (rw e at h))
    | inr t ↦ rw t (select-absent test x xs (rw e at h))
  ]
]

pub select-AreDifferent :
    (test : ℕ → Bool) (xs : List ℕ) → AreDifferent xs → AreDifferent (select test xs)
unfolding select
select-AreDifferent test [] h = tt
select-AreDifferent test (x ∷ xs) h = elim (Bool-cases (test x)) [
  | inl t ↦ rw t (select-absent test x xs h.0, select-AreDifferent test xs h.1)
  | inr t ↦ rw t (select-AreDifferent test xs h.1)
]

pub select-All : (test : ℕ → Bool) (xs : List ℕ) → All (λ x. test x ≡ true) (select test xs)
unfolding select
select-All test [] = tt
select-All test (x ∷ xs) = elim (Bool-cases (test x)) [
  | inl t ↦ rw t (t, select-All test xs)
  | inr t ↦ rw t (select-All test xs)
]

pub length-select : (test : ℕ → Bool) (xs : List ℕ) → length (select test xs) ≤ length xs
unfolding select
length-select test [] = omega arith
length-select test (x ∷ xs) = elim (Bool-cases (test x)) [
  | inl t ↦ rw t (omega (arith, length-select test xs))
  | inr t ↦ rw t (omega (arith, length-select test xs))
]

-- A list without the first occurrence of a value.
without : ℕ → List ℕ → List ℕ
without x [] = []
without x (y ∷ ys) = let rest = without x ys in if y == x then ys else y ∷ rest

length-without :
    (x : ℕ) (ys : List ℕ) → is_member x ys ≡ true → suc (length (without x ys)) ≡ length ys
unfolding without is_member
length-without x [] h = absurd (Bool-clash h refl)
length-without x (y ∷ ys) h = elim (Bool-cases (y == x)) [
  | inl e ↦ rw e refl
  | inr e ↦ rw e (ap suc (length-without x ys (rw (≢→== x y (λ same. ==→≢ y x e (sym same))) at h)))
]

member-without :
    (x z : ℕ) (ys : List ℕ)
    → (z == x) ≡ false
    → is_member z ys ≡ true
    → is_member z (without x ys) ≡ true
unfolding without is_member
member-without x z [] d h = h
member-without x z (y ∷ ys) d h = elim (Bool-cases (y == x)) [
  | inl e ↦ let same = (==_iff y x).0 e in rw e (rw (≢→== z y (λ k. ==→≢ z x d (k ∙ same))) at h)
  | inr e ↦ rw e (elim (Bool-cases (z == y)) [
    | inl k ↦ rw k refl
    | inr k ↦ rw k (member-without x z ys d (rw k at h))
  ])
]

-- Different elements of a list are no more than its elements.
pub length-members :
    (xs ys : List ℕ) → AreDifferent xs → All (λ x. is_member x ys ≡ true) xs → length xs ≤ length ys
length-members [] ys d h = omega arith
length-members (x ∷ xs) ys d h = omega (
  arith,
  length-without x ys h.0,
  length-members xs (without x ys) d.1 (
      All-combine (λ z. (z == x) ≡ false) (λ z. is_member z ys ≡ true)
        (λ z. is_member z (without x ys) ≡ true) xs (λ z. member-without x z ys)
        (absent-All x xs d.0) h.1),
)

-- The values seen after a list was taken.
abbrev push_all : List ℕ → List ℕ → List ℕ
push_all [] seen = seen
push_all (x ∷ xs) seen = push_all xs (x ∷ seen)

not_seen :
    (x : ℕ) (seen xs : List ℕ)
    → All (λ y. is_member y seen ≡ false) xs
    → is_member x xs ≡ false
    → All (λ y. is_member y (x ∷ seen) ≡ false) xs
unfolding is_member
not_seen x seen xs h k =
    All-combine (λ y. is_member y seen ≡ false) (λ y. (y == x) ≡ false)
      (λ y. is_member y (x ∷ seen) ≡ false) xs (λ y a b. rw b a) h (absent-All x xs k)

-- Different values of the own set pass, and the padding is left.
keep_own-members :
    (own seen xs : List ℕ) (n : ℕ)
    → AreDifferent xs
    → All (λ x. is_member x own ≡ true) xs
    → All (λ x. is_member x seen ≡ false) xs
    → length xs ≤ n
    → keep_own own seen (reveal_slots n xs)
      ≡ xs ++ keep_own own (push_all xs seen) (reveal_slots (n - length xs) [])
unfolding keep_own reveal_slots
keep_own-members own seen [] n d h k l = let same : n - 0 ≡ n = omega arith in rw same refl
keep_own-members own seen (x ∷ xs) zero d h k l = absurd (omega arith)
keep_own-members own seen (x ∷ xs) (suc n) d h k l =
    let same : suc n - suc (length xs) ≡ n - length xs = omega arith in
    rw (same, h.0, k.0)
      (ap (◌∷◌ x)
        (keep_own-members own (x ∷ seen) xs n d.1 h.1 (not_seen x seen xs k.1 d.0) (omega arith)))

keep_own-padding :
    (own seen : List ℕ) (n : ℕ)
    → is_member 0 own ≡ false
    → keep_own own seen (reveal_slots n []) ≡ []
unfolding keep_own reveal_slots
keep_own-padding own seen zero h = refl
keep_own-padding own seen (suc n) h = rw h (keep_own-padding own seen n h)

nothing_seen : (xs : List ℕ) → All (λ x. is_member x [] ≡ false) xs
unfolding is_member
nothing_seen [] = tt
nothing_seen (x ∷ xs) = (refl, nothing_seen xs)

-- Where 0 is not in the own set, the filter gives back what was revealed.
pub keep_own-reveal_slots :
    (own xs : List ℕ) (n : ℕ)
    → AreDifferent xs
    → All (λ x. is_member x own ≡ true) xs
    → length xs ≤ n
    → is_member 0 own ≡ false
    → keep_own own [] (reveal_slots n xs) ≡ xs
keep_own-reveal_slots own xs n d h l z =
    keep_own-members own [] xs n d h (nothing_seen xs) l
    ∙ rw (keep_own-padding own (push_all xs []) (n - length xs) z) (append-nil xs)
  where
    append-nil : (ys : List ℕ) → ys ++ [] ≡ ys
    append-nil [] = refl
    append-nil (y ∷ ys) = ap (◌∷◌ y) (append-nil ys)

pub length-reveal_slots : (n : ℕ) (xs : List ℕ) → length (reveal_slots n xs) ≡ n
unfolding reveal_slots
length-reveal_slots zero xs = refl
length-reveal_slots (suc n) [] = ap suc (length-reveal_slots n [])
length-reveal_slots (suc n) (x ∷ xs) = ap suc (length-reveal_slots n xs)

zeros_seen :
    (own seen : List ℕ) (n : ℕ)
    → is_member 0 seen ≡ true
    → keep_own own seen (reveal_slots n []) ≡ []
unfolding keep_own reveal_slots
zeros_seen own seen zero h = refl
zeros_seen own seen (suc n) h = elim (Bool-cases (is_member 0 own)) [
  | inl e ↦ rw (e, h) (zeros_seen own seen n h)
  | inr e ↦ rw e (zeros_seen own seen n h)
]

push_all-absent :
    (z : ℕ) (xs seen : List ℕ)
    → is_member z xs ≡ false
    → is_member z seen ≡ false
    → is_member z (push_all xs seen) ≡ false
unfolding is_member
push_all-absent z [] seen h k = k
push_all-absent z (x ∷ xs) seen h k = elim (Bool-cases (z == x)) [
  | inl e ↦ absurd (Bool-clash refl (rw e at h))
  | inr e ↦ push_all-absent z xs (x ∷ seen) (rw e at h) (rw e k)
]

-- Where 0 is in the own set but was not revealed, a free slot adds it.
pub keep_own-false_zero :
    (own xs : List ℕ) (n : ℕ)
    → AreDifferent xs
    → All (λ x. is_member x own ≡ true) xs
    → length xs < n
    → is_member 0 own ≡ true
    → is_member 0 xs ≡ false
    → keep_own own [] (reveal_slots n xs) ≡ xs ++ (0 ∷ [])
keep_own-false_zero own xs n d h l z k =
    keep_own-members own [] xs n d h (nothing_seen xs) (omega arith)
    ∙ ap (λ (m : ℕ). xs ++ keep_own own (push_all xs []) (reveal_slots m [])) {x = n - length xs}
        {y = suc (n - length xs - 1)} (omega arith)
    ∙ ap (λ (ys : List ℕ). xs ++ ys) (one_zero (n - length xs - 1))
  where
    one_zero : (m : ℕ) → keep_own own (push_all xs []) (reveal_slots (suc m) []) ≡ 0 ∷ []
    one_zero m =
        unfold keep_own in
        unfold reveal_slots in
        rw (z, push_all-absent 0 xs [] k (unfold is_member in refl))
          (ap (◌∷◌ 0) (zeros_seen own (0 ∷ push_all xs []) m (unfold is_member in refl)))
