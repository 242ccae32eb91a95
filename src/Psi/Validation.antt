-- ===== src/Psi/Validation.antt =====
-- An input set is accepted exactly if it is a set of field elements of an allowed size.
use rf_class_groups.Base.{
  ℕ, ◌≤◌, ◌<◌, ◌≡◌, ◌≢◌, ◌↔◌, inl, inr, Bool, true, false, refl, sym, ap, List, [], ◌∷◌, length,
  All, Bool-cases, ℤ, pos, negsuc, magnitude, ==_iff, Result, ok, err, ◌>>◌, arith,
}
use rf_class_groups.Config.{Env, cg_validate_count, cg_max_items}
use rf_class_groups.Config.Limits.{cg_validate_count_iff}
use rf_class_groups.Psi.{is_in_field, has_same_text, was_seen, validate_each, validate_psi_set}

-- A number from 0 to q - 1.
abbrev pub IsElement : ℕ → ℤ → Type 0
IsElement q (pos n) = n < q
IsElement q (negsuc n) = ⊥

-- No value occurs twice.
abbrev pub IsDistinct : List ℤ → Type 0
IsDistinct [] = Unit
IsDistinct (x ∷ xs) = All (λ y. x ≢ y) xs × IsDistinct xs

is_in_field_iff : (q : ℕ) (x : ℤ) → (is_in_field q x ≡ true) ↔ IsElement q x
is_in_field_iff q (pos n) = ground arith
is_in_field_iff q (negsuc n) = (λ h. cc, λ h. absurd h)

has_same_text_iff : (x y : ℤ) → (has_same_text x y ≡ true) ↔ (x ≡ y)
has_same_text_iff (pos m) (pos n) =
    (λ h. ap pos ((==_iff m n).0 h), λ h. (==_iff m n).1 (ap magnitude h))
has_same_text_iff (negsuc m) (negsuc n) =
    (λ h. ap negsuc ((==_iff m n).0 h), λ h. (==_iff m n).1 (omega (arith, ap magnitude h)))
has_same_text_iff (pos m) (negsuc n) = (λ h. cc, λ h. cc)
has_same_text_iff (negsuc m) (pos n) = (λ h. cc, λ h. cc)

was_seen-All : (x : ℤ) (seen : List ℤ) → (was_seen x seen ≡ false) ↔ All (λ s. s ≢ x) seen
unfolding was_seen
was_seen-All x [] = (λ h. tt, λ h. refl)
was_seen-All x (s ∷ seen) = elim (Bool-cases (has_same_text x s)) [
  | inl e ↦ (λ h. absurd (found (rw e at h)), λ h. absurd (h.0 (sym ((has_same_text_iff x s).0 e))))
  | inr e ↦ (
    λ h.
        (λ p. different e ((has_same_text_iff x s).1 (sym p)), (was_seen-All x seen).0 (rw e at h)),
    λ h. rw e ((was_seen-All x seen).1 h.1),
  )
]
  where
    found : true ≡ false → ⊥
    found h = cc

    different : {b : Bool} → b ≡ false → b ≡ true → ⊥
    different h k = cc

module _ {A : Type 0} (P R : A → Type 0) where
  All-pair : (xs : List A) → All (λ x. P x × R x) xs → All P xs × All R xs
  All-pair [] h = (tt, tt)
  All-pair (x ∷ xs) ((p, r), h) = let (ps, rs) = All-pair xs h in ((p, ps), (r, rs))

  pair-All : (xs : List A) → All P xs → All R xs → All (λ x. P x × R x) xs
  pair-All [] h k = tt
  pair-All (x ∷ xs) (p, h) (r, k) = ((p, r), pair-All xs h k)

-- Not among the values seen so far.
abbrev IsFresh : List ℤ → ℤ → Type 0
IsFresh seen x = All (λ s. s ≢ x) seen

taken :
    (q : ℕ) (seen : List ℤ) (x : ℤ) (values : List ℤ)
    → (validate_each q seen (x ∷ values) ≡ ok tt) ↔ (
        (is_in_field q x ≡ true)
        × (was_seen x seen ≡ false)
        × (validate_each q (x ∷ seen) values ≡ ok tt))
unfolding validate_each
taken q seen x values = (λ h. ground arith, λ h. ground arith)

validate_each_iff :
    (q : ℕ) (seen values : List ℤ)
    → (validate_each q seen values ≡ ok tt)
      ↔ (All (IsElement q) values × All (IsFresh seen) values × IsDistinct values)
validate_each_iff q seen [] = (λ h. (tt, tt, tt), λ h. unfold validate_each in refl)
validate_each_iff q seen (x ∷ values) = (
  λ h.
      let (a, b, c) = (taken q seen x values).0 h in
      let (d, e, f) = (validate_each_iff q (x ∷ seen) values).0 c in
      let (g, k) = All-pair (λ y. x ≢ y) (IsFresh seen) values e in
      (((is_in_field_iff q x).0 a, d), ((was_seen-All x seen).0 b, k), (g, f)),
  λ h. (taken q seen x values).1 (
    (is_in_field_iff q x).1 h.0.0,
    (was_seen-All x seen).1 (h.1.0),
    (validate_each_iff q (x ∷ seen) values).1
        (h.0.1, pair-All (λ y. x ≢ y) (IsFresh seen) values h.2.0 h.1.1, h.2.1),
  ),
)

both :
    (first second : Result (Unit {0}))
    → ((first >> second) ≡ ok tt) ↔ ((first ≡ ok tt) × (second ≡ ok tt))
both (err e) second = (λ h. cc, λ h. h.0)
both (ok x) second = (λ h. (refl, h), λ h. h.1)

All-IsFresh : (values : List ℤ) → All (IsFresh []) values
All-IsFresh [] = tt
All-IsFresh (x ∷ values) = (tt, All-IsFresh values)

-- With an item limit in force, `validate_psi_set` accepts exactly the vectors of 1 to `limit` different
-- numbers from 0 to `q - 1`.
pub validate_psi_set_iff :
    (getenv : Env) (limit q : ℕ) (values : List ℤ)
    → cg_max_items getenv ≡ ok limit
    → (validate_psi_set getenv values q ≡ ok tt) ↔ (
        (1 ≤ length values)
        × (length values ≤ limit)
        × All (IsElement q) values
        × IsDistinct values)
unfolding validate_psi_set
validate_psi_set_iff getenv limit q values h =
    let split = both (cg_validate_count getenv (length values) false) (validate_each q [] values) in
    let count = cg_validate_count_iff getenv limit (length values) h in
    (
      λ k.
          let (a, b) = split.0 k in
          let (c, d) = count.0 a in
          let (e, _, f) = (validate_each_iff q [] values).0 b in (c, d, e, f),
      λ k.
          split.1
            (count.1 (k.0, k.1), (validate_each_iff q [] values).1 (k.2, All-IsFresh values, k.3)),
    )
