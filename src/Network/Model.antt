-- ===== src/Network/Model.antt =====
-- A row of bytes for every number, with the laws that GMP documents, on which the theorems are tried.
use rf_class_groups.Base.{
  ℕ, zero, suc, ◌+◌, ◌*◌, ◌/◌, ◌%◌, ◌≤◌, ◌<◌, ◌≡◌, ◌≢◌, ◌⊎◌, inl, inr, refl, sym, ap, ◌∙◌, List, [],
  ◌∷◌, ◌++◌, length, All, ◌==◌, ==_iff, Bool-cases, if◌then◌else◌, arith,
}
use native.Mathlib.Nat.{mod-lt}
use mathlib.Core.List.{append-nil}
use rf_class_groups.Network.{Gmp, IsGmp, IsByte, IsCanonical}

-- The bytes of `n`, in front of `acc`.
unfoldable pub bytes : ℕ → ℕ → List ℕ → List ℕ
bytes zero n acc = acc
bytes (suc fuel) n acc =
    let more = bytes fuel (n / 256) ((n % 256) ∷ acc) in if n == 0 then acc else more

-- The number that a row of bytes stands for, behind `v`.
unfoldable pub joined : ℕ → List ℕ → ℕ
joined v [] = v
joined v (b ∷ bs) = joined (v * 256 + b) bs

joined-bytes : (fuel n : ℕ) (acc : List ℕ) → n ≤ fuel → joined 0 (bytes fuel n acc) ≡ joined n acc
unfolding joined bytes
joined-bytes zero n acc h = ap (λ (k : ℕ). joined k acc) {x = 0} {y = n} (omega arith)
joined-bytes (suc fuel) n acc h = elim (Bool-cases (n == 0)) [
  | inl e ↦ rw e (ap (λ (k : ℕ). joined k acc) (sym ((==_iff n 0).0 e)))
  | inr e ↦ rw e (
      joined-bytes fuel (n / 256) ((n % 256) ∷ acc) (ground (arith, e))
      ∙ ap (λ (k : ℕ). joined k acc) {x = n / 256 * 256 + n % 256} {y = n} (omega arith))
]

-- More fuel gives the same bytes.
bytes_enough :
    (fuel fuel' n : ℕ) (acc : List ℕ) → n ≤ fuel → n ≤ fuel' → bytes fuel n acc ≡ bytes fuel' n acc
unfolding bytes
bytes_enough zero zero n acc h k = refl
bytes_enough zero (suc fuel') n acc h k = ground arith
bytes_enough (suc fuel) zero n acc h k = ground arith
bytes_enough (suc fuel) (suc fuel') n acc h k = elim (Bool-cases (n == 0)) [
  | inl e ↦ rw e
  | inr e ↦
      rw e (
        bytes_enough fuel fuel' (n / 256) ((n % 256) ∷ acc) (ground (arith, e)) (ground (arith, e)))
]

bytes-step :
    (fuel n : ℕ) (acc : List ℕ)
    → 1 ≤ n
    → bytes (suc fuel) n acc ≡ bytes fuel (n / 256) ((n % 256) ∷ acc)
unfolding bytes
bytes-step fuel n acc h = elim (Bool-cases (n == 0)) [
  | inl e ↦ absurd (ground (arith, e))
  | inr e ↦ rw e
]

-- One byte more at the end.
bytes-push :
    (fuel v b : ℕ) (acc : List ℕ)
    → b < 256
    → 1 ≤ v * 256 + b
    → v * 256 + b ≤ fuel
    → bytes fuel (v * 256 + b) acc ≡ bytes fuel v (b ∷ acc)
bytes-push zero v b acc h k l = absurd (omega arith)
bytes-push (suc fuel) v b acc h k l =
    bytes-step fuel (v * 256 + b) acc k
    ∙ ap (λ (m : ℕ). bytes fuel m (((v * 256 + b) % 256) ∷ acc)) {x = (v * 256 + b) / 256} {y = v}
        (omega arith)
    ∙ ap (λ (m : ℕ). bytes fuel v (m ∷ acc)) {x = (v * 256 + b) % 256} {y = b} (omega arith)
    ∙ bytes_enough fuel (suc fuel) v (b ∷ acc) (omega arith) (omega arith)

le-joined : (v : ℕ) (bs : List ℕ) → v ≤ joined v bs
unfolding joined
le-joined v [] = omega arith
le-joined v (b ∷ bs) = omega (arith, le-joined (v * 256 + b) bs)

bytes-joined :
    (fuel v : ℕ) (bs acc : List ℕ)
    → All IsByte bs
    → (1 ≤ v) ⊎ IsCanonical bs
    → joined v bs ≤ fuel
    → bytes fuel (joined v bs) acc ≡ bytes fuel v (bs ++ acc)
unfolding joined
bytes-joined fuel v [] acc h k l = refl
bytes-joined fuel v (b ∷ bs) acc (h, hs) k l =
    bytes-joined fuel (v * 256 + b) bs acc hs (inl (positive k)) l
    ∙ bytes-push fuel v b (bs ++ acc) h (positive k) (omega (arith, le-joined (v * 256 + b) bs))
  where
    positive : (1 ≤ v) ⊎ (b ≢ 0) → 1 ≤ v * 256 + b
    positive (inl p) = omega arith
    positive (inr p) = omega (arith, p)

bytes-zero : (fuel : ℕ) (acc : List ℕ) → bytes fuel 0 acc ≡ acc
unfolding bytes
bytes-zero zero acc = refl
bytes-zero (suc fuel) acc = refl

bytes-IsByte : (fuel n : ℕ) (acc : List ℕ) → All IsByte acc → All IsByte (bytes fuel n acc)
unfolding bytes
bytes-IsByte zero n acc h = h
bytes-IsByte (suc fuel) n acc h = elim (Bool-cases (n == 0)) [
  | inl e ↦ rw e h
  | inr e ↦ rw e (bytes-IsByte fuel (n / 256) ((n % 256) ∷ acc) (mod-lt n (omega arith), h))
]

bytes-IsCanonical :
    (fuel n : ℕ) (acc : List ℕ)
    → n ≤ fuel
    → (n ≡ 0 → IsCanonical acc)
    → IsCanonical (bytes fuel n acc)
unfolding bytes
bytes-IsCanonical zero n acc h k = k (omega arith)
bytes-IsCanonical (suc fuel) n acc h k = elim (Bool-cases (n == 0)) [
  | inl e ↦ rw e (k ((==_iff n 0).0 e))
  | inr e ↦ rw e (
      bytes-IsCanonical fuel (n / 256) ((n % 256) ∷ acc) (ground (arith, e))
        (λ z. ground (arith, e)))
]

abbrev pub small_gmp : Gmp
small_gmp = record {
  export_bytes = λ n. bytes n n [];
  import_bytes = λ bs. joined 0 bs;
  bit_size = λ n. 8 * length (bytes n n []);
}

pub small_gmp-IsGmp : IsGmp small_gmp
small_gmp-IsGmp = record {
  import-export = λ n. joined-bytes n n [] (omega arith) ∙ unfold joined in refl;
  export-import = λ bs h k.
      bytes-joined (joined 0 bs) 0 bs [] h (inr k) (omega arith)
      ∙ bytes-zero (joined 0 bs) (bs ++ [])
      ∙ append-nil bs;
  export-zero = bytes-zero 0 [];
  export-IsByte = λ n. bytes-IsByte n n [] tt;
  export-IsCanonical = λ n. bytes-IsCanonical n n [] (omega arith) (λ z. tt);
  export_size = λ n. omega arith;
}
