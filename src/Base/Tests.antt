-- ===== src/Base/Tests.antt =====
-- Boolean tests on the native numbers and the conditional, as the C++ code writes them.
use Prim.Native.Nat.{ℕ, suc, ◌≤◌, ◌<◌, compare, Ordering, ◌%◌, ◌^◌, ◌-◌}
use mathlib.Core.Path.{◌≡◌, refl}
use mathlib.Core.Logic.{◌↔◌, ◌⊎◌, ◌≢◌, inl, inr}
use mathlib.Core.Bool.{Bool, true, false}
use mathlib.Core.Option.{Option, none, some}
use native.Mathlib.Omega.{arith}

abbrev pub ltb : ℕ → ℕ → Bool
ltb a b = elim (compare a b) [ Ordering.lt ↦ true | _ ↦ false ]

abbrev pub leb : ℕ → ℕ → Bool
leb a b = elim (compare a b) [ Ordering.gt ↦ false | _ ↦ true ]

infix 50 ◌==◌
abbrev pub ◌==◌ : ℕ → ℕ → Bool
a == b = elim (compare a b) [ Ordering.eq ↦ true | _ ↦ false ]

infix 1 if◌then◌else◌
abbrev pub if◌then◌else◌ {ℓ} : {A : Type ℓ} → Bool → A → A → A
if true then x else y = x
if false then x else y = y

pub ltb→lt : (a b : ℕ) → ltb a b ≡ true → a < b
ltb→lt a b h = ground arith

pub lt→ltb : (a b : ℕ) → a < b → ltb a b ≡ true
lt→ltb a b h = ground arith

pub le→ltb : (a b : ℕ) → b ≤ a → ltb a b ≡ false
le→ltb a b h = ground arith

pub ==_iff : (a b : ℕ) → ((a == b) ≡ true) ↔ (a ≡ b)
==_iff a b = ground arith

pub ==_refl : (a : ℕ) → (a == a) ≡ true
==_refl a = ground arith

pub suc-==_zero : (n : ℕ) → (suc n == 0) ≡ false
suc-==_zero n = ground arith

pub Bool-cases : (b : Bool) → (b ≡ true) ⊎ (b ≡ false)
Bool-cases true = inl refl
Bool-cases false = inr refl

pub Option-cases {ℓ} : {A : Type ℓ} (o : Option A) → (o ≡ none) ⊎ ((a : A) × (o ≡ some a))
Option-cases none = inl refl
Option-cases (some a) = inr (a, refl)

pub Bool-clash : {b : Bool} → b ≡ true → b ≡ false → ⊥
Bool-clash h k = cc

pub ≢→== : (a b : ℕ) → a ≢ b → (a == b) ≡ false
≢→== a b h = elim (Bool-cases (a == b)) [ inl e ↦ absurd (h ((==_iff a b).0 e)) | inr e ↦ e ]

pub ==→≢ : (a b : ℕ) → (a == b) ≡ false → a ≢ b
==→≢ a b h same = Bool-clash ((==_iff a b).1 same) h

-- `(int)n - 1` for an int of 32 bits where it is not negative, and 0 otherwise: how often a loop runs
-- that counts an int down from there to 1. The subtraction from the least int is taken as negative.
unfoldable pub int_pred : ℕ → ℕ
int_pred n = if ltb (n % 2 ^ 32) (2 ^ 31) then n % 2 ^ 32 - 1 else 0

pub int_pred-small : (n : ℕ) → n < 2 ^ 31 → int_pred n ≡ n - 1
unfolding int_pred
int_pred-small n h = ground arith
