-- ===== src/Base.antt =====
-- The names that the modules share: the libraries' and those of the children, passed on.
pub mod Tests
pub mod Lists
pub mod Failures
pub mod Congruence
pub mod Field
pub mod Bits
pub mod Powers
pub mod Int
pub mod Cipher
pub use Tests.*
pub use Lists.*
pub use Failures.*
pub use Congruence.*
pub use Field.*
pub use Powers.*
pub use Int.*
pub use Cipher.*
pub use Prim.Native.Nat.{ℕ, zero, suc, ◌+◌, ◌-◌, ◌*◌, ◌/◌, ◌%◌, ◌^◌, ◌≤◌, ◌<◌, min, max}
pub use mathlib.Core.Path.{◌≡◌, refl, sym, ap, ◌∙◌, ◌≡⟨◌⟩◌, ◌∎}
pub use mathlib.Core.Logic.{◌≢◌, ◌↔◌, ◌⊎◌, inl, inr}
pub use mathlib.Core.Bool.{Bool, true, false, ◌&&◌, ◌||◌, not}
pub use mathlib.Core.Option.{Option, none, some}
pub use mathlib.Core.List.{List, [], ◌∷◌, ◌++◌, map}
pub use native.Mathlib.Omega.{arith}
