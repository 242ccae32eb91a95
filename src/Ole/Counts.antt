-- ===== src/Ole/Counts.antt =====
-- The check of the number of items by the four processes, where all of them accept it.
use rf_class_groups.Base.{ℕ, ◌≡◌, refl, ok}
use rf_class_groups.Config.Limits.{AcceptsCount, accepted_count}
use rf_class_groups.Ole.{Processes, validate_counts}

-- A number of items that all processes accept.
abbrev pub AcceptCount : Processes → ℕ → Type 0
AcceptCount p n =
    AcceptsCount p.receiver n
    × AcceptsCount p.rrf n
    × AcceptsCount p.srf n
    × AcceptsCount p.sender n

pub validate_counts-AcceptCount :
    (p : Processes) (n : ℕ) → AcceptCount p n → validate_counts p n ≡ ok tt
unfolding validate_counts
validate_counts-AcceptCount p n (h₀, h₁, h₂, h₃) =
    rw
      (
        accepted_count p.receiver n h₀,
        accepted_count p.rrf n h₁,
        accepted_count p.srf n h₂,
        accepted_count p.sender n h₃,
      )
      refl
