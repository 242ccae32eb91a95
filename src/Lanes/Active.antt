-- ===== src/Lanes/Active.antt =====
-- The lanes that rf_active_lanes selects carry every index of an input or output range.
use rf_class_groups.Base.{
  ℕ, zero, suc, ◌+◌, ◌≤◌, ◌<◌, ◌≡◌, ◌⊎◌, inl, inr, true, false, sym, ap, ◌∙◌, List, [], ◌∷◌, ltb,
  lt→ltb, ltb→lt, Bool-cases, min, max, ok, >>=-eq-ok, ok_injective, if◌then◌else◌, arith,
}
use mathlib.Core.Path.{subst}
use mathlib.Core.Bool.{Bool}
use rf_class_groups.Config.{Env, cg_validate_count}
use rf_class_groups.Lanes.{
  rf_lane_range, rf_lane_range_intersection, collect_lanes, rf_active_lanes,
}
use rf_class_groups.Lanes.Partition.{rf_lane_range-covers, rf_lane_range-lt}

abbrev pub Contains : ℕ → List ℕ → Type 0
Contains lane [] = ⊥
Contains lane (l ∷ ls) = (lane ≡ l) ⊎ Contains lane ls

selected :
    (lane this : ℕ) (active rest : List ℕ) (first second : ℕ)
    → (if ltb first second then this ∷ rest else rest) ≡ active
    → ((lane ≡ this) × (first < second)) ⊎ Contains lane rest
    → Contains lane active
selected lane this active rest first second e (inl (h, k)) =
    subst (Contains lane) (rw (lt→ltb first second k) at e) (inl h)
selected lane this active rest first second e (inr h) = kept (ltb first second) e
  where
    kept : (b : Bool) → (if b then this ∷ rest else rest) ≡ active → Contains lane active
    kept true e = subst (Contains lane) e (inr h)
    kept false e = subst (Contains lane) e h

collect_lanes-Contains :
    (getenv : Env) (n lanes begin end left lane : ℕ) (active : List ℕ) (l first second : ℕ)
    → collect_lanes getenv n lanes begin end left lane ≡ ok active
    → lane ≤ l
    → l < lane + left
    → rf_lane_range_intersection getenv n lanes l begin end ≡ ok (first, second)
    → first < second
    → Contains l active
unfolding collect_lanes
collect_lanes-Contains getenv n lanes begin end zero lane active l first second h a b i f =
    absurd (omega arith)
collect_lanes-Contains getenv n lanes begin end (suc left) lane active l first second h a b i f =
    let (range, e, h₁) = >>=-eq-ok (rf_lane_range_intersection getenv n lanes lane begin end) _ h in
    let (rest, e', h₂) = >>=-eq-ok (collect_lanes getenv n lanes begin end left (suc lane)) _ h₁ in
    selected l lane active rest range.0 range.1 (ok_injective h₂) (
      here range rest e
        (λ x.
          collect_lanes-Contains getenv n lanes begin end left (suc lane) rest l first second e' x
            (omega arith) i f)
        (Bool-cases (ltb lane l)))
  where
    here :
        (range : ℕ × ℕ) (rest : List ℕ)
        → rf_lane_range_intersection getenv n lanes lane begin end ≡ ok range
        → (suc lane ≤ l → Contains l rest)
        → (ltb lane l ≡ true) ⊎ (ltb lane l ≡ false)
        → ((l ≡ lane) × (range.0 < range.1)) ⊎ Contains l rest
    here range rest e e' (inl x) = inr (e' (ltb→lt lane l x))
    here range rest e e' (inr x) =
        let same : l ≡ lane = ground (arith, x) in
        let ranges : range ≡ (first, second) = ok_injective (
          sym e
          ∙ ap (λ (k : ℕ). rf_lane_range_intersection getenv n lanes k begin end) (sym same)
          ∙ i) in
        inl (same, subst (λ (r : ℕ × ℕ). r.0 < r.1) (sym ranges) f)

checked :
    (getenv : Env) (lanes n size begin end : ℕ) (active : List ℕ)
    → rf_active_lanes getenv lanes n size begin end ≡ ok active
    → (cg_validate_count getenv n false ≡ ok tt)
      × (1 ≤ lanes)
      × (lanes ≤ 64)
      × (end ≤ n)
      × (collect_lanes getenv n lanes begin end lanes 0 ≡ ok active)
unfolding rf_active_lanes
checked getenv lanes n size begin end active h = ground arith

intersection :
    (getenv : Env) (n lanes lane begin end lb le : ℕ)
    → rf_lane_range getenv n lanes lane ≡ ok (lb, le)
    → rf_lane_range_intersection getenv n lanes lane begin end ≡ ok (max lb begin, min le end)
unfolding rf_lane_range_intersection
intersection getenv n lanes lane begin end lb le h = rw h

-- Every index of a range that passes the checks lies in the part of the range that some selected lane
-- carries.
pub rf_active_lanes-covers :
    (getenv : Env) (lanes n size begin end i : ℕ) (active : List ℕ)
    → rf_active_lanes getenv lanes n size begin end ≡ ok active
    → begin ≤ i
    → i < end
    → (lane first second : ℕ) × Contains lane active
      × (rf_lane_range_intersection getenv n lanes lane begin end ≡ ok (first, second))
      × (first ≤ i)
      × (i < second)
rf_active_lanes-covers getenv lanes n size begin end i active h a b =
    let (v, p, q, e, c) = checked getenv lanes n size begin end active h in
    let (lane, lb, le, r, f, g) = rf_lane_range-covers getenv n lanes i v p q (omega arith) in
    let range = intersection getenv n lanes lane begin end lb le r in
    (
      lane,
      max lb begin,
      min le end,
      collect_lanes-Contains getenv n lanes begin end lanes 0 active lane (max lb begin)
          (min le end) c (omega arith) (omega (arith, rf_lane_range-lt getenv n lanes lane lb le r))
          range (omega arith),
      range,
      omega arith,
      omega arith,
    )
