-- ===== src/Lanes/Partition.antt =====
-- The lanes cut a vector into consecutive ranges of nearly equal sizes.
use rf_class_groups.Base.{
  ℕ, zero, suc, ◌+◌, ◌-◌, ◌*◌, ◌/◌, ◌%◌, ◌≤◌, ◌<◌, ◌≡◌, inl, inr, false, ap, ◌∙◌, ltb, ltb→lt,
  Bool-cases, ok, arith,
}
use native.Mathlib.Nat.{
  mod-lt, div-add-mod, div-le_self, div-mul-le_self, lt-div-mul-add, le-div_iff_mul-le,
  div-lt_iff_lt-mul, add-mul-div_right,
}
use rf_class_groups.Config.{Env, cg_validate_count}
use rf_class_groups.Lanes.{lane_start, rf_lane_range}

-- Adding less than the divisor raises a quotient by one at most.
quotient_step : (x r d y : ℕ) → r < d → y ≡ x + r → (x / d ≤ y / d) × (y / d ≤ x / d + 1)
quotient_step x r d y h e =
    let p : 0 < d = omega arith in
    let low : x / d * d ≤ y = omega (arith, div-mul-le_self x d) in
    let high : y < (x / d + 2) * d = omega (arith, lt-div-mul-add {a = x} {b = d} p) in
    let below : y / d < x / d + 2 = (div-lt_iff_lt-mul {k = d} {x = y} {y = x / d + 2} p).1 high in
    ((le-div_iff_mul-le {k = d} {x = x / d} {y = y} p).1 low, omega arith)

module _ (n lanes : ℕ) (positive : 1 ≤ lanes) where
  lane_start-zero : lane_start n lanes 0 ≡ 0
  unfolding lane_start
  lane_start-zero =
      ap (λ (t : ℕ). n / lanes * 0 + t / lanes) {x = n % lanes * 0} {y = 0} (omega arith)
      ∙ omega (arith, div-le_self 0 lanes)

  lane_start-all : lane_start n lanes lanes ≡ n
  unfolding lane_start
  lane_start-all =
      ap (λ (t : ℕ). n / lanes * lanes + t / lanes) {x = n % lanes * lanes}
        {y = 0 + n % lanes * lanes} (omega arith)
      ∙ ap (λ (t : ℕ). n / lanes * lanes + t) (add-mul-div_right 0 (n % lanes) {z = lanes} positive)
      ∙ omega (arith, div-le_self 0 lanes, div-add-mod n lanes)

  -- One lane more: a whole share, and one item at most besides.
  lane_start-next :
      (lane : ℕ)
      → (lane_start n lanes lane ≤ lane_start n lanes (lane + 1))
        × (lane_start n lanes (lane + 1) ≤ lane_start n lanes lane + (n / lanes + 1))
  unfolding lane_start
  lane_start-next lane =
      let (low, high) =
        quotient_step (n % lanes * lane) (n % lanes) lanes (n % lanes * (lane + 1))
          (mod-lt n positive) (omega arith) in
      (omega (arith, low), omega (arith, high))

  -- A later lane starts later.
  lane_start-later : (d lane : ℕ) → lane_start n lanes lane ≤ lane_start n lanes (lane + d)
  lane_start-later zero lane = ap-le (omega arith)
    where
      ap-le : lane ≡ lane + 0 → lane_start n lanes lane ≤ lane_start n lanes (lane + 0)
      ap-le e = omega (arith, ap (lane_start n lanes) e)
  lane_start-later (suc d) lane = omega (
    arith,
    lane_start-later d lane,
    (lane_start-next (lane + d)).0,
    ap (lane_start n lanes) {x = lane + d + 1} {y = lane + suc d} (omega arith),
  )

  -- The lane of an index, found below `k`.
  lane_of :
      (k i : ℕ)
      → i < lane_start n lanes k
      → (lane : ℕ) × (lane < k)
        × (lane_start n lanes lane ≤ i)
        × (i < lane_start n lanes (lane + 1))
  lane_of zero i h = absurd (omega (arith, lane_start-zero))
  lane_of (suc k) i h = elim (Bool-cases (ltb i (lane_start n lanes k))) [
    | inl e ↦
        let (lane, a, b, c) = lane_of k i (ltb→lt i (lane_start n lanes k) e) in
        (lane, omega arith, b, c)
    | inr e ↦ (
      k,
      omega arith,
      ground (arith, e),
      omega (arith, ap (lane_start n lanes) {x = suc k} {y = k + 1} (omega arith)),
    )
  ]

rf_lane_range-ok :
    (getenv : Env) (n lanes lane : ℕ)
    → cg_validate_count getenv n false ≡ ok tt
    → lanes ≤ 64
    → lane < lanes
    → rf_lane_range getenv n lanes lane
      ≡ ok (lane_start n lanes lane, lane_start n lanes (lane + 1))
unfolding rf_lane_range
rf_lane_range-ok getenv n lanes lane v h k = rw v (ground arith)

-- With a count that passes validation and 1 to 64 lanes, every index below the count lies in the
-- range of some lane.
pub rf_lane_range-covers :
    (getenv : Env) (n lanes i : ℕ)
    → cg_validate_count getenv n false ≡ ok tt
    → 1 ≤ lanes
    → lanes ≤ 64
    → i < n
    → (lane begin end : ℕ) × (rf_lane_range getenv n lanes lane ≡ ok (begin, end))
      × (begin ≤ i)
      × (i < end)
rf_lane_range-covers getenv n lanes i v p h k =
    let (lane, a, b, c) = lane_of n lanes p lanes i (omega (arith, lane_start-all n lanes p)) in
    (
      lane,
      lane_start n lanes lane,
      lane_start n lanes (lane + 1),
      rf_lane_range-ok getenv n lanes lane v h a,
      b,
      c,
    )

range_inversion :
    (getenv : Env) (n lanes lane begin end : ℕ)
    → rf_lane_range getenv n lanes lane ≡ ok (begin, end)
    → (1 ≤ lanes) × (begin ≡ lane_start n lanes lane) × (end ≡ lane_start n lanes (lane + 1))
unfolding rf_lane_range
range_inversion getenv n lanes lane begin end h = ground arith

-- A range is given for a lane that there is.
pub rf_lane_range-lt :
    (getenv : Env) (n lanes lane begin end : ℕ)
    → rf_lane_range getenv n lanes lane ≡ ok (begin, end)
    → lane < lanes
unfolding rf_lane_range
rf_lane_range-lt getenv n lanes lane begin end h = ground arith

-- The ranges of two different lanes have no index in common: a range that is before another ends
-- before the other begins.
pub rf_lane_range-disjoint :
    (getenv : Env) (n lanes lane lane' begin end begin' end' : ℕ)
    → rf_lane_range getenv n lanes lane ≡ ok (begin, end)
    → rf_lane_range getenv n lanes lane' ≡ ok (begin', end')
    → lane < lane'
    → end ≤ begin'
rf_lane_range-disjoint getenv n lanes lane lane' begin end begin' end' h k l =
    let (p, _, e) = range_inversion getenv n lanes lane begin end h in
    let (_, b, _) = range_inversion getenv n lanes lane' begin' end' k in
    omega (
      arith,
      e,
      b,
      lane_start-later n lanes p (lane' - (lane + 1)) (lane + 1),
      ap (lane_start n lanes) {x = lane + 1 + (lane' - (lane + 1))} {y = lane'} (omega arith),
    )

-- A lane that gets a range gets between 0 and one more than the average number of items.
pub rf_lane_range-balanced :
    (getenv : Env) (n lanes lane begin end : ℕ)
    → rf_lane_range getenv n lanes lane ≡ ok (begin, end)
    → (begin ≤ end) × (end ≤ begin + (n / lanes + 1))
rf_lane_range-balanced getenv n lanes lane begin end h =
    let (p, b, e) = range_inversion getenv n lanes lane begin end h in
    let (low, high) = lane_start-next n lanes p lane in (omega arith, omega arith)
