-- ===== src/Lanes.antt =====
-- The distribution of a vector over transport lanes: rf_lane_range, rf_lane_range_intersection and
-- rf_active_lanes of cg_rf_ole_batch.hpp.
pub mod Partition
pub mod Active
pub mod Metadata
pub mod Accept
use rf_class_groups.Base.{
  ℕ, zero, suc, ◌+◌, ◌*◌, ◌/◌, ◌%◌, min, max, Bool, false, ◌||◌, not, List, [], ◌∷◌, ltb, ◌==◌,
  if◌then◌else◌, Result, ok, ◌>>=◌, ◌>>◌, reject_if, invalid_lane_range, invalid_io_range,
}
use rf_class_groups.Config.{Env, cg_validate_count}

-- `(n / lanes) * lane + ((n % lanes) * lane) / lanes`.
unfoldable pub lane_start : ℕ → ℕ → ℕ → ℕ
lane_start n lanes lane = n / lanes * lane + n % lanes * lane / lanes

unfoldable pub rf_lane_range : Env → ℕ → ℕ → ℕ → Result (ℕ × ℕ)
rf_lane_range getenv n lanes lane = do
  cg_validate_count getenv n false
  reject_if (lanes == 0 || ltb 64 lanes || not (ltb lane lanes)) invalid_lane_range
  ok (lane_start n lanes lane, lane_start n lanes (lane + 1))

unfoldable pub rf_lane_range_intersection : Env → ℕ → ℕ → ℕ → ℕ → ℕ → Result (ℕ × ℕ)
rf_lane_range_intersection getenv n lanes lane begin end = do
  (lb, le) ← rf_lane_range getenv n lanes lane
  ok (max lb begin, min le end)

-- `for (lane = 0; lane < lanes; ++lane)`, with `left` lanes to go.
unfoldable pub collect_lanes : Env → ℕ → ℕ → ℕ → ℕ → ℕ → ℕ → Result (List ℕ)
collect_lanes getenv n lanes begin end zero lane = ok []
collect_lanes getenv n lanes begin end (suc left) lane = do
  (first, second) ← rf_lane_range_intersection getenv n lanes lane begin end
  active ← collect_lanes getenv n lanes begin end left (suc lane)
  ok (if ltb first second then lane ∷ active else active)

-- `lanes` is the number of sockets, `size` that of the values.
unfoldable pub rf_active_lanes : Env → ℕ → ℕ → ℕ → ℕ → ℕ → Result (List ℕ)
rf_active_lanes getenv lanes n size begin end = do
  cg_validate_count getenv n false
  reject_if (lanes == 0 || ltb 64 lanes || ltb size n || ltb end begin || ltb n end)
      invalid_io_range
  collect_lanes getenv n lanes begin end lanes 0
