-- ===== src/Examples/Transport.antt =====
-- The theorems on transport lanes at concrete inputs: 10 items over 4 lanes.
use rf_class_groups.Base.{
  ℕ, ◌≤◌, ◌<◌, ◌≡◌, false, refl, none, some, Option, List, length, [], ◌∷◌, ok, arith, ◌↔◌,
  replicate, ◌++◌,
}
use rf_class_groups.Config.{Env, cg_validate_count, cg_max_items, check_limit}
use rf_class_groups.Lanes.{
  lane_start, rf_lane_range, rf_lane_range_intersection, collect_lanes, rf_active_lanes,
}
use rf_class_groups.Lanes.Metadata.{
  LaneParameters, send_rf_metadata, check_rf_metadata, check_rf_metadata-send_rf_metadata_iff,
}
use rf_class_groups.Lanes.Accept.{
  Connection, slot, is_taken, check_lane, accept_lane, accept_loop, accept_rf_lanes, Announced,
  accept_rf_lanes-Announced,
}
use rf_class_groups.Network.{send_u64}
use rf_class_groups.Network.Words.{recv_u64-send_u64}
use rf_class_groups.Lanes.Partition.{rf_lane_range-disjoint}
use rf_class_groups.Lanes.Active.{Contains, rf_active_lanes-covers}

-- No variable is set.
abbrev unset : Env
unset name = none

second_lane : rf_lane_range unset 10 4 1 ≡ ok (2, 5)
unfolding rf_lane_range lane_start cg_validate_count cg_max_items check_limit
second_lane = refl

last_lane : rf_lane_range unset 10 4 3 ≡ ok (7, 10)
unfolding rf_lane_range lane_start cg_validate_count cg_max_items check_limit
last_lane = refl

rf_lane_range-disjoint_example : 5 ≤ 7
rf_lane_range-disjoint_example =
    rf_lane_range-disjoint unset 10 4 1 3 2 5 7 10 second_lane last_lane (omega arith)

two_active : rf_active_lanes unset 4 10 10 3 6 ≡ ok (1 ∷ 2 ∷ [])
unfolding rf_active_lanes collect_lanes rf_lane_range_intersection rf_lane_range lane_start
    cg_validate_count cg_max_items check_limit
two_active = refl

rf_active_lanes-covers_example :
    (lane first second : ℕ) × Contains lane (1 ∷ 2 ∷ [])
    × (rf_lane_range_intersection unset 10 4 lane 3 6 ≡ ok (first, second))
    × (first ≤ 5)
    × (5 < second)
rf_active_lanes-covers_example =
    rf_active_lanes-covers unset 4 10 10 3 6 5 (1 ∷ 2 ∷ []) two_active (omega arith) (omega arith)

-- Two processes that differ in the chunk size.
abbrev in_chunks_of : ℕ → LaneParameters
in_chunks_of chunk = record { lanes = 4; count = 1000; chunk = chunk; digest = replicate 32 7 }

check_rf_metadata-send_rf_metadata_iff_example :
    (check_rf_metadata (in_chunks_of 16) (send_rf_metadata (in_chunks_of 8) ++ (1 ∷ 2 ∷ []))
      ≡ ok (1 ∷ 2 ∷ []))
    ↔ (in_chunks_of 8 ≡ in_chunks_of 16)
check_rf_metadata-send_rf_metadata_iff_example =
    check_rf_metadata-send_rf_metadata_iff (in_chunks_of 16) (in_chunks_of 8) (1 ∷ 2 ∷ [])
      (omega arith, omega arith, omega arith, refl)

-- Two lanes, without the metadata; the first connection announces lane 1.
abbrev two_lanes : LaneParameters
two_lanes = record { lanes = 2; count = 10; chunk = 4; digest = [] }

abbrev announcing : ℕ → ℕ → Connection
announcing lane fd = record { fd = fd; stream = send_u64 lane ++ [] }

abbrev arrivals : List Connection
arrivals = announcing 1 7 ∷ announcing 0 8 ∷ []

abbrev sockets : List (Option ℕ)
sockets = some 8 ∷ some 7 ∷ []

both_accepted : accept_rf_lanes unset false two_lanes arrivals ≡ ok sockets
unfolding accept_rf_lanes accept_loop accept_lane check_lane slot is_taken cg_validate_count
    cg_max_items check_limit
both_accepted = rw (recv_u64-send_u64 1 [] (omega arith), recv_u64-send_u64 0 [] (omega arith)) refl

accept_rf_lanes-Announced_example :
    (length sockets ≡ 2)
    × ((l : ℕ) → l < 2 → (fd : ℕ) × (slot sockets l ≡ some fd) × Announced arrivals l fd)
accept_rf_lanes-Announced_example =
    accept_rf_lanes-Announced false two_lanes unset arrivals sockets refl both_accepted
