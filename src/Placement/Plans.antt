-- ===== src/Placement/Plans.antt =====
-- services/worker/src/placement.ts: what a plan books, and what a node can take.
-- A ceiling is a percentage and QUOTA_HEADROOM is 12/10: the products that the code rounds,
-- `floor(total * 0.85)` and `ceil(cap * 1.2)`, are taken in exact arithmetic, which agrees with
-- doubles at every total below 2^44. Sizes are natural numbers.
use corebase.Base.{
  ℕ, ◌+◌, ◌*◌, ◌/◌, ◌≤◌, String, Bool, Option, none, some, arith, max, leb, str_eq, if◌then◌else◌,
}

-- PLAN_RAM_MB, with the free plan's booking for any other.
unfoldable pub plan_ram_mb : String → ℕ
plan_ram_mb plan =
    if str_eq plan "pro"
    then 1024
    else if str_eq plan "team"
    then 1024
    else if str_eq plan "enterprise"
    then 2048
    else 350

unfoldable pub plan_disk_cap_mb : String → ℕ
plan_disk_cap_mb plan =
    if str_eq plan "pro"
    then 8192
    else if str_eq plan "team"
    then 8192
    else if str_eq plan "enterprise"
    then 32768
    else 500

unfoldable pub plan_container_limit_mb : String → ℕ
plan_container_limit_mb plan =
    if str_eq plan "pro"
    then 1536
    else if str_eq plan "team"
    then 1536
    else if str_eq plan "enterprise"
    then 3072
    else 512

-- `Math.ceil(cap * QUOTA_HEADROOM)`
abbrev pub with_headroom : ℕ → ℕ
with_headroom mb = (mb * 12 + 9) / 10

-- The quota of a cap in whole GB, at least one.
abbrev pub disk_gb : ℕ → ℕ
disk_gb cap_mb = max 1 ((with_headroom cap_mb + 1023) / 1024)

unfoldable pub quota_mb_for : String → ℕ
quota_mb_for plan = with_headroom (plan_disk_cap_mb plan)

unfoldable pub disk_booking_gb_for : String → ℕ
unfolding quota_mb_for
disk_booking_gb_for plan = max 1 ((quota_mb_for plan + 1023) / 1024)

-- FILL_CEILING, in percent.
abbrev pub fill_ceiling : ℕ
fill_ceiling = 85

-- `remainingMb(cap) >= booking`, with nothing subtracted; `none` where the booking is refused.
unfoldable pub can_fit : ℕ → ℕ → ℕ → Option Bool
can_fit ram_total_mb ram_reserved_mb booking_mb =
    if leb booking_mb 0
    then none
    else some (leb (ram_reserved_mb + booking_mb) (ram_total_mb * fill_ceiling / 100))

-- The hard quota leaves a fifth of the cap free, and no plan's booking is refused as empty.
plan_bookings :
    (plan : String)
    → (plan_disk_cap_mb plan * 6 ≤ quota_mb_for plan * 5)
      × (quota_mb_for plan ≤ disk_booking_gb_for plan * 1024)
      × (1 ≤ disk_booking_gb_for plan)
      × (1 ≤ plan_ram_mb plan)
      × (plan_ram_mb plan ≤ plan_container_limit_mb plan)
unfolding plan_disk_cap_mb disk_booking_gb_for plan_ram_mb plan_container_limit_mb
plan_bookings plan = ground arith
