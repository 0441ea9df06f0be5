-- ===== src/Scans/Tests.antt =====
-- A project that fills up and is cleaned.
use corebase.Base.{ℕ, ◌≡◌, ◌↔◌, refl, Bool, true, false, none, some, [], ◌∷◌}
use corebase.Scans.Ladders.{
  disk_ok, disk_warn, is_read_only, read_only, Visit, rung_for, scan_one, archive_rung_for,
  archive_warn,
}
use corebase.Scans.Ladders.Hysteresis.{swept, IsLatched, read_only-IsLatched}

abbrev visit : Bool → ℕ → Visit
visit flag_set mb = record {
  usage = some (record { used_bytes = mb; cap_bytes = 100 });
  flag_set = flag_set;
}

abbrev unreachable : Visit
unreachable = record { usage = none; flag_set = true }

ladders : Unit {0}
unfolding swept scan_one rung_for archive_rung_for
ladders = tt

fills : swept (visit true 85 ∷ visit true 96 ∷ unreachable ∷ visit true 91 ∷ []) disk_ok ≡ read_only
unfolding ladders
fills = refl

lifts : swept (visit true 96 ∷ visit true 91 ∷ visit true 89 ∷ []) disk_ok ≡ disk_warn
unfolding ladders
lifts = refl

-- A flag that cannot be set is tried again, and one that cannot be lifted stays.
sticks : swept (visit false 96 ∷ visit true 96 ∷ visit false 50 ∷ []) disk_ok ≡ read_only
unfolding ladders
sticks = refl

lags : archive_rung_for 300 ≡ archive_warn
unfolding ladders
lags = refl

read_only-IsLatched_example :
    (is_read_only (swept (visit true 96 ∷ visit true 91 ∷ []) disk_ok) ≡ true)
    ↔ IsLatched (visit true 96 ∷ visit true 91 ∷ [])
read_only-IsLatched_example = read_only-IsLatched (visit true 96 ∷ visit true 91 ∷ [])
