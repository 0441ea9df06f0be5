-- ===== src/Backup/Tests.antt =====
-- A pro project at night.
use corebase.Base.{ℕ, ◌*◌, ◌≡◌, refl, true, false, Option, none, some}
use corebase.Backup.Schedule.{
  Clock, DueInput, full, incr, schedule_for, slot_minute_for, in_slot, decide_backup, nightly,
  day_ms,
}
use corebase.Backup.Schedule.Ages.{IsFresh, decide_backup-IsFresh}

abbrev clock : Clock
clock = record { now = 20 * day_ms; hour = 4; minute = 10 }

abbrev due : Option ℕ → Option ℕ → DueInput
due last_full last_any = record {
  plan = "pro";
  clock = clock;
  hash = 60;
  last_full_at = last_full;
  last_any_at = last_any;
  window = none;
}

schedule : Unit {0}
unfolding schedule_for slot_minute_for in_slot decide_backup
schedule = tt

decisions :
    (decide_backup (due none none) ≡ some full)
    × (decide_backup (due (some (13 * day_ms)) none) ≡ some full)
    × (decide_backup (due (some (15 * day_ms)) (some (19 * day_ms))) ≡ some incr)
unfolding schedule
decisions = (refl, refl, refl)

-- The slot of the window's last minute.
last_minute :
    (in_slot 179 (record { now = 0; hour = 5; minute = 59 }) nightly 30 ≡ true)
    × (in_slot 179 (record { now = 60000; hour = 6; minute = 0 }) nightly 30 ≡ false)
unfolding schedule
last_minute = (refl, refl)

abbrev fresh : DueInput
fresh = due (some (19 * day_ms)) (some (20 * day_ms))

no_backup : decide_backup fresh ≡ none
unfolding schedule
no_backup = refl

decide_backup-IsFresh_example : IsFresh fresh
decide_backup-IsFresh_example = decide_backup-IsFresh fresh no_backup
