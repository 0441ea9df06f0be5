-- ===== src/Backup/Schedule.antt =====
-- services/worker/src/backup-schedule.ts, with PLAN_SCHEDULE of services/worker/src/backup.ts.
-- Times are in milliseconds; the local hour and minute of `now` and the first two bytes of the
-- hash of the project's id come from the platform. A number of days is compared by whole
-- milliseconds. The reasons, which are for logs, are left out.
pub mod Ages
use corebase.Base.{
  ℕ, ◌+◌, ◌-◌, ◌*◌, ◌%◌, String, Bool, true, false, not, ◌&&◌, ◌||◌, Option, none, some, max, leb,
  ltb, str_eq, ◌==◌, or_else, if◌then◌else◌,
}

pub record BackupSchedule : Type 0 where
  pub full_every_days : ℕ
  pub incr_every_days : ℕ

-- PLAN_SCHEDULE, with the free plan's for any other.
unfoldable pub schedule_for : String → BackupSchedule
schedule_for plan =
    if str_eq plan "pro" || str_eq plan "team" || str_eq plan "enterprise"
    then record { full_every_days = 7; incr_every_days = 1 }
    else record { full_every_days = 1; incr_every_days = 0 }

pub record Window : Type 0 where
  pub start_hour : ℕ
  pub end_hour : ℕ

abbrev pub nightly : Window
nightly = record { start_hour = 3; end_hour = 6 }

pub data BackupType : Type 0 where
  full incr : BackupType

-- A clock: `now`, with its local hour and minute.
pub record Clock : Type 0 where
  pub now : ℕ
  pub hour : ℕ
  pub minute : ℕ

pub record DueInput : Type 0 where
  pub plan : String
  pub clock : Clock
  -- `(h[0] << 8) | h[1]`
  pub hash : ℕ
  pub last_full_at : Option ℕ
  pub last_any_at : Option ℕ
  pub window : Option Window

unfoldable pub slot_minute_for : ℕ → ℕ → ℕ
slot_minute_for hash window_minutes = hash % max 1 window_minutes

abbrev pub window_minutes : Window → ℕ
window_minutes w = (w.end_hour - w.start_hour) * 60

abbrev pub minute_of_window : Clock → Window → ℕ
minute_of_window c w = (c.hour - w.start_hour) * 60 + c.minute

unfoldable pub in_slot : ℕ → Clock → Window → ℕ → Bool
in_slot hash c w slot_width_minutes =
    if w.start_hour == 0 && w.end_hour == 24
    then true
    else if ltb c.hour w.start_hour || leb w.end_hour c.hour
    then false
    else let slot = slot_minute_for hash (window_minutes w) in
      leb slot (minute_of_window c w) && ltb (minute_of_window c w) (slot + slot_width_minutes)

abbrev pub day_ms : ℕ
day_ms = 86400000

-- At least `n` days lie between the two times.
abbrev pub days_since : ℕ → ℕ → ℕ → Bool
days_since n since now = leb (since + n * day_ms) now

-- The rest of `decideBackup`, with the last full.
abbrev pub decide_with_full : DueInput → ℕ → Option BackupType
decide_with_full a full_at =
    let sched = schedule_for a.plan in
    let now = a.clock.now in
    if days_since (sched.full_every_days * 2) full_at now
    then some full
    else if not (in_slot a.hash a.clock (or_else a.window nightly) 30)
    then none
    else if days_since sched.full_every_days full_at now
    then some full
    else if ltb 0 sched.incr_every_days
        && days_since sched.incr_every_days (or_else a.last_any_at full_at) now
    then some incr
    else none

unfoldable pub decide_backup : DueInput → Option BackupType
decide_backup a = elim a.last_full_at [ some t ↦ decide_with_full a t | none ↦ some full ]
