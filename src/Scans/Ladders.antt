-- ===== src/Scans/Ladders.antt =====
-- services/worker/src/disk-scan.ts, `rungFor` and a turn of the loop of `scanOnce`, and
-- services/worker/src/wal-scan.ts, `archiveRungFor`. A percentage `used / cap * 100` is compared by cross-multiplication; a lag is in
-- whole seconds.
pub mod Hysteresis
use corebase.Base.{
  ℕ, ◌*◌, Bool, true, false, not, ◌&&◌, ◌||◌, ◌==◌, Option, none, some, List, [], ◌∷◌, leb,
  if◌then◌else◌,
}

pub data DiskState : Type 0 where
  disk_ok disk_warn disk_critical read_only : DiskState

abbrev pub is_read_only : DiskState → Bool
is_read_only read_only = true
is_read_only _ = false

-- What a probe finds.
pub record Usage : Type 0 where
  pub used_bytes : ℕ
  pub cap_bytes : ℕ

-- `pct >= rung`
abbrev pub at_least : ℕ → Usage → Bool
at_least rung u = leb (rung * u.cap_bytes) (100 * u.used_bytes)

unfoldable pub rung_for : Usage → DiskState → DiskState
rung_for u current =
    if at_least 95 u
    then read_only
    else if is_read_only current && at_least 90 u
    then read_only
    else if at_least 90 u
    then disk_critical
    else if at_least 80 u
    then disk_warn
    else disk_ok

abbrev rung : DiskState → ℕ
rung disk_ok = 0
rung disk_warn = 1
rung disk_critical = 2
rung read_only = 3

abbrev pub same_state : DiskState → DiskState → Bool
same_state a b = rung a == rung b

-- What one sweep meets at a project: its usage, or `none` where it cannot be measured, and whether
-- `setReadOnly` returns, if it is called, or throws.
pub record Visit : Type 0 where
  pub usage : Option Usage
  pub flag_set : Bool

-- One turn of the loop of `scanOnce`: the stored state afterwards.
unfoldable pub scan_one : Visit → DiskState → DiskState
unfolding rung_for
scan_one v current = elim v.usage [
  | none ↦ current
  | some u ↦
      let next = rung_for u current in
      if same_state next current
      then current
      else if (is_read_only next || is_read_only current) && not v.flag_set
      then current
      else next
]

pub data ArchiveState : Type 0 where
  archive_ok archive_warn archive_critical : ArchiveState

unfoldable pub archive_rung_for : ℕ → ArchiveState
archive_rung_for lag_seconds =
    if leb 900 lag_seconds
    then archive_critical
    else if leb 300 lag_seconds
    then archive_warn
    else archive_ok
