-- ===== src/Backup/Schedule/Ages.antt =====
-- How old a project's backups can be.
use corebase.Base.{
  ℕ, ◌+◌, ◌*◌, ◌<◌, ◌≡◌, ◌⊎◌, false, none, some, arith, ltb, Bool-cases, Option-cases, inl, inr,
  or_else,
}
use corebase.Backup.Schedule.{
  DueInput, decide_backup, decide_with_full, schedule_for, in_slot, nightly, day_ms,
}

-- What holds of a project that gets no backup now.
pub record IsFresh (a : DueInput) : Type 0 where
  pub full_at : ℕ
  pub has_full : a.last_full_at ≡ some full_at
  pub not_overdue : a.clock.now < full_at + (schedule_for a.plan).full_every_days * 2 * day_ms
  -- Outside its slot, or with a full and an incremental that are not due.
  pub up_to_date :
      (in_slot a.hash a.clock (or_else a.window nightly) 30 ≡ false)
      ⊎ ((a.clock.now < full_at + (schedule_for a.plan).full_every_days * day_ms)
          × (((schedule_for a.plan).incr_every_days ≡ 0)
              ⊎ (a.clock.now
                  < or_else a.last_any_at full_at
                    + (schedule_for a.plan).incr_every_days * day_ms)))

due :
    (a : DueInput) (t : ℕ)
    → decide_with_full a t ≡ none
    → (in_slot a.hash a.clock (or_else a.window nightly) 30 ≡ false)
      ⊎ ((a.clock.now < t + (schedule_for a.plan).full_every_days * day_ms)
          × (((schedule_for a.plan).incr_every_days ≡ 0)
              ⊎ (a.clock.now
                  < or_else a.last_any_at t + (schedule_for a.plan).incr_every_days * day_ms)))
due a t d = elim (Bool-cases (in_slot a.hash a.clock (or_else a.window nightly) 30)) [
  | inr out ↦ inl out
  | inl slot ↦ elim (Bool-cases (ltb 0 (schedule_for a.plan).incr_every_days)) [
    | inr fulls_only ↦ inr (ground arith, inl (ground arith))
    | inl incrs ↦ inr (ground arith, inr (ground arith))
  ]
]

-- A project that gets no backup has a full one, younger than twice its plan's interval; in its
-- slot, the full one is younger than the interval, and if the plan has incrementals, the last
-- backup of any type is younger than theirs.
pub decide_backup-IsFresh : (a : DueInput) → decide_backup a ≡ none → IsFresh a
unfolding decide_backup
decide_backup-IsFresh a e = elim (Option-cases a.last_full_at) [
  | inl never ↦ absurd (cc)
  | inr (t, f) ↦
      let d : decide_with_full a t ≡ none = cc in
      record { full_at = t; has_full = f; not_overdue = ground arith; up_to_date = due a t d }
]
