-- ===== src/Jobs/Repo/Lifecycle.antt =====
-- What every row of `provisioning_jobs` satisfies, whatever the statements and their order.
use corebase.Base.{
  ℕ, ◌≤◌, ◌<◌, String, ◌≡◌, ◌≢◌, Bool, true, ◌||◌, none, List, [], ◌∷◌, arith, is_some, All,
}
use corebase.Jobs.Repo.{
  JobState, pending, running, succeeded, failed, dead_letter, JobRecord, JobTable, is_succeeded,
  is_dead_letter, mark_enqueued, can_enqueue, to_enqueued, claim, can_claim, to_claimed, heartbeat,
  has_id, save_checkpoint, succeed, to_succeeded, fail, to_failed,
}
use corebase.Base.Update.{update-All}

abbrev is_over : JobState → Bool
is_over s = is_succeeded s || is_dead_letter s

pub record IsSound (r : JobRecord) : Type 0 where
  -- A running row was claimed: it has a start, a heartbeat and an attempt.
  pub started : r.state ≡ running → is_some r.started_at ≡ true
  pub beating : r.state ≡ running → is_some r.heartbeat_at ≡ true
  pub tried : r.state ≡ running → 0 < r.attempts
  -- Exactly the rows that are over have a finishing time.
  pub finished : is_some r.finished_at ≡ is_over r.state
  -- Only spent rows are dead, succeeded rows carry no error, and `failed` is never stored.
  pub spent : r.state ≡ dead_letter → r.max_attempts ≤ r.attempts
  pub clean : r.state ≡ succeeded → r.last_error ≡ none
  pub stored : r.state ≢ failed

pub record IsNew (r : JobRecord) : Type 0 where
  pub state : r.state ≡ pending
  pub attempts : r.attempts ≡ 0
  pub finished : r.finished_at ≡ none

-- One statement of the repository, by any process at any time.
pub data Statement : JobTable → JobTable → Type 0 where
  inserts : (r : JobRecord) (t : JobTable) → IsNew r → Statement t (r ∷ t)
  marks : (id : String) (t : JobTable) → Statement t (mark_enqueued id t)
  claims : (id : String) (stale now : ℕ) (t : JobTable) → Statement t (claim id stale now t).0
  beats : (id : String) (now : ℕ) (t : JobTable) → Statement t (heartbeat id now t)
  saves :
      (id : String) (done : List String) (t : JobTable) → Statement t (save_checkpoint id done t)
  succeeds : (id : String) (now : ℕ) (t : JobTable) → Statement t (succeed id now t)
  fails :
      (id : String) (error : List ℕ) (now : ℕ) (t : JobTable) → Statement t (fail id error now t).0

pub data History : JobTable → Type 0 where
  empty : History []
  after : {t u : JobTable} → History t → Statement t u → History u

to_claimed-IsSound :
    (id : String) (stale now : ℕ) (r : JobRecord)
    → can_claim id stale now r ≡ true
    → IsSound r
    → IsSound (to_claimed now r)
to_claimed-IsSound id stale now r h s = ground arith

to_failed-IsSound :
    (error : List ℕ) (now : ℕ) (r : JobRecord) → IsSound r → IsSound (to_failed error now r)
to_failed-IsSound error now r s = ground arith

Statement-IsSound : {t u : JobTable} → Statement t u → All IsSound t → All IsSound u
unfolding mark_enqueued claim heartbeat save_checkpoint succeed fail
Statement-IsSound (inserts r t new) h = (ground arith, h)
Statement-IsSound (marks id t) h =
    update-All (can_enqueue id) to_enqueued IsSound t (λ r e s. ground arith) h
Statement-IsSound (claims id stale now t) h =
    update-All (can_claim id stale now) (to_claimed now) IsSound t (to_claimed-IsSound id stale now)
      h
Statement-IsSound (beats id now t) h = update-All (has_id id) _ IsSound t (λ r e s. ground arith) h
Statement-IsSound (saves id done t) h = update-All (has_id id) _ IsSound t (λ r e s. ground arith) h
Statement-IsSound (succeeds id now t) h =
    update-All (has_id id) (to_succeeded now) IsSound t (λ r e s. ground arith) h
Statement-IsSound (fails id error now t) h =
    update-All (has_id id) (to_failed error now) IsSound t
      (λ r e s. to_failed-IsSound error now r s) h

-- However the API, the sweeper and any number of workers interleave their statements, every row
-- is sound: a running row has a start, a heartbeat and an attempt, exactly the succeeded and the
-- dead-lettered rows have a finishing time, a dead-lettered row has used up its attempts, a
-- succeeded one carries no error, and the state `failed` is never stored.
pub History-IsSound : {t : JobTable} → History t → All IsSound t
History-IsSound empty = tt
History-IsSound (after h s) = Statement-IsSound s (History-IsSound h)
