-- ===== src/Jobs/Runner/Outcomes.antt =====
-- What `execute` reports, and what the table says then.
use corebase.Base.{
  ◌+◌, ◌*◌, ℕ, ◌≤◌, ◌<◌, String, ◌≡◌, ◌≢◌, refl, ◌∙◌, ◌⊎◌, inl, inr, Bool, true, false, Option,
  none, some, List, arith, All, Bool-cases, Option-cases, str_eq,
}
use corebase.Jobs.Repo.{
  JobState, JobRecord, JobTable, is_succeeded, by_idempotency_key, claim, can_claim, to_claimed,
  succeed, to_succeeded, fail, to_failed, has_id, pending, running,
}
use corebase.Base.Update.{update-none, update-All_both}
use corebase.Jobs.Runner.{
  SagaStep, Progress, completed, begin, run_steps, Outcome, succeeded, dead_letter, skipped,
  unknown_job_type, threw, RunnerOptions, settle, start, attempt, execute, stale_after,
}
use corebase.Jobs.Runner.Loop.{remaining}
use corebase.Jobs.Runner.Checkpoint.{run_steps-remaining}

module _ {W : Type 0} (opts : RunnerOptions W) (now later : ℕ) (key : String) (t : JobTable)
    (w : W) where
  -- How `execute` comes to its result.
  data Executed (r : JobTable × W × Outcome) : Type 0 where
    unclaimed : r ≡ (t, w, skipped) → Executed r
    no_saga :
        (row job : JobRecord)
        → (claim row.id opts.stale_after_ms now t).1 ≡ some job
        → opts.sagas job.job_type ≡ none
        → r ≡ (
          (fail job.id
              (opts.no_saga job.job_type)
              later
              (claim row.id opts.stale_after_ms now t).0).0,
          w,
          unknown_job_type,
        )
        → Executed r
    ran :
        (row job : JobRecord) (steps : List (SagaStep W))
        → (claim row.id opts.stale_after_ms now t).1 ≡ some job
        → opts.sagas job.job_type ≡ some steps
        → r
          ≡ settle opts later job
              (run_steps job steps (begin job (claim row.id opts.stale_after_ms now t).0 w))
        → Executed r

  claim-none :
      (id : String)
      → (claim id opts.stale_after_ms now t).1 ≡ none
      → (claim id opts.stale_after_ms now t).0 ≡ t
  unfolding claim
  claim-none id e = update-none (can_claim id opts.stale_after_ms now) (to_claimed now) t e

  attempt-Executed : (row : JobRecord) → Executed (attempt opts now later row t w)
  unfolding attempt start
  attempt-Executed row = elim (Option-cases (claim row.id opts.stale_after_ms now t).1) [
    | inl e ↦ unclaimed (rw (e, claim-none row.id e, attempt))
    | inr (job, e) ↦ elim (Option-cases (opts.sagas job.job_type)) [
      | inl f ↦ no_saga row job e f (rw (e, f, attempt, start))
      | inr (steps, f) ↦ ran row job steps e f (rw (e, f, attempt, start))
    ]
  ]

  execute-Executed : Executed (execute opts now later key t w)
  unfolding execute
  execute-Executed = elim (Option-cases (by_idempotency_key key t)) [
    | inl e ↦ unclaimed (rw (e, execute))
    | inr (row, e) ↦ elim (Bool-cases (is_succeeded row.state)) [
      | inl f ↦ unclaimed (rw (e, f, execute))
      | inr f ↦ rw (e, f, execute) (attempt-Executed row)
    ]
  ]

module _ {W : Type 0} (opts : RunnerOptions W) where
  settle-ne-skipped :
      (later : ℕ) (job : JobRecord) (e : Progress W × Option (List ℕ))
      → (settle opts later job e).2 ≢ skipped
  unfolding settle
  settle-ne-skipped later job (p, none) h = cc
  settle-ne-skipped later job (p, some message) h = ground arith

  -- A saga that ended without an error, and what it ended as.
  settle_succeeded :
      (later : ℕ) (job : JobRecord) (e : Progress W × Option (List ℕ)) {names : List String}
      → (settle opts later job e).2 ≡ succeeded names
      → (e.1 ≡ none)
        × (names ≡ e.0.steps_run)
        × ((settle opts later job e).0 ≡ succeed job.id later e.0.table)
        × ((settle opts later job e).1 ≡ e.0.world)
  unfolding settle
  settle_succeeded later job (p, none) h = (refl, ground arith, refl, refl)
  settle_succeeded later job (p, some message) h = absurd (ground arith)

  settle_failed :
      (later : ℕ) (job : JobRecord) (p : Progress W) (message : List ℕ)
      → (settle opts later job (p, some message)).0 ≡ (fail job.id message later p.table).0
  unfolding settle
  settle_failed later job p message = ground arith

-- The outcomes of a run that failed.
abbrev pub is_error : Outcome → Bool
is_error (dead_letter names) = true
is_error unknown_job_type = true
is_error (threw message) = true
is_error _ = false

-- Dead with every attempt used up, or waiting for the next attempt.
abbrev pub IsGivenBack : JobRecord → Type 0
IsGivenBack r =
    ((r.state ≡ JobState.dead_letter) × (r.max_attempts ≤ r.attempts))
    ⊎ ((r.state ≡ pending) × (r.attempts < r.max_attempts))

fail-IsGivenBack :
    (id : String) (error : List ℕ) (now : ℕ) (t : JobTable)
    → All (λ r. str_eq r.id id ≡ true → IsGivenBack r) (fail id error now t).0
unfolding fail
fail-IsGivenBack id error now t =
    update-All_both (has_id id) (to_failed error now) (λ r. str_eq r.id id ≡ true → IsGivenBack r) t
      (λ r e mine. ground arith) (λ r e mine. absurd (cc))

succeed-succeeded :
    (id : String) (now : ℕ) (t : JobTable)
    → All (λ r. str_eq r.id id ≡ true → r.state ≡ JobState.succeeded) (succeed id now t)
unfolding succeed
succeed-succeeded id now t =
    update-All_both (has_id id) (to_succeeded now)
      (λ r. str_eq r.id id ≡ true → r.state ≡ JobState.succeeded) t (λ r e mine. refl)
      (λ r e mine. absurd (cc))

module _ {W : Type 0} (opts : RunnerOptions W) where
  settle-IsGivenBack :
      (later : ℕ) (job : JobRecord) (e : Progress W × Option (List ℕ))
      → is_error (settle opts later job e).2 ≡ true
      → All (λ r. str_eq r.id job.id ≡ true → IsGivenBack r) (settle opts later job e).0
  settle-IsGivenBack later job (p, none) h = absurd (unfold settle in cc)
  settle-IsGivenBack later job (p, some message) h =
      rw (settle_failed opts later job p message) (fail-IsGivenBack job.id message later p.table)

-- A run that succeeded from the table `t` and the world `w`, with `r` as its result.
pub record IsCompleted {W : Type 0} (opts : RunnerOptions W) (now : ℕ) (t : JobTable) (w : W)
    (names : List String) (r : JobTable × W × Outcome) : Type 0 where
  pub row : JobRecord
  pub job : JobRecord
  pub steps : List (SagaStep W)
  pub claimed : (claim row.id opts.stale_after_ms now t).1 ≡ some job
  pub saga : opts.sagas job.job_type ≡ some steps
  pub exact : names ≡ remaining (completed job.checkpoint) steps
  pub state : All (λ x. str_eq x.id job.id ≡ true → x.state ≡ JobState.succeeded) r.0
  pub world :
      r.1 ≡ (run_steps job steps (begin job (claim row.id opts.stale_after_ms now t).0 w)).0.world

module _ {W : Type 0} (opts : RunnerOptions W) (now later : ℕ) (key : String) (t : JobTable)
    (w : W) where
  -- A delivery that is skipped (no row, a row that has succeeded, or one that another worker
  -- holds) changes neither the table nor the world.
  execute_skipped :
      (execute opts now later key t w).2 ≡ skipped
      → ((execute opts now later key t w).0 ≡ t) × ((execute opts now later key t w).1 ≡ w)
  execute_skipped h = elim (execute-Executed opts now later key t w) [
    | unclaimed e ↦ rw e (refl, refl)
    | no_saga row job e f g ↦ let wrong : unknown_job_type ≡ skipped = rw g at h in absurd (cc)
    | ran row job steps e f g ↦ absurd (settle-ne-skipped opts later job _ (rw g at h))
  ]

  -- When a run fails (its step threw, its attempts ran out, or it has no saga), a row was claimed and every
  -- row with its id is either dead-lettered with all its attempts used, or pending with
  -- attempts left: none is left running.
  execute_failed :
      is_error (execute opts now later key t w).2 ≡ true
      → (row job : JobRecord) × ((claim row.id opts.stale_after_ms now t).1 ≡ some job)
        × All (λ r. str_eq r.id job.id ≡ true → IsGivenBack r) (execute opts now later key t w).0
  execute_failed h = elim (execute-Executed opts now later key t w) [
    | unclaimed e ↦ let wrong : false ≡ true = rw e at h in absurd (cc)
    | no_saga row job e f g ↦ (row, job, e, rw g (fail-IsGivenBack job.id _ later _))
    | ran row job steps e f g ↦
        (row, job, e, rw g (settle-IsGivenBack opts later job _ (rw g at h)))
  ]

  -- When a run succeeds, a row was claimed, a saga is registered for the claimed job, the steps run are exactly
  -- those of the saga that its checkpoint did not name, each once and in order, the world is the
  -- one that they leave, and every row with the job's id is `succeeded`.
  execute_succeeded :
      {names : List String}
      → (execute opts now later key t w).2 ≡ succeeded names
      → IsCompleted opts now t w names (execute opts now later key t w)
  execute_succeeded {names} h = elim (execute-Executed opts now later key t w) [
    | unclaimed e ↦ let wrong : skipped ≡ succeeded names = rw e at h in absurd (cc)
    | no_saga row job e f g ↦
        let wrong : unknown_job_type ≡ succeeded names = rw g at h in absurd (cc)
    | ran row job steps e f g ↦ rw g (
        let t' = (claim row.id opts.stale_after_ms now t).0 in
        let (fine, same, table, world) =
          settle_succeeded opts later job (run_steps job steps (begin job t' w)) (rw g at h) in
        record {
          row = row;
          job = job;
          steps = steps;
          claimed = e;
          saga = f;
          exact = same ∙ (run_steps-remaining job steps (begin job t' w) fine).0;
          state = rw table (succeed-succeeded job.id later _);
          world = world;
        })
  ]

-- A live worker keeps its job: with thresholds that `createRunner` accepts, a running row whose
-- last heartbeat is at most two intervals old, so one beat may be missed, cannot be claimed.
stale_after-can_claim :
    (stale_ms heartbeat_ms : Option ℕ) (stale beat h now : ℕ) (id : String) (r : JobRecord)
    → stale_after stale_ms heartbeat_ms ≡ some (stale, beat)
    → r.state ≡ running
    → r.heartbeat_at ≡ some h
    → now ≤ h + beat * 2
    → can_claim id stale now r ≡ false
unfolding stale_after
stale_after-can_claim stale_ms heartbeat_ms stale beat h now id r e run last soon = ground arith
