-- ===== src/Jobs/Runner.antt =====
-- services/worker/src/jobs/runner.ts: `execute`, which runs a saga from its checkpoint.
-- `W` is everything outside the jobs table that the steps act on. A step takes the claimed job
-- and the world to a new world, and throws a message or does not; the repository's own
-- statements are taken to succeed. Logging and metrics hooks are left out; the heartbeats that
-- `setInterval` sends between steps are the `beats` of Repo/Claim.
pub mod Loop
pub mod Checkpoint
pub mod Resume
pub mod Outcomes
use corebase.Base.{
  ◌*◌, leb, or_else, ℕ, String, Bool, true, false, ◌||◌, Option, none, some, List, [], ◌∷◌, ◌++◌,
  str_eq, if◌then◌else◌,
}
use corebase.Jobs.Repo.{
  JobRecord, JobTable, is_succeeded, by_idempotency_key, claim, save_checkpoint, succeed, fail,
}

pub record SagaStep (W : Type 0) : Type 0 where
  pub name : String
  -- The world afterwards, and the message if it threw.
  pub run : JobRecord → W → W × Option (List ℕ)

-- The thresholds of `createRunner`, or `none` where it throws: a live worker would lose its jobs.
unfoldable pub stale_after : Option ℕ → Option ℕ → Option (ℕ × ℕ)
stale_after stale_after_ms heartbeat_ms =
    let beat = or_else heartbeat_ms 10000 in
    let stale = or_else stale_after_ms (beat * 3) in
    if leb stale (beat * 2) then none else some (stale, beat)

-- `done.has(name)`
abbrev pub contains : String → List String → Bool
contains name [] = false
contains name (x ∷ xs) = str_eq x name || contains name xs

-- `new Set(array)`, in the order of insertion.
abbrev pub set_from : List String → List String → List String
set_from seen [] = seen
set_from seen (x ∷ xs) = set_from (if contains x seen then seen else seen ++ x ∷ []) xs

abbrev pub completed : Option (List String) → List String
completed none = []
completed (some names) = set_from [] names

-- The variables of the loop in `execute`, the table and the world with them.
pub record Progress (W : Type 0) : Type 0 where
  pub table : JobTable
  pub world : W
  pub done : List String
  pub steps_run : List String

module _ {W : Type 0} where
  -- The variables when the loop begins.
  abbrev pub begin : JobRecord → JobTable → W → Progress W
  begin job t w = record { table = t; world = w; done = completed job.checkpoint; steps_run = [] }

  -- What follows a step that did not throw: the name is noted and the checkpoint saved.
  abbrev pub checkpointed : JobRecord → String → W → Progress W → Progress W
  checkpointed job name w p = record {
    table = save_checkpoint job.id (p.done ++ name ∷ []) p.table;
    world = w;
    done = p.done ++ name ∷ [];
    steps_run = p.steps_run ++ name ∷ [];
  }

  -- The `for` loop: its variables at the end, and the message if a step threw.
  unfoldable pub run_steps :
      JobRecord → List (SagaStep W) → Progress W → Progress W × Option (List ℕ)
  run_steps job [] p = (p, none)
  run_steps job (step ∷ steps) p = elim (contains step.name p.done) [
    | true ↦ run_steps job steps p
    | false ↦ elim ((step.run job p.world).1) [
      | none ↦ run_steps job steps (checkpointed job step.name (step.run job p.world).0 p)
      | some message ↦ (record p { world = (step.run job p.world).0 }, some message)
    ]
  ]

pub data Outcome : Type 0 where
  succeeded dead_letter : List String → Outcome
  skipped : Outcome
  -- `execute` threw: an UnknownJobTypeError, or the step's own error.
  unknown_job_type : Outcome
  threw : List ℕ → Outcome

pub record RunnerOptions (W : Type 0) : Type 0 where
  pub sagas : String → Option (List (SagaStep W))
  pub stale_after_ms : ℕ
  -- `onDeadLetter`, its own failure swallowed.
  pub on_dead_letter : JobRecord → W → W
  -- The text of the error for a job type with no saga.
  pub no_saga : String → List ℕ

module _ {W : Type 0} (opts : RunnerOptions W) where
  -- From the end of the loop on; `later` is the time then.
  settle : ℕ → JobRecord → Progress W × Option (List ℕ) → JobTable × W × Outcome
  settle later job (p, none) = (succeed job.id later p.table, p.world, succeeded p.steps_run)
  settle later job (p, some message) =
      let (t, terminal) = fail job.id message later p.table in
      if terminal
      then (t, opts.on_dead_letter job p.world, dead_letter p.steps_run)
      else (t, p.world, threw message)

  start : ℕ → JobRecord → JobTable → W → JobTable × W × Outcome
  start later job t w = elim (opts.sagas job.job_type) [
    | none ↦ ((fail job.id (opts.no_saga job.job_type) later t).0, w, unknown_job_type)
    | some steps ↦ settle later job (run_steps job steps (begin job t w))
  ]

  attempt : ℕ → ℕ → JobRecord → JobTable → W → JobTable × W × Outcome
  attempt now later row t w =
      let (t', claimed) = claim row.id opts.stale_after_ms now t in
      elim claimed [ none ↦ (t', w, skipped) | some job ↦ start later job t' w ]

  unfoldable pub execute : ℕ → ℕ → String → JobTable → W → JobTable × W × Outcome
  unfolding attempt start settle
  execute now later key t w = elim (by_idempotency_key key t) [
    | none ↦ (t, w, skipped)
    | some row ↦ if is_succeeded row.state then (t, w, skipped) else attempt now later row t w
  ]
