-- ===== src/Jobs/Sweeper/Delivers.antt =====
-- What a sweep leaves behind.
use corebase.Base.{ℕ, ◌+◌, ◌≤◌, String, ◌≡◌, ◌⊎◌, true, false, none, List, ◌∷◌, All, length}
use corebase.Jobs.Repo.{JobRecord, JobTable, find_orphans}
use corebase.Jobs.Queue.{
  BullQueue, Enqueued, answered, invalid_id, is_delivery_id, recovery_job_id, enqueue_recovery,
}
use corebase.Jobs.Sweeper.{Swept, sweep_rows, sweep_once}

module _ (bull : BullQueue) where
  open bull use {Store, get_job, add, get_job-add, get_job-add_ne}

  -- Between the two stores the row's job was added under its key, or it is in the later one under
  -- its recovery id. A job that had the key before is that of the run that was lost.
  abbrev pub IsDelivered : Store → Store → JobRecord → Type 0
  IsDelivered q q' r =
      ((get_job r.idempotency_key q ≡ false) × (get_job r.idempotency_key q' ≡ true))
      ⊎ (get_job (recovery_job_id r.idempotency_key r.attempts) q' ≡ true)

  -- What an answer of `enqueueRecovery` means.
  data Recovered (key : String) (attempt : ℕ) (q : Store) (e : Enqueued Store) : Type 0 where
    refused : is_delivery_id key ≡ false → e ≡ invalid_id → Recovered key attempt q e
    added :
        (id : String)
        → ((id ≡ key) × (get_job key q ≡ false)) ⊎ (id ≡ recovery_job_id key attempt)
        → e ≡ answered (add id q) true id
        → Recovered key attempt q e
    kept :
        get_job (recovery_job_id key attempt) q ≡ true
        → e ≡ answered q false (recovery_job_id key attempt)
        → Recovered key attempt q e

  abbrev Grows : Store → Store → Type 0
  Grows q q' = (id : String) → get_job id q ≡ true → get_job id q' ≡ true

  -- One turn of the loop: it throws, or it goes on with the row's job in the queue.
  data SweepTurn (found : ℕ) (row : JobRecord) (rows : List JobRecord) (n : ℕ) (t : JobTable)
      (q : Store) : Type 0 where
    throws :
        sweep_rows bull found (row ∷ rows) n t q ≡ record { table = t; queue = q; counts = none }
        → SweepTurn found row rows n t q
    goes :
        (n' : ℕ) (t' : JobTable) (q' : Store)
        → n' ≤ n + 1
        → IsDelivered q q' row
        → Grows q q'
        → sweep_rows bull found (row ∷ rows) n t q ≡ sweep_rows bull found rows n' t' q'
        → SweepTurn found row rows n t q

  abbrev IsSwept : Store → ℕ → List JobRecord → ℕ → ℕ × ℕ → Swept Store → Type 0
  IsSwept q found rows n c s =
      All (IsDelivered q s.queue) rows × (c.0 ≡ found) × (c.1 ≤ n + length rows)

  -- One bad key stops recovery: where the oldest orphan's key is no delivery id, the sweep throws
  -- and no other orphan is enqueued.
  sweep_once_blocked :
      (stale batch now : ℕ) (t : JobTable) (q : Store) (row : JobRecord) (rows : List JobRecord)
      → find_orphans stale batch now t ≡ row ∷ rows
      → is_delivery_id row.idempotency_key ≡ false
      → sweep_once bull stale batch now t q ≡ record { table = t; queue = q; counts = none }
  unfolding sweep_once sweep_rows enqueue_recovery
  sweep_once_blocked stale batch now t q row rows e bad =
      rw (e, bad, sweep_once, sweep_rows, enqueue_recovery)
