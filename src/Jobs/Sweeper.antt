-- ===== src/Jobs/Sweeper.antt =====
-- services/worker/src/sweeper.ts: `sweepOnce`, which rebuilds lost deliveries from the table.
-- Logging is left out.
pub mod Delivers
use corebase.Base.{ℕ, suc, ◌+◌, Option, none, some, List, [], ◌∷◌, length, true, false}
use corebase.Jobs.Repo.{JobRecord, JobTable, find_orphans, mark_enqueued}
use corebase.Jobs.Queue.{BullQueue, Enqueued, invalid_id, answered, enqueue_recovery}

pub record Swept (Q : Type 0) : Type 0 where
  pub table : JobTable
  pub queue : Q
  -- `found` and `reEnqueued`, or `none` where a delivery id was refused and the sweep threw.
  pub counts : Option (ℕ × ℕ)

module _ (bull : BullQueue) where
  open bull use {Store}

  -- The `for` loop, `n` rows re-enqueued so far.
  unfoldable pub sweep_rows : ℕ → List JobRecord → ℕ → JobTable → Store → Swept Store
  sweep_rows found [] n t q = record { table = t; queue = q; counts = some (found, n) }
  sweep_rows found (row ∷ rows) n t q =
      elim (enqueue_recovery bull row.idempotency_key row.attempts q) [
        | invalid_id ↦ record { table = t; queue = q; counts = none }
        | answered q' enqueued _ ↦ elim enqueued [
          | true ↦ sweep_rows found rows (n + 1) (mark_enqueued row.id t) q'
          | false ↦ sweep_rows found rows n t q'
        ]
      ]

  unfoldable pub sweep_once : ℕ → ℕ → ℕ → JobTable → Store → Swept Store
  unfolding sweep_rows
  sweep_once stale batch now t q =
      let orphans = find_orphans stale batch now t in sweep_rows (length orphans) orphans 0 t q
