-- ===== src/Jobs/Runner/Checkpoint.antt =====
-- What the loop ran and what its checkpoint says, when it ends.
use corebase.Base.{◌≡◌, sym, ◌∙◌, none, some, List, [], ◌∷◌, ◌++◌}
use mathlib.Core.List.{append_assoc, append-nil}
use corebase.Jobs.Repo.{JobRecord}
use corebase.Jobs.Runner.{SagaStep, Progress, checkpointed, run_steps}
use corebase.Jobs.Runner.Loop.{
  remaining, IsFresh, IsFresh-concat, Stores, save_checkpoint-Stores, skip, go, throw, turn,
  run_steps_skip, run_steps_go, run_steps_throw,
}

module _ {W : Type 0} (job : JobRecord) where
  -- A saga that ends without an error has run exactly the steps that the checkpoint did not name,
  -- each once and in the order of the saga, and has noted them after those done before.
  pub run_steps-remaining :
      (steps : List (SagaStep W)) (p : Progress W)
      → (run_steps job steps p).1 ≡ none
      → let q = (run_steps job steps p).0 in
        (q.steps_run ≡ p.steps_run ++ remaining p.done steps)
        × (q.done ≡ p.done ++ remaining p.done steps)
  unfolding run_steps
  run_steps-remaining [] p e = (sym (append-nil p.steps_run), sym (append-nil p.done))
  run_steps-remaining (s ∷ steps) p e = elim (turn job s p) [
    | skip old ↦
        let same = run_steps_skip job s steps p old in
        rw (same, old) (run_steps-remaining steps p (rw same at e))
    | go new ok ↦
        let next = run_steps_go job s steps p new ok in
        let (ran, done) = run_steps-remaining steps _ (rw next at e) in
        rw (next, new)
          (
            ran ∙ append_assoc p.steps_run (s.name ∷ []) _,
            done ∙ append_assoc p.done (s.name ∷ []) _,
          )
    | throw message new bad ↦
        let failed : some message ≡ none = rw (run_steps_throw job s steps p new bad) at e in
        absurd (cc)
  ]

  -- However the loop ends, the row's checkpoint reads back as the steps that are done.
  run_steps-Stores :
      (steps : List (SagaStep W)) (p : Progress W)
      → IsFresh [] p.done
      → Stores job.id p.done p.table
      → let q = (run_steps job steps p).0 in IsFresh [] q.done × Stores job.id q.done q.table
  unfolding run_steps
  run_steps-Stores [] p fresh stored = (fresh, stored)
  run_steps-Stores (s ∷ steps) p fresh stored = elim (turn job s p) [
    | skip old ↦ rw (run_steps_skip job s steps p old) (run_steps-Stores steps p fresh stored)
    | go new ok ↦ rw (run_steps_go job s steps p new ok) (
        let later = IsFresh-concat [] p.done s.name fresh new in
        run_steps-Stores steps (checkpointed job s.name (s.run job p.world).0 p) later
          (save_checkpoint-Stores job.id _ p.table later))
    | throw message new bad ↦ rw (run_steps_throw job s steps p new bad) (fresh, stored)
  ]
