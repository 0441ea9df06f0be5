-- ===== src/Jobs/Runner/Resume.antt =====
-- Crash and resume: a saga that is cut short and run again from its checkpoint ends as if it had
-- never been cut.
use corebase.Base.{
  ℕ, String, ◌≡◌, refl, ap, true, false, Option, none, some, List, [], ◌∷◌, ◌++◌, inl, inr, arith,
  All, eq_refl, Bool-cases,
}
use corebase.Jobs.Repo.{JobRecord, JobTable, claim}
use corebase.Jobs.Runner.{SagaStep, Progress, contains, checkpointed, run_steps, begin, completed}
use corebase.Jobs.Runner.Loop.{
  IsFresh, IsFresh-concat, completed-IsFresh, claim-Stores, Stores, save_checkpoint-Stores,
  contains-append, skip, go, throw, turn, run_steps_skip, run_steps_go, run_steps_throw,
}

module _ {W : Type 0} (job again : JobRecord) (Leaves : SagaStep W → W → W → Type 0) where
  -- A step is check-then-act: whatever its run for `job` leaves behind when it is cut anywhere,
  -- the finished run included, its run for `again` from there ends as the run would have.
  pub record IsCheckThenAct (s : SagaStep W) : Type 0 where
    pub untouched : (w : W) → Leaves s w w
    pub whole : (w : W) → Leaves s w (s.run job w).0
    pub rerun : (w w' : W) → Leaves s w w' → s.run again w' ≡ s.run job w

  -- Where a process that runs the loop can be when it dies.
  pub data Crash : List (SagaStep W) → Progress W → Progress W → Type 0 where
    -- Between two turns of the loop.
    between : {steps : List (SagaStep W)} {p : Progress W} → Crash steps p p
    -- In a step, or after it and before its checkpoint is saved.
    within :
        {s : SagaStep W} {steps : List (SagaStep W)} {p : Progress W} (w : W)
        → contains s.name p.done ≡ false
        → Leaves s p.world w
        → Crash (s ∷ steps) p (record p { world = w })
    passed :
        {s : SagaStep W} {steps : List (SagaStep W)} {p q : Progress W}
        → contains s.name p.done ≡ true
        → Crash steps p q
        → Crash (s ∷ steps) p q
    saved :
        {s : SagaStep W} {steps : List (SagaStep W)} {p q : Progress W}
        → contains s.name p.done ≡ false
        → (s.run job p.world).1 ≡ none
        → Crash steps (checkpointed job s.name (s.run job p.world).0 p) q
        → Crash (s ∷ steps) p q

  -- What two runs are compared by: the world, the steps done and the error.
  pub record SameEnd (r s : Progress W × Option (List ℕ)) : Type 0 where
    pub same_world : r.0.world ≡ s.0.world
    pub same_done : r.0.done ≡ s.0.done
    pub same_error : r.1 ≡ s.1

  -- One step that acts alike from both worlds, before steps that end alike from equal ones.
  same_turn :
      (s : SagaStep W) (steps : List (SagaStep W)) (p q : Progress W)
      → ((p q : Progress W)
          → q.world ≡ p.world
          → q.done ≡ p.done
          → SameEnd (run_steps again steps q) (run_steps job steps p))
      → contains s.name p.done ≡ false
      → s.run again q.world ≡ s.run job p.world
      → q.done ≡ p.done
      → SameEnd (run_steps again (s ∷ steps) q) (run_steps job (s ∷ steps) p)
  same_turn s steps p q tail new r ed = elim (turn job s p) [
    | skip old ↦ absurd (cc)
    | go _ fine ↦
        rw
          (
            run_steps_go job s steps p new fine,
            run_steps_go again s steps q (rw ed new) (rw r fine),
          )
          (tail _ _ (ap (λ x. x.0) r) (ap (λ d. d ++ s.name ∷ []) ed))
    | throw message _ bad ↦
        rw
          (
            run_steps_throw job s steps p {message = message} new bad,
            run_steps_throw again s steps q {message = message} (rw ed new) (rw r bad),
          )
          (record { same_world = ap (λ x. x.0) r; same_done = ed; same_error = refl })
  ]

  -- A run from the same world and names ends alike.
  same_start :
      (steps : List (SagaStep W)) (p q : Progress W)
      → All IsCheckThenAct steps
      → q.world ≡ p.world
      → q.done ≡ p.done
      → SameEnd (run_steps again steps q) (run_steps job steps p)
  unfolding run_steps
  same_start [] p q ok ew ed = record { same_world = ew; same_done = ed; same_error = refl }
  same_start (s ∷ steps) p q (c, ok) ew ed = elim (Bool-cases (contains s.name p.done)) [
    | inl old ↦
        rw (run_steps_skip job s steps p old, run_steps_skip again s steps q (rw ed old))
          (same_start steps p q ok ew ed)
    | inr new ↦
        same_turn s steps p q (λ p' q' w d. same_start steps p' q' ok w d) new
          (rw ew (c.rerun p.world p.world (c.untouched p.world))) ed
  ]

  -- What was done stays done.
  Crash-contains :
      {steps : List (SagaStep W)} {p d : Progress W} (x : String)
      → Crash steps p d
      → contains x p.done ≡ true
      → contains x d.done ≡ true
  Crash-contains x between h = h
  Crash-contains x (within w new l) h = h
  Crash-contains x (passed old c) h = Crash-contains x c h
  Crash-contains x (saved {s} {p} new fine c) h =
      Crash-contains x c (rw (contains-append x p.done (s.name ∷ []), h))

  Crash-Stores :
      {steps : List (SagaStep W)} {p d : Progress W}
      → Crash steps p d
      → IsFresh [] p.done
      → Stores job.id p.done p.table
      → Stores job.id d.done d.table
  Crash-Stores between fresh stored = stored
  Crash-Stores (within w new l) fresh stored = stored
  Crash-Stores (passed old c) fresh stored = Crash-Stores c fresh stored
  Crash-Stores (saved {s} {p} new fine c) fresh stored =
      let later = IsFresh-concat [] p.done s.name fresh new in
      Crash-Stores c later (save_checkpoint-Stores job.id _ p.table later)

  resumed :
      {steps : List (SagaStep W)} {p d : Progress W} (q : Progress W)
      → Crash steps p d
      → All IsCheckThenAct steps
      → q.world ≡ d.world
      → q.done ≡ d.done
      → SameEnd (run_steps again steps q) (run_steps job steps p)
  resumed {steps} {p} q between ok ew ed = same_start steps p q ok ew ed
  resumed q (within {s} {steps} {p} w new l) (c, ok) ew ed =
      same_turn s steps p q (λ p' q' e f. same_start steps p' q' ok e f) new
        (rw ew (c.rerun p.world w l)) ed
  resumed q (passed {s} {steps} {p} {q = d} old c) (_, ok) ew ed =
      rw
        (
          run_steps_skip job s steps p old,
          run_steps_skip again s steps q (rw ed (Crash-contains s.name c old)),
        )
        (resumed q c ok ew ed)
  resumed q (saved {s} {steps} {p} {q = d} new fine c) (_, ok) ew ed =
      let noted : contains s.name (p.done ++ s.name ∷ []) ≡ true =
        ground (arith, contains-append s.name p.done (s.name ∷ []), eq_refl s.name) in
      rw
        (
          run_steps_go job s steps p new fine,
          run_steps_skip again s steps q (rw ed (Crash-contains s.name c noted)),
        )
        (resumed q c ok ew ed)

  -- Crash and resume. Let a process that claimed the row as `job`, its checkpoint as in the
  -- table, die anywhere in the saga `steps`, before, in or after a step or a checkpoint, and let
  -- a later claim return the row as `again`. If every step is check-then-act, the second run
  -- ends with the world, the steps done and the error of a first run that had not been cut.
  pub run_steps_after_cut :
      (steps : List (SagaStep W)) (t : JobTable) (w : W) (d : Progress W) (stale now : ℕ)
      → All IsCheckThenAct steps
      → Stores job.id (completed job.checkpoint) t
      → Crash steps (begin job t w) d
      → (claim job.id stale now d.table).1 ≡ some again
      → SameEnd
          (run_steps again steps (begin again (claim job.id stale now d.table).0 d.world))
          (run_steps job steps (begin job t w))
  run_steps_after_cut steps t w d stale now ok stored c e = resumed _ c ok refl (
      claim-Stores job.id stale now d.done d.table
        (Crash-Stores c (completed-IsFresh job.checkpoint) stored) e)
