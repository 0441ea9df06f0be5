-- ===== src/Jobs/Tests.antt =====
-- Runs of the job repository, the runner, the queue and the sweeper on small tables.
use corebase.Base.{
  ℕ, ◌≡◌, ◌≢◌, String, refl, ◌⊎◌, inl, inr, true, false, none, some, List, [], ◌∷◌, arith, All,
  eq_iff, eq_refl, str_eq, map, Bool-cases,
}
use corebase.Jobs.Repo.{
  heartbeat, JobRecord, JobTable, pending, running, claim, succeed, fail, find_orphans, update,
  by_idempotency_key, save_checkpoint,
}
use corebase.Jobs.Repo.Lifecycle.{IsSound, empty, after, inserts, claims, fails, History-IsSound}
use corebase.Jobs.Repo.Claim.{Meanwhile, claim_exclusive}
use corebase.Jobs.Repo.Takeover.{fail-succeed_reopens}
use corebase.Jobs.Runner.{SagaStep, Progress, RunnerOptions, contains, begin, run_steps, execute}
use corebase.Jobs.Runner.Resume.{IsCheckThenAct, Crash, within, saved, SameEnd, run_steps_after_cut}
use corebase.Jobs.Queue.{
  BullQueue, answered, enqueue_recovery, recovery_job_id, is_delivery_id, decimal,
  auth_email_backoff,
}
use corebase.Jobs.Queue.Delivery.{enqueue_recovery_thrice}

abbrev fresh : JobRecord
fresh = record {
  id = "j1";
  project_id = some "p1";
  node_id = none;
  job_type = "provision_project";
  idempotency_key = "create_p1";
  state = pending;
  attempts = 0;
  max_attempts = 5;
  payload = "{}";
  checkpoint = none;
  started_at = none;
  heartbeat_at = none;
  finished_at = none;
  last_error = none;
  scheduled_for = 10;
  created_at = 10;
}

abbrev table : JobTable
table = fresh ∷ []

-- The whole repository and runner, opened.
repo : Unit {0}
unfolding update claim succeed fail find_orphans by_idempotency_key execute run_steps
repo = tt

claim_runs : map (λ r. r.attempts) (claim "j1" 30000 100 table).0 ≡ 1 ∷ []
unfolding repo
claim_runs = refl

History-IsSound_example : All IsSound (fail "j1" (98 ∷ []) 200 (claim "j1" 30000 100 table).0).0
History-IsSound_example = History-IsSound (
    after
      (after
        (after empty (inserts fresh [] (record { state = refl; attempts = refl; finished = refl })))
        (claims "j1" 30000 100 table))
      (fails "j1" (98 ∷ []) 200 (claim "j1" 30000 100 table).0))

claim_exclusive_example :
    let beaten = heartbeat "j1" 20000 (claim "j1" 30000 100 table).0 in
    claim "j1" 30000 50000 beaten ≡ (beaten, none)
unfolding repo
claim_exclusive_example =
    claim_exclusive "j1" 30000 100 20000 50000 table
      (heartbeat "j1" 20000 (claim "j1" 30000 100 table).0) (tt, tt) refl
      (Meanwhile.renews 20000 Meanwhile.nothing (omega arith)) (omega arith)

abbrev stalled : JobRecord
stalled = record fresh { state = running; attempts = 1; heartbeat_at = some 100 }

fail-succeed_reopens_example :
    (claim "j1" 30000 60000
      (fail "j1" [] 50000 (succeed "j1" 45000 (claim "j1" 30000 40000 (stalled ∷ [])).0)).0).1
    ≢ none
fail-succeed_reopens_example =
    (fail-succeed_reopens stalled [] 100 30000 40000 45000 50000 60000 refl refl (omega arith)
      (omega arith)).2

-- A saga of two steps that each set a flag of the world, and what a cut run of one may leave.
abbrev Flags : Type 0
Flags = ℕ × ℕ

abbrev create_volume : SagaStep Flags
create_volume = record { name = "create_volume"; run = λ job w. ((1, w.1), none) }

abbrev start_database : SagaStep Flags
start_database = record { name = "start_database"; run = λ job w. ((w.0, 1), none) }

abbrev saga : List (SagaStep Flags)
saga = create_volume ∷ start_database ∷ []

abbrev claimed : JobRecord
claimed = record fresh {
  state = running;
  attempts = 1;
  started_at = some 100;
  heartbeat_at = some 100;
}

abbrev CutAnywhere : SagaStep Flags → Flags → Flags → Type 0
CutAnywhere s w w' = (w' ≡ w) ⊎ (w' ≡ (s.run claimed w).0)

abbrev reclaimed : JobRecord
reclaimed = record claimed {
  attempts = 2;
  heartbeat_at = some 40000;
  checkpoint = some ("create_volume" ∷ []);
}

saga-IsCheckThenAct : All (IsCheckThenAct claimed reclaimed CutAnywhere) saga
saga-IsCheckThenAct = (
  record {
    untouched = λ w. inl refl;
    whole = λ w. inr refl;
    rerun = λ w w' l. elim l [ inl e ↦ rw e refl | inr e ↦ rw e refl ];
  },
  (
    record {
      untouched = λ w. inl refl;
      whole = λ w. inr refl;
      rerun = λ w w' l. elim l [ inl e ↦ rw e refl | inr e ↦ rw e refl ];
    },
    tt,
  ),
)

abbrev cut : Progress Flags
cut = record {
  table = record claimed { checkpoint = some ("create_volume" ∷ []) } ∷ [];
  world = (1, 1);
  done = "create_volume" ∷ [];
  steps_run = "create_volume" ∷ [];
}

cut-Crash : Crash claimed reclaimed CutAnywhere saga (begin claimed (claimed ∷ []) (0, 0)) cut
unfolding save_checkpoint update
cut-Crash = saved refl refl (within (1, 1) refl (inr refl))

-- The process dies after the second step ran and before its checkpoint; the next one starts there.
run_steps_after_cut_example :
    SameEnd claimed reclaimed CutAnywhere
      (run_steps reclaimed saga (begin reclaimed (claim "j1" 30000 40000 cut.table).0 (1, 1)))
      (run_steps claimed saga (begin claimed (claimed ∷ []) (0, 0)))
unfolding repo
run_steps_after_cut_example =
    run_steps_after_cut claimed reclaimed CutAnywhere saga (claimed ∷ []) (0, 0) cut 30000 40000
      saga-IsCheckThenAct ((λ e. refl), tt) cut-Crash refl

abbrev options : RunnerOptions Flags
options = record {
  sagas = λ t. some saga;
  stale_after_ms = 30000;
  on_dead_letter = λ job w. w;
  no_saga = λ t. [];
}

abbrev broken : RunnerOptions Flags
broken = record options {
  sagas = λ t. some (record { name = "fails"; run = λ job w. (w, some (33 ∷ [])) } ∷ []);
}

-- A queue that keeps the ids that were added.
str_eq-ne : (a b : String) → a ≢ b → str_eq b a ≡ false
str_eq-ne a b ne = elim (Bool-cases (str_eq b a)) [
  | inl e ↦ absurd (ne (ground (arith, eq_iff b a)))
  | inr e ↦ e
]

contains_added : (id : String) (q : List String) → contains id (id ∷ q) ≡ true
contains_added id q = ground (arith, eq_refl id)

contains_other :
    (id other : String) (q : List String) → id ≢ other → contains id (other ∷ q) ≡ contains id q
contains_other id other q ne = rw (str_eq-ne id other ne) refl

abbrev list_queue : BullQueue
list_queue = record {
  Store = List String;
  get_job = contains;
  add = λ id q. id ∷ q;
  get_job-add = contains_added;
  get_job-add_ne = contains_other;
}

recovery_id : recovery_job_id "create_p1" 12 ≡ "create_p1#recover-12"
unfolding recovery_job_id decimal
recovery_id = refl

enqueue_recovery_thrice_example :
    enqueue_recovery list_queue "create_p1" 0 [] ≡ answered ("create_p1" ∷ []) true "create_p1"
enqueue_recovery_thrice_example =
    (enqueue_recovery_thrice list_queue "create_p1" 0 [] (unfold is_delivery_id in refl) refl
      refl).0

abbrev colon : JobRecord
colon = record fresh { idempotency_key = "bad:key"; created_at = 5 }

auth_email_schedule :
    map auth_email_backoff (0 ∷ 1 ∷ 2 ∷ 3 ∷ 9 ∷ [])
    ≡ 30000 ∷ 30000 ∷ 300000 ∷ 1800000 ∷ 1800000 ∷ []
unfolding auth_email_backoff
auth_email_schedule = refl
