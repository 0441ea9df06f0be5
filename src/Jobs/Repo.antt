-- ===== src/Jobs/Repo.antt =====
-- services/worker/src/jobs/repo.ts: the `provisioning_jobs` table and its statements.
-- A table is the list of its rows; an UPDATE rewrites every row that its WHERE accepts and
-- returns them as they are afterwards. Times are milliseconds and `now` is an argument. The
-- payload is its JSON text; of the checkpoint object the `completed` member is kept, `none`
-- where it is no array. A text that is cut is a list of UTF-16 code units.
pub mod Lifecycle
pub mod Claim
pub mod Takeover
use corebase.Base.{
  ℕ, ◌+◌, String, Bool, true, false, ◌&&◌, ◌||◌, Option, none, some, List, [], ltb, leb, str_eq,
  or_else, first, keep, take, if◌then◌else◌,
}
unfoldable pub use corebase.Base.Update.{update}
use corebase.Base.Sort.{sort}

pub data JobState : Type 0 where
  pending enqueued running succeeded failed dead_letter : JobState

pub record JobRecord : Type 0 where
  pub id : String
  pub project_id : Option String
  pub node_id : Option String
  pub job_type : String
  pub idempotency_key : String
  pub state : JobState
  pub attempts : ℕ
  pub max_attempts : ℕ
  pub payload : String
  pub checkpoint : Option (List String)
  -- The columns that COLS does not select.
  pub started_at : Option ℕ
  pub heartbeat_at : Option ℕ
  pub finished_at : Option ℕ
  pub last_error : Option (List ℕ)
  pub scheduled_for : ℕ
  pub created_at : ℕ

abbrev pub JobTable : Type 0
JobTable = List JobRecord

abbrev pub is_pending : JobState → Bool
is_pending pending = true
is_pending _ = false

abbrev pub is_enqueued : JobState → Bool
is_enqueued enqueued = true
is_enqueued _ = false

abbrev pub is_running : JobState → Bool
is_running running = true
is_running _ = false

abbrev pub is_succeeded : JobState → Bool
is_succeeded succeeded = true
is_succeeded _ = false

abbrev pub is_dead_letter : JobState → Bool
is_dead_letter dead_letter = true
is_dead_letter _ = false

-- `t < now() - interval`, which is not true of a NULL `t`.
abbrev pub older_than : ℕ → ℕ → Option ℕ → Bool
older_than stale now none = false
older_than stale now (some t) = ltb (t + stale) now

unfoldable pub by_idempotency_key : String → JobTable → Option JobRecord
by_idempotency_key key t = first (keep (λ r. str_eq r.idempotency_key key) t)

abbrev pub can_enqueue : String → JobRecord → Bool
can_enqueue id r = str_eq r.id id && is_pending r.state

abbrev pub to_enqueued : JobRecord → JobRecord
to_enqueued r = record r { state = enqueued }

unfoldable pub mark_enqueued : String → JobTable → JobTable
mark_enqueued id t = (update (can_enqueue id) to_enqueued t).0

abbrev pub can_claim : String → ℕ → ℕ → JobRecord → Bool
can_claim id stale now r =
    str_eq r.id id
    && (is_pending r.state
        || is_enqueued r.state
        || (is_running r.state && older_than stale now r.heartbeat_at))

abbrev pub to_claimed : ℕ → JobRecord → JobRecord
to_claimed now r = record r {
  state = running;
  attempts = r.attempts + 1;
  started_at = some (or_else r.started_at now);
  heartbeat_at = some now;
}

unfoldable pub claim : String → ℕ → ℕ → JobTable → JobTable × Option JobRecord
claim id stale now t =
    let (t', rows) = update (can_claim id stale now) (to_claimed now) t in (t', first rows)

abbrev pub has_id : String → JobRecord → Bool
has_id id r = str_eq r.id id

unfoldable pub heartbeat : String → ℕ → JobTable → JobTable
heartbeat id now t = (update (has_id id) (λ r. record r { heartbeat_at = some now }) t).0

unfoldable pub save_checkpoint : String → List String → JobTable → JobTable
save_checkpoint id completed t =
    (update (has_id id) (λ r. record r { checkpoint = some completed }) t).0

abbrev pub to_succeeded : ℕ → JobRecord → JobRecord
to_succeeded now r = record r { state = succeeded; finished_at = some now; last_error = none }

unfoldable pub succeed : String → ℕ → JobTable → JobTable
succeed id now t = (update (has_id id) (to_succeeded now) t).0

-- Both CASEs read the row as it was.
abbrev pub to_failed : List ℕ → ℕ → JobRecord → JobRecord
to_failed error now r =
    let spent = leb r.max_attempts r.attempts in
    record r {
      last_error = some (take 2000 error);
      state = if spent then dead_letter else pending;
      finished_at = if spent then some now else none;
    }

abbrev pub ends_dead : Option JobRecord → Bool
ends_dead none = false
ends_dead (some r) = is_dead_letter r.state

-- The table after it, and `terminal`.
unfoldable pub fail : String → List ℕ → ℕ → JobTable → JobTable × Bool
fail id error now t =
    let (t', rows) = update (has_id id) (to_failed error now) t in (t', ends_dead (first rows))

-- The WHERE of `findOrphans`.
abbrev pub is_orphan : ℕ → ℕ → JobRecord → Bool
is_orphan stale now r =
    (is_pending r.state && leb r.scheduled_for now)
    || (is_enqueued r.state && ltb (r.created_at + stale) now)
    || (is_running r.state && older_than stale now r.heartbeat_at)

unfoldable pub find_orphans : ℕ → ℕ → ℕ → JobTable → JobTable
unfolding sort
find_orphans stale limit now t =
    take limit (sort (λ r s. leb r.created_at s.created_at) (keep (is_orphan stale now) t))
