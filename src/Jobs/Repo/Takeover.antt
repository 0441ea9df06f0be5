-- ===== src/Jobs/Repo/Takeover.antt =====
-- `succeed` and `fail` do not ask who holds the row.
use corebase.Base.{ℕ, ◌+◌, ◌<◌, ◌≡◌, ◌≢◌, none, some, List, [], ◌∷◌, arith, eq_refl, map}
use corebase.Jobs.Repo.{running, succeeded, pending, JobRecord, claim, succeed, fail, update}

-- A takeover undone. Let a running row with at least two attempts left have missed its
-- heartbeats at `t1`. A second worker claims it and succeeds; when the first worker's step then
-- fails, its `fail` puts the succeeded row back to `pending`, and a third claim runs it again.
pub fail-succeed_reopens :
    (r : JobRecord) (error : List ℕ) (h stale t1 t2 t3 t4 : ℕ)
    → r.state ≡ running
    → r.heartbeat_at ≡ some h
    → h + stale < t1
    → r.attempts + 1 < r.max_attempts
    → let taken = (claim r.id stale t1 (r ∷ [])).0 in
      let ended = succeed r.id t2 taken in
      let reopened = (fail r.id error t3 ended).0 in
      (map (λ x. x.state) ended ≡ succeeded ∷ [])
      × (map (λ x. x.state) reopened ≡ pending ∷ [])
      × ((claim r.id stale t4 reopened).1 ≢ none)
unfolding claim succeed fail update
fail-succeed_reopens r error h stale t1 t2 t3 t4 run beat late left = ground (arith, eq_refl r.id)
