-- ===== src/Jobs/Repo/Claim.antt =====
-- The claim as the lock between workers.
use corebase.Base.{
  ℕ, ◌+◌, ◌≤◌, String, ◌≡◌, refl, inl, inr, Bool, true, false, Option, none, some, List, [], ◌∷◌,
  arith, str_eq, eq_iff, Bool-cases, first, All, leb,
}
use corebase.Jobs.Repo.{
  running, JobRecord, JobTable, claim, can_claim, to_claimed, mark_enqueued, can_enqueue,
  to_enqueued, heartbeat, save_checkpoint, succeed, to_succeeded, fail, to_failed, has_id,
}
use corebase.Base.Update.{update, update-All, update-All_to, update_miss}

-- `id` is the primary key.
abbrev pub UniqueIds : JobTable → Type 0
UniqueIds [] = Unit
UniqueIds (r ∷ t) = All (λ s. str_eq s.id r.id ≡ false) t × UniqueIds t

abbrev beats_since : ℕ → Option ℕ → Bool
beats_since b none = false
beats_since b (some h) = leb b h

-- The row is running, and its last heartbeat is not before `b`.
abbrev pub IsHeld : String → ℕ → JobRecord → Type 0
IsHeld id b r = str_eq r.id id ≡ true → (r.state ≡ running) × (beats_since b r.heartbeat_at ≡ true)

-- What other processes, and the holder's own heartbeats and checkpoints, do to the table while a
-- claim taken at `b` lasts, with the time of the holder's last heartbeat: claims of any row by anyone
-- while that is not stale, and the end of jobs other than `id`.
pub data Meanwhile (id : String) (stale b : ℕ) (t : JobTable) : ℕ → JobTable → Type 0 where
  nothing : Meanwhile id stale b t b t
  claims :
      {last : ℕ} {u : JobTable} (other : String) (now : ℕ)
      → Meanwhile id stale b t last u
      → now ≤ last + stale
      → Meanwhile id stale b t last (claim other stale now u).0
  marks :
      {last : ℕ} {u : JobTable} (other : String)
      → Meanwhile id stale b t last u
      → Meanwhile id stale b t last (mark_enqueued other u)
  beats :
      {last : ℕ} {u : JobTable} (other : String) (now : ℕ)
      → Meanwhile id stale b t last u
      → last ≤ now
      → Meanwhile id stale b t last (heartbeat other now u)
  renews :
      {last : ℕ} {u : JobTable} (now : ℕ)
      → Meanwhile id stale b t last u
      → last ≤ now
      → Meanwhile id stale b t now (heartbeat id now u)
  saves :
      {last : ℕ} {u : JobTable} (other : String) (done : List String)
      → Meanwhile id stale b t last u
      → Meanwhile id stale b t last (save_checkpoint other done u)
  succeeds :
      {last : ℕ} {u : JobTable} (other : String) (now : ℕ)
      → Meanwhile id stale b t last u
      → ((x : String) → str_eq x other ≡ true → str_eq x id ≡ false)
      → Meanwhile id stale b t last (succeed other now u)
  fails :
      {last : ℕ} {u : JobTable} (other : String) (error : List ℕ) (now : ℕ)
      → Meanwhile id stale b t last u
      → ((x : String) → str_eq x other ≡ true → str_eq x id ≡ false)
      → Meanwhile id stale b t last (fail other error now u).0

held_not_claimable :
    (id : String) (stale b now : ℕ) (r : JobRecord)
    → now ≤ b + stale
    → IsHeld id b r
    → can_claim id stale now r ≡ false
held_not_claimable id stale b now r h held = elim (Bool-cases (str_eq r.id id)) [
  | inl e ↦ let (run, beat) = held e in ground arith
  | inr e ↦ rw e
]

-- A claim by anybody leaves a held row held.
claimed-IsHeld :
    (id other : String) (stale b now : ℕ) (r : JobRecord)
    → now ≤ b + stale
    → can_claim other stale now r ≡ true
    → IsHeld id b r
    → IsHeld id b (to_claimed now r)
claimed-IsHeld id other stale b now r h e held mine = let (run, beat) = held mine in ground arith

enqueued-IsHeld :
    (id other : String) (b : ℕ) (r : JobRecord)
    → can_enqueue other r ≡ true
    → IsHeld id b r
    → IsHeld id b (to_enqueued r)
enqueued-IsHeld id other b r e held mine = let (run, beat) = held mine in ground arith

Meanwhile-IsHeld :
    {id : String} {stale b : ℕ} {t u : JobTable} {last : ℕ}
    → Meanwhile id stale b t last u
    → All (IsHeld id b) t
    → All (IsHeld id last) u
unfolding claim mark_enqueued heartbeat save_checkpoint succeed fail
Meanwhile-IsHeld nothing h = h
Meanwhile-IsHeld {id} {stale} (claims {last} {u} other now m le) h =
    update-All (can_claim other stale now) (to_claimed now) (IsHeld id last) u
      (λ r e held. claimed-IsHeld id other stale last now r le e held) (Meanwhile-IsHeld m h)
Meanwhile-IsHeld {id} (marks {last} {u} other m) h =
    update-All (can_enqueue other) to_enqueued (IsHeld id last) u
      (λ r e held. enqueued-IsHeld id other last r e held) (Meanwhile-IsHeld m h)
Meanwhile-IsHeld {id} (beats {last} {u} other now m le) h =
    update-All (has_id other) _ (IsHeld id last) u (λ r e held mine. ((held mine).0, ground arith))
      (Meanwhile-IsHeld m h)
Meanwhile-IsHeld {id} (renews {last} {u} now m le) h =
    update-All_to (has_id id) _ (IsHeld id last) (IsHeld id now) u
      (λ r e held mine. ((held mine).0, ground arith)) (λ r e held mine. absurd (ground arith))
      (Meanwhile-IsHeld m h)
Meanwhile-IsHeld {id} (saves {last} {u} other done m) h =
    update-All (has_id other) _ (IsHeld id last) u (λ r e held. held) (Meanwhile-IsHeld m h)
Meanwhile-IsHeld {id} (succeeds {last} {u} other now m apart) h =
    update-All (has_id other) (to_succeeded now) (IsHeld id last) u
      (λ r e held mine. absurd (cc (apart r.id e))) (Meanwhile-IsHeld m h)
Meanwhile-IsHeld {id} (fails {last} {u} other error now m apart) h =
    update-All (has_id other) (to_failed error now) (IsHeld id last) u
      (λ r e held mine. absurd (cc (apart r.id e))) (Meanwhile-IsHeld m h)

apart-IsHeld :
    (id : String) (b : ℕ) (r : JobRecord) (t : JobTable)
    → str_eq r.id id ≡ true
    → All (λ s. str_eq s.id r.id ≡ false) t
    → All (IsHeld id b) t
apart-IsHeld id b r [] e h = tt
apart-IsHeld id b r (s ∷ t) e (p, h) = (
  λ mine. absurd (ground (arith, eq_iff s.id r.id, eq_iff r.id id, eq_iff s.id id)),
  apart-IsHeld id b r t e h,
)

-- A row that is not accepted and has the key leaves nothing to claim in the rest.
apart_not_claimable :
    (id : String) (stale now : ℕ) (r : JobRecord) (t : JobTable)
    → str_eq r.id id ≡ true
    → All (λ s. str_eq s.id r.id ≡ false) t
    → All (λ s. can_claim id stale now s ≡ false) t
apart_not_claimable id stale now r [] e h = tt
apart_not_claimable id stale now r (s ∷ t) e (p, h) = (
  ground (arith, eq_iff s.id r.id, eq_iff r.id id, eq_iff s.id id),
  apart_not_claimable id stale now r t e h,
)

claim-IsHeld :
    (id : String) (stale now : ℕ) (t : JobTable) {r : JobRecord}
    → UniqueIds t
    → first (update (can_claim id stale now) (to_claimed now) t).1 ≡ some r
    → All (IsHeld id now) (update (can_claim id stale now) (to_claimed now) t).0
unfolding update
claim-IsHeld id stale now [] u e = tt
claim-IsHeld id stale now (x ∷ t) {r} (apart, u) e = elim (Bool-cases (can_claim id stale now x)) [
  | inl hit ↦ rw hit (
    λ _. (refl, ground arith),
    update-All (can_claim id stale now) (to_claimed now) (IsHeld id now) t
        (λ s e' held. claimed-IsHeld id id stale now now s (omega arith) e' held)
        (apart-IsHeld id now x t (ground arith) apart),
  )
  | inr miss ↦
      let later : first (update (can_claim id stale now) (to_claimed now) t).1 ≡ some r =
        rw miss at e in
      rw miss (
        λ mine. absurd (
            let none_left =
              update_miss (can_claim id stale now) (to_claimed now) t
                (apart_not_claimable id stale now x t mine apart) in
            let gone : first {A = JobRecord} [] ≡ some r = rw none_left at later in cc),
        claim-IsHeld id stale now t u later,
      )
]

held_table_not_claimable :
    (id : String) (stale b now : ℕ) (t : JobTable)
    → now ≤ b + stale
    → All (IsHeld id b) t
    → All (λ r. can_claim id stale now r ≡ false) t
held_table_not_claimable id stale b now [] le h = tt
held_table_not_claimable id stale b now (r ∷ t) le (p, h) =
    (held_not_claimable id stale b now r le p, held_table_not_claimable id stale b now t le h)

-- The claim is a mutex. Where the ids are unique and a claim of a row at `b` returned it, then
-- after any heartbeats and checkpoints of the holder, any re-enqueueing, any claims by others while
-- the holder's last heartbeat is not stale, and any ends of other jobs, but no end of this one, a
-- second claim of the row returns nothing and changes nothing while that heartbeat is not stale.
pub claim_exclusive :
    (id : String) (stale b last now : ℕ) (t u : JobTable) {r : JobRecord}
    → UniqueIds t
    → (claim id stale b t).1 ≡ some r
    → Meanwhile id stale b (claim id stale b t).0 last u
    → now ≤ last + stale
    → claim id stale now u ≡ (u, none)
unfolding claim
claim_exclusive id stale b last now t u unique e m le = rw (
    update_miss (can_claim id stale now) (to_claimed now) u (
      held_table_not_claimable id stale last now u le
        (Meanwhile-IsHeld m (claim-IsHeld id stale b t unique e))))
