-- ===== src/Auth/History.antt =====
-- project-auth/store.ts: the transactions on sessions as steps, which requests interleave freely.
use corebase.Base.{
  ℕ, ◌≡◌, refl, subst, Bool, inl, inr, String, false, not, ◌&&◌, Option, some, List, ◌==◌, first,
  keep, map, is_some, or_else, Bool-cases, Option-cases,
}
use corebase.Base.Update.{update}
use corebase.Auth.{AuthUser, Session, OneTimeToken, AuthDb, is_usable, is_live, write_audit}
use corebase.Auth.Sessions.{open_session, rotate_refresh_token, grace_rotate}
use corebase.Auth.Sessions.Lineage.{IsLineage, IsOwn, IsEver, update-has_session}
use corebase.Auth.Sessions.Changes.{
  Change, Changes, stay, then_, once, Changes-trans, retired, resessioned, elsewhere, Leads,
  Changes-IsLineage, Changes-IsEver, dead-IsLasting, own-IsLasting, revoke-IsRetirement,
  rotate_refresh_token-Leads, grace_rotate-Leads, open_session-Leads,
}
use corebase.Auth.Revocation.{
  Scope, is_ended, close, contains_id, tombstone, revoke_session_family, revoke_user_sessions,
  close_own_session, revoke_own_tokens, soft_delete_user,
}

-- One transaction that commits. The tokens that the two rotations name are in the session they
-- name, as the row they are read from says.
pub data Commit (db : AuthDb) : AuthDb → Type 0 where
  signed_in :
      (sid user_id hash now id : ℕ) {db' : AuthDb}
      → open_session sid user_id hash now db ≡ some (db', id)
      → Commit db db'
  rotated :
      (id sid user_id hash now : ℕ) (child : Option ℕ) {db' : AuthDb}
      → IsOwn id sid db
      → rotate_refresh_token id sid user_id hash now db ≡ some (db', child)
      → Commit db db'
  replayed :
      (parent old sid user_id hash now : ℕ) (child : Option ℕ) {db' : AuthDb}
      → IsOwn old sid db
      → IsOwn parent sid db
      → grace_rotate parent old sid user_id hash now db ≡ some (db', child)
      → Commit db db'
  family_revoked : (sid now : ℕ) → Commit db (revoke_session_family sid now db)
  sessions_revoked :
      (user_id : ℕ) (scope : Scope) (current now : ℕ)
      → Commit db (revoke_user_sessions user_id scope current now db).0
  own_closed : (sid user_id now : ℕ) → Commit db (close_own_session sid user_id now db).0
  own_tokens_revoked : (sid : ℕ) → Commit db (revoke_own_tokens sid db)
  user_deleted : (email : ℕ → String) (id now : ℕ) → Commit db (soft_delete_user email id now db).0
  -- Users, one-time tokens and the audit log.
  other :
      (users : List AuthUser) (links : List OneTimeToken) (audit : List (String × Option ℕ))
      → Commit db (record db { users = users; one_time_tokens = links; audit = audit })

pub data History (db : AuthDb) : AuthDb → Type 0 where
  start : History db db
  commit : {mid db' : AuthDb} → History db mid → Commit mid db' → History db db'

closed :
    (test : Session → Bool) (set : Session → Session) (db : AuthDb)
    → ((s : Session) → (set s).id ≡ s.id)
    → Change db (record db { sessions = (update test set db.sessions).0 })
closed test set db same = resessioned _ (λ s. update-has_session s test set db.sessions same)

revoke_session_family-Changes :
    (sid now : ℕ) (db : AuthDb) → Changes db (revoke_session_family sid now db)
unfolding revoke_session_family
revoke_session_family-Changes sid now db =
    then_
      (once (
        closed (λ s. s.id == sid) (λ s. record s { revoked_at = some (or_else s.revoked_at now) })
          db (λ s. refl)))
      (retired (λ r. r.session_id == sid && not r.revoked) revoke-IsRetirement)

revoke_user_sessions-Changes :
    (user_id : ℕ) (scope : Scope) (current now : ℕ) (db : AuthDb)
    → Changes db (revoke_user_sessions user_id scope current now db).0
unfolding revoke_user_sessions
revoke_user_sessions-Changes user_id scope current now db =
    let first_half = once (closed (is_ended user_id scope current) (close now) db (λ s. refl)) in
    let rows = (update (is_ended user_id scope current) (close now) db.sessions).1 in
    elim (Bool-cases (is_some (first rows))) [
      | inl e ↦ rw e (
          then_ first_half (
            retired (λ r. contains_id r.session_id (map (λ s. s.id) rows) && not r.revoked)
              revoke-IsRetirement))
      | inr e ↦ rw e first_half
    ]

soft_delete_user-Changes :
    (email : ℕ → String) (id now : ℕ) (db : AuthDb)
    → Changes db (soft_delete_user email id now db).0
unfolding soft_delete_user
soft_delete_user-Changes email id now db =
    elim (Option-cases (first (keep (λ u. u.id == id && is_live u) db.users))) [
      | inl e ↦ rw (e, soft_delete_user) stay
      | inr (before, e) ↦
          rw (e, soft_delete_user)
            (then_
              (then_
                (once (
                  closed (λ s. s.user_id == id && not (is_some s.revoked_at)) (close now) db
                    (λ s. refl)))
                (retired (λ r. r.user_id == id && not r.revoked) revoke-IsRetirement))
              (elsewhere (update (λ u. u.id == id) (tombstone (email id) now) db.users).0
                (keep (λ t. not (t.user_id == id)) db.one_time_tokens) db.audit))
    ]

Commit-Changes : {db db' : AuthDb} → IsLineage db → Commit db db' → Changes db db'
unfolding close_own_session revoke_own_tokens
Commit-Changes {db} h (signed_in sid user_id hash now id e) =
    subst (Leads db) e (open_session-Leads sid user_id hash now db h)
Commit-Changes {db} h (rotated id sid user_id hash now child own e) =
    subst (Leads db) e (rotate_refresh_token-Leads id sid user_id hash now db own h)
Commit-Changes {db} h (replayed parent old sid user_id hash now child own kept e) =
    subst (Leads db) e (grace_rotate-Leads parent old sid user_id hash now db own kept h)
Commit-Changes {db} h (family_revoked sid now) = revoke_session_family-Changes sid now db
Commit-Changes {db} h (sessions_revoked user_id scope current now) =
    revoke_user_sessions-Changes user_id scope current now db
Commit-Changes {db} h (own_closed sid user_id now) = once (
    closed (λ s. s.id == sid && s.user_id == user_id && not (is_some s.revoked_at)) (close now) db
      (λ s. refl))
Commit-Changes h (own_tokens_revoked sid) =
    once (retired (λ r. r.session_id == sid) revoke-IsRetirement)
Commit-Changes {db} h (user_deleted email id now) = soft_delete_user-Changes email id now db
Commit-Changes h (other users links audit) = once (elsewhere users links audit)

pub History-Changes : {db db' : AuthDb} → IsLineage db → History db db' → Changes db db'
History-Changes h start = stay
History-Changes h (commit before c) =
    let so_far = History-Changes h before in
    Changes-trans so_far (Commit-Changes (Changes-IsLineage so_far h) c)

-- Let `db` be a database in which each session has at most one usable refresh token, ids are
-- below the next one, an id and its children are in one session, and every token's session
-- exists. All of this holds after any interleaving of the store's transactions.
pub History-IsLineage : {db db' : AuthDb} → History db db' → IsLineage db → IsLineage db'
History-IsLineage history h = Changes-IsLineage (History-Changes h history) h

-- A refresh token that is spent or revoked stays so, whatever transactions follow.
pub History-IsEver :
    (id : ℕ) {db db' : AuthDb}
    → History db db'
    → IsLineage db
    → IsEver (λ r. is_usable r ≡ false) id db
    → IsEver (λ r. is_usable r ≡ false) id db'
History-IsEver id history h dead =
    Changes-IsEver (λ r. is_usable r ≡ false) dead-IsLasting id (History-Changes h history) dead

pub History-trans : {a b c : AuthDb} → History a b → History b c → History a c
History-trans h start = h
History-trans h (commit k c) = commit (History-trans h k) c

pub noted :
    (action : String) (user : Option ℕ) (db : AuthDb) → Commit db (write_audit action user db)
noted action user db = other db.users db.one_time_tokens _

-- What a token's id tells lasts.
pub History-IsOwn :
    (id sid : ℕ) {db db' : AuthDb}
    → IsLineage db
    → History db db'
    → IsOwn id sid db
    → IsOwn id sid db'
History-IsOwn id sid h history own =
    Changes-IsEver (λ r. r.session_id ≡ sid) (own-IsLasting sid) id (History-Changes h history) own
