-- ===== src/Auth/Revocation.antt =====
-- project-auth/store.ts: how sessions end.
pub mod Scopes
use corebase.Base.{
  ℕ, String, Bool, true, false, not, ◌&&◌, Option, none, some, List, [], ◌∷◌, ◌==◌, any, is_some,
  first, keep, map, length, or_else, if◌then◌else◌,
}
unfoldable pub use corebase.Base.Update.{update}
use corebase.Auth.{AuthUser, Session, RefreshToken, AuthDb, is_live}
use corebase.Auth.Sessions.{revoke}

abbrev pub close : ℕ → Session → Session
close now s = record s { revoked_at = some now }

unfoldable pub revoke_session_family : ℕ → ℕ → AuthDb → AuthDb
revoke_session_family id now db = record db {
  sessions =
      (update (λ s. s.id == id) (λ s. record s { revoked_at = some (or_else s.revoked_at now) })
        db.sessions).0;
  refresh_tokens = (update (λ r. r.session_id == id && not r.revoked) revoke db.refresh_tokens).0;
}

pub data Scope : Type 0 where
  local global others : Scope

abbrev pub in_scope : Scope → ℕ → Session → Bool
in_scope local current s = s.id == current
in_scope global current s = true
in_scope others current s = not (s.id == current)

-- The rows the first statement closes.
abbrev pub is_ended : ℕ → Scope → ℕ → Session → Bool
is_ended user_id scope current s =
    s.user_id == user_id && not (is_some s.revoked_at) && in_scope scope current s

-- `= ANY(ids)`
abbrev pub contains_id : ℕ → List ℕ → Bool
contains_id id ids = any (λ x. x == id) ids

-- The database afterwards and how many were revoked.
unfoldable pub revoke_user_sessions : ℕ → Scope → ℕ → ℕ → AuthDb → AuthDb × ℕ
revoke_user_sessions user_id scope current now db =
    let (sessions, rows) = update (is_ended user_id scope current) (close now) db.sessions in
    let ids = map (λ s. s.id) rows in
    let tokens =
      (update (λ r. contains_id r.session_id ids && not r.revoked) revoke db.refresh_tokens).0 in
    let after = record db { sessions = sessions; refresh_tokens = tokens } in
    (if is_some (first rows) then after else record db { sessions = sessions }, length rows)

unfoldable pub admin_sign_out_user : ℕ → ℕ → AuthDb → AuthDb × ℕ
unfolding revoke_user_sessions
admin_sign_out_user user_id now db = revoke_user_sessions user_id global 0 now db

-- `revokeOwnSession` is no transaction: its two statements, which the route composes.
unfoldable pub close_own_session : ℕ → ℕ → ℕ → AuthDb → AuthDb × Bool
close_own_session id user_id now db =
    let (sessions, rows) =
      update (λ s. s.id == id && s.user_id == user_id && not (is_some s.revoked_at)) (close now)
        db.sessions in
    (record db { sessions = sessions }, is_some (first rows))

unfoldable pub revoke_own_tokens : ℕ → AuthDb → AuthDb
revoke_own_tokens id db = record db {
  refresh_tokens = (update (λ r. r.session_id == id) revoke db.refresh_tokens).0;
}

abbrev pub tombstone : String → ℕ → AuthUser → AuthUser
tombstone address now u = record u {
  deleted_at = some now;
  email = some address;
  encrypted_password = none;
  email_confirmed_at = none;
}

-- The address is 'deleted+<id>@invalid'. The result is the address that was freed.
unfoldable pub soft_delete_user : (ℕ → String) → ℕ → ℕ → AuthDb → AuthDb × Option (Option String)
soft_delete_user deleted_email id now db =
    elim (first (keep (λ u. u.id == id && is_live u) db.users)) [
      | none ↦ (db, none)
      | some before ↦ (
        record db {
          users = (update (λ u. u.id == id) (tombstone (deleted_email id) now) db.users).0;
          sessions =
              (update (λ s. s.user_id == id && not (is_some s.revoked_at)) (close now)
                db.sessions).0;
          refresh_tokens =
              (update (λ r. r.user_id == id && not r.revoked) revoke db.refresh_tokens).0;
          one_time_tokens = keep (λ t. not (t.user_id == id)) db.one_time_tokens;
        },
        some before.email,
      )
    ]
