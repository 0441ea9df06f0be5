-- ===== src/Auth/Login.antt =====
-- project-auth/routes.ts: the password grant of `/token`, `/signup` and the change of a password.
-- `verify_password` (whether the password is right and its hash to be replaced), `hash_password`
-- (`none` where the password is too weak) and the digests and ids that are drawn are arguments;
-- `gap` is what other requests commit before each statement. Limiters, which come first, and mails
-- are left out.
pub mod Outcomes
use corebase.Base.{
  ℕ, ◌+◌, String, Bool, true, false, not, ◌&&◌, ◌||◌, Option, none, some, List, [], ◌∷◌, ◌==◌,
  is_some, max, or_else, str_eq, if◌then◌else◌,
}
use corebase.Auth.{AuthUser, AuthDb, confirmation, write_audit}
use corebase.Auth.Users.{
  find_user_by_id, find_user_by_email, create_user, update_password_hash, mark_signed_in,
}
use corebase.Auth.Sessions.{open_session, live_session}
use corebase.Auth.Links.{issue_one_time_token}
use corebase.Auth.Revocation.{
  Scope, local, global, others, revoke_user_sessions, close_own_session, revoke_own_tokens,
}
use corebase.Auth.Refresh.{is_banned}

pub data Login : Type 0 where
  -- The user and the session.
  logged_in : AuthUser → ℕ → Login
  bad_credentials : Login
  email_not_confirmed : Login
  login_threw : Login

-- A hash that `!user.encrypted_password` does not reject.
abbrev pub stored_hash : AuthUser → Option String
stored_hash u = elim u.encrypted_password [
  | none ↦ none
  | some hash ↦ if str_eq hash "" then none else some hash
]

module _ (lower : String → String) (verify_password : String → String → Bool × Bool)
    (hash_password : String → ℕ → Option String) (gap : ℕ → AuthDb → AuthDb) (autoconfirm : Bool)
    (sid fresh now : ℕ) where
  abbrev refuse : Login → String → Option ℕ → AuthDb → Login × AuthDb
  refuse answer action user db = (answer, write_audit action user db)

  unfoldable pub open_login : AuthUser → AuthDb → Login × AuthDb
  open_login user db = elim (open_session sid user.id fresh now (gap 2 db)) [
    | none ↦ (login_threw, gap 2 db)
    | some (opened, id) ↦ (
      logged_in user sid,
      write_audit "login" (some user.id) (mark_signed_in user.id now (gap 3 opened)),
    )
  ]

  -- The hash is replaced where it is weak.
  unfoldable pub upgrade : AuthUser → String → Bool → AuthDb → Option AuthDb
  upgrade user password needed db =
      if needed
      then elim (hash_password password 1) [
        | none ↦ none
        | some hash ↦ some (
            write_audit "password_hash_upgraded" (some user.id)
              (update_password_hash user.id hash (gap 1 db)))
      ]
      else some db

  unfoldable pub password_grant : String → String → AuthDb → Login × AuthDb
  password_grant email password before =
      let db = gap 0 before in
      elim (find_user_by_email lower email db) [
        | none ↦ refuse bad_credentials "login_failed_no_user" none db
        | some user ↦ elim (stored_hash user) [
          | none ↦ refuse bad_credentials "login_failed_no_user" none db
          | some stored ↦
              let (right, weak) = verify_password password stored in
              if not right
              then refuse bad_credentials "login_failed_bad_password" (some user.id) db
              else if is_banned now user
              then refuse bad_credentials "login_failed_banned" (some user.id) db
              else if not (is_some user.email_confirmed_at) && not autoconfirm
              then refuse email_not_confirmed "login_failed_unconfirmed" (some user.id) db
              else elim (upgrade user password weak db) [
                | none ↦ (login_threw, db)
                | some upgraded ↦ open_login user upgraded
              ]
        ]
      ]

pub data PasswordChange : Type 0 where
  -- How many sessions were revoked.
  password_changed : ℕ → PasswordChange
  no_current_password : PasswordChange
  wrong_password : PasswordChange
  weak_password : PasswordChange
  unauthorized : PasswordChange

pub record Bearer : Type 0 where
  pub user_id : ℕ
  pub session_id : ℕ
  -- Whether `amr` includes `recovery`.
  pub via_recovery : Bool

module _ (verify_password : String → String → Bool × Bool)
    (hash_password : String → ℕ → Option String) (gap : ℕ → AuthDb → AuthDb)
    (min_length now : ℕ) where
  unfoldable pub set_password : Bearer → AuthUser → String → AuthDb → PasswordChange × AuthDb
  set_password bearer user password db = elim (hash_password password min_length) [
    | none ↦ (weak_password, db)
    | some hash ↦
        let changed = update_password_hash user.id hash (gap 2 db) in
        let (after, count) =
          revoke_user_sessions user.id others bearer.session_id now (gap 3 changed) in
        (
          password_changed count,
          write_audit (if bearer.via_recovery then "password_reset" else "password_changed")
              (some user.id) after,
        )
  ]

  -- `current` is '' where none is sent.
  abbrev pub is_current : AuthUser → String → Bool
  is_current user current = elim (stored_hash user) [
    | none ↦ false
    | some stored ↦ (verify_password current stored).0
  ]

  -- `PUT /user` with a password, as far as the end of that part.
  unfoldable pub change_password : Bearer → String → String → AuthDb → PasswordChange × AuthDb
  change_password bearer password current before =
      let db = gap 1 (gap 0 before) in
      if not (live_session bearer.session_id bearer.user_id (gap 0 before))
      then (unauthorized, gap 0 before)
      else elim (find_user_by_id bearer.user_id db) [
        | none ↦ (unauthorized, db)
        | some user ↦
            if bearer.via_recovery
            then set_password bearer user password db
            else if str_eq current ""
            then (no_current_password, db)
            else if is_current user current
            then set_password bearer user password db
            else (wrong_password, write_audit "password_change_failed" (some user.id) db)
      ]

-- `POST /logout`; the answer is the same whatever was revoked.
unfoldable pub logout : Bearer → Scope → ℕ → AuthDb → AuthDb
logout bearer scope now db =
    write_audit "logout" (some bearer.user_id)
      (revoke_user_sessions bearer.user_id scope bearer.session_id now db).0

pub data SessionEnd : Type 0 where
  session_ended no_such_session not_live : SessionEnd

-- `DELETE /sessions/:id`
unfoldable pub delete_session :
    (ℕ → AuthDb → AuthDb) → Bearer → ℕ → ℕ → AuthDb → SessionEnd × AuthDb
delete_session gap bearer id now before =
    let db = gap 0 before in
    let (closed, found) = close_own_session id bearer.user_id now (gap 1 db) in
    if not (live_session bearer.session_id bearer.user_id db)
    then (not_live, db)
    else if found
    then (
      session_ended,
      write_audit "session_revoked" (some bearer.user_id) (revoke_own_tokens id (gap 2 closed)),
    )
    else (no_such_session, closed)
