-- ===== src/Auth/Signup.antt =====
-- project-auth/routes.ts: `/signup` and `sendConfirmation`, after the limiter.
-- The uuids and digests that are drawn are a record; mails, metadata and redirects are left out.
pub mod Answers
use corebase.Base.{
  ℕ, ◌+◌, String, Bool, true, false, not, ◌&&◌, Option, none, some, List, ◌==◌, any, is_some,
  if◌then◌else◌,
}
use corebase.Auth.{AuthUser, AuthDb, confirmation, write_audit, has_user}
use corebase.Auth.Users.{find_user_by_email, create_user, holds_email}
use corebase.Auth.Sessions.{open_session}
use corebase.Auth.Links.{issue_one_time_token}

pub data Signup : Type 0 where
  -- `{id, email, confirmation_sent_at}`
  accepted : ℕ → Option String → Signup
  -- A session, with its user.
  session_opened : AuthUser → ℕ → Signup
  weak_password : Signup
  signups_disabled : Signup
  signup_threw : Signup

pub record Draws : Type 0 where
  pub user_id : ℕ
  pub decoy_id : ℕ
  pub link_id : ℕ
  pub link_hash : ℕ
  pub session_id : ℕ
  pub token_hash : ℕ

module _ (lower : String → String) (hash_password : String → ℕ → Option String)
    (gap : ℕ → AuthDb → AuthDb) (disabled autoconfirm : Bool) (min_length : ℕ) (draws : Draws)
    (now : ℕ) where
  unfoldable pub send_confirmation : AuthUser → AuthDb → AuthDb
  send_confirmation user db =
      (issue_one_time_token draws.link_id user.id confirmation draws.link_hash none now db).0

  unfoldable pub answer_taken : String → AuthDb → Signup × AuthDb
  answer_taken email before =
      let db = gap 1 (write_audit "signup_duplicate_email" none before) in
      let decoy = accepted draws.decoy_id (some email) in
      elim (find_user_by_email lower email db) [
        | none ↦ (decoy, db)
        | some existing ↦ (
          decoy,
          if is_some existing.email_confirmed_at then db else send_confirmation existing (gap 2 db),
        )
      ]

  unfoldable pub answer_created : AuthUser → AuthDb → Signup × AuthDb
  answer_created created before =
      let db = gap 2 (write_audit "signup" (some created.id) before) in
      let opened = open_session draws.session_id created.id draws.token_hash now db in
      if not autoconfirm
      then (accepted created.id created.email, send_confirmation created db)
      else elim opened [
        | none ↦ (signup_threw, db)
        | some (after, id) ↦ (session_opened created draws.session_id, after)
      ]

  unfoldable pub sign_up : String → String → AuthDb → Signup × AuthDb
  sign_up email password before =
      let db = gap 0 before in
      if disabled then (signups_disabled, before) else elim (hash_password password min_length) [
        | none ↦ (weak_password, before)
        | some hash ↦ elim (create_user lower draws.user_id email (some hash) autoconfirm now db) [
          | none ↦ (signup_threw, db)
          | some (after, none) ↦ answer_taken email after
          | some (after, some created) ↦ answer_created created after
        ]
      ]
