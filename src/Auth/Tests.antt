-- ===== src/Auth/Tests.antt =====
-- Runs of the sign-in, refresh and verification of a project's users on a small database.
mod Accounts
use corebase.Base.{
  ℕ, String, Bool, true, false, Option, none, some, List, [], ◌∷◌, ◌≡◌, ◌≢◌, refl, arith, str_eq,
}
use corebase.Base.Texts.{Text, codes}
use corebase.Auth.{
  AuthUser, Session, RefreshToken, OneTimeToken, AuthDb, confirmation, recovery, email_change_new,
  email_change_current,
}
use corebase.Auth.Users.{
  update_password_hash, mark_email_confirmed, mark_signed_in, find_user_by_id, find_user_by_email,
  create_user, apply_email_change,
}
use corebase.Base.Texts.{digits}
use corebase.Auth.Sessions.{
  id_le, RefreshRow, open_session, insert_token, find_refresh_token, rotate_refresh_token,
  succeed_token, find_child_token, grace_rotate, live_session, update,
}
use corebase.Auth.Sessions.Lineage.{IsLineage, IsOwn}
use corebase.Auth.Revocation.{
  revoke_session_family, revoke_user_sessions, close_own_session, others, soft_delete_user,
  admin_sign_out_user,
}
use corebase.Auth.Revocation.Scopes.{IsScoped, revoke_user_sessions-IsScoped}
use corebase.Auth.History.{
  History, start, commit, signed_in, rotated, family_revoked, History-IsLineage,
}
use corebase.Auth.Refresh.{
  granted, bad_grant, refresh_digest, refresh_grant, refresh_live, rotate, replay, already_spent,
  end_family, looks_like_refresh_token, expires_in,
}
use corebase.Auth.Refresh.Grants.{IsGranted, refresh_digest-IsGranted}
use corebase.Auth.Refresh.Outcomes.{
  IsEnded, quiet, refresh_digest_reuse-IsEnded, replay_twice-IsEnded,
}
use corebase.Auth.Links.{
  consume_one_time_token, consume_either_token, issue_one_time_token, sibling_consumed,
  clear_email_change_tokens,
}
use corebase.Auth.Links.Single.{
  LinkHistory, start as no_commit, commit as then_commit, cleared, consume_one_time_token_once,
}
use corebase.Auth.Verify.{
  applied, pending, verify_email_change, complete_email_change, verified, do_verify,
  sign_in_verified, verify_type,
}
use corebase.Auth.Login.{
  logged_in, password_changed, wrong_password, session_ended, change_password, set_password,
  delete_session, logout, password_grant, open_login, upgrade,
}
use corebase.Auth.Login.Outcomes.{IsLogin, password_grant-IsLogin}
use corebase.Auth.Signup.{Draws, accepted, sign_up, answer_taken, answer_created, send_confirmation}
use corebase.Auth.Signup.Answers.{shape, sign_up_same_shape, sign_up_told_apart}
use corebase.Auth.Verify.EmailChanges.{IsEmailChange, verify_email_change-IsEmailChange}

abbrev pub ada : AuthUser
ada = record {
  id = 7;
  email = some "ada@a.dev";
  encrypted_password = none;
  email_confirmed_at = some 1;
  banned_until = none;
  created_at = 1;
  last_sign_in_at = none;
  deleted_at = none;
}

abbrev pub empty_db : AuthDb
empty_db = record {
  users = ada ∷ [];
  sessions = [];
  refresh_tokens = [];
  one_time_tokens = [];
  next_id = 1;
  audit = [];
}

abbrev pub session : ℕ → Option ℕ → Session
session refreshed revoked = record {
  id = 1;
  user_id = 7;
  created_at = 100;
  last_refreshed_at = some refreshed;
  revoked_at = revoked;
}

abbrev pub token : ℕ → ℕ → Option ℕ → Option ℕ → Bool → RefreshToken
token id hash parent used revoked = record {
  id = id;
  token_hash = hash;
  user_id = 7;
  session_id = 1;
  parent_id = parent;
  used_at = used;
  revoked = revoked;
}

abbrev pub signed : AuthDb
signed = record empty_db {
  sessions = session 100 none ∷ [];
  refresh_tokens = token 1 100 none none false ∷ [];
  next_id = 2;
}

abbrev refreshed : AuthDb
refreshed = record empty_db {
  sessions = session 1000 none ∷ [];
  refresh_tokens = token 1 100 none (some 1000) false ∷ token 2 200 (some 1) none false ∷ [];
  next_id = 3;
}

abbrev replayed_once : AuthDb
replayed_once = record empty_db {
  sessions = session 2000 none ∷ [];
  refresh_tokens =
      token 1 100 none (some 1000) false
      ∷ token 2 200 (some 1) none true
      ∷ token 3 300 (some 1) none false
      ∷ [];
  next_id = 4;
}

-- The store and the handlers, opened.
pub store : Unit {0}
unfolding update open_session insert_token succeed_token rotate_refresh_token grace_rotate
    find_refresh_token find_child_token find_user_by_id revoke_session_family revoke_user_sessions
    expires_in looks_like_refresh_token end_family replay already_spent rotate refresh_live
    refresh_digest refresh_grant consume_one_time_token consume_either_token issue_one_time_token
    sibling_consumed clear_email_change_tokens apply_email_change complete_email_change
    verify_email_change sign_in_verified do_verify verify_type create_user find_user_by_email
    mark_email_confirmed mark_signed_in
store = tt

open_session_runs : open_session 1 7 100 100 empty_db ≡ some (signed, 1)
unfolding store
open_session_runs = refl

rotate_refresh_token_runs : rotate_refresh_token 1 1 7 200 1000 signed ≡ some (refreshed, some 2)
unfolding store
rotate_refresh_token_runs = refl

grace_rotate_runs : grace_rotate 1 2 1 7 300 2000 refreshed ≡ some (replayed_once, some 3)
unfolding store
grace_rotate_runs = refl

create_user_taken : create_user (λ e. e) 8 "ada@a.dev" none true 5 empty_db ≡ some (empty_db, none)
unfolding store
create_user_taken = refl

empty_db-IsLineage : IsLineage empty_db
empty_db-IsLineage = record { one = λ sid. omega arith; kin = tt; below = tt; homes = tt }

signed-History : History empty_db signed
signed-History = commit start (signed_in 1 7 100 100 1 open_session_runs)

signed-IsOwn : IsOwn 1 1 signed
signed-IsOwn = record { known = omega arith; there = refl; holds = (λ e. refl, tt) }

History-IsLineage_example : IsLineage refreshed
History-IsLineage_example =
    History-IsLineage
      (commit signed-History
        (rotated 1 1 7 200 1000 (some 2) signed-IsOwn rotate_refresh_token_runs))
      empty_db-IsLineage

signed-IsLineage : IsLineage signed
signed-IsLineage = History-IsLineage signed-History empty_db-IsLineage

refreshed-IsLineage : IsLineage refreshed
refreshed-IsLineage =
    History-IsLineage
      (commit signed-History
        (rotated 1 1 7 200 1000 (some 2) signed-IsOwn rotate_refresh_token_runs))
      empty_db-IsLineage

-- Before every statement another request ends session 9.
abbrev noise : ℕ → AuthDb → AuthDb
noise i db = revoke_session_family 9 i db

noise-History : (i : ℕ) (db : AuthDb) → History db (noise i db)
noise-History i db = commit start (family_revoked 9 i)

abbrev text : Text
text = codes "sh_rt_0123456789012345678901234"

refresh_digest_runs : (refresh_digest noise 3600 none 200 1000 100 signed).0 ≡ granted ada 3600
unfolding store
refresh_digest_runs = refl

refresh_digest-IsGranted_example :
    IsGranted noise noise-History 3600 none 200 1000 100 signed ada 3600
      (refresh_digest noise 3600 none 200 1000 100 signed).1
refresh_digest-IsGranted_example =
    refresh_digest-IsGranted noise noise-History 3600 none 200 1000 100 3600 signed ada
      signed-IsLineage refresh_digest_runs

abbrev row : Option ℕ → RefreshRow
row refreshed_at = record {
  id = 1;
  user_id = 7;
  session_id = 1;
  used_at = some 1000;
  revoked = false;
  session_revoked_at = none;
  last_refreshed_at = refreshed_at;
  session_created_at = 100;
}

found_spent : find_refresh_token 100 (noise 0 refreshed) ≡ some (row (some 1000))
unfolding store
found_spent = refl

refresh_digest_reuse-IsEnded_example :
    IsEnded 1 (refresh_digest noise 3600 none 300 20000 100 refreshed)
refresh_digest_reuse-IsEnded_example =
    refresh_digest_reuse-IsEnded noise 3600 none 300 20000 100 1000 (row (some 1000)) refreshed
      found_spent refl refl refl (omega arith)

first_child : find_child_token 1 refreshed ≡ some (token 2 200 (some 1) none false)
unfolding store
first_child = refl

found_again : find_refresh_token 100 replayed_once ≡ some (row (some 2000))
unfolding store
found_again = refl

-- The second replay, 2.5 seconds after the token was spent.
replay_twice-IsEnded_example : IsEnded 1 (refresh_digest quiet 3600 none 400 3500 100 replayed_once)
unfolding id_le digits
replay_twice-IsEnded_example =
    replay_twice-IsEnded 3600 none 100 300 2000 400 3500 3 1000 (row (some 1000))
      (token 2 200 (some 1) none false) refreshed replayed_once (λ e. refl, (λ e. refl, tt))
      first_child refl grace_rotate_runs (row (some 2000)) found_again refl refl refl refl
