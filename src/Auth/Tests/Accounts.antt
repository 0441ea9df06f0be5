-- ===== src/Auth/Tests/Accounts.antt =====
-- Runs of the links, the sign-up, the password grant and the sessions of a user.
use corebase.Base.{
  ℕ, String, Bool, true, false, Option, none, some, [], ◌∷◌, ◌≡◌, ◌≢◌, refl, arith, str_eq, All,
}
use corebase.Base.Sort.{sort, insert}
use corebase.Auth.Listing.{list_users, cursor_after, list_users_skips}
use corebase.Auth.{AuthUser, OneTimeToken, AuthDb, recovery, email_change_new, email_change_current}
use corebase.Auth.Users.{update_password_hash}
use corebase.Auth.Sessions.{live_session}
use corebase.Auth.Revocation.{revoke_user_sessions, close_own_session, others}
use corebase.Auth.Revocation.Scopes.{ends, IsScoped, revoke_user_sessions-IsScoped}
use corebase.Auth.Refresh.Outcomes.{quiet}
use corebase.Auth.Links.{
  consume_one_time_token, consume_either_token, issue_one_time_token, clear_email_change_tokens,
}
use corebase.Auth.Links.Single.{
  start as no_commit, commit as then_commit, cleared, consume_one_time_token_once, of_type,
}
use corebase.Auth.Verify.{applied, pending, verify_email_change, verified, do_verify}
use corebase.Auth.Login.{
  logged_in, password_changed, wrong_password, session_ended, change_password, set_password,
  delete_session, password_grant, open_login, upgrade,
}
use corebase.Auth.Login.Outcomes.{IsLogin, password_grant-IsLogin}
use corebase.Auth.Signup.{Draws, sign_up}
use corebase.Auth.Signup.Answers.{shape, sign_up_same_shape, sign_up_told_apart}
use corebase.Auth.Verify.EmailChanges.{IsEmailChange, verify_email_change-IsEmailChange}
use corebase.Auth.Tests.{ada, empty_db, signed, store}

abbrev link : Option ℕ → OneTimeToken
link used = record {
  id = 1;
  user_id = 7;
  token_type = recovery;
  token_hash = 50;
  relates_to = none;
  created_at = 10;
  expires_at = 3600010;
  used_at = used;
}

abbrev linked : AuthDb
linked = record empty_db { one_time_tokens = link none ∷ [] }

consume_one_time_token_runs :
    (consume_one_time_token recovery 50 20 linked).1 ≡ some (link (some 20))
unfolding store
consume_one_time_token_runs = refl

consume_one_time_token_late : (consume_one_time_token recovery 50 3600010 linked).1 ≡ none
unfolding store
consume_one_time_token_late = refl

consume_one_time_token_once_example :
    let db' = clear_email_change_tokens 9 (consume_one_time_token recovery 50 20 linked).0 in
    ((consume_one_time_token recovery 50 30 db').1 ≡ none)
    × ((consume_either_token 50 30 db').1 ≡ none)
consume_one_time_token_once_example =
    consume_one_time_token_once recovery 50 20 30 linked
      (clear_email_change_tokens 9 (consume_one_time_token recovery 50 20 linked).0)
      (link (some 20)) (omega arith) (of_type recovery) consume_one_time_token_runs
      (then_commit no_commit (cleared 9))

abbrev changing : AuthDb
changing =
    (issue_one_time_token 2 7 email_change_current 61 (some "new@a.dev") 10
      (issue_one_time_token 1 7 email_change_new 60 (some "new@a.dev") 10 signed).0).0

verify_email_change_half : (verify_email_change (λ e. e) quiet true 20 60 changing).0 ≡ pending
unfolding store
verify_email_change_half = refl

verify_email_change_both :
    (verify_email_change
      (λ e. e)
      quiet
      true
      30
      61
      (verify_email_change (λ e. e) quiet true 20 60 changing).1).0
    ≡ applied
unfolding store
verify_email_change_both = refl

verify_email_change-IsEmailChange_example :
    let r = verify_email_change (λ e. e) quiet true 20 60 changing in
    IsEmailChange (λ e. e) true 20 60 changing r.0 r.1
verify_email_change-IsEmailChange_example =
    verify_email_change-IsEmailChange (λ e. e) true 20 60 changing

do_verify_runs :
    (do_verify quiet 5 500 20 "recovery" false 50 linked).0
    ≡ verified (record ada { last_sign_in_at = some 20 }) 5 true
unfolding store
do_verify_runs = refl

revoke_user_sessions-IsScoped_example :
    IsScoped (ends 7 others 2) 50 signed (revoke_user_sessions 7 others 2 50 signed)
revoke_user_sessions-IsScoped_example = revoke_user_sessions-IsScoped 7 others 2 50 signed

-- A password is its own hash, and none is to be replaced.
abbrev verify : String → String → Bool × Bool
verify password stored = (str_eq password stored, false)

abbrev hash : String → ℕ → Option String
hash password min_length = some password

abbrev member : AuthDb
member = record signed { users = record ada { encrypted_password = some "secret" } ∷ [] }

password_grant_runs :
    (password_grant (λ e. e) verify hash quiet false 5 500 50 "ada@a.dev" "secret" member).0
    ≡ logged_in (record ada { encrypted_password = some "secret" }) 5
unfolding store password_grant open_login upgrade
password_grant_runs = refl

password_grant-IsLogin_example :
    let r = password_grant (λ e. e) verify hash quiet false 5 500 50 "ada@a.dev" "secret" member in
    IsLogin (λ e. e) verify hash false 5 500 50 "ada@a.dev" "secret" member r.0 r.1
password_grant-IsLogin_example =
    password_grant-IsLogin (λ e. e) verify hash false 5 500 50 "ada@a.dev" "secret" member

change_password_wrong :
    (change_password verify hash quiet 8 50
      (record { user_id = 7; session_id = 1; via_recovery = false })
      "longer"
      "guess"
      member).0
    ≡ wrong_password
unfolding store change_password live_session
change_password_wrong = refl

change_password_recovered :
    (change_password verify hash quiet 8 50
      (record { user_id = 7; session_id = 1; via_recovery = true })
      "longer"
      ""
      member).0
    ≡ password_changed 0
unfolding store change_password set_password live_session update_password_hash
change_password_recovered = refl

delete_session_runs :
    (delete_session quiet
      (record { user_id = 7; session_id = 1; via_recovery = false })
      1
      50
      signed).0
    ≡ session_ended
unfolding store delete_session live_session close_own_session
delete_session_runs = refl

abbrev draws : Draws
draws = record {
  user_id = 8;
  decoy_id = 9;
  link_id = 3;
  link_hash = 70;
  session_id = 4;
  token_hash = 80;
}

sign_up_same_shape_example :
    shape (sign_up (λ e. e) hash quiet false false 8 draws 50 "ada@a.dev" "secret" signed).0
    ≡ shape
        (sign_up
          (λ e. e)
          hash
          quiet
          false
          false
          8
          draws
          50
          "ada@a.dev"
          "secret"
          (record signed { users = [] })).0
sign_up_same_shape_example =
    sign_up_same_shape (λ e. e) hash quiet 8 draws 50 "ada@a.dev" "secret" signed
      (record signed { users = [] }) refl refl

sign_up_told_apart_example :
    shape (sign_up (λ e. e) hash quiet false true 8 draws 50 "ada@a.dev" "secret" signed).0
    ≢ shape
        (sign_up
          (λ e. e)
          hash
          quiet
          false
          true
          8
          draws
          50
          "ada@a.dev"
          "secret"
          (record signed { users = [] })).0
sign_up_told_apart_example =
    sign_up_told_apart (λ e. e) hash quiet 8 draws 50 "ada@a.dev" "secret" "secret" signed
      (record signed { users = [] }) refl refl refl refl

-- Two users of one millisecond, 400 microseconds apart.
abbrev eve : AuthUser
eve = record ada { id = 9; created_at = 1000900 }

abbrev bob : AuthUser
bob = record ada { id = 8; created_at = 1000500 }

abbrev crowd : AuthDb
crowd = record empty_db { users = eve ∷ bob ∷ [] }

list_users_runs : list_users 1 none crowd ≡ eve ∷ bob ∷ []
unfolding store list_users insert sort
list_users_runs = refl

list_users_runs_out : list_users 1 (some (cursor_after eve)) crowd ≡ []
unfolding store list_users insert sort
list_users_runs_out = refl

list_users_skips_example : All (λ w. w ≢ bob) (list_users 1 (some (cursor_after eve)) crowd)
list_users_skips_example = list_users_skips eve bob 1 crowd (omega arith) (omega arith)
