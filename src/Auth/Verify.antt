-- ===== src/Auth/Verify.antt =====
-- project-auth/routes.ts: the handlers behind the links of `/verify`, and the change of address.
-- As in a refresh, `gap` is what other requests commit before each statement. Redirects, mails
-- and the access token's text are left out.
pub mod Completion
pub mod EmailChanges
use Prim.Native.String
use corebase.Base.{
  ℕ, ◌+◌, String, Bool, true, false, not, ◌&&◌, ◌||◌, Option, none, some, List, [], ◌∷◌, ◌==◌,
  is_some, keep, or_else, str_eq, if◌then◌else◌,
}
use corebase.Auth.{
  AuthUser, OneTimeToken, TokenType, confirmation, recovery, email_change_current, email_change_new,
  magic_link, AuthDb, write_audit,
}
use corebase.Auth.Users.{find_user_by_id, mark_email_confirmed, mark_signed_in, apply_email_change}
use corebase.Auth.Sessions.{open_session}
use corebase.Auth.Links.{
  same_type, is_slot, issue_one_time_token, consume_one_time_token, consume_either_token,
  sibling_consumed, clear_email_change_tokens,
}
use corebase.Auth.Revocation.{revoke_user_sessions, global}

unfoldable pub verify_type : String → Option TokenType
verify_type name =
    if str_eq name "signup" || str_eq name "confirmation"
    then some confirmation
    else if str_eq name "recovery"
    then some recovery
    else if str_eq name "magiclink" || str_eq name "magic_link"
    then some magic_link
    else none

abbrev type_text : TokenType → String
type_text confirmation = "confirmation"
type_text recovery = "recovery"
type_text email_change_current = "email_change_current"
type_text email_change_new = "email_change_new"
type_text magic_link = "magic_link"

pub data EmailChange : Type 0 where
  applied pending conflict invalid : EmailChange

abbrev pub other_side : TokenType → TokenType
other_side email_change_new = email_change_current
other_side _ = email_change_new

module _ (lower : String → String) (gap : ℕ → AuthDb → AuthDb) (double : Bool) (now : ℕ) where
  -- From the point where the change is due.
  unfoldable pub complete_email_change : ℕ → String → AuthDb → EmailChange × AuthDb
  complete_email_change user_id email db =
      let (changed, done) = apply_email_change lower user_id email now (gap 2 db) in
      let cleared = clear_email_change_tokens user_id (gap 3 changed) in
      if done
      then (
        applied,
        write_audit "email_changed" (some user_id)
            (revoke_user_sessions user_id global 0 now (gap 4 cleared)).0,
      )
      else (conflict, write_audit "email_change_conflict" (some user_id) cleared)

  -- From the digest of the token on.
  unfoldable pub verify_email_change : ℕ → AuthDb → EmailChange × AuthDb
  verify_email_change hash db =
      let (after, consumed) = consume_either_token hash now (gap 0 db) in
      let nothing : EmailChange × AuthDb =
        (invalid, write_audit "verify_failed_email_change" none after) in
      elim consumed [
        | none ↦ nothing
        | some t ↦ elim t.relates_to [
          | none ↦ nothing
          | some email ↦
              let there = gap 1 after in
              if str_eq email ""
              then nothing
              else if not double
              then complete_email_change t.user_id email after
              else if sibling_consumed t.user_id (other_side t.token_type) there
              then complete_email_change t.user_id email there
              else (pending, write_audit "email_change_half_confirmed" (some t.user_id) there)
        ]
      ]

-- The two issued tokens have the digests `to_new` and `to_old`, their rows the ids.
unfoldable pub propose_email_change : Bool → ℕ → ℕ → ℕ → ℕ → ℕ → AuthUser → String → AuthDb → AuthDb
propose_email_change double new_id old_id to_new to_old now user email db =
    let asked =
      (issue_one_time_token new_id user.id email_change_new to_new (some email) now db).0 in
    let both =
      (issue_one_time_token old_id user.id email_change_current to_old (some email) now asked).0 in
    let dropped = record asked {
      one_time_tokens =
          keep (λ t. not (is_slot user.id email_change_current t)) asked.one_time_tokens;
    } in
    write_audit "email_change_requested" (some user.id)
      (if double && is_some user.email then both else dropped)

pub data Verified : Type 0 where
  -- The user, the session, and whether the token's `amr` is `recovery`.
  verified : AuthUser → ℕ → Bool → Verified
  invalid_token : Verified
  verify_failed : Verified

module _ (gap : ℕ → AuthDb → AuthDb) (sid fresh now : ℕ) where
  -- `sid` and `fresh` are the session and the digest that are drawn.
  unfoldable pub sign_in_verified : TokenType → AuthUser → AuthDb → Verified × AuthDb
  sign_in_verified type user db =
      let marked = mark_email_confirmed user.id now (gap 2 db) in
      elim (open_session sid user.id fresh now (gap 3 marked)) [
        | none ↦ (verify_failed, gap 3 marked)
        | some (opened, id) ↦
            let signed = mark_signed_in user.id now (gap 4 opened) in
            let noted =
              write_audit (String.◌++◌ "verify_" (type_text type)) (some user.id) signed in
            (
              verified (or_else (find_user_by_id user.id (gap 5 noted)) user) sid
                  (same_type recovery type),
              gap 5 noted,
            )
      ]

  -- After the limiter. `substituted` is whether the redirect was replaced.
  unfoldable pub do_verify : String → Bool → ℕ → AuthDb → Verified × AuthDb
  do_verify name substituted hash db = elim (verify_type name) [
    | none ↦ (invalid_token, db)
    | some type ↦
        let asked = if substituted then write_audit "redirect_not_allowlisted" none db else db in
        let (after, consumed) = consume_one_time_token type hash now (gap 0 asked) in
        elim consumed [
          | none ↦ (
            invalid_token,
            write_audit (String.◌++◌ "verify_failed_" (type_text type)) none after,
          )
          | some t ↦ elim (find_user_by_id t.user_id (gap 1 after)) [
            | none ↦ (
              invalid_token,
              write_audit (String.◌++◌ "verify_failed_" (type_text type)) none (gap 1 after),
            )
            | some user ↦ sign_in_verified type user (gap 1 after)
          ]
        ]
  ]
