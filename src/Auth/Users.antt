-- ===== src/Auth/Users.antt =====
-- project-auth/store.ts: the rows of `auth.users`.
-- Postgres' `lower` and the text of a uuid are arguments.
use corebase.Base.{
  ℕ, String, Bool, false, not, ◌&&◌, Option, none, some, [], ◌∷◌, ◌++◌, ◌==◌, any, is_some, first,
  keep, or_else, str_eq, if◌then◌else◌,
}
unfoldable pub use corebase.Base.Update.{update}
use corebase.Auth.{AuthUser, AuthDb, is_live, has_user}

unfoldable pub find_user_by_id : ℕ → AuthDb → Option AuthUser
find_user_by_id id db = first (keep (λ u. u.id == id && is_live u) db.users)

module _ (lower : String → String) where
  -- `lower(email) = lower($1) AND deleted_at IS NULL`; a NULL address equals none.
  abbrev pub holds_email : String → AuthUser → Bool
  holds_email email u = elim u.email [
    | none ↦ false
    | some address ↦ str_eq (lower address) (lower email) && is_live u
  ]

  unfoldable pub find_user_by_email : String → AuthDb → Option AuthUser
  find_user_by_email email db = first (keep (holds_email email) db.users)

  -- `id` is the uuid drawn for the row.
  unfoldable pub create_user :
      ℕ → String → Option String → Bool → ℕ → AuthDb → Option (AuthDb × Option AuthUser)
  create_user id email password_hash confirmed now db =
      let user : AuthUser = record {
        id = id;
        email = some email;
        encrypted_password = password_hash;
        email_confirmed_at = if confirmed then some now else none;
        banned_until = none;
        created_at = now;
        last_sign_in_at = none;
        deleted_at = none;
      } in
      if any (holds_email email) db.users
      then some (db, none)
      else if has_user id db.users
      then none
      else some (record db { users = db.users ++ user ∷ [] }, some user)

  -- The partial unique index refuses a second live user with the address; `false` then.
  unfoldable pub apply_email_change : ℕ → String → ℕ → AuthDb → AuthDb × Bool
  apply_email_change id email now db =
      let (users, rows) =
        update (λ u. u.id == id && is_live u)
          (λ u. record u { email = some email; email_confirmed_at = some now }) db.users in
      if any (λ u. not (u.id == id) && holds_email email u) db.users && is_some (first rows)
      then (db, false)
      else (record db { users = users }, is_some (first rows))

unfoldable pub update_password_hash : ℕ → String → AuthDb → AuthDb
update_password_hash id hash db = record db {
  users = (update (λ u. u.id == id) (λ u. record u { encrypted_password = some hash }) db.users).0;
}

unfoldable pub mark_signed_in : ℕ → ℕ → AuthDb → AuthDb
mark_signed_in id now db = record db {
  users = (update (λ u. u.id == id) (λ u. record u { last_sign_in_at = some now }) db.users).0;
}

unfoldable pub mark_email_confirmed : ℕ → ℕ → AuthDb → AuthDb
mark_email_confirmed id now db = record db {
  users =
      (update (λ u. u.id == id)
        (λ u. record u { email_confirmed_at = some (or_else u.email_confirmed_at now) })
        db.users).0;
}
