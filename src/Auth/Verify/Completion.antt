-- ===== src/Auth/Verify/Completion.antt =====
-- A change of address that is due: it is applied, or the address is taken.
use corebase.Base.{
  ℕ, ◌≡◌, ◌⊎◌, none, refl, sym, ap, subst, inl, inr, String, Bool, true, false, not, ◌&&◌, some,
  List, [], ◌∷◌, ◌==◌, any, is_some, first, keep, All, All-map, Bool-cases, Option-cases, arith,
}
use corebase.Base.Update.{update, update-All_both, update-none}
use corebase.Auth.{AuthUser, OneTimeToken, AuthDb, is_live}
use corebase.Auth.Users.{apply_email_change, holds_email}
use corebase.Auth.Links.{is_email_change, clear_email_change_tokens}
use corebase.Auth.Revocation.{revoke_user_sessions, is_ended, close, global}
use corebase.Auth.Refresh.Outcomes.{quiet}
use corebase.Auth.Verify.{EmailChange, applied, conflict, complete_email_change}

-- No link of an email change of this user is left.
abbrev pub IsCleared : ℕ → AuthDb → Type 0
IsCleared user_id db =
    All (λ t. (t.user_id == user_id && is_email_change t.token_type) ≡ false) db.one_time_tokens

-- Accounts and sessions are as they were.
pub record IsUntouched (db db' : AuthDb) : Type 0 where
  pub users : db'.users ≡ db.users
  pub sessions : db'.sessions ≡ db.sessions

-- The user has the new address, confirmed now, and no open session.
pub record IsMoved (user_id : ℕ) (email : String) (now : ℕ) (db' : AuthDb) : Type 0 where
  pub address : All (λ u. u.id ≡ user_id → is_live u ≡ true → u.email ≡ some email) db'.users
  pub confirmed :
      All (λ u. u.id ≡ user_id → is_live u ≡ true → u.email_confirmed_at ≡ some now) db'.users
  pub signed_out : All (λ s. s.user_id ≡ user_id → is_some s.revoked_at ≡ true) db'.sessions

kept_All :
    (p : OneTimeToken → Bool) (links : List OneTimeToken)
    → All (λ t. p t ≡ false) (keep (λ t. not (p t)) links)
kept_All p [] = tt
kept_All p (t ∷ links) = elim (Bool-cases (p t)) [
  | inl e ↦ rw e (kept_All p links)
  | inr e ↦ rw e (e, kept_All p links)
]

-- Another live user has the address, or there is no live user of this id.
abbrev pub IsUnavailable : (String → String) → ℕ → String → AuthDb → Type 0
IsUnavailable lower user_id email db =
    (any (λ u. not (u.id == user_id) && holds_email lower email u) db.users ≡ true)
    ⊎ All (λ u. (u.id == user_id && is_live u) ≡ false) db.users

no_rows-All :
    (test : AuthUser → Bool) (set : AuthUser → AuthUser) (users : List AuthUser)
    → first (update test set users).1 ≡ none
    → All (λ u. test u ≡ false) users
unfolding update
no_rows-All test set [] e = tt
no_rows-All test set (u ∷ users) e = elim (Bool-cases (test u)) [
  | inl hit ↦ let made = rw hit at e in absurd (cc)
  | inr miss ↦ (miss, no_rows-All test set users (rw miss at e))
]

-- A change that is due.
pub data IsCompleted (lower : String → String) (user_id : ℕ) (email : String) (now : ℕ)
    (db : AuthDb) : EmailChange → AuthDb → Type 0 where
  taken :
      (db' : AuthDb)
      → IsUnavailable lower user_id email db
      → IsUntouched db db'
      → IsCleared user_id db'
      → IsCompleted lower user_id email now db conflict db'
  done :
      (db' : AuthDb)
      → IsMoved user_id email now db'
      → IsCleared user_id db'
      → IsCompleted lower user_id email now db applied db'

-- The accounts after the change.
data IsApplied (lower : String → String) (user_id : ℕ) (email : String) (now : ℕ) (db : AuthDb)
    (r : AuthDb × Bool) : Type 0 where
  stays :
      IsUnavailable lower user_id email db
      → r ≡ (db, false)
      → IsApplied lower user_id email now db r
  changes :
      (users : List AuthUser)
      → r ≡ (record db { users = users }, true)
      → All
          (λ u.
            u.id ≡ user_id
            → is_live u ≡ true
            → (u.email ≡ some email) × (u.email_confirmed_at ≡ some now))
          users
      → IsApplied lower user_id email now db r

apply_email_change-IsApplied :
    (lower : String → String) (user_id : ℕ) (email : String) (now : ℕ) (db : AuthDb)
    → IsApplied lower user_id email now db (apply_email_change lower user_id email now db)
unfolding apply_email_change
apply_email_change-IsApplied lower user_id email now db =
    let test : AuthUser → Bool = λ u. u.id == user_id && is_live u in
    let set : AuthUser → AuthUser =
      λ u. record u { email = some email; email_confirmed_at = some now } in
    let rows = (update test set db.users).1 in
    let taken = any (λ u. not (u.id == user_id) && holds_email lower email u) db.users in
    elim (Bool-cases (taken && is_some (first rows))) [
      | inl e ↦ stays (inl (ground arith)) (rw (e, apply_email_change) refl)
      | inr e ↦ elim (Option-cases (first rows)) [
        | inl f ↦ stays (inr (no_rows-All test set db.users f)) (
            rw (e, f, apply_email_change)
              (ap (λ us. (record db { users = us }, false)) (update-none test set db.users f)))
        | inr (row, f) ↦ changes (update test set db.users).0 (rw (e, f, apply_email_change) refl) (
            update-All_both test set
              (λ u.
                u.id ≡ user_id
                → is_live u ≡ true
                → (u.email ≡ some email) × (u.email_confirmed_at ≡ some now))
              db.users (λ u hit same live. (refl, refl))
              (λ u miss same live. absurd (ground arith)))
      ]
    ]

revoke_user_sessions-signed_out :
    (user_id now : ℕ) (db : AuthDb)
    → All
        (λ s. s.user_id ≡ user_id → is_some s.revoked_at ≡ true)
        (revoke_user_sessions user_id global 0 now db).0.sessions
unfolding revoke_user_sessions
revoke_user_sessions-signed_out user_id now db =
    let closed =
      update-All_both (is_ended user_id global 0) (close now)
        (λ s. s.user_id ≡ user_id → is_some s.revoked_at ≡ true) db.sessions (λ s hit same. refl)
        (λ s miss same. ground arith) in
    elim (Bool-cases
      (is_some (first (update (is_ended user_id global 0) (close now) db.sessions).1))) [
        | inl e ↦ rw e closed
        | inr e ↦ rw e closed
      ]

-- Signing out touches neither accounts nor links.
revoke_user_sessions_rest :
    (user_id now : ℕ) (db : AuthDb)
    → let after = (revoke_user_sessions user_id global 0 now db).0 in
      (after.users ≡ db.users) × (after.one_time_tokens ≡ db.one_time_tokens)
unfolding revoke_user_sessions
revoke_user_sessions_rest user_id now db =
    elim (Bool-cases
      (is_some (first (update (is_ended user_id global 0) (close now) db.sessions).1))) [
        | inl e ↦ rw e (refl, refl)
        | inr e ↦ rw e (refl, refl)
      ]

pub complete_email_change-IsCompleted :
    (lower : String → String) (double : Bool) (now user_id : ℕ) (email : String) (db : AuthDb)
    → let r = complete_email_change lower quiet double now user_id email db in
      IsCompleted lower user_id email now db r.0 r.1
unfolding complete_email_change clear_email_change_tokens
complete_email_change-IsCompleted lower double now user_id email db =
    let cleared =
      kept_All (λ t. t.user_id == user_id && is_email_change t.token_type) db.one_time_tokens in
    elim (apply_email_change-IsApplied lower user_id email now db) [
      | stays why e ↦
          rw (e, complete_email_change)
            (taken _ why (record { users = refl; sessions = refl }) cleared)
      | changes users e all ↦
          let there = clear_email_change_tokens user_id (record db { users = users }) in
          let (same_users, same_links) = revoke_user_sessions_rest user_id now there in
          rw (e, complete_email_change)
            (done _
              (record {
                address =
                    subst (All (λ u. u.id ≡ user_id → is_live u ≡ true → u.email ≡ some email))
                      (sym same_users)
                      (All-map _ (λ u. u.id ≡ user_id → is_live u ≡ true → u.email ≡ some email)
                        users (λ u both same live. (both same live).0) all);
                confirmed =
                    subst
                      (All
                        (λ u. u.id ≡ user_id → is_live u ≡ true → u.email_confirmed_at ≡ some now))
                      (sym same_users)
                      (All-map _
                        (λ u. u.id ≡ user_id → is_live u ≡ true → u.email_confirmed_at ≡ some now)
                        users (λ u both same live. (both same live).1) all);
                signed_out = revoke_user_sessions-signed_out user_id now there;
              })
              (subst (All (λ t. (t.user_id == user_id && is_email_change t.token_type) ≡ false))
                (sym same_links) cleared))
    ]
