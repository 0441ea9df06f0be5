-- ===== src/Auth/Verify/EmailChanges.antt =====
-- What a link of an email change does, on each of its four outcomes.
use corebase.Base.{
  ℕ, ◌≡◌, ◌⊎◌, refl, sym, ap, ◌∙◌, subst, inl, inr, String, Bool, true, false, Option, none, some,
  str_eq, eq_iff, Bool-cases, Option-cases,
}
use corebase.Auth.{OneTimeToken, AuthDb}
use corebase.Auth.Links.{consume_either_token, sibling_consumed}
use corebase.Auth.Refresh.Outcomes.{quiet}
use corebase.Auth.Verify.{
  EmailChange, applied, pending, conflict, invalid, other_side, verify_email_change,
}
use corebase.Auth.Verify.Completion.{
  IsCleared, IsUnavailable, IsUntouched, IsMoved, IsCompleted, taken, done,
  complete_email_change-IsCompleted,
}

-- No token was spent, or one without an address.
abbrev IsUnspent : Option OneTimeToken → Type 0
IsUnspent none = Unit
IsUnspent (some t) = (t.relates_to ≡ none) ⊎ (t.relates_to ≡ some "")

module _ (lower : String → String) (double : Bool) (now hash : ℕ) (db : AuthDb) where
  abbrev consumption : AuthDb × Option OneTimeToken
  consumption = consume_either_token hash now db

  pub data IsEmailChange : EmailChange → AuthDb → Type 0 where
    -- No token was spent, or one without a proposed address.
    refused :
        (db' : AuthDb) → IsUnspent consumption.1 → IsUntouched db db' → IsEmailChange invalid db'
    -- Both addresses have to confirm, and the other has not.
    half :
        (t : OneTimeToken) (db' : AuthDb)
        → consumption.1 ≡ some t
        → double ≡ true
        → sibling_consumed t.user_id (other_side t.token_type) consumption.0 ≡ false
        → IsUntouched db db'
        → IsEmailChange pending db'
    -- The address is taken or the account gone: the links are dropped.
    lost :
        (t : OneTimeToken) (email : String) (db' : AuthDb)
        → consumption.1 ≡ some t
        → t.relates_to ≡ some email
        → (double ≡ true
            → sibling_consumed t.user_id (other_side t.token_type) consumption.0 ≡ true)
        → IsUnavailable lower t.user_id email consumption.0
        → IsUntouched db db'
        → IsCleared t.user_id db'
        → IsEmailChange conflict db'
    -- The address proposed with the token, where both had to confirm after both did.
    moved :
        (t : OneTimeToken) (email : String) (db' : AuthDb)
        → consumption.1 ≡ some t
        → t.relates_to ≡ some email
        → (double ≡ true
            → sibling_consumed t.user_id (other_side t.token_type) consumption.0 ≡ true)
        → IsMoved t.user_id email now db'
        → IsCleared t.user_id db'
        → IsEmailChange applied db'

IsCompleted-IsEmailChange :
    (lower : String → String) (double : Bool) (now hash : ℕ) (db : AuthDb) (t : OneTimeToken)
    (email : String) {outcome : EmailChange} {db' : AuthDb}
    → (consume_either_token hash now db).1 ≡ some t
    → t.relates_to ≡ some email
    → (double ≡ true
        → sibling_consumed t.user_id (other_side t.token_type) (consume_either_token hash now db).0
          ≡ true)
    → IsCompleted lower t.user_id email now (consume_either_token hash now db).0 outcome db'
    → IsEmailChange lower double now hash db outcome db'
unfolding consume_either_token
IsCompleted-IsEmailChange lower double now hash db t email e f both (taken db' why same cleared) =
    lost t email db' e f both why (record { users = same.users; sessions = same.sessions }) cleared
IsCompleted-IsEmailChange lower double now hash db t email e f both (done db' is_moved cleared) =
    moved t email db' e f both is_moved cleared

due-IsEmailChange :
    (lower : String → String) (double : Bool) (now hash : ℕ) (db : AuthDb) (t : OneTimeToken)
    (email : String)
    → (consume_either_token hash now db).1 ≡ some t
    → t.relates_to ≡ some email
    → str_eq email "" ≡ false
    → let r = verify_email_change lower quiet double now hash db in
      IsEmailChange lower double now hash db r.0 r.1
unfolding verify_email_change consume_either_token
due-IsEmailChange lower false now hash db t email e f some_text =
    let after = (consume_either_token hash now db).0 in
    rw (e, f, some_text, verify_email_change)
      (IsCompleted-IsEmailChange lower false now hash db t email e f (λ d. absurd (cc))
        (complete_email_change-IsCompleted lower false now t.user_id email after))
due-IsEmailChange lower true now hash db t email e f some_text =
    let after = (consume_either_token hash now db).0 in
    elim (Bool-cases (sibling_consumed t.user_id (other_side t.token_type) after)) [
      | inl both ↦
          rw (e, f, some_text, both, verify_email_change)
            (IsCompleted-IsEmailChange lower true now hash db t email e f (λ d. both)
              (complete_email_change-IsCompleted lower true now t.user_id email after))
      | inr one ↦
          rw (e, f, some_text, one, verify_email_change)
            (half t _ e refl one (record { users = refl; sessions = refl }))
    ]

-- Let nothing else be committed during it. A link of an email change then ends in one of four
-- ways. Invalid: no token was spent, or one without an address. Pending: both addresses have to
-- confirm and the other has not. Conflict: the address is taken or the account gone, and the
-- account's links are dropped. Accounts and sessions are as before in all three. Applied: a token
-- was spent, and the other one too where both have to confirm; the live account has the address
-- proposed with the token, confirmed now, no open session and no such link left.
pub verify_email_change-IsEmailChange :
    (lower : String → String) (double : Bool) (now hash : ℕ) (db : AuthDb)
    → let r = verify_email_change lower quiet double now hash db in
      IsEmailChange lower double now hash db r.0 r.1
unfolding verify_email_change consume_either_token
verify_email_change-IsEmailChange lower double now hash db =
    elim (Option-cases ((consume_either_token hash now db).1)) [
      | inl e ↦
          rw (e, verify_email_change)
            (refused _ (subst IsUnspent (sym e) tt) (record { users = refl; sessions = refl }))
      | inr (t, e) ↦ elim (Option-cases t.relates_to) [
        | inl f ↦
            rw (e, f, verify_email_change)
              (refused _ (subst IsUnspent (sym e) (inl f))
                (record { users = refl; sessions = refl }))
        | inr (email, f) ↦ elim (Bool-cases (str_eq email "")) [
          | inl g ↦
              let empty : t.relates_to ≡ some "" = f ∙ ap some ((eq_iff email "").0 g) in
              rw (e, f, g, verify_email_change)
                (refused _ (subst IsUnspent (sym e) (inr empty))
                  (record { users = refl; sessions = refl }))
          | inr g ↦ due-IsEmailChange lower double now hash db t email e f g
        ]
      ]
    ]
