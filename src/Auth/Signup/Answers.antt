-- ===== src/Auth/Signup/Answers.antt =====
-- Whether the answer to a sign-up tells that the address has an account.
use corebase.Base.{
  ℕ, ◌≡◌, ◌≢◌, refl, sym, ◌∙◌, ap, inl, inr, String, Bool, true, false, Option, none, some, any,
  Bool-cases, Option-cases,
}
use corebase.Auth.{AuthUser, AuthDb, has_user, write_audit}
use corebase.Auth.Users.{find_user_by_email, create_user, holds_email}
use corebase.Auth.Sessions.{open_session}
use corebase.Auth.Signup.{
  Signup, accepted, session_opened, weak_password, signups_disabled, signup_threw, Draws,
  answer_taken, answer_created, sign_up,
}

-- What a client can tell an answer by: all but the uuids.
abbrev pub shape : Signup → Signup
shape (accepted id email) = accepted 0 email
shape (session_opened user sid) = session_opened user 0
shape weak_password = weak_password
shape signups_disabled = signups_disabled
shape signup_threw = signup_threw

module _ (lower : String → String) (hash_password : String → ℕ → Option String)
    (gap : ℕ → AuthDb → AuthDb) (autoconfirm : Bool) (min_length : ℕ) (draws : Draws)
    (now : ℕ) where
  answer_taken-shape :
      (email : String) (db : AuthDb)
      → shape
          (answer_taken lower hash_password gap false autoconfirm min_length draws now email db).0
        ≡ accepted 0 (some email)
  unfolding answer_taken
  answer_taken-shape email db =
      let here = gap 1 (write_audit "signup_duplicate_email" none db) in
      elim (Option-cases (find_user_by_email lower email here)) [
        | inl e ↦ rw (e, answer_taken) refl
        | inr (user, e) ↦ rw (e, answer_taken) refl
      ]

  -- A sign-up that reaches the INSERT, with an address that is taken.
  sign_up_taken :
      (email password hash : String) (db : AuthDb)
      → hash_password password min_length ≡ some hash
      → any (holds_email lower email) (gap 0 db).users ≡ true
      → shape
          (sign_up lower hash_password gap false autoconfirm min_length draws now email password
            db).0
        ≡ accepted 0 (some email)
  unfolding sign_up create_user
  sign_up_taken email password hash db strong taken =
      let here = gap 0 db in
      let made : create_user lower draws.user_id email (some hash) autoconfirm now here
          ≡ some (here, none) =
        rw (taken, create_user) refl in
      rw (strong, made, sign_up) (answer_taken-shape email here)

  -- With a free address the answer is that of `answer_created`.
  sign_up_free :
      (email password hash : String) (db : AuthDb)
      → hash_password password min_length ≡ some hash
      → any (holds_email lower email) (gap 0 db).users ≡ false
      → has_user draws.user_id (gap 0 db).users ≡ false
      → (after : AuthDb) × (created : AuthUser) × (sign_up lower hash_password gap false autoconfirm
            min_length draws now email password db
          ≡ answer_created lower hash_password gap false autoconfirm min_length draws now created
              after)
        × (created.email ≡ some email)
  unfolding sign_up create_user
  sign_up_free email password hash db strong free new =
      rw (strong, free, new, sign_up, create_user) (_, _, refl, refl)

module _ (lower : String → String) (hash_password : String → ℕ → Option String)
    (gap : ℕ → AuthDb → AuthDb) (min_length : ℕ) (draws : Draws) (now : ℕ) where
  -- The sign-up of a project that accepts them, with or without autoconfirm.
  abbrev asked : Bool → String → String → AuthDb → Signup
  asked autoconfirm email password db =
      (sign_up lower hash_password gap false autoconfirm min_length draws now email password db).0

  accepted_anyway :
      (email password hash : String) (db : AuthDb)
      → hash_password password min_length ≡ some hash
      → has_user draws.user_id (gap 0 db).users ≡ false
      → shape (asked false email password db) ≡ accepted 0 (some email)
  unfolding answer_created
  accepted_anyway email password hash db strong new =
      elim (Bool-cases (any (holds_email lower email) (gap 0 db).users)) [
        | inl taken ↦
            sign_up_taken lower hash_password gap false min_length draws now email password hash db
              strong taken
        | inr free ↦
            let (after, created, e, same_email) =
              sign_up_free lower hash_password gap false min_length draws now email password hash db
                strong free new in
            ap (λ r. shape r.0) e ∙ ap (accepted 0) same_email
      ]

  -- Let a project not confirm addresses by itself, and let the uuid drawn for the user be new.
  -- Then an address is answered the same, but for uuids, in any two databases, whether or not
  -- it is taken there.
  pub sign_up_same_shape :
      (email password : String) (db other : AuthDb)
      → has_user draws.user_id (gap 0 db).users ≡ false
      → has_user draws.user_id (gap 0 other).users ≡ false
      → shape (asked false email password db) ≡ shape (asked false email password other)
  unfolding sign_up
  sign_up_same_shape email password db other new new' =
      elim (Option-cases (hash_password password min_length)) [
        | inl weak ↦ rw (weak, shape, sign_up) refl
        | inr (hash, strong) ↦
            accepted_anyway email password hash db strong new
            ∙ sym (accepted_anyway email password hash other strong new')
      ]

  -- Let a project confirm addresses by itself, the password be acceptable and the drawn uuid be
  -- new. Then the answer for an address that is taken differs from that for a free one.
  pub sign_up_told_apart :
      (email password hash : String) (db other : AuthDb)
      → hash_password password min_length ≡ some hash
      → any (holds_email lower email) (gap 0 db).users ≡ true
      → any (holds_email lower email) (gap 0 other).users ≡ false
      → has_user draws.user_id (gap 0 other).users ≡ false
      → shape (asked true email password db) ≢ shape (asked true email password other)
  unfolding answer_created
  sign_up_told_apart email password hash db other strong taken free new same =
      let old =
        sign_up_taken lower hash_password gap true min_length draws now email password hash db
          strong taken in
      let (after, created, e, same_email) =
        sign_up_free lower hash_password gap true min_length draws now email password hash other
          strong free new in
      let made : shape
            (answer_created lower hash_password gap false true min_length draws now created after).0
          ≡ accepted 0 (some email) =
        sym (ap (λ r. shape r.0) e) ∙ sym same ∙ old in
      let here = gap 2 (write_audit "signup" (some created.id) after) in
      elim (Option-cases (open_session draws.session_id created.id draws.token_hash now here)) [
        | inl f ↦ let threw = rw (f, answer_created) at made in absurd (cc)
        | inr ((opened, id), f) ↦ let in_ = rw (f, answer_created) at made in absurd (cc)
      ]
