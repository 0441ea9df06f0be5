-- ===== src/Auth/Login/Outcomes.antt =====
-- When a password opens a session.
use corebase.Base.{
  ℕ, ◌≡◌, refl, sym, ap, subst, ◌∙◌, inl, inr, String, Bool, true, false, not, ◌&&◌, Option, none,
  some, [], ◌∷◌, ◌++◌, is_some, Bool-cases, Option-cases, arith,
}
use corebase.Auth.{AuthUser, AuthDb, write_audit, has_user, has_session}
use corebase.Auth.Users.{find_user_by_email, update_password_hash, mark_signed_in}
use corebase.Auth.Sessions.{
  open_session, insert_token, admits, new_session, new_token, with_session, with_token,
}
use corebase.Auth.Refresh.{is_banned}
use corebase.Auth.Refresh.Outcomes.{quiet}
use corebase.Auth.Login.{
  Login, logged_in, bad_credentials, email_not_confirmed, login_threw, stored_hash, open_login,
  upgrade, password_grant,
}

-- Accounts, sessions and tokens are as they were.
pub record IsUnchanged (db db' : AuthDb) : Type 0 where
  pub users : db'.users ≡ db.users
  pub sessions : db'.sessions ≡ db.sessions
  pub tokens : db'.refresh_tokens ≡ db.refresh_tokens

-- One session more, and one refresh token, which is usable.
pub record IsOpened (user_id sid fresh now : ℕ) (db db' : AuthDb) : Type 0 where
  pub sessions : db'.sessions ≡ db.sessions ++ new_session sid user_id now ∷ []
  pub tokens :
      db'.refresh_tokens ≡ db.refresh_tokens ++ new_token db.next_id fresh user_id sid none ∷ []

module _ (lower : String → String) (verify_password : String → String → Bool × Bool)
    (hash_password : String → ℕ → Option String) (autoconfirm : Bool) (sid fresh now : ℕ) where
  -- The account of this address has this password and is not banned.
  pub record IsRight (email password : String) (db : AuthDb) (user : AuthUser) : Type 0 where
    pub stored : String
    pub found : find_user_by_email lower email db ≡ some user
    pub has_hash : stored_hash user ≡ some stored
    pub right : (verify_password password stored).0 ≡ true
    pub allowed : is_banned now user ≡ false

  pub data IsLogin (email password : String) (db : AuthDb) : Login → AuthDb → Type 0 where
    refused : (db' : AuthDb) → IsUnchanged db db' → IsLogin email password db bad_credentials db'
    unconfirmed :
        (user : AuthUser) (db' : AuthDb)
        → IsRight email password db user
        → user.email_confirmed_at ≡ none
        → autoconfirm ≡ false
        → IsUnchanged db db'
        → IsLogin email password db email_not_confirmed db'
    threw :
        (db' : AuthDb)
        → db'.sessions ≡ db.sessions
        → db'.refresh_tokens ≡ db.refresh_tokens
        → IsLogin email password db login_threw db'
    opened :
        (user : AuthUser) (db' : AuthDb)
        → IsRight email password db user
        → (not (is_some user.email_confirmed_at) && not autoconfirm) ≡ false
        → IsOpened user.id sid fresh now db db'
        → IsLogin email password db (logged_in user sid) db'

-- A session opened from `mid`, which has the sessions and tokens of `db`.
record IsLike (db mid : AuthDb) : Type 0 where
  sessions : mid.sessions ≡ db.sessions
  tokens : mid.refresh_tokens ≡ db.refresh_tokens
  next : mid.next_id ≡ db.next_id

open_session_result :
    (sid user_id fresh now id : ℕ) (mid after : AuthDb)
    → open_session sid user_id fresh now mid ≡ some (after, id)
    → after ≡ with_token fresh user_id sid none (with_session sid user_id now mid)
unfolding open_session insert_token
open_session_result sid user_id fresh now id mid after e =
    let there = with_session sid user_id now mid in
    elim (Bool-cases (has_user user_id mid.users && not (has_session sid mid.sessions))) [
      | inr f ↦ let fails = rw (f, open_session) at e in absurd (cc)
      | inl f ↦ elim (Bool-cases (admits fresh user_id sid none there)) [
        | inr g ↦ let fails = rw (f, g, open_session, insert_token) at e in absurd (cc)
        | inl g ↦
            let made : some (with_token fresh user_id sid none there, mid.next_id)
                ≡ some (after, id) =
              rw (f, g, open_session, insert_token) at e in
            sym (ap (λ x. elim x [ none ↦ after | some r ↦ r.0 ]) made)
      ]
    ]

open_session-IsOpened :
    (sid user_id fresh now id : ℕ) (db mid after : AuthDb)
    → IsLike db mid
    → open_session sid user_id fresh now mid ≡ some (after, id)
    → IsOpened user_id sid fresh now db after
open_session-IsOpened sid user_id fresh now id db mid after like e =
    let made = open_session_result sid user_id fresh now id mid after e in
    record {
      sessions =
          ap (λ x. x.sessions) made
          ∙ ap (λ ss. ss ++ new_session sid user_id now ∷ []) like.sessions;
      tokens =
          ap (λ x. x.refresh_tokens) made
          ∙ ap (λ n. mid.refresh_tokens ++ new_token n fresh user_id sid none ∷ []) like.next
          ∙ ap (λ ts. ts ++ new_token db.next_id fresh user_id sid none ∷ []) like.tokens;
    }

unset :
    (user : AuthUser) (autoconfirm : Bool)
    → (not (is_some user.email_confirmed_at) && not autoconfirm) ≡ true
    → (user.email_confirmed_at ≡ none) × (autoconfirm ≡ false)
unset user autoconfirm e = elim (Option-cases user.email_confirmed_at) [
  | inl f ↦ (f, ground (arith, e))
  | inr (at, f) ↦ absurd (ground (arith, e, f))
]

module _ (lower : String → String) (verify_password : String → String → Bool × Bool)
    (hash_password : String → ℕ → Option String) (autoconfirm : Bool) (sid fresh now : ℕ) where
  upgrade-IsLike :
      (user : AuthUser) (password : String) (needed : Bool) (db mid : AuthDb)
      → upgrade lower verify_password hash_password quiet autoconfirm sid fresh now user password
          needed db
        ≡ some mid
      → IsLike db mid
  unfolding upgrade update_password_hash
  upgrade-IsLike user password false db mid e =
      let same : db ≡ mid = ap (λ x. elim x [ none ↦ mid | some y ↦ y ]) e in
      subst (IsLike db) same (record { sessions = refl; tokens = refl; next = refl })
  upgrade-IsLike user password true db mid e = elim (Option-cases (hash_password password 1)) [
    | inl f ↦ let threw = rw f at e in absurd (cc)
    | inr (hash, f) ↦
        let noted =
          write_audit "password_hash_upgraded" (some user.id)
            (update_password_hash user.id hash db) in
        let made : some noted ≡ some mid = rw f at e in
        let same : noted ≡ mid = ap (λ x. elim x [ none ↦ mid | some y ↦ y ]) made in
        subst (IsLike db) same (record { sessions = refl; tokens = refl; next = refl })
  ]

  open_login-IsLogin :
      (email password : String) (user : AuthUser) (db mid : AuthDb)
      → IsRight lower verify_password hash_password autoconfirm sid fresh now email password db user
      → (not (is_some user.email_confirmed_at) && not autoconfirm) ≡ false
      → IsLike db mid
      → let r =
          open_login lower verify_password hash_password quiet autoconfirm sid fresh now user mid in
        IsLogin lower verify_password hash_password autoconfirm sid fresh now email password db r.0
          r.1
  unfolding open_login mark_signed_in
  open_login-IsLogin email password user db mid right confirmed like =
      elim (Option-cases (open_session sid user.id fresh now mid)) [
        | inl e ↦ rw (e, open_login) (threw mid like.sessions like.tokens)
        | inr ((after, id), e) ↦
            let o = open_session-IsOpened sid user.id fresh now id db mid after like e in
            rw (e, open_login)
              (opened user _ right confirmed (record { sessions = o.sessions; tokens = o.tokens }))
      ]

-- Let nothing else be committed during it. A password grant then ends in one of four ways.
-- Refused: accounts, sessions and tokens are as before. Not confirmed: the password is right and
-- the account not banned, the address is unconfirmed, and all is as before. Thrown: there is no
-- new session or token. Logged in: the password is right, the account not banned, its address
-- confirmed where that is asked for, and there is exactly one session and one refresh token more.
pub password_grant-IsLogin :
    (lower : String → String) (verify_password : String → String → Bool × Bool)
    (hash_password : String → ℕ → Option String) (autoconfirm : Bool) (sid fresh now : ℕ)
    (email password : String) (db : AuthDb)
    → let r =
        password_grant lower verify_password hash_password quiet autoconfirm sid fresh now email
          password db in
      IsLogin lower verify_password hash_password autoconfirm sid fresh now email password db r.0
        r.1
unfolding password_grant
password_grant-IsLogin lower verify_password hash_password autoconfirm sid fresh now email password
      db =
    elim (Option-cases (find_user_by_email lower email db)) [
      | inl e ↦
          rw (e, password_grant)
            (refused _ (record { users = refl; sessions = refl; tokens = refl }))
      | inr (user, e) ↦ elim (Option-cases (stored_hash user)) [
        | inl f ↦
            rw (e, f, password_grant)
              (refused _ (record { users = refl; sessions = refl; tokens = refl }))
        | inr (stored, f) ↦ elim (Bool-cases ((verify_password password stored).0)) [
          | inr g ↦
              rw (e, f, g, password_grant)
                (refused _ (record { users = refl; sessions = refl; tokens = refl }))
          | inl g ↦ elim (Bool-cases (is_banned now user)) [
            | inl b ↦
                rw (e, f, g, b, password_grant)
                  (refused _ (record { users = refl; sessions = refl; tokens = refl }))
            | inr b ↦
                let right : IsRight lower verify_password hash_password autoconfirm sid fresh now
                    email password db user =
                  record { stored = stored; found = e; has_hash = f; right = g; allowed = b } in
                elim (Bool-cases (not (is_some user.email_confirmed_at) && not autoconfirm)) [
                  | inl c ↦
                      rw (e, f, g, b, c, password_grant)
                        (unconfirmed user _ right (unset user autoconfirm c).0
                          (unset user autoconfirm c).1
                          (record { users = refl; sessions = refl; tokens = refl }))
                  | inr c ↦
                      let weak = (verify_password password stored).1 in
                      elim (Option-cases (
                        upgrade lower verify_password hash_password quiet autoconfirm sid fresh now
                          user password weak db)) [
                            | inl u ↦ rw (e, f, g, b, c, u, password_grant) (threw db refl refl)
                            | inr (mid, u) ↦
                                let like =
                                  upgrade-IsLike lower verify_password hash_password autoconfirm sid
                                    fresh now user password weak db mid u in
                                rw (e, f, g, b, c, u, password_grant)
                                  (open_login-IsLogin lower verify_password hash_password
                                    autoconfirm sid fresh now email password user db mid right c
                                    like)
                          ]
                ]
          ]
        ]
      ]
    ]
