-- ===== src/Auth/Revocation/Scopes.antt =====
-- Which sessions and tokens `revokeUserSessions` ends.
use corebase.Base.{
  ℕ, suc, ◌≡◌, refl, sym, ◌∙◌, ap, subst, inl, inr, Bool, true, false, not, ◌&&◌, List, [], ◌∷◌,
  ◌==◌, any, is_some, first, keep, map, length, Bool-cases, arith, if◌then◌else◌,
}
use corebase.Base.Update.{update, update-map, update-keep}
use corebase.Auth.{Session, RefreshToken, AuthDb}
use corebase.Auth.Sessions.{revoke}
use corebase.Auth.Revocation.{
  Scope, local, global, others, is_ended, close, contains_id, revoke_user_sessions,
}

-- The open sessions of the user that a scope names.
abbrev pub ends : ℕ → Scope → ℕ → Session → Bool
ends user_id local current s =
    if s.user_id == user_id then not (is_some s.revoked_at) && s.id == current else false
ends user_id global current s = if s.user_id == user_id then not (is_some s.revoked_at) else false
ends user_id others current s =
    if s.user_id == user_id
    then if s.id == current then false else not (is_some s.revoked_at)
    else false

is_ended-ends_at :
    (user_id : ℕ) (scope : Scope) (current : ℕ) (s : Session)
    → is_ended user_id scope current s ≡ ends user_id scope current s
is_ended-ends_at user_id local current s = ground arith
is_ended-ends_at user_id global current s = ground arith
is_ended-ends_at user_id others current s = ground arith

is_ended-ends :
    (user_id : ℕ) (scope : Scope) (current : ℕ)
    → is_ended user_id scope current ≡ ends user_id scope current
is_ended-ends user_id scope current = λ i s. is_ended-ends_at user_id scope current s i

-- The session and its tokens end together.
pub record IsScoped (ended : Session → Bool) (now : ℕ) (db : AuthDb) (r : AuthDb × ℕ) : Type 0 where
  pub sessions : r.0.sessions ≡ map (λ s. if ended s then close now s else s) db.sessions
  pub tokens :
      r.0.refresh_tokens
      ≡ map
          (λ t. if any (λ s. ended s && s.id == t.session_id) db.sessions then revoke t else t)
          db.refresh_tokens
  pub count : r.1 ≡ length (keep ended db.sessions)

length-map : (f : Session → Session) (xs : List Session) → length (map f xs) ≡ length xs
length-map f [] = refl
length-map f (x ∷ xs) = ap suc (length-map f xs)

contains_id-any :
    (id now : ℕ) (ended : Session → Bool) (sessions : List Session)
    → contains_id id (map (λ s. s.id) (map (close now) (keep ended sessions)))
      ≡ any (λ s. ended s && s.id == id) sessions
contains_id-any id now ended [] = refl
contains_id-any id now ended (s ∷ sessions) = ground (arith, contains_id-any id now ended sessions)

revoke_twice : (t : RefreshToken) → t.revoked ≡ true → t ≡ revoke t
revoke_twice t e = ap (λ b. record t { revoked = b }) e

map-same :
    (f g : RefreshToken → RefreshToken) (tokens : List RefreshToken)
    → ((t : RefreshToken) → f t ≡ g t)
    → map f tokens ≡ map g tokens
map-same f g [] same = refl
map-same f g (t ∷ tokens) same = rw (same t, map-same f g tokens same) refl

map-fixed :
    (f : RefreshToken → RefreshToken) (tokens : List RefreshToken)
    → ((t : RefreshToken) → t ≡ f t)
    → tokens ≡ map f tokens
map-fixed f [] same = refl
map-fixed f (t ∷ tokens) same = rw (← same t, ← map-fixed f tokens same) refl

no_rows : (rows : List Session) → is_some (first rows) ≡ false → rows ≡ []
no_rows [] e = refl
no_rows (s ∷ rows) e = absurd (cc)

open_token :
    (t : RefreshToken) (b : Bool) → t.revoked ≡ b → (if not b then revoke t else t) ≡ revoke t
open_token t true e = revoke_twice t e
open_token t false e = refl

one_token :
    (t : RefreshToken) (a b : Bool)
    → a ≡ b
    → (if a && not t.revoked then revoke t else t) ≡ (if b then revoke t else t)
one_token t true true e = open_token t t.revoked refl
one_token t false false e = refl
one_token t true false e = absurd (cc)
one_token t false true e = absurd (cc)

ended-IsScoped :
    (user_id : ℕ) (scope : Scope) (current now : ℕ) (db : AuthDb)
    → IsScoped
        (is_ended user_id scope current)
        now
        db
        (revoke_user_sessions user_id scope current now db)
unfolding revoke_user_sessions
ended-IsScoped user_id scope current now db =
    let ended : Session → Bool = is_ended user_id scope current in
    let rows = (update ended (close now) db.sessions).1 in
    let kept = update-keep ended (close now) db.sessions in
    let named : (t : RefreshToken)
        → contains_id t.session_id (map (λ s. s.id) rows)
          ≡ any (λ s. ended s && s.id == t.session_id) db.sessions =
      λ t.
        ap (λ xs. contains_id t.session_id (map (λ s. s.id) xs)) kept
        ∙ contains_id-any t.session_id now ended db.sessions in
    let sessions = update-map ended (close now) db.sessions in
    let count = ap length kept ∙ length-map (close now) (keep ended db.sessions) in
    let after : RefreshToken → RefreshToken =
      λ t. if any (λ s. ended s && s.id == t.session_id) db.sessions then revoke t else t in
    elim (Bool-cases (is_some (first rows))) [
      | inl e ↦ rw e (record {
        sessions = sessions;
        tokens =
            update-map (λ t. contains_id t.session_id (map (λ s. s.id) rows) && not t.revoked)
              revoke db.refresh_tokens
            ∙ map-same _ after db.refresh_tokens (λ t. one_token t _ _ (named t));
        count = count;
      })
      | inr e ↦
          let silent : (t : RefreshToken) → t ≡ after t = λ t.
            let none_named : any (λ s. ended s && s.id == t.session_id) db.sessions ≡ false =
              sym (named t)
              ∙ ap (λ xs. contains_id t.session_id (map (λ s. s.id) xs)) (no_rows rows e) in
            rw none_named refl in
          rw e (record {
            sessions = sessions;
            tokens = map-fixed after db.refresh_tokens silent;
            count = count;
          })
    ]

-- Exactly the user's open sessions in the scope are closed and counted, and exactly their tokens
-- are revoked; every other session and token is as before. The scope is the current session, all
-- of them, or all but the current one.
pub revoke_user_sessions-IsScoped :
    (user_id : ℕ) (scope : Scope) (current now : ℕ) (db : AuthDb)
    → IsScoped
        (ends user_id scope current)
        now
        db
        (revoke_user_sessions user_id scope current now db)
revoke_user_sessions-IsScoped user_id scope current now db =
    subst (λ ended. IsScoped ended now db (revoke_user_sessions user_id scope current now db))
      (is_ended-ends user_id scope current) (ended-IsScoped user_id scope current now db)
