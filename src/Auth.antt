-- ===== src/Auth.antt =====
-- services/api/src/modules/project-auth: the end users of a project, in its own `auth` schema.
-- A table is the list of its rows, an UPDATE is `update`, an INSERT appends. Ids and digests are
-- numbers, since they are only compared (and refresh token ids ordered); times are milliseconds.
-- A transaction is one function: `none` where a constraint made it throw and it was rolled back.
-- Metadata, user agents, addresses and the payloads of audit entries are left out.
pub mod Users
pub mod Sessions
pub mod Revocation
pub mod Links
pub mod History
pub mod Refresh
pub mod Verify
pub mod Signup
pub mod Login
pub mod Listing
mod Tests
use corebase.Base.{
  ℕ, ◌+◌, String, Bool, true, false, not, ◌&&◌, Option, none, some, List, [], ◌∷◌, ◌++◌, ◌==◌, any,
  is_some,
}

pub record AuthUser : Type 0 where
  pub id : ℕ
  pub email : Option String
  pub encrypted_password : Option String
  pub email_confirmed_at : Option ℕ
  pub banned_until : Option ℕ
  pub created_at : ℕ
  pub last_sign_in_at : Option ℕ
  pub deleted_at : Option ℕ

pub record Session : Type 0 where
  pub id : ℕ
  pub user_id : ℕ
  pub created_at : ℕ
  pub last_refreshed_at : Option ℕ
  pub revoked_at : Option ℕ

pub record RefreshToken : Type 0 where
  pub id : ℕ
  pub token_hash : ℕ
  pub user_id : ℕ
  pub session_id : ℕ
  pub parent_id : Option ℕ
  pub used_at : Option ℕ
  pub revoked : Bool

pub data TokenType : Type 0 where
  confirmation recovery email_change_current email_change_new magic_link : TokenType

pub record OneTimeToken : Type 0 where
  pub id : ℕ
  pub user_id : ℕ
  pub token_type : TokenType
  pub token_hash : ℕ
  pub relates_to : Option String
  pub created_at : ℕ
  pub expires_at : ℕ
  pub used_at : Option ℕ

pub record AuthDb : Type 0 where
  pub users : List AuthUser
  pub sessions : List Session
  pub refresh_tokens : List RefreshToken
  pub one_time_tokens : List OneTimeToken
  -- The next number of the identity column of `refresh_tokens`.
  pub next_id : ℕ
  pub audit : List (String × Option ℕ)

-- `writeAuthAudit` never throws.
abbrev pub write_audit : String → Option ℕ → AuthDb → AuthDb
write_audit action user db = record db { audit = db.audit ++ (action, user) ∷ [] }

abbrev pub is_live : AuthUser → Bool
is_live u = not (is_some u.deleted_at)

abbrev pub has_user : ℕ → List AuthUser → Bool
has_user id users = any (λ u. u.id == id) users

abbrev pub has_session : ℕ → List Session → Bool
has_session id sessions = any (λ s. s.id == id) sessions

abbrev pub has_token : ℕ → List RefreshToken → Bool
has_token id tokens = any (λ r. r.id == id) tokens

-- Unspent and not revoked.
abbrev pub is_usable : RefreshToken → Bool
is_usable r = not (is_some r.used_at) && not r.revoked
