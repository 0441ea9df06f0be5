-- ===== src/Auth/Refresh.antt =====
-- project-auth/routes.ts: `refreshGrant`, and project-auth/tokens.ts: the shape of its token.
-- Each statement commits by itself; what other requests commit before it is the argument `gap`,
-- asked with the number of the statement. `sha256` and the digest of the token that is minted
-- are arguments. One reading of the clock, `now`, serves the request.
pub mod Outcomes
pub mod Renewal
pub mod Grants
use corebase.Base.{
  ℕ, ◌+◌, ◌-◌, ◌*◌, String, Bool, true, false, not, ◌&&◌, ◌||◌, Option, none, some, ltb, leb, max,
  min, length, is_some, or_else, if◌then◌else◌,
}
use corebase.Base.Texts.{Text, codes, starts}
use corebase.Auth.{AuthUser, AuthDb, write_audit}
use corebase.Auth.Users.{find_user_by_id}
use corebase.Auth.Sessions.{
  RefreshRow, find_refresh_token, rotate_refresh_token, find_child_token, grace_rotate,
}
use corebase.Auth.Revocation.{revoke_session_family}

abbrev pub refresh_grace_ms : ℕ
refresh_grace_ms = 10000

unfoldable pub looks_like_refresh_token : Text → Bool
looks_like_refresh_token v =
    starts (codes "sh_rt_") v && ltb (length (codes "sh_rt_") + 20) (length v)

-- `expiresIn` of `mintAccessToken`
unfoldable pub expires_in : Option ℕ → ℕ
expires_in ttl = min 86400 (max 300 (or_else ttl 3600))

pub data Grant : Type 0 where
  -- The user, and how long the access token lasts.
  granted : AuthUser → ℕ → Grant
  bad_grant : Grant
  too_many : Grant
  -- A constraint made a statement throw.
  failed : Grant

abbrev pub is_banned : ℕ → AuthUser → Bool
is_banned now u = elim u.banned_until [ none ↦ false | some until ↦ ltb now until ]

module _ (gap : ℕ → AuthDb → AuthDb) (idle_seconds : ℕ) (ttl : Option ℕ) (fresh now : ℕ) where
  abbrev pub idle_expired : RefreshRow → Bool
  idle_expired row =
      ltb (idle_seconds * 1000) (now - or_else row.last_refreshed_at row.session_created_at)

  -- The family is revoked, that is noted, and the grant refused.
  unfoldable pub end_family : RefreshRow → String → AuthDb → Grant × AuthDb
  end_family row action db = (
    bad_grant,
    write_audit action (some row.user_id) (revoke_session_family row.session_id now (gap 6 db)),
  )

  unfoldable pub replay : RefreshRow → AuthUser → AuthDb → Grant × AuthDb
  replay row user db = elim (find_child_token row.id (gap 4 db)) [
    | none ↦ end_family row "token_reuse_detected" (gap 4 db)
    | some child ↦
        if is_some child.used_at || child.revoked
        then end_family row "token_reuse_detected" (gap 4 db)
        else elim (grace_rotate row.id child.id row.session_id row.user_id fresh now
            (gap 5 (gap 4 db))) [
              | none ↦ (failed, gap 5 (gap 4 db))
              | some (after, none) ↦ end_family row "token_reuse_detected" after
              | some (after, some id) ↦ (
                granted user (expires_in ttl),
                write_audit "token_refresh_replayed" (some user.id) after,
              )
            ]
  ]

  -- `used` is when the token was spent.
  unfoldable pub already_spent : RefreshRow → AuthUser → ℕ → AuthDb → Grant × AuthDb
  already_spent row user used db =
      let again = replay row user db in
      if leb (now - used) refresh_grace_ms then again else end_family row "token_reuse_detected" db

  unfoldable pub rotate : ℕ → RefreshRow → AuthUser → AuthDb → Grant × AuthDb
  rotate hash row user db =
      elim (rotate_refresh_token row.id row.session_id row.user_id fresh now (gap 2 db)) [
        | none ↦ (failed, gap 2 db)
        | some (after, some id) ↦
            (granted user (expires_in ttl), write_audit "token_refreshed" (some user.id) after)
        | some (after, none) ↦ elim (find_refresh_token hash (gap 3 after)) [
          | none ↦ (bad_grant, gap 3 after)
          | some again ↦ elim again.used_at [
            | none ↦ (bad_grant, gap 3 after)
            | some used ↦ already_spent row user used (gap 3 after)
          ]
        ]
      ]

  unfoldable pub refresh_live : ℕ → RefreshRow → AuthDb → Grant × AuthDb
  refresh_live hash row db = elim (find_user_by_id row.user_id (gap 1 db)) [
    | none ↦ end_family row "refresh_failed" (gap 1 db)
    | some user ↦
        if is_banned now user
        then end_family row "refresh_failed_banned" (gap 1 db)
        else elim row.used_at [
          | none ↦ rotate hash row user (gap 1 db)
          | some used ↦ already_spent row user used (gap 1 db)
        ]
  ]

  -- From the digest of the presented token on.
  unfoldable pub refresh_digest : ℕ → AuthDb → Grant × AuthDb
  refresh_digest hash db = elim (find_refresh_token hash (gap 0 db)) [
    | none ↦ (bad_grant, write_audit "refresh_failed" none (gap 0 db))
    | some row ↦
        if row.revoked || is_some row.session_revoked_at
        then (bad_grant, write_audit "refresh_failed" (some row.user_id) (gap 0 db))
        else if idle_expired row
        then end_family row "refresh_failed" (gap 0 db)
        else refresh_live hash row (gap 0 db)
  ]

  -- `presented` is `none` where the body holds no text.
  unfoldable pub refresh_grant : (Text → ℕ) → Bool → Option Text → AuthDb → Grant × AuthDb
  refresh_grant sha256 allowed presented db =
      if not allowed then (too_many, db) else elim presented [
        | none ↦ (bad_grant, db)
        | some token ↦
            if looks_like_refresh_token token
            then refresh_digest (sha256 token) db
            else (bad_grant, db)
      ]
