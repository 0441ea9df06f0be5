-- ===== src/Auth/Sessions.antt =====
-- project-auth/store.ts: sessions and the rotation of their refresh tokens.
pub mod Lineage
pub mod Changes
pub mod Lookup
pub mod Succession
use corebase.Base.{
  ℕ, ◌+◌, Bool, true, false, not, ◌&&◌, Option, none, some, List, [], ◌∷◌, ◌++◌, ◌==◌, any, ltb,
  is_some, first, keep, map, if◌then◌else◌,
}
unfoldable pub use corebase.Base.Update.{update}
use corebase.Base.Texts.{Text, digits}
use corebase.Auth.{
  Session, RefreshToken, AuthDb, has_user, has_session, has_token, is_usable, is_live,
}

-- The `token_hash` is unique, and the user, the session and the parent exist.
abbrev pub admits : ℕ → ℕ → ℕ → Option ℕ → AuthDb → Bool
admits hash user_id session_id parent db =
    not (any (λ r. r.token_hash == hash) db.refresh_tokens)
    && has_user user_id db.users
    && has_session session_id db.sessions
    && elim parent [ none ↦ true | some id ↦ has_token id db.refresh_tokens ]

abbrev pub new_token : ℕ → ℕ → ℕ → ℕ → Option ℕ → RefreshToken
new_token id hash user_id session_id parent = record {
  id = id;
  token_hash = hash;
  user_id = user_id;
  session_id = session_id;
  parent_id = parent;
  used_at = none;
  revoked = false;
}

abbrev pub with_token : ℕ → ℕ → ℕ → Option ℕ → AuthDb → AuthDb
with_token hash user_id session_id parent db = record db {
  refresh_tokens = db.refresh_tokens ++ new_token db.next_id hash user_id session_id parent ∷ [];
  next_id = db.next_id + 1;
}

-- The INSERT that all three transactions below make, and the id it returns. A number that
-- a rollback drew from the identity column is not left unused here.
unfoldable pub insert_token : ℕ → ℕ → ℕ → Option ℕ → AuthDb → Option (AuthDb × ℕ)
insert_token hash user_id session_id parent db =
    if admits hash user_id session_id parent db
    then some (with_token hash user_id session_id parent db, db.next_id)
    else none

abbrev pub new_session : ℕ → ℕ → ℕ → Session
new_session id user_id now = record {
  id = id;
  user_id = user_id;
  created_at = now;
  last_refreshed_at = some now;
  revoked_at = none;
}

abbrev pub with_session : ℕ → ℕ → ℕ → AuthDb → AuthDb
with_session id user_id now db = record db {
  sessions = db.sessions ++ new_session id user_id now ∷ [];
}

-- `id` is the uuid drawn for the session.
unfoldable pub open_session : ℕ → ℕ → ℕ → ℕ → AuthDb → Option (AuthDb × ℕ)
open_session id user_id hash now db =
    if has_user user_id db.users && not (has_session id db.sessions)
    then insert_token hash user_id id none (with_session id user_id now db)
    else none

pub record RefreshRow : Type 0 where
  pub id : ℕ
  pub user_id : ℕ
  pub session_id : ℕ
  pub used_at : Option ℕ
  pub revoked : Bool
  pub session_revoked_at : Option ℕ
  pub last_refreshed_at : Option ℕ
  pub session_created_at : ℕ

abbrev pub joined : RefreshToken → Session → RefreshRow
joined r s = record {
  id = r.id;
  user_id = r.user_id;
  session_id = r.session_id;
  used_at = r.used_at;
  revoked = r.revoked;
  session_revoked_at = s.revoked_at;
  last_refreshed_at = s.last_refreshed_at;
  session_created_at = s.created_at;
}

-- `refresh_tokens r JOIN sessions s ON s.id = r.session_id`
abbrev pub join_sessions : List Session → List RefreshToken → List RefreshRow
join_sessions sessions [] = []
join_sessions sessions (r ∷ tokens) =
    map (joined r) (keep (λ s. s.id == r.session_id) sessions) ++ join_sessions sessions tokens

unfoldable pub find_refresh_token : ℕ → AuthDb → Option RefreshRow
find_refresh_token hash db =
    first (join_sessions db.sessions (keep (λ r. r.token_hash == hash) db.refresh_tokens))

abbrev pub touch : ℕ → ℕ → AuthDb → AuthDb
touch session_id now db = record db {
  sessions =
      (update (λ s. s.id == session_id) (λ s. record s { last_refreshed_at = some now })
        db.sessions).0;
}

abbrev pub spend : ℕ → RefreshToken → RefreshToken
spend now r = record r { used_at = some now }

abbrev pub revoke : RefreshToken → RefreshToken
revoke r = record r { revoked = true }

-- What `rotateRefreshToken` and `graceRotate` share: `set` retires the token `old`, a child of
-- `parent` is inserted. The second component is `none` where no row was retired.
unfoldable pub succeed_token :
    (RefreshToken → RefreshToken) → ℕ → ℕ → ℕ → ℕ → ℕ → ℕ → AuthDb → Option (AuthDb × Option ℕ)
succeed_token set old parent session_id user_id hash now db =
    let (tokens, rows) = update (λ r. r.id == old && is_usable r) set db.refresh_tokens in
    elim (first rows) [
      | none ↦ some (db, none)
      | some row ↦
          elim (insert_token hash user_id session_id (some parent)
            (record db { refresh_tokens = tokens })) [
              | none ↦ none
              | some (after, child) ↦ some (touch session_id now after, some child)
            ]
    ]

unfoldable pub rotate_refresh_token : ℕ → ℕ → ℕ → ℕ → ℕ → AuthDb → Option (AuthDb × Option ℕ)
unfolding succeed_token
rotate_refresh_token id session_id user_id hash now =
    succeed_token (spend now) id id session_id user_id hash now

unfoldable pub grace_rotate : ℕ → ℕ → ℕ → ℕ → ℕ → ℕ → AuthDb → Option (AuthDb × Option ℕ)
unfolding succeed_token
grace_rotate parent old session_id user_id hash now =
    succeed_token revoke old parent session_id user_id hash now

abbrev pub is_child : ℕ → RefreshToken → Bool
is_child parent r = elim r.parent_id [ none ↦ false | some id ↦ id == parent ]

-- The order of texts of digits.
abbrev pub digits_le : Text → Text → Bool
digits_le [] ys = true
digits_le (x ∷ xs) [] = false
digits_le (x ∷ xs) (y ∷ ys) =
    let rest = digits_le xs ys in if ltb x y then true else if x == y then rest else false

unfoldable pub id_le : ℕ → ℕ → Bool
id_le a b = digits_le (digits a) (digits b)

-- `ORDER BY id LIMIT 1`, where `id` is the column of the result, `id::text`.
abbrev pub lowest : List RefreshToken → Option RefreshToken
lowest [] = none
lowest (r ∷ tokens) = elim (lowest tokens) [
  | none ↦ some r
  | some best ↦ if id_le r.id best.id then some r else some best
]

unfoldable pub find_child_token : ℕ → AuthDb → Option RefreshToken
find_child_token parent db = lowest (keep (is_child parent) db.refresh_tokens)

-- The ids that the join yields; the route asks whether there is one.
unfoldable pub live_session : ℕ → ℕ → AuthDb → Bool
live_session id user_id db =
    any
      (λ s.
        s.id == id
        && s.user_id == user_id
        && not (is_some s.revoked_at)
        && any (λ u. u.id == s.user_id && is_live u) db.users)
      db.sessions
