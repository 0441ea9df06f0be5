-- ===== src/Auth/Links.antt =====
-- project-auth/store.ts: the one-time tokens that travel in mails.
pub mod Single
use corebase.Base.{
  ℕ, ◌+◌, ◌*◌, String, Bool, true, false, not, ◌&&◌, ◌||◌, Option, none, some, List, [], ◌∷◌, ◌++◌,
  ◌==◌, ltb, any, is_some, first, keep, if◌then◌else◌,
}
unfoldable pub use corebase.Base.Update.{update}
use corebase.Auth.{
  AuthUser, OneTimeToken, TokenType, confirmation, recovery, email_change_current, email_change_new,
  magic_link, AuthDb, is_live, has_user,
}

unfoldable pub token_ttl_seconds : TokenType → ℕ
token_ttl_seconds confirmation = 24 * 3600
token_ttl_seconds recovery = 3600
token_ttl_seconds email_change_current = 24 * 3600
token_ttl_seconds email_change_new = 24 * 3600
token_ttl_seconds magic_link = 900

-- The place of a type in the declaration, to compare two.
abbrev type_index : TokenType → ℕ
type_index confirmation = 0
type_index recovery = 1
type_index email_change_current = 2
type_index email_change_new = 3
type_index magic_link = 4

abbrev pub same_type : TokenType → TokenType → Bool
same_type a b = type_index a == type_index b

-- `token_type IN ('email_change_current', 'email_change_new')`
abbrev pub is_email_change : TokenType → Bool
is_email_change type = same_type email_change_current type || same_type email_change_new type

-- The row that `UNIQUE (user_id, token_type)` leaves one of.
abbrev pub is_slot : ℕ → TokenType → OneTimeToken → Bool
is_slot user_id type t = t.user_id == user_id && same_type type t.token_type

abbrev pub reissued : ℕ → Option String → ℕ → ℕ → OneTimeToken → OneTimeToken
reissued hash relates_to expires_at now t = record t {
  token_hash = hash;
  relates_to = relates_to;
  created_at = now;
  expires_at = expires_at;
  used_at = none;
}

abbrev pub new_link : ℕ → ℕ → TokenType → ℕ → Option String → ℕ → ℕ → OneTimeToken
new_link id user_id type hash relates_to expires_at now = record {
  id = id;
  user_id = user_id;
  token_type = type;
  token_hash = hash;
  relates_to = relates_to;
  created_at = now;
  expires_at = expires_at;
  used_at = none;
}

-- `id` is the uuid drawn for a new row. The result is the rows afterwards and `expiresAt`.
unfoldable pub issue_one_time_token :
    ℕ → ℕ → TokenType → ℕ → Option String → ℕ → AuthDb → AuthDb × ℕ
unfolding token_ttl_seconds
issue_one_time_token id user_id type hash relates_to now db =
    let expires_at = now + token_ttl_seconds type * 1000 in
    let links = db.one_time_tokens in
    let (rows, hits) =
      update (is_slot user_id type) (reissued hash relates_to expires_at now) links in
    let inserted = links ++ new_link id user_id type hash relates_to expires_at now ∷ [] in
    (record db { one_time_tokens = if is_some (first hits) then rows else inserted }, expires_at)

-- The WHERE of both statements that spend a token, less its type.
abbrev pub can_consume : ℕ → ℕ → AuthDb → OneTimeToken → Bool
can_consume hash now db t =
    t.token_hash == hash
    && not (is_some t.used_at)
    && ltb now t.expires_at
    && any (λ u. u.id == t.user_id && is_live u) db.users

abbrev pub use_up : ℕ → OneTimeToken → OneTimeToken
use_up now t = record t { used_at = some now }

unfoldable pub consume_one_time_token : TokenType → ℕ → ℕ → AuthDb → AuthDb × Option OneTimeToken
consume_one_time_token type hash now db =
    let (links, rows) =
      update (λ t. same_type type t.token_type && can_consume hash now db t) (use_up now)
        db.one_time_tokens in
    (record db { one_time_tokens = links }, first rows)

-- `types` is always the two of an email change.
unfoldable pub consume_either_token : ℕ → ℕ → AuthDb → AuthDb × Option OneTimeToken
consume_either_token hash now db =
    let (links, rows) =
      update (λ t. is_email_change t.token_type && can_consume hash now db t) (use_up now)
        db.one_time_tokens in
    (record db { one_time_tokens = links }, first rows)

unfoldable pub sibling_consumed : ℕ → TokenType → AuthDb → Bool
sibling_consumed user_id type db = elim (first (keep (is_slot user_id type) db.one_time_tokens)) [
  | none ↦ false
  | some t ↦ is_some t.used_at
]

unfoldable pub clear_email_change_tokens : ℕ → AuthDb → AuthDb
clear_email_change_tokens user_id db = record db {
  one_time_tokens =
      keep (λ t. not (t.user_id == user_id && is_email_change t.token_type)) db.one_time_tokens;
}
