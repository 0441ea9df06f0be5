-- ===== src/Auth/Listing.antt =====
-- project-auth/store.ts: `listUsers`, and its pages in project-auth/routes.ts.
-- Here times are microseconds, as Postgres keeps them; a JavaScript Date, which is what a cursor is
-- made from, has milliseconds.
use corebase.Base.{
  ℕ, suc, ◌*◌, ◌/◌, ◌≤◌, ◌<◌, ◌≡◌, ◌≢◌, ap, inl, inr, zero, Bool, true, ◌&&◌, ◌||◌, Option, none,
  some, List, [], ◌∷◌, ltb, leb, ◌==◌, take, keep, All, Bool-cases, arith,
}
use corebase.Base.Sort.{sort, sort-All}
use corebase.Auth.{AuthUser, AuthDb, is_live}

pub record UserCursor : Type 0 where
  -- Milliseconds.
  pub created_at : ℕ
  pub id : ℕ

-- `(created_at, id) < (cursor.created_at, cursor.id)`
abbrev pub is_after : UserCursor → AuthUser → Bool
is_after c u =
    ltb u.created_at (c.created_at * 1000) || (u.created_at == c.created_at * 1000 && ltb u.id c.id)

abbrev pub passes : Option UserCursor → AuthUser → Bool
passes none u = is_live u
passes (some c) u = is_live u && is_after c u

-- `ORDER BY created_at DESC, id DESC`
abbrev pub newest : AuthUser → AuthUser → Bool
newest u v = ltb v.created_at u.created_at || (u.created_at == v.created_at && leb v.id u.id)

unfoldable pub list_users : ℕ → Option UserCursor → AuthDb → List AuthUser
unfolding sort
list_users limit cursor db = take (suc limit) (sort newest (keep (passes cursor) db.users))

-- `u.created_at.toISOString()` and the id
abbrev pub cursor_after : AuthUser → UserCursor
cursor_after u = record { created_at = u.created_at / 1000; id = u.id }

keep-All :
    (P : AuthUser → Type 0) (test : AuthUser → Bool) (users : List AuthUser)
    → ((u : AuthUser) → test u ≡ true → P u)
    → All P (keep test users)
keep-All P test [] f = tt
keep-All P test (u ∷ users) f = elim (Bool-cases (test u)) [
  | inl e ↦ rw e (f u e, keep-All P test users f)
  | inr e ↦ rw e (keep-All P test users f)
]

take-All :
    (P : AuthUser → Type 0) (n : ℕ) (users : List AuthUser) → All P users → All P (take n users)
take-All P zero users h = tt
take-All P (suc n) [] h = tt
take-All P (suc n) (u ∷ users) (here, h) = (here, take-All P n users h)

-- Let a user be older than the last one of a page, but not older than the millisecond in which
-- that one was created begins. Then no page that starts at the page's cursor holds that user.
pub list_users_skips :
    (u v : AuthUser) (limit : ℕ) (db : AuthDb)
    → v.created_at < u.created_at
    → u.created_at / 1000 * 1000 < v.created_at
    → All (λ w. w ≢ v) (list_users limit (some (cursor_after u)) db)
unfolding list_users
list_users_skips u v limit db older within =
    let late : (w : AuthUser) → passes (some (cursor_after u)) w ≡ true → w ≢ v = λ w e same.
      let bound : w.created_at ≤ u.created_at / 1000 * 1000 = ground (arith, e) in
      let times : w.created_at ≡ v.created_at = ap (λ x. x.created_at) same in
      omega (arith, bound, times, within) in
    take-All (λ w. w ≢ v) (suc limit) (sort newest (keep (passes (some (cursor_after u))) db.users))
      (sort-All newest (λ w. w ≢ v) (keep (passes (some (cursor_after u))) db.users)
        (keep-All (λ w. w ≢ v) (passes (some (cursor_after u))) db.users late))
