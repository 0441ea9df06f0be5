-- ===== src/Auth/Refresh/Outcomes.antt =====
-- What a refresh answers, and the state it leaves the session in.
use corebase.Base.{
  ℕ, ◌+◌, ◌-◌, ◌<◌, ◌≡◌, refl, inl, inr, String, true, false, not, ◌&&◌, ◌||◌, Option, none, some,
  ◌==◌, leb, is_some, All, Bool-cases, Option-cases, arith,
}
use corebase.Base.Update.{update-All_both}
use corebase.Auth.{AuthUser, RefreshToken, AuthDb, is_usable}
use corebase.Auth.Users.{find_user_by_id}
use corebase.Auth.Sessions.{
  RefreshRow, find_refresh_token, find_child_token, is_child, id_le, grace_rotate, revoke,
}
use corebase.Auth.Sessions.Succession.{grace_rotate-find_child_token}
use corebase.Auth.Revocation.{revoke_session_family}
use corebase.Auth.Refresh.{
  Grant, bad_grant, refresh_grace_ms, is_banned, idle_expired, end_family, replay, already_spent,
  refresh_live, refresh_digest,
}

-- The grant is refused, the session closed and all its tokens revoked.
pub record IsEnded (sid : ℕ) (r : Grant × AuthDb) : Type 0 where
  pub refused : r.0 ≡ bad_grant
  pub closed : All (λ s. s.id ≡ sid → is_some s.revoked_at ≡ true) r.1.sessions
  pub revoked : All (λ t. t.session_id ≡ sid → t.revoked ≡ true) r.1.refresh_tokens

module _ (gap : ℕ → AuthDb → AuthDb) (idle_seconds : ℕ) (ttl : Option ℕ) (fresh now : ℕ) where
  end_family-IsEnded :
      (row : RefreshRow) (action : String) (db : AuthDb)
      → IsEnded row.session_id (end_family gap idle_seconds ttl fresh now row action db)
  unfolding end_family revoke_session_family
  end_family-IsEnded row action db =
      let sid = row.session_id in
      record {
        refused = refl;
        closed =
            update-All_both (λ s. s.id == sid) _ (λ s. s.id ≡ sid → is_some s.revoked_at ≡ true)
              (gap 6 db).sessions (λ s t e. refl) (λ s t e. absurd (ground arith));
        revoked =
            update-All_both (λ r. r.session_id == sid && not r.revoked) revoke
              (λ t. t.session_id ≡ sid → t.revoked ≡ true) (gap 6 db).refresh_tokens (λ r t e. refl)
              (λ r t e. ground arith);
      }

  replay-IsEnded :
      (row : RefreshRow) (user : AuthUser) (child : RefreshToken) (db : AuthDb)
      → find_child_token row.id (gap 4 db) ≡ some child
      → is_usable child ≡ false
      → IsEnded row.session_id (replay gap idle_seconds ttl fresh now row user db)
  unfolding replay
  replay-IsEnded row user child db e dead =
      let stop : (is_some child.used_at || child.revoked) ≡ true = ground (arith, dead) in
      rw (e, stop, replay) (end_family-IsEnded row "token_reuse_detected" (gap 4 db))

  -- A live row that was spent ends its session if what follows the lookups of the user does.
  spent-IsEnded :
      (hash used : ℕ) (row : RefreshRow) (db : AuthDb)
      → find_refresh_token hash (gap 0 db) ≡ some row
      → row.revoked ≡ false
      → row.session_revoked_at ≡ none
      → row.used_at ≡ some used
      → ((user : AuthUser)
          → IsEnded row.session_id
              (already_spent gap idle_seconds ttl fresh now row user used (gap 1 (gap 0 db))))
      → IsEnded row.session_id (refresh_digest gap idle_seconds ttl fresh now hash db)
  unfolding refresh_digest refresh_live
  spent-IsEnded hash used row db e live open_session spent rest =
      let here = gap 0 db in
      let alive : (row.revoked || is_some row.session_revoked_at) ≡ false =
        rw (live, open_session) refl in
      elim (Bool-cases (idle_expired gap idle_seconds ttl fresh now row)) [
        | inl i ↦ rw (e, alive, i, refresh_digest) (end_family-IsEnded row "refresh_failed" here)
        | inr i ↦ elim (Option-cases (find_user_by_id row.user_id (gap 1 here))) [
          | inl f ↦
              rw (e, alive, i, refresh_digest, f, refresh_live)
                (end_family-IsEnded row "refresh_failed" (gap 1 here))
          | inr (user, f) ↦ elim (Bool-cases (is_banned now user)) [
            | inl b ↦
                rw (e, alive, i, refresh_digest, f, b, refresh_live)
                  (end_family-IsEnded row "refresh_failed_banned" (gap 1 here))
            | inr b ↦ rw (e, alive, i, refresh_digest, f, b, spent, refresh_live) (rest user)
          ]
        ]
      ]

  -- Let the presented digest be found, neither it nor its session revoked, and let it have been
  -- spent more than ten seconds ago. Then whatever other requests commit in between, the grant is
  -- refused, and the session is closed and every token of it revoked when the refresh ends.
  pub refresh_digest_reuse-IsEnded :
      (hash used : ℕ) (row : RefreshRow) (db : AuthDb)
      → find_refresh_token hash (gap 0 db) ≡ some row
      → row.revoked ≡ false
      → row.session_revoked_at ≡ none
      → row.used_at ≡ some used
      → used + 10000 < now
      → IsEnded row.session_id (refresh_digest gap idle_seconds ttl fresh now hash db)
  unfolding already_spent
  refresh_digest_reuse-IsEnded hash used row db e live opened spent late =
      let out : leb (now - used) refresh_grace_ms ≡ false = ground (arith, late) in
      spent-IsEnded hash used row db e live opened spent (λ user.
        rw (out, already_spent) (end_family-IsEnded row "token_reuse_detected" (gap 1 (gap 0 db))))

-- Nothing is committed by other requests.
abbrev pub quiet : ℕ → AuthDb → AuthDb
quiet i db = db

-- Let a refresh with a spent token have found its first child unspent and have replaced it, where
-- the new id comes after those of the token's children in the order of their texts, and let the same
-- token be presented again while its session is live. Then, however little time has passed, the grant
-- is refused and the session is closed with all its tokens.
pub replay_twice-IsEnded :
    (idle_seconds : ℕ) (ttl : Option ℕ) (hash fresh first_at again now new used : ℕ)
    (row : RefreshRow) (child : RefreshToken) (db db' : AuthDb)
    → All (λ r. is_child row.id r ≡ true → id_le r.id db.next_id ≡ true) db.refresh_tokens
    → find_child_token row.id db ≡ some child
    → is_usable child ≡ true
    → grace_rotate row.id child.id row.session_id row.user_id fresh first_at db
      ≡ some (db', some new)
    → (second : RefreshRow) → find_refresh_token hash db' ≡ some second
    → second.id ≡ row.id
    → second.revoked ≡ false
    → second.session_revoked_at ≡ none
    → second.used_at ≡ some used
    → IsEnded second.session_id (refresh_digest quiet idle_seconds ttl again now hash db')
unfolding already_spent
replay_twice-IsEnded idle_seconds ttl hash fresh first_at again now new used row child db db' h e
      usable made second found same live opened spent =
    let revoked =
      grace_rotate-find_child_token row.id row.session_id row.user_id fresh first_at new child db
        db' h e usable made in
    let first_child : find_child_token second.id db' ≡ some (revoke child) = rw same revoked in
    spent-IsEnded quiet idle_seconds ttl again now hash used second db' found live opened spent
      (λ user. elim (Bool-cases (leb (now - used) refresh_grace_ms)) [
        | inl t ↦
            rw (t, already_spent)
              (replay-IsEnded quiet idle_seconds ttl again now second user (revoke child) db'
                first_child (ground arith))
        | inr t ↦
            rw (t, already_spent)
              (end_family-IsEnded quiet idle_seconds ttl again now second "token_reuse_detected"
                db')
      ])
