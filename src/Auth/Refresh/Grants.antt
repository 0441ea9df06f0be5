-- ===== src/Auth/Refresh/Grants.antt =====
-- When a refresh is granted, and the state of the session when it is.
use corebase.Base.{
  ℕ, ◌≤◌, ◌≡◌, subst, inl, inr, String, false, ◌||◌, Option, none, some, is_some, Bool-cases,
  Option-cases, arith,
}
use corebase.Auth.{AuthUser, AuthDb}
use corebase.Auth.Users.{find_user_by_id}
use corebase.Auth.Sessions.{RefreshRow, find_refresh_token}
use corebase.Auth.Sessions.Lineage.{IsLineage}
use corebase.Auth.Sessions.Lookup.{find_refresh_token-IsOwn}
use corebase.Auth.Sessions.Succession.{IsRenewed}
use corebase.Auth.History.{History, History-IsOwn, History-IsLineage}
use corebase.Auth.Refresh.Renewal.{Renews, already_spent-Renews, rotate-Renews}
use corebase.Auth.Refresh.{
  Grant, granted, is_banned, idle_expired, end_family, refresh_live, refresh_digest, expires_in,
}

module _ (gap : ℕ → AuthDb → AuthDb) (others : (i : ℕ) (db : AuthDb) → History db (gap i db))
    (idle_seconds : ℕ) (ttl : Option ℕ) (fresh now : ℕ) where
  -- What was read when a refresh is granted, and what is left.
  pub record IsGranted (hash : ℕ) (db : AuthDb) (user : AuthUser) (lasts : ℕ) (after : AuthDb)
      : Type 0 where
    pub row : RefreshRow
    pub found : find_refresh_token hash (gap 0 db) ≡ some row
    pub live : row.revoked ≡ false
    pub opened : row.session_revoked_at ≡ none
    pub active : idle_expired gap idle_seconds ttl fresh now row ≡ false
    pub who : find_user_by_id row.user_id (gap 1 (gap 0 db)) ≡ some user
    pub allowed : is_banned now user ≡ false
    pub least : 300 ≤ lasts
    pub most : lasts ≤ 86400
    pub renewed : IsRenewed row.session_id fresh after

  granted-IsGranted :
      (hash : ℕ) (db : AuthDb) (row : RefreshRow) (user u : AuthUser) (lasts : ℕ)
      (r : Grant × AuthDb)
      → find_refresh_token hash (gap 0 db) ≡ some row
      → (row.revoked || is_some row.session_revoked_at) ≡ false
      → idle_expired gap idle_seconds ttl fresh now row ≡ false
      → find_user_by_id row.user_id (gap 1 (gap 0 db)) ≡ some user
      → is_banned now user ≡ false
      → Renews gap others idle_seconds ttl fresh now row user r
      → r.0 ≡ granted u lasts
      → IsGranted hash db u lasts r.1
  unfolding expires_in
  granted-IsGranted hash db row user u lasts r e live active who allowed renews q =
      let (same, lasting, renewed) = renews.renews u lasts q in
      record {
        row = row;
        found = e;
        live = ground (arith, live);
        opened = elim (Option-cases row.session_revoked_at) [
          | inl n ↦ n
          | inr (at, n) ↦ absurd (ground (arith, live, n))
        ];
        active = active;
        who = subst (λ x. find_user_by_id row.user_id (gap 1 (gap 0 db)) ≡ some x) same who;
        allowed = subst (λ x. is_banned now x ≡ false) same allowed;
        least = ground (arith, lasting);
        most = ground (arith, lasting);
        renewed = renewed;
      }

  record Grants (hash : ℕ) (db : AuthDb) (r : Grant × AuthDb) : Type 0 where
    grants : (u : AuthUser) (lasts : ℕ) → r.0 ≡ granted u lasts → IsGranted hash db u lasts r.1

  end_family-Grants :
      (hash : ℕ) (db : AuthDb) (row : RefreshRow) (action : String) (at : AuthDb)
      → Grants hash db (end_family gap idle_seconds ttl fresh now row action at)
  unfolding end_family
  end_family-Grants hash db row action at = record { grants = λ u lasts q. absurd (cc) }

  refresh_digest-Grants :
      (hash : ℕ) (db : AuthDb)
      → IsLineage db
      → Grants hash db (refresh_digest gap idle_seconds ttl fresh now hash db)
  unfolding refresh_digest refresh_live
  refresh_digest-Grants hash db h =
      let here = gap 0 db in
      let there = gap 1 here in
      let h0 = History-IsLineage (others 0 db) h in
      elim (Option-cases (find_refresh_token hash here)) [
        | inl e ↦ rw (e, refresh_digest) (record { grants = λ u lasts q. absurd (cc) })
        | inr (row, e) ↦ elim (Bool-cases (row.revoked || is_some row.session_revoked_at)) [
          | inl r ↦ rw (e, r, refresh_digest) (record { grants = λ u lasts q. absurd (cc) })
          | inr r ↦ elim (Bool-cases (idle_expired gap idle_seconds ttl fresh now row)) [
            | inl i ↦
                rw (e, r, i, refresh_digest) (end_family-Grants hash db row "refresh_failed" here)
            | inr i ↦ elim (Option-cases (find_user_by_id row.user_id there)) [
              | inl f ↦
                  rw (e, r, i, refresh_digest, f, refresh_live)
                    (end_family-Grants hash db row "refresh_failed" there)
              | inr (user, f) ↦ elim (Bool-cases (is_banned now user)) [
                | inl b ↦
                    rw (e, r, i, refresh_digest, f, b, refresh_live)
                      (end_family-Grants hash db row "refresh_failed_banned" there)
                | inr b ↦
                    let own0 = find_refresh_token-IsOwn hash here h0 e in
                    let h1 = History-IsLineage (others 1 here) h0 in
                    let own1 = History-IsOwn row.id row.session_id h0 (others 1 here) own0 in
                    elim (Option-cases row.used_at) [
                      | inl t ↦
                          let renews =
                            rotate-Renews gap others idle_seconds ttl fresh now hash row user there
                              h1 own1 in
                          rw (e, r, i, refresh_digest, f, b, t, refresh_live)
                            (record {
                              grants = λ u lasts.
                                  granted-IsGranted hash db row user u lasts _ e r i f b renews;
                            })
                      | inr (used, t) ↦
                          let renews =
                            already_spent-Renews gap others idle_seconds ttl fresh now row user used
                              there h1 own1 in
                          rw (e, r, i, refresh_digest, f, b, t, refresh_live)
                            (record {
                              grants = λ u lasts.
                                  granted-IsGranted hash db row user u lasts _ e r i f b renews;
                            })
                    ]
              ]
            ]
          ]
        ]
      ]

  -- Let other requests commit transactions of the store before each statement, and let a refresh
  -- be granted. Then the token and its session were found live, the session was not idle for too
  -- long, the user was there and not banned, the access token lasts between five minutes and a
  -- day, and the session is left with one usable refresh token, the one that was handed out.
  pub refresh_digest-IsGranted :
      (hash lasts : ℕ) (db : AuthDb) (u : AuthUser)
      → IsLineage db
      → (refresh_digest gap idle_seconds ttl fresh now hash db).0 ≡ granted u lasts
      → IsGranted hash db u lasts (refresh_digest gap idle_seconds ttl fresh now hash db).1
  refresh_digest-IsGranted hash lasts db u h q = (refresh_digest-Grants hash db h).grants u lasts q
