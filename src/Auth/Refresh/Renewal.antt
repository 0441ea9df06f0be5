-- ===== src/Auth/Refresh/Renewal.antt =====
-- A grant renews the session: what each stage of a refresh leaves if it grants.
use corebase.Base.{
  ℕ, ◌-◌, ◌≡◌, refl, inl, inr, String, ◌||◌, Option, none, some, leb, is_some, Bool-cases,
  Option-cases,
}
use corebase.Auth.{AuthUser, AuthDb}
use corebase.Auth.Sessions.{
  RefreshRow, find_refresh_token, rotate_refresh_token, find_child_token, grace_rotate,
}
use corebase.Auth.Sessions.Lineage.{IsLineage, IsOwn}
use corebase.Auth.Sessions.Lookup.{find_child_token-IsOwn}
use corebase.Auth.Sessions.Succession.{
  IsRenewed, rotate_refresh_token-IsRenewed, grace_rotate-IsRenewed,
}
use corebase.Auth.History.{
  History, commit, rotated, History-trans, History-IsOwn, History-IsLineage,
}
use corebase.Auth.Refresh.{
  Grant, granted, bad_grant, refresh_grace_ms, end_family, replay, already_spent, rotate,
  expires_in,
}

module _ (gap : ℕ → AuthDb → AuthDb) (others : (i : ℕ) (db : AuthDb) → History db (gap i db))
    (idle_seconds : ℕ) (ttl : Option ℕ) (fresh now : ℕ) where
  -- If it is a grant, it is to this user, and the session is renewed.
  pub record Renews (row : RefreshRow) (user : AuthUser) (r : Grant × AuthDb) : Type 0 where
    pub renews :
        (u : AuthUser) (lasts : ℕ)
        → r.0 ≡ granted u lasts
        → (user ≡ u) × (lasts ≡ expires_in ttl) × IsRenewed row.session_id fresh r.1

  refusal :
      (row : RefreshRow) (user : AuthUser) (r : Grant × AuthDb)
      → r.0 ≡ bad_grant
      → Renews row user r
  refusal row user r e = record { renews = λ u lasts f. absurd (cc) }

  end_family-Renews :
      (row : RefreshRow) (user : AuthUser) (action : String) (db : AuthDb)
      → Renews row user (end_family gap idle_seconds ttl fresh now row action db)
  unfolding end_family
  end_family-Renews row user action db =
      refusal row user (end_family gap idle_seconds ttl fresh now row action db) refl

  replay-Renews :
      (row : RefreshRow) (user : AuthUser) (db : AuthDb)
      → IsLineage db
      → IsOwn row.id row.session_id db
      → Renews row user (replay gap idle_seconds ttl fresh now row user db)
  unfolding replay
  replay-Renews row user db h own =
      let here = gap 4 db in
      let ended = end_family-Renews row user "token_reuse_detected" here in
      elim (Option-cases (find_child_token row.id here)) [
        | inl e ↦ rw (e, replay) ended
        | inr (child, e) ↦ elim (Bool-cases (is_some child.used_at || child.revoked)) [
          | inl t ↦ rw (e, t, replay) ended
          | inr t ↦
              let later = gap 5 here in
              let h4 = History-IsLineage (others 4 db) h in
              let own4 = History-IsOwn row.id row.session_id h (others 4 db) own in
              let mine =
                History-IsOwn child.id row.session_id h4 (others 5 here)
                  (find_child_token-IsOwn row.id row.session_id here h4 own4 e) in
              elim (Option-cases
                (grace_rotate row.id child.id row.session_id row.user_id fresh now later)) [
                  | inl f ↦ rw (e, t, f, replay) (record { renews = λ u lasts q. absurd (cc) })
                  | inr ((after, none), f) ↦
                      rw (e, t, f, replay) (end_family-Renews row user "token_reuse_detected" after)
                  | inr ((after, some id), f) ↦
                      let renewed =
                        grace_rotate-IsRenewed row.id child.id row.session_id row.user_id fresh now
                          id later after mine (History-IsLineage (others 5 here) h4) f in
                      rw (e, t, f, replay)
                        (record {
                          renews = λ u lasts q.
                              (cc, cc, record { one = renewed.one; only = renewed.only });
                        })
                ]
        ]
      ]

  pub already_spent-Renews :
      (row : RefreshRow) (user : AuthUser) (used : ℕ) (db : AuthDb)
      → IsLineage db
      → IsOwn row.id row.session_id db
      → Renews row user (already_spent gap idle_seconds ttl fresh now row user used db)
  unfolding already_spent
  already_spent-Renews row user used db h own =
      elim (Bool-cases (leb (now - used) refresh_grace_ms)) [
        | inl e ↦ rw (e, already_spent) (replay-Renews row user db h own)
        | inr e ↦ rw (e, already_spent) (end_family-Renews row user "token_reuse_detected" db)
      ]

  pub rotate-Renews :
      (hash : ℕ) (row : RefreshRow) (user : AuthUser) (db : AuthDb)
      → IsLineage db
      → IsOwn row.id row.session_id db
      → Renews row user (rotate gap idle_seconds ttl fresh now hash row user db)
  unfolding rotate
  rotate-Renews hash row user db h own =
      let here = gap 2 db in
      let h2 = History-IsLineage (others 2 db) h in
      let own2 = History-IsOwn row.id row.session_id h (others 2 db) own in
      elim (Option-cases (rotate_refresh_token row.id row.session_id row.user_id fresh now here)) [
        | inl e ↦ rw (e, rotate) (record { renews = λ u lasts q. absurd (cc) })
        | inr ((after, some id), e) ↦
            let renewed =
              rotate_refresh_token-IsRenewed row.id row.session_id row.user_id fresh now id here
                after own2 h2 e in
            rw (e, rotate)
              (record {
                renews = λ u lasts q. (cc, cc, record { one = renewed.one; only = renewed.only });
              })
        | inr ((after, none), e) ↦
            let there = gap 3 after in
            let to_there =
              History-trans
                (commit (others 2 db)
                  (rotated row.id row.session_id row.user_id fresh now none own2 e))
                (others 3 after) in
            elim (Option-cases (find_refresh_token hash there)) [
              | inl f ↦ rw (e, f, rotate) (refusal row user (bad_grant, there) refl)
              | inr (again, f) ↦ elim (Option-cases again.used_at) [
                | inl g ↦ rw (e, f, g, rotate) (refusal row user (bad_grant, there) refl)
                | inr (used, g) ↦
                    rw (e, f, g, rotate)
                      (already_spent-Renews row user used there (History-IsLineage to_there h)
                        (History-IsOwn row.id row.session_id h to_there own))
              ]
            ]
      ]
