-- ===== src/Auth/Sessions/Changes.antt =====
-- The transactions on sessions as sequences of small changes, and what every change keeps.
use corebase.Base.{
  ℕ, ◌≡◌, refl, ◌∙◌, subst, inl, inr, String, Bool, true, false, not, ◌&&◌, Option, none, some,
  List, [], ◌∷◌, ◌++◌, ◌==◌, first, All, All-map, Bool-cases, Option-cases, arith,
}
use corebase.Base.Update.{update}
use corebase.Auth.{
  AuthUser, Session, RefreshToken, OneTimeToken, AuthDb, has_session, has_user, is_usable,
}
use corebase.Auth.Sessions.{
  with_token, with_session, new_session, spend, revoke, touch, admits, insert_token, open_session,
  succeed_token, rotate_refresh_token, grace_rotate,
}
use corebase.Auth.Sessions.Lineage.{
  usable_in, IsLineage, IsOwn, IsEver, IsRetirement, retire-IsLineage, retire-IsEver,
  retire-usable_in_hit, sessions-IsLineage, update-has_session, append-has_session,
}
use corebase.Auth.Sessions.Lineage.Insertion.{with_token-IsLineage, with_token-IsEver}

pub data Change (db : AuthDb) : AuthDb → Type 0 where
  retired :
      {set : RefreshToken → RefreshToken} (test : RefreshToken → Bool)
      → IsRetirement set
      → Change db (record db { refresh_tokens = (update test set db.refresh_tokens).0 })
  resessioned :
      (sessions : List Session)
      → ((sid : ℕ) → has_session sid db.sessions ≡ true → has_session sid sessions ≡ true)
      → Change db (record db { sessions = sessions })
  inserted :
      (hash user_id sid : ℕ) (parent : Option ℕ)
      → usable_in sid db.refresh_tokens ≡ 0
      → has_session sid db.sessions ≡ true
      → ((p : ℕ) → parent ≡ some p → IsOwn p sid db)
      → Change db (with_token hash user_id sid parent db)
  elsewhere :
      (users : List AuthUser) (links : List OneTimeToken) (audit : List (String × Option ℕ))
      → Change db (record db { users = users; one_time_tokens = links; audit = audit })

pub data Changes (db : AuthDb) : AuthDb → Type 0 where
  stay : Changes db db
  then_ : {mid db' : AuthDb} → Changes db mid → Change mid db' → Changes db db'

pub once : {db db' : AuthDb} → Change db db' → Changes db db'
once c = then_ stay c

pub Changes-trans : {a b c : AuthDb} → Changes a b → Changes b c → Changes a c
Changes-trans h stay = h
Changes-trans h (then_ k c) = then_ (Changes-trans h k) c

Change-IsLineage : {db db' : AuthDb} → Change db db' → IsLineage db → IsLineage db'
Change-IsLineage (retired test ret) h = retire-IsLineage ret test h
Change-IsLineage (resessioned sessions keeps) h = sessions-IsLineage sessions keeps h
Change-IsLineage (inserted hash user_id sid parent free home own) h =
    with_token-IsLineage hash user_id sid parent h free home own
Change-IsLineage (elsewhere users links audit) h = record {
  one = h.one;
  kin = h.kin;
  below = h.below;
  homes = h.homes;
}

pub Changes-IsLineage : {db db' : AuthDb} → Changes db db' → IsLineage db → IsLineage db'
Changes-IsLineage stay h = h
Changes-IsLineage (then_ k c) h = Change-IsLineage c (Changes-IsLineage k h)

-- What a retirement does not undo.
abbrev pub IsLasting : (RefreshToken → Type 0) → Type 0
IsLasting P =
    (set : RefreshToken → RefreshToken) → IsRetirement set → (r : RefreshToken) → P r → P (set r)

module _ (P : RefreshToken → Type 0) (stays : IsLasting P) (i : ℕ) where
  Change-IsEver : {db db' : AuthDb} → Change db db' → IsEver P i db → IsEver P i db'
  Change-IsEver (retired test ret) h = retire-IsEver ret test P (stays _ ret) i h
  Change-IsEver (resessioned sessions keeps) h = record {
    known = h.known;
    there = h.there;
    holds = h.holds;
  }
  Change-IsEver (inserted hash user_id sid parent free home own) h =
      with_token-IsEver P hash user_id sid parent i h
  Change-IsEver (elsewhere users links audit) h = record {
    known = h.known;
    there = h.there;
    holds = h.holds;
  }

  pub Changes-IsEver : {db db' : AuthDb} → Changes db db' → IsEver P i db → IsEver P i db'
  Changes-IsEver stay h = h
  Changes-IsEver (then_ k c) h = Change-IsEver c (Changes-IsEver k h)

pub own-IsLasting : (sid : ℕ) → IsLasting (λ r. r.session_id ≡ sid)
own-IsLasting sid set ret r p = ret.session r ∙ p

pub dead-IsLasting : IsLasting (λ r. is_usable r ≡ false)
dead-IsLasting set ret r p = ret.dead r

pub spend-IsRetirement : (now : ℕ) → IsRetirement (spend now)
spend-IsRetirement now = record {
  id = λ r. refl;
  session = λ r. refl;
  parent = λ r. refl;
  dead = λ r. refl;
}

pub revoke-IsRetirement : IsRetirement revoke
revoke-IsRetirement = record {
  id = λ r. refl;
  session = λ r. refl;
  parent = λ r. refl;
  dead = λ r. ground arith;
}

-- What a transaction leads to, if it does not throw.
abbrev pub Leads {ℓ} : {R : Type ℓ} → AuthDb → Option (AuthDb × R) → Type 0
Leads db none = Unit
Leads db (some (db', r)) = Changes db db'

pub touch-Change : (sid now : ℕ) {db : AuthDb} → Change db (touch sid now db)
touch-Change sid now {db} = resessioned _ (λ s. update-has_session s _ _ db.sessions (λ x. refl))

insert_token-Leads :
    (hash user_id sid : ℕ) (parent : Option ℕ) (db : AuthDb)
    → usable_in sid db.refresh_tokens ≡ 0
    → ((p : ℕ) → parent ≡ some p → IsOwn p sid db)
    → Leads db (insert_token hash user_id sid parent db)
unfolding insert_token
insert_token-Leads hash user_id sid parent db free own =
    elim (Bool-cases (admits hash user_id sid parent db)) [
      | inl e ↦ rw e (once (inserted hash user_id sid parent free (ground (arith, e)) own))
      | inr e ↦ rw e tt
    ]

-- Retiring the only usable token of a session makes room for its child.
succeed_token-Leads :
    (set : RefreshToken → RefreshToken) (old parent sid user_id hash now : ℕ) (db : AuthDb)
    → IsRetirement set
    → IsOwn old sid db
    → IsOwn parent sid db
    → IsLineage db
    → Leads db (succeed_token set old parent sid user_id hash now db)
unfolding succeed_token
succeed_token-Leads set old parent sid user_id hash now db ret mine kept h =
    let test : RefreshToken → Bool = λ r. r.id == old && is_usable r in
    let tokens = (update test set db.refresh_tokens).0 in
    let mid = record db { refresh_tokens = tokens } in
    elim (Option-cases (first (update test set db.refresh_tokens).1)) [
      | inl e ↦ rw (e, Leads, succeed_token) stay
      | inr (row, e) ↦
          let free : usable_in sid tokens ≡ 0 =
            let less =
              retire-usable_in_hit ret test sid db.refresh_tokens
                (All-map (λ r. r.id ≡ old → r.session_id ≡ sid)
                  (λ r. test r ≡ true → (is_usable r && r.session_id == sid) ≡ true)
                  db.refresh_tokens (λ r own t. ground (arith, own)) mine.holds)
                e in
            omega (arith, less, h.one sid) in
          let own : (p : ℕ) → some parent ≡ some p → IsOwn p sid mid = λ p q.
            let same : parent ≡ p = cc in
            retire-IsEver ret test (λ r. r.session_id ≡ sid) (λ r k. ret.session r ∙ k) p
              (subst (λ n. IsOwn n sid db) same kept) in
          let leads = insert_token-Leads hash user_id sid (some parent) mid free own in
          elim (Option-cases (insert_token hash user_id sid (some parent) mid)) [
            | inl f ↦ rw (e, f, Leads, succeed_token) tt
            | inr ((after, child), f) ↦
                rw (e, f, Leads, succeed_token)
                  (then_ (Changes-trans (once (retired test ret)) (subst (Leads mid) f leads))
                    (touch-Change sid now))
          ]
    ]

pub rotate_refresh_token-Leads :
    (id sid user_id hash now : ℕ) (db : AuthDb)
    → IsOwn id sid db
    → IsLineage db
    → Leads db (rotate_refresh_token id sid user_id hash now db)
unfolding rotate_refresh_token
rotate_refresh_token-Leads id sid user_id hash now db mine h =
    succeed_token-Leads (spend now) id id sid user_id hash now db (spend-IsRetirement now) mine mine
      h

pub grace_rotate-Leads :
    (parent old sid user_id hash now : ℕ) (db : AuthDb)
    → IsOwn old sid db
    → IsOwn parent sid db
    → IsLineage db
    → Leads db (grace_rotate parent old sid user_id hash now db)
unfolding grace_rotate
grace_rotate-Leads parent old sid user_id hash now db mine kept h =
    succeed_token-Leads revoke old parent sid user_id hash now db revoke-IsRetirement mine kept h

-- A session whose id is new has no token.
usable_in_new :
    (sid : ℕ) (sessions : List Session) (tokens : List RefreshToken)
    → has_session sid sessions ≡ false
    → All (λ r. has_session r.session_id sessions ≡ true) tokens
    → usable_in sid tokens ≡ 0
usable_in_new sid sessions [] new h = refl
usable_in_new sid sessions (r ∷ tokens) new (home, h) =
    let other : (r.session_id == sid) ≡ false = elim (Bool-cases (r.session_id == sid)) [
      | inl e ↦
          let same : r.session_id ≡ sid = ground arith in
          absurd (let there = subst (λ n. has_session n sessions ≡ true) same home in cc)
      | inr e ↦ e
    ] in
    let rest = usable_in_new sid sessions tokens new h in ground (arith, other, rest)

pub open_session-Leads :
    (sid user_id hash now : ℕ) (db : AuthDb)
    → IsLineage db
    → Leads db (open_session sid user_id hash now db)
unfolding open_session
open_session-Leads sid user_id hash now db h =
    elim (Bool-cases (has_user user_id db.users && not (has_session sid db.sessions))) [
      | inr e ↦ rw e tt
      | inl e ↦
          let mid = with_session sid user_id now db in
          let opened : Change db mid =
            resessioned (db.sessions ++ new_session sid user_id now ∷ [])
              (λ s. append-has_session s db.sessions _) in
          let free = usable_in_new sid db.sessions db.refresh_tokens (ground (arith, e)) h.homes in
          let leads = insert_token-Leads hash user_id sid none mid free (λ p q. absurd (cc)) in
          elim (Option-cases (insert_token hash user_id sid none mid)) [
            | inl f ↦ rw (e, f) tt
            | inr ((after, child), f) ↦
                rw (e, f) (Changes-trans (once opened) (subst (Leads mid) f leads))
          ]
    ]
