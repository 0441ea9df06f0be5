-- ===== src/Auth/Sessions/Lineage.antt =====
-- The invariant of sessions and their refresh tokens, and the two ways a table is changed.
pub mod Insertion
use corebase.Base.{
  ℕ, ◌+◌, ◌≤◌, ◌<◌, ◌≡◌, refl, sym, ◌∙◌, ap, subst, inl, inr, Bool, true, false, ◌&&◌, Option, none,
  some, List, [], ◌∷◌, ◌++◌, ◌==◌, any, first, All, All-map, All-map2, All-all, All-append,
  Option-cases, Bool-cases, arith, if◌then◌else◌,
}
use corebase.Base.Update.{update, update-All}
use corebase.Auth.{Session, RefreshToken, AuthDb, has_session, has_token, is_usable}
use corebase.Auth.Sessions.{new_token, with_token}

-- How many usable tokens a session has.
abbrev pub usable_in : ℕ → List RefreshToken → ℕ
usable_in sid [] = 0
usable_in sid (r ∷ tokens) =
    let n = usable_in sid tokens in if is_usable r && r.session_id == sid then n + 1 else n

-- A child is in its parent's session, and an id in one session.
pub record IsKin (c p : RefreshToken) : Type 0 where
  pub child : c.parent_id ≡ some p.id → p.session_id ≡ c.session_id
  pub same : c.id ≡ p.id → c.session_id ≡ p.session_id

pub record IsBelow (n : ℕ) (r : RefreshToken) : Type 0 where
  pub id : r.id < n
  pub parent : (p : ℕ) → r.parent_id ≡ some p → p < n

pub record IsLineage (db : AuthDb) : Type 0 where
  pub one : (sid : ℕ) → usable_in sid db.refresh_tokens ≤ 1
  pub kin : All (λ c. All (IsKin c) db.refresh_tokens) db.refresh_tokens
  pub below : All (IsBelow db.next_id) db.refresh_tokens
  pub homes : All (λ r. has_session r.session_id db.sessions ≡ true) db.refresh_tokens

-- There is a token with this id, and of it `P` holds.
pub record IsEver (P : RefreshToken → Type 0) (id : ℕ) (db : AuthDb) : Type 0 where
  pub known : id < db.next_id
  pub there : has_token id db.refresh_tokens ≡ true
  pub holds : All (λ r. r.id ≡ id → P r) db.refresh_tokens

-- It is in this session.
abbrev pub IsOwn : ℕ → ℕ → AuthDb → Type 0
IsOwn id sid db = IsEver (λ r. r.session_id ≡ sid) id db

-- An assignment that leaves the lineage as it is, and makes no token usable.
pub record IsRetirement (set : RefreshToken → RefreshToken) : Type 0 where
  pub id : (r : RefreshToken) → (set r).id ≡ r.id
  pub session : (r : RefreshToken) → (set r).session_id ≡ r.session_id
  pub parent : (r : RefreshToken) → (set r).parent_id ≡ r.parent_id
  pub dead : (r : RefreshToken) → is_usable (set r) ≡ false

module _ {set : RefreshToken → RefreshToken} (ret : IsRetirement set)
    (test : RefreshToken → Bool) where
  open ret use {id, session, parent, dead}

  pub retire-usable_in :
      (sid : ℕ) (tokens : List RefreshToken)
      → usable_in sid (update test set tokens).0 ≤ usable_in sid tokens
  unfolding update
  retire-usable_in sid [] = omega arith
  retire-usable_in sid (r ∷ tokens) = ground (arith, dead r, retire-usable_in sid tokens)

  -- Where a row was retired that was usable in the session, one fewer is.
  pub retire-usable_in_hit :
      (sid : ℕ) (tokens : List RefreshToken) {row : RefreshToken}
      → All (λ r. test r ≡ true → (is_usable r && r.session_id == sid) ≡ true) tokens
      → first (update test set tokens).1 ≡ some row
      → usable_in sid (update test set tokens).0 + 1 ≤ usable_in sid tokens
  unfolding update
  retire-usable_in_hit sid [] all hit = absurd (cc)
  retire-usable_in_hit sid (r ∷ tokens) (mine, all) hit =
      let less = retire-usable_in sid tokens in
      elim (Bool-cases (test r)) [
        | inl e ↦ rw (e, mine e, dead r) (ground (arith, less))
        | inr e ↦
            let more = retire-usable_in_hit sid tokens all (rw e at hit) in
            rw e (ground (arith, more))
      ]

  family_right : (c r : RefreshToken) → IsKin c r → IsKin c (set r)
  family_right c r h = record {
    child = λ e. session r ∙ h.child (e ∙ ap some (id r));
    same = λ e. h.same (e ∙ id r) ∙ sym (session r);
  }

  family_left : (c p : RefreshToken) → IsKin c p → IsKin (set c) p
  family_left c p h = record {
    child = λ e. h.child (sym (parent c) ∙ e) ∙ sym (session c);
    same = λ e. session c ∙ h.same (sym (id c) ∙ e);
  }

  pub retire-IsLineage :
      {db : AuthDb}
      → IsLineage db
      → IsLineage (record db { refresh_tokens = (update test set db.refresh_tokens).0 })
  retire-IsLineage {db} h =
      let old = db.refresh_tokens in
      let new = (update test set old).0 in
      let inner : All (λ c. All (IsKin c) new) old =
        All-map (λ c. All (IsKin c) old) (λ c. All (IsKin c) new) old
          (λ c k. update-All test set (IsKin c) old (λ r e. family_right c r) k) h.kin in
      record {
        one = λ sid. omega (arith, retire-usable_in sid old, h.one sid);
        kin =
            update-All test set (λ c. All (IsKin c) new) old
              (λ c e. All-map (IsKin c) (IsKin (set c)) new (family_left c)) inner;
        below =
            update-All test set (IsBelow db.next_id) old
              (λ r e b. record {
                id = subst (λ n. n < db.next_id) (sym (id r)) b.id;
                parent = λ p q. b.parent p (sym (parent r) ∙ q);
              })
              h.below;
        homes =
            update-All test set (λ r. has_session r.session_id db.sessions ≡ true) old
              (λ r e. subst (λ n. has_session n db.sessions ≡ true) (sym (session r))) h.homes;
      }

  retire-has_token :
      (i : ℕ) (tokens : List RefreshToken)
      → has_token i tokens ≡ true
      → has_token i (update test set tokens).0 ≡ true
  unfolding update
  retire-has_token i [] h = absurd (cc)
  retire-has_token i (r ∷ tokens) h = ground (arith, id r, retire-has_token i tokens)

  pub retire-IsEver :
      (P : RefreshToken → Type 0)
      → ((r : RefreshToken) → P r → P (set r))
      → (i : ℕ) {db : AuthDb} → IsEver P i db
      → IsEver P i (record db { refresh_tokens = (update test set db.refresh_tokens).0 })
  retire-IsEver P stays i {db} h = record {
    known = h.known;
    there = retire-has_token i db.refresh_tokens h.there;
    holds =
        update-All test set (λ r. r.id ≡ i → P r) db.refresh_tokens
          (λ r e p same. stays r (p (sym (id r) ∙ same))) h.holds;
  }

-- Two records that agree on tokens, ids and the sessions there are.
pub sessions-IsLineage :
    {db : AuthDb} (sessions : List Session)
    → ((sid : ℕ) → has_session sid db.sessions ≡ true → has_session sid sessions ≡ true)
    → IsLineage db
    → IsLineage (record db { sessions = sessions })
sessions-IsLineage {db} sessions keeps h = record {
  one = h.one;
  kin = h.kin;
  below = h.below;
  homes =
      All-map (λ r. has_session r.session_id db.sessions ≡ true)
        (λ r. has_session r.session_id sessions ≡ true) db.refresh_tokens (λ r. keeps r.session_id)
        h.homes;
}

pub update-has_session :
    (sid : ℕ) (test : Session → Bool) (set : Session → Session) (sessions : List Session)
    → ((s : Session) → (set s).id ≡ s.id)
    → has_session sid sessions ≡ true
    → has_session sid (update test set sessions).0 ≡ true
unfolding update
update-has_session sid test set (s ∷ sessions) same h =
    ground (arith, same s, update-has_session sid test set sessions same)
update-has_session sid test set [] same h = absurd (cc)

pub append-has_session :
    (sid : ℕ) (xs ys : List Session) → has_session sid xs ≡ true → has_session sid (xs ++ ys) ≡ true
append-has_session sid (s ∷ xs) ys h = ground (arith, append-has_session sid xs ys)
append-has_session sid [] ys h = absurd (cc)
