-- ===== src/Auth/Sessions/Lineage/Insertion.antt =====
-- A new refresh token in a session that has none to spare.
use corebase.Base.{
  ℕ, ◌+◌, ◌≡◌, refl, sym, ◌∙◌, true, Option, none, some, List, [], ◌∷◌, ◌++◌, All, All-map,
  All-map2, All-all, All-append, arith,
}
use corebase.Auth.{RefreshToken, AuthDb, has_session, has_token}
use corebase.Auth.Sessions.{new_token, with_token}
use corebase.Auth.Sessions.Lineage.{usable_in, IsKin, IsBelow, IsLineage, IsEver, IsOwn}

append-has_token :
    (i : ℕ) (xs ys : List RefreshToken) → has_token i xs ≡ true → has_token i (xs ++ ys) ≡ true
append-has_token i (r ∷ xs) ys h = ground (arith, append-has_token i xs ys)
append-has_token i [] ys h = absurd (cc)

pub usable_in-append :
    (sid : ℕ) (xs ys : List RefreshToken)
    → usable_in sid (xs ++ ys) ≡ usable_in sid xs + usable_in sid ys
usable_in-append sid [] ys = omega arith
usable_in-append sid (r ∷ xs) ys = ground (arith, usable_in-append sid xs ys)

family_with_new : (n : ℕ) (c p : RefreshToken) → p.id ≡ n → IsBelow n c → IsKin c p
family_with_new n c p new b = record {
  child = λ e. let less = b.parent p.id e in omega (arith, new);
  same = λ e. let less = b.id in omega (arith, new, e);
}

family_of_new :
    (n sid : ℕ) (c p : RefreshToken)
    → c.id ≡ n
    → c.session_id ≡ sid
    → IsBelow n p
    → (c.parent_id ≡ some p.id → p.session_id ≡ sid)
    → IsKin c p
family_of_new n sid c p new home b own = record {
  child = λ e. own e ∙ sym home;
  same = λ e. let less = b.id in omega (arith, new, e);
}

own_parent :
    (parent : Option ℕ) (sid : ℕ) (db : AuthDb)
    → ((p : ℕ) → parent ≡ some p → IsOwn p sid db)
    → All (λ r. parent ≡ some r.id → r.session_id ≡ sid) db.refresh_tokens
own_parent none sid db own =
    All-all (λ r. none ≡ some r.id → r.session_id ≡ sid) db.refresh_tokens (λ r e. absurd (cc))
own_parent (some p) sid db own =
    All-map (λ r. r.id ≡ p → r.session_id ≡ sid) (λ r. some p ≡ some r.id → r.session_id ≡ sid)
      db.refresh_tokens (λ r mine e. mine (cc)) (own p refl).holds

-- A new child of `parent` in a session that has no usable token.
pub with_token-IsLineage :
    (hash user_id sid : ℕ) (parent : Option ℕ) {db : AuthDb}
    → IsLineage db
    → usable_in sid db.refresh_tokens ≡ 0
    → has_session sid db.sessions ≡ true
    → ((p : ℕ) → parent ≡ some p → IsOwn p sid db)
    → IsLineage (with_token hash user_id sid parent db)
with_token-IsLineage hash user_id sid parent {db} h free home own =
    let old = db.refresh_tokens in
    let new = new_token db.next_id hash user_id sid parent in
    record {
      one = λ s. ground (arith, usable_in-append s old (new ∷ []), h.one s);
      kin =
          All-append (λ c. All (IsKin c) (old ++ new ∷ [])) old (new ∷ [])
            (All-map2 (λ c. All (IsKin c) old) (IsBelow db.next_id)
              (λ c. All (IsKin c) (old ++ new ∷ [])) old
              (λ c k b.
                All-append (IsKin c) old (new ∷ []) k (family_with_new db.next_id c new refl b, tt))
              h.kin h.below)
            (
              All-append (IsKin new) old (new ∷ [])
                  (All-map2 (IsBelow db.next_id) (λ r. parent ≡ some r.id → r.session_id ≡ sid)
                    (IsKin new) old (λ p b e. family_of_new db.next_id sid new p refl refl b e)
                    h.below (own_parent parent sid db own))
                  (record { child = λ e. refl; same = λ e. refl }, tt),
              tt,
            );
      below =
          All-append (IsBelow (db.next_id + 1)) old (new ∷ [])
            (All-map (IsBelow db.next_id) (IsBelow (db.next_id + 1)) old
              (λ r b. record {
                id = omega (arith, b.id);
                parent = λ p e. omega (arith, b.parent p e);
              })
              h.below)
            (record { id = omega arith; parent = λ p e. omega (arith, (own p e).known) }, tt);
      homes =
          All-append (λ r. has_session r.session_id db.sessions ≡ true) old (new ∷ []) h.homes
            (home, tt);
    }

pub with_token-IsEver :
    (P : RefreshToken → Type 0) (hash user_id sid : ℕ) (parent : Option ℕ) (i : ℕ) {db : AuthDb}
    → IsEver P i db
    → IsEver P i (with_token hash user_id sid parent db)
with_token-IsEver P hash user_id sid parent i {db} h = record {
  known = omega (arith, h.known);
  there = append-has_token i db.refresh_tokens _ h.there;
  holds =
      All-append (λ r. r.id ≡ i → P r) db.refresh_tokens _ h.holds
        ((λ same. absurd (omega (arith, h.known, same))), tt);
}
