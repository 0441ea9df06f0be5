-- ===== src/Auth/Sessions/Succession.antt =====
-- What a rotation leaves in `refresh_tokens`: the old token retired, its successor the only
-- usable token of the session, and for a replay a first child that is revoked.
use corebase.Base.{
  ℕ, ◌≡◌, refl, sym, ap, subst, inl, inr, Bool, true, ◌&&◌, Option, none, some, List, [], ◌∷◌, ◌++◌,
  ◌==◌, first, keep, All, All-map, All-append, Bool-cases, Option-cases, arith, if◌then◌else◌,
}
use corebase.Base.Update.{update, update-All}
use corebase.Auth.{RefreshToken, AuthDb, is_usable}
use corebase.Auth.Sessions.{
  find_child_token, is_child, id_le, lowest, new_token, with_token, admits, insert_token,
  succeed_token, spend, revoke, touch, rotate_refresh_token, grace_rotate,
}
use corebase.Auth.Sessions.Lineage.{usable_in, IsLineage, IsOwn, IsRetirement, retire-usable_in_hit}
use corebase.Auth.Sessions.Lineage.Insertion.{usable_in-append}
use corebase.Auth.Sessions.Changes.{spend-IsRetirement, revoke-IsRetirement}

-- The tokens after a succession that retired a row.
record IsSuccession (set : RefreshToken → RefreshToken) (old parent sid user_id hash : ℕ)
    (db db' : AuthDb) : Type 0 where
  row : RefreshToken
  hit : first (update (λ r. r.id == old && is_usable r) set db.refresh_tokens).1 ≡ some row
  tokens :
      db'.refresh_tokens
      ≡ (update (λ r. r.id == old && is_usable r) set db.refresh_tokens).0
        ++ new_token db.next_id hash user_id sid (some parent) ∷ []

insert_token-tokens :
    (hash user_id sid : ℕ) (parent : Option ℕ) (db after : AuthDb) (id : ℕ)
    → insert_token hash user_id sid parent db ≡ some (after, id)
    → after ≡ with_token hash user_id sid parent db
unfolding insert_token
insert_token-tokens hash user_id sid parent db after id e =
    elim (Bool-cases (admits hash user_id sid parent db)) [
      | inl t ↦ let made = rw (t, insert_token) at e in cc
      | inr t ↦ let threw = rw (t, insert_token) at e in absurd (cc)
    ]

succeed_token-IsSuccession :
    (set : RefreshToken → RefreshToken) (old parent sid user_id hash now id : ℕ) (db db' : AuthDb)
    → succeed_token set old parent sid user_id hash now db ≡ some (db', some id)
    → IsSuccession set old parent sid user_id hash db db'
unfolding succeed_token
succeed_token-IsSuccession set old parent sid user_id hash now id db db' e =
    let test : RefreshToken → Bool = λ r. r.id == old && is_usable r in
    let mid = record db { refresh_tokens = (update test set db.refresh_tokens).0 } in
    elim (Option-cases (first (update test set db.refresh_tokens).1)) [
      | inl f ↦ let lost = rw (f, succeed_token) at e in absurd (cc)
      | inr (row, f) ↦ elim (Option-cases (insert_token hash user_id sid (some parent) mid)) [
        | inl g ↦ let threw = rw (f, g, succeed_token) at e in absurd (cc)
        | inr ((after, child), g) ↦
            let done : some (touch sid now after, some child) ≡ some (db', some id) =
              rw (f, g, succeed_token) at e in
            let last : touch sid now after ≡ db' =
              ap (λ x. elim x [ none ↦ db' | some r ↦ r.0 ]) done in
            let made = insert_token-tokens hash user_id sid (some parent) mid after child g in
            record {
              row = row;
              hit = f;
              tokens =
                  subst
                    (λ x.
                      x.refresh_tokens
                      ≡ (with_token hash user_id sid (some parent) mid).refresh_tokens)
                    last (ap (λ x. x.refresh_tokens) made);
            }
      ]
    ]

-- One usable token is left in the session, and it has this digest.
pub record IsRenewed (sid hash : ℕ) (db : AuthDb) : Type 0 where
  pub one : usable_in sid db.refresh_tokens ≡ 1
  pub only :
      All (λ r. (is_usable r && r.session_id == sid) ≡ true → r.token_hash ≡ hash) db.refresh_tokens

none_usable :
    (sid : ℕ) (P : RefreshToken → Type 0) (tokens : List RefreshToken)
    → usable_in sid tokens ≡ 0
    → All (λ r. (is_usable r && r.session_id == sid) ≡ true → P r) tokens
none_usable sid P [] h = tt
none_usable sid P (r ∷ tokens) h = elim (Bool-cases (is_usable r && r.session_id == sid)) [
  | inl e ↦ absurd (ground arith)
  | inr e ↦ (λ t. absurd (cc), none_usable sid P tokens (ground arith))
]

IsSuccession-IsRenewed :
    (set : RefreshToken → RefreshToken) (old parent sid user_id hash : ℕ) (db db' : AuthDb)
    → IsRetirement set
    → IsOwn old sid db
    → IsLineage db
    → IsSuccession set old parent sid user_id hash db db'
    → IsRenewed sid hash db'
IsSuccession-IsRenewed set old parent sid user_id hash db db' ret mine h s =
    let test : RefreshToken → Bool = λ r. r.id == old && is_usable r in
    let tokens = (update test set db.refresh_tokens).0 in
    let new = new_token db.next_id hash user_id sid (some parent) in
    let free : usable_in sid tokens ≡ 0 =
      let less =
        retire-usable_in_hit ret test sid db.refresh_tokens
          (All-map (λ r. r.id ≡ old → r.session_id ≡ sid)
            (λ r. test r ≡ true → (is_usable r && r.session_id == sid) ≡ true) db.refresh_tokens
            (λ r own t. ground (arith, own)) mine.holds)
          s.hit in
      omega (arith, less, h.one sid) in
    let P : RefreshToken → Type 0 =
      λ r. (is_usable r && r.session_id == sid) ≡ true → r.token_hash ≡ hash in
    record {
      one = rw s.tokens (ground (arith, usable_in-append sid tokens (new ∷ []), free));
      only = subst (All P) (sym s.tokens) (
          All-append P tokens (new ∷ []) (none_usable sid (λ r. r.token_hash ≡ hash) tokens free)
            (λ t. refl, tt));
    }

pub rotate_refresh_token-IsRenewed :
    (id sid user_id hash now child : ℕ) (db db' : AuthDb)
    → IsOwn id sid db
    → IsLineage db
    → rotate_refresh_token id sid user_id hash now db ≡ some (db', some child)
    → IsRenewed sid hash db'
unfolding rotate_refresh_token
rotate_refresh_token-IsRenewed id sid user_id hash now child db db' mine h e =
    IsSuccession-IsRenewed (spend now) id id sid user_id hash db db' (spend-IsRetirement now) mine h
      (succeed_token-IsSuccession (spend now) id id sid user_id hash now child db db' e)

pub grace_rotate-IsRenewed :
    (parent old sid user_id hash now child : ℕ) (db db' : AuthDb)
    → IsOwn old sid db
    → IsLineage db
    → grace_rotate parent old sid user_id hash now db ≡ some (db', some child)
    → IsRenewed sid hash db'
unfolding grace_rotate
grace_rotate-IsRenewed parent old sid user_id hash now child db db' mine h e =
    IsSuccession-IsRenewed revoke old parent sid user_id hash db db' revoke-IsRetirement mine h
      (succeed_token-IsSuccession revoke old parent sid user_id hash now child db db' e)

-- Revoking rows changes neither which child is lowest nor its id.
lowest_child_update :
    (parent : ℕ) (test : RefreshToken → Bool) (tokens : List RefreshToken)
    → lowest (keep (is_child parent) (update test revoke tokens).0)
      ≡ elim (lowest (keep (is_child parent) tokens)) [
        | none ↦ none
        | some child ↦ some (if test child then revoke child else child)
      ]
unfolding update
lowest_child_update parent test [] = refl
lowest_child_update parent test (r ∷ tokens) =
    ground (arith, lowest_child_update parent test tokens)

-- A token whose id comes later as a text is the lowest child only where there was none.
lowest_child_append :
    (parent n : ℕ) (new : RefreshToken) (tokens : List RefreshToken)
    → All (λ r. is_child parent r ≡ true → id_le r.id n ≡ true) tokens
    → new.id ≡ n
    → lowest (keep (is_child parent) (tokens ++ new ∷ []))
      ≡ elim (lowest (keep (is_child parent) tokens)) [
        | none ↦ if is_child parent new then some new else none
        | some child ↦ some child
      ]
lowest_child_append parent n new [] b f = ground arith
lowest_child_append parent n new (r ∷ tokens) (less, b) f =
    let at_new : id_le r.id new.id ≡ id_le r.id n = ap (id_le r.id) f in
    ground (arith, less, at_new, lowest_child_append parent n new tokens b f)

-- After a replay the first child is the one that was revoked.
pub grace_rotate-find_child_token :
    (parent sid user_id hash now id : ℕ) (child : RefreshToken) (db db' : AuthDb)
    → All (λ r. is_child parent r ≡ true → id_le r.id db.next_id ≡ true) db.refresh_tokens
    → find_child_token parent db ≡ some child
    → is_usable child ≡ true
    → grace_rotate parent child.id sid user_id hash now db ≡ some (db', some id)
    → find_child_token parent db' ≡ some (revoke child)
unfolding grace_rotate find_child_token
grace_rotate-find_child_token parent sid user_id hash now id child db db' h e usable made =
    let test : RefreshToken → Bool = λ r. r.id == child.id && is_usable r in
    let tokens = (update test revoke db.refresh_tokens).0 in
    let new = new_token db.next_id hash user_id sid (some parent) in
    let later : RefreshToken → Type 0 =
      λ r. is_child parent r ≡ true → id_le r.id db.next_id ≡ true in
    let below : All later tokens = update-All test revoke later db.refresh_tokens (λ r t b. b) h in
    let step = lowest_child_append parent db.next_id new tokens below refl in
    let kept = lowest_child_update parent test db.refresh_tokens in
    let hit : test child ≡ true = ground (arith, usable) in
    let s = succeed_token-IsSuccession revoke child.id parent sid user_id hash now id db db' made in
    let now_revoked : lowest (keep (is_child parent) tokens) ≡ some (revoke child) =
      rw (e, hit) at kept in
    rw s.tokens (rw now_revoked at step)
