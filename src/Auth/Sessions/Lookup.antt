-- ===== src/Auth/Sessions/Lookup.antt =====
-- What the two lookups of refresh tokens find, and what a rotation leaves.
use corebase.Base.{
  ℕ, ◌≡◌, sym, ◌∙◌, ap, subst, inl, inr, Bool, true, some, List, [], ◌∷◌, ◌==◌, keep, map, All,
  All-map, All-map2, All-append, All-first, Bool-cases, Option-cases, arith,
}
use corebase.Auth.{Session, RefreshToken, AuthDb, has_token}
use corebase.Auth.Sessions.{
  RefreshRow, joined, join_sessions, find_refresh_token, find_child_token, is_child, id_le, lowest,
}
use corebase.Auth.Sessions.Lineage.{IsLineage, IsKin, IsBelow, IsOwn}

keep-All {ℓ κ} :
    {A : Type ℓ} (P Q : A → Type κ) (p : A → Bool) (xs : List A)
    → ((x : A) → p x ≡ true → P x → Q x)
    → All P xs
    → All Q (keep p xs)
keep-All P Q p [] f h = tt
keep-All P Q p (x ∷ xs) f (here, h) = elim (Bool-cases (p x)) [
  | inl e ↦ rw e (f x e here, keep-All P Q p xs f h)
  | inr e ↦ rw e (keep-All P Q p xs f h)
]

map-All :
    (P : RefreshRow → Type 0) (r : RefreshToken) (sessions : List Session)
    → ((s : Session) → P (joined r s))
    → All P (map (joined r) sessions)
map-All P r [] f = tt
map-All P r (s ∷ sessions) f = (f s, map-All P r sessions f)

join_sessions-All :
    (P : RefreshRow → Type 0) (sessions : List Session) (tokens : List RefreshToken)
    → All (λ r. (s : Session) → P (joined r s)) tokens
    → All P (join_sessions sessions tokens)
join_sessions-All P sessions [] h = tt
join_sessions-All P sessions (r ∷ tokens) (f, h) =
    All-append P (map (joined r) (keep (λ s. s.id == r.session_id) sessions))
      (join_sessions sessions tokens) (map-All P r _ f) (join_sessions-All P sessions tokens h)

has_token_own : (tokens : List RefreshToken) → All (λ r. has_token r.id tokens ≡ true) tokens
has_token_own [] = tt
has_token_own (r ∷ tokens) = (
  ground arith,
  All-map (λ x. has_token x.id tokens ≡ true) (λ x. has_token x.id (r ∷ tokens) ≡ true) tokens
      (λ x h. ground (arith, h)) (has_token_own tokens),
)

-- Every token is in the one session its id is in.
tokens-IsOwn :
    (db : AuthDb) → IsLineage db → All (λ r. IsOwn r.id r.session_id db) db.refresh_tokens
tokens-IsOwn db h =
    let tokens = db.refresh_tokens in
    All-map2 (λ r. has_token r.id tokens ≡ true) (λ r. IsBelow db.next_id r × All (IsKin r) tokens)
      (λ r. IsOwn r.id r.session_id db) tokens
      (λ r there k. record {
        known = k.0.id;
        there = there;
        holds =
            All-map (IsKin r) (λ p. p.id ≡ r.id → p.session_id ≡ r.session_id) tokens
              (λ p kin e. sym (kin.same (sym e))) k.1;
      })
      (has_token_own tokens)
      (All-map2 (IsBelow db.next_id) (λ c. All (IsKin c) tokens)
        (λ r. IsBelow db.next_id r × All (IsKin r) tokens) tokens (λ r b k. (b, k)) h.below h.kin)

pub find_refresh_token-IsOwn :
    (hash : ℕ) (db : AuthDb) {row : RefreshRow}
    → IsLineage db
    → find_refresh_token hash db ≡ some row
    → IsOwn row.id row.session_id db
unfolding find_refresh_token
find_refresh_token-IsOwn hash db h e =
    All-first (λ row. IsOwn row.id row.session_id db) _
      (join_sessions-All (λ row. IsOwn row.id row.session_id db) db.sessions _
        (keep-All (λ r. IsOwn r.id r.session_id db)
          (λ r. (s : Session) → IsOwn r.id r.session_id db) (λ r. r.token_hash == hash)
          db.refresh_tokens (λ r t own s. own) (tokens-IsOwn db h)))
      e

lowest-All {κ} :
    (P : RefreshToken → Type κ) (tokens : List RefreshToken) {r : RefreshToken}
    → All P tokens
    → lowest tokens ≡ some r
    → P r
lowest-All P [] h e = absurd (cc)
lowest-All P (x ∷ tokens) {r} (p, h) e = elim (Option-cases (lowest tokens)) [
  | inl f ↦ let same : x ≡ r = ground (arith, f, e) in subst P same p
  | inr (best, f) ↦
      let q = lowest-All P tokens h f in
      elim (Bool-cases (id_le x.id best.id)) [
        | inl g ↦ let same : x ≡ r = ground (arith, f, e, g) in subst P same p
        | inr g ↦ let same : best ≡ r = ground (arith, f, e, g) in subst P same q
      ]
]

-- A child of the tokens with this id is in their session.
child_session :
    (c : RefreshToken) (id sid : ℕ) (tokens : List RefreshToken)
    → has_token id tokens ≡ true
    → All (λ r. r.id ≡ id → r.session_id ≡ sid) tokens
    → All (IsKin c) tokens
    → c.parent_id ≡ some id
    → c.session_id ≡ sid
child_session c id sid [] there own kin e = absurd (cc)
child_session c id sid (p ∷ tokens) there (mine, own) (k, kin) e = elim (Bool-cases (p.id == id)) [
  | inl t ↦
      let same : p.id ≡ id = ground arith in sym (k.child (e ∙ sym (ap some same))) ∙ mine same
  | inr t ↦ child_session c id sid tokens (ground (arith, there, t)) own kin e
]

pub find_child_token-IsOwn :
    (id sid : ℕ) (db : AuthDb) {child : RefreshToken}
    → IsLineage db
    → IsOwn id sid db
    → find_child_token id db ≡ some child
    → IsOwn child.id sid db
unfolding find_child_token
find_child_token-IsOwn id sid db h own e =
    let tokens = db.refresh_tokens in
    lowest-All (λ r. IsOwn r.id sid db) (keep (is_child id) tokens)
      (keep-All (λ r. IsOwn r.id r.session_id db × All (IsKin r) tokens) (λ r. IsOwn r.id sid db)
        (is_child id) tokens
        (λ r t k.
          let parent : r.parent_id ≡ some id = ground arith in
          subst (λ n. IsOwn r.id n db)
            (child_session r id sid tokens own.there own.holds k.1 parent) k.0)
        (All-map2 (λ r. IsOwn r.id r.session_id db) (λ r. All (IsKin r) tokens)
          (λ r. IsOwn r.id r.session_id db × All (IsKin r) tokens) tokens (λ r a b. (a, b))
          (tokens-IsOwn db h) h.kin))
      e
