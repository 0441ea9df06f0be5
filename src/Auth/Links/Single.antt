-- ===== src/Auth/Links/Single.antt =====
-- A one-time token is spent at most once, whatever transactions come between.
use corebase.Base.{
  ℕ, ◌+◌, ◌*◌, ◌≤◌, ◌≡◌, ◌≢◌, refl, inl, inr, String, Bool, true, false, not, ◌&&◌, Option, none,
  some, List, [], ◌∷◌, ◌==◌, is_some, first, keep, All, All-map, All-append, Bool-cases,
  Option-cases, arith, if◌then◌else◌,
}
use corebase.Base.Update.{update, update-All, update_miss}
use corebase.Auth.{AuthUser, Session, RefreshToken, OneTimeToken, TokenType, AuthDb, is_live}
use corebase.Auth.Links.{
  same_type, is_email_change, is_slot, can_consume, use_up, reissued, new_link, token_ttl_seconds,
  issue_one_time_token, consume_one_time_token, consume_either_token, clear_email_change_tokens,
}
use corebase.Auth.Revocation.{soft_delete_user}

-- How many rows have the digest.
abbrev pub copies : ℕ → List OneTimeToken → ℕ
copies hash [] = 0
copies hash (t ∷ links) = let n = copies hash links in if t.token_hash == hash then n + 1 else n

-- Every row with the digest is spent.
pub record IsSpent (hash : ℕ) (db : AuthDb) : Type 0 where
  pub spent : All (λ t. t.token_hash ≡ hash → is_some t.used_at ≡ true) db.one_time_tokens

-- A transaction on the table that does not issue `hash` once more: a digest that is issued is
-- that of a fresh random text.
pub data LinkCommit (hash : ℕ) (db : AuthDb) : AuthDb → Type 0 where
  issued :
      (id user_id : ℕ) (type : TokenType) (other : ℕ) (relates_to : Option String) (now : ℕ)
      → other ≢ hash
      → LinkCommit hash db (issue_one_time_token id user_id type other relates_to now db).0
  consumed :
      (type : TokenType) (digest now : ℕ)
      → LinkCommit hash db (consume_one_time_token type digest now db).0
  either_consumed : (digest now : ℕ) → LinkCommit hash db (consume_either_token digest now db).0
  cleared : (user_id : ℕ) → LinkCommit hash db (clear_email_change_tokens user_id db)
  user_deleted :
      (email : ℕ → String) (id now : ℕ) → LinkCommit hash db (soft_delete_user email id now db).0
  -- The other tables.
  elsewhere :
      (users : List AuthUser) (sessions : List Session) (tokens : List RefreshToken) (next : ℕ)
      (audit : List (String × Option ℕ))
      → LinkCommit hash db (record db {
        users = users;
        sessions = sessions;
        refresh_tokens = tokens;
        next_id = next;
        audit = audit;
      })

pub data LinkHistory (hash : ℕ) (db : AuthDb) : AuthDb → Type 0 where
  start : LinkHistory hash db db
  commit :
      {mid db' : AuthDb}
      → LinkHistory hash db mid
      → LinkCommit hash mid db'
      → LinkHistory hash db db'

keep-All :
    (P : OneTimeToken → Type 0) (p : OneTimeToken → Bool) (links : List OneTimeToken)
    → All P links
    → All P (keep p links)
keep-All P p [] h = tt
keep-All P p (t ∷ links) (here, h) = elim (Bool-cases (p t)) [
  | inl e ↦ rw e (here, keep-All P p links h)
  | inr e ↦ rw e (keep-All P p links h)
]

module _ (hash : ℕ) where
  abbrev IsUsedUp : OneTimeToken → Type 0
  IsUsedUp t = t.token_hash ≡ hash → is_some t.used_at ≡ true

  issue-IsSpent :
      (id user_id : ℕ) (type : TokenType) (other : ℕ) (relates_to : Option String) (now : ℕ)
      (db : AuthDb)
      → other ≢ hash
      → IsSpent hash db
      → IsSpent hash (issue_one_time_token id user_id type other relates_to now db).0
  unfolding issue_one_time_token
  issue-IsSpent id user_id type other relates_to now db new h =
      let links = db.one_time_tokens in
      let until = now + token_ttl_seconds type * 1000 in
      let set = reissued other relates_to until now in
      elim (Bool-cases (is_some (first (update (is_slot user_id type) set links).1))) [
        | inl e ↦ rw e (record {
          spent =
              update-All (is_slot user_id type) set IsUsedUp links (λ t hit s e. absurd (new e))
                h.spent;
        })
        | inr e ↦ rw e (record {
          spent =
              All-append IsUsedUp links (new_link id user_id type other relates_to until now ∷ [])
                h.spent (λ e. absurd (new e), tt);
        })
      ]

  LinkCommit-IsSpent :
      {db db' : AuthDb} → LinkCommit hash db db' → IsSpent hash db → IsSpent hash db'
  unfolding consume_one_time_token consume_either_token clear_email_change_tokens soft_delete_user
  LinkCommit-IsSpent {db} (issued id user_id type other relates_to now new) h =
      issue-IsSpent id user_id type other relates_to now db new h
  LinkCommit-IsSpent {db} (consumed type digest now) h = record {
    spent = update-All _ (use_up now) IsUsedUp db.one_time_tokens (λ t hit s e. refl) h.spent;
  }
  LinkCommit-IsSpent {db} (either_consumed digest now) h = record {
    spent = update-All _ (use_up now) IsUsedUp db.one_time_tokens (λ t hit s e. refl) h.spent;
  }
  LinkCommit-IsSpent {db} (cleared user_id) h = record {
    spent = keep-All IsUsedUp _ db.one_time_tokens h.spent;
  }
  LinkCommit-IsSpent {db} (user_deleted email id now) h =
      elim (Option-cases (first (keep (λ u. u.id == id && is_live u) db.users))) [
        | inl e ↦ rw (e, soft_delete_user) h
        | inr (before, e) ↦
            rw (e, soft_delete_user)
              (record {
                spent = keep-All IsUsedUp (λ t. not (t.user_id == id)) db.one_time_tokens h.spent;
              })
      ]
  LinkCommit-IsSpent (elsewhere users sessions tokens next audit) h = record { spent = h.spent }

  LinkHistory-IsSpent :
      {db db' : AuthDb} → LinkHistory hash db db' → IsSpent hash db → IsSpent hash db'
  LinkHistory-IsSpent start h = h
  LinkHistory-IsSpent (commit before c) h = LinkCommit-IsSpent c (LinkHistory-IsSpent before h)

  no_copy :
      (links : List OneTimeToken)
      → copies hash links ≡ 0
      → All (λ t. (t.token_hash == hash) ≡ false) links
  no_copy [] e = tt
  no_copy (t ∷ links) e = elim (Bool-cases (t.token_hash == hash)) [
    | inl f ↦ absurd (ground arith)
    | inr f ↦ (f, no_copy links (ground arith))
  ]

  module _ (test : OneTimeToken → Bool)
      (only : (t : OneTimeToken) → test t ≡ true → t.token_hash ≡ hash) where
    -- With one row, the row that is returned is the only one with the digest.
    sole_spent :
        (now : ℕ) (links : List OneTimeToken) {row : OneTimeToken}
        → copies hash links ≤ 1
        → first (update test (use_up now) links).1 ≡ some row
        → All IsUsedUp (update test (use_up now) links).0
    unfolding update
    sole_spent now [] sole e = tt
    sole_spent now (t ∷ links) sole e =
        let clear : copies hash links ≡ 0 → All (λ x. test x ≡ false) links = λ f.
          All-map (λ x. (x.token_hash == hash) ≡ false) (λ x. test x ≡ false) links
            (λ x miss. elim (Bool-cases (test x)) [
              | inl hit ↦ let mine = only x hit in absurd (ground arith)
              | inr g ↦ g
            ])
            (no_copy links f) in
        elim (Bool-cases (test t)) [
          | inl hit ↦
              let mine = only t hit in
              let none_left : copies hash links ≡ 0 = ground (arith, sole, mine) in
              let same = update_miss test (use_up now) links (clear none_left) in
              rw (hit, same)
                (
                  λ f. refl,
                  All-map (λ x. (x.token_hash == hash) ≡ false) IsUsedUp links
                      (λ x miss f. absurd (ground arith)) (no_copy links none_left),
                )
          | inr miss ↦
              let later : first (update test (use_up now) links).1 ≡ some _ = rw miss at e in
              elim (Bool-cases (t.token_hash == hash)) [
                | inl f ↦
                    let none_left : copies hash links ≡ 0 = ground (arith, sole) in
                    let same = update_miss test (use_up now) links (clear none_left) in
                    let lost = rw same at later in absurd (cc)
                | inr f ↦
                    rw miss (
                      λ g. absurd (ground arith),
                      sole_spent now links (ground (arith, sole)) later,
                    )
              ]
        ]

-- The two ways to spend a token.
pub data Spending (hash now : ℕ) (db : AuthDb) : AuthDb × Option OneTimeToken → Type 0 where
  of_type : (type : TokenType) → Spending hash now db (consume_one_time_token type hash now db)
  of_change : Spending hash now db (consume_either_token hash now db)

Spending-IsSpent :
    (hash now : ℕ) (db : AuthDb) {t : OneTimeToken} {r : AuthDb × Option OneTimeToken}
    → copies hash db.one_time_tokens ≤ 1
    → Spending hash now db r
    → r.1 ≡ some t
    → IsSpent hash r.0
unfolding consume_one_time_token consume_either_token
Spending-IsSpent hash now db sole (of_type type) e = record {
  spent =
      sole_spent hash (λ t. same_type type t.token_type && can_consume hash now db t)
        (λ x hit. ground arith) now db.one_time_tokens sole e;
}
Spending-IsSpent hash now db sole of_change e = record {
  spent =
      sole_spent hash (λ t. is_email_change t.token_type && can_consume hash now db t)
        (λ x hit. ground arith) now db.one_time_tokens sole e;
}

-- Let at most one row have the digest, and let it be spent, as a token of one type or as one of an
-- email change. Then it is spent in neither way at any later time and after any transactions that
-- do not issue the digest again.
pub consume_one_time_token_once :
    (again : TokenType) (hash now later : ℕ) (db db' : AuthDb) (t : OneTimeToken)
    {r : AuthDb × Option OneTimeToken}
    → copies hash db.one_time_tokens ≤ 1
    → Spending hash now db r
    → r.1 ≡ some t
    → LinkHistory hash r.0 db'
    → ((consume_one_time_token again hash later db').1 ≡ none)
      × ((consume_either_token hash later db').1 ≡ none)
unfolding consume_one_time_token consume_either_token
consume_one_time_token_once again hash now later db db' t sole spending e history =
    let h = LinkHistory-IsSpent hash history (Spending-IsSpent hash now db sole spending e) in
    let missed =
      All-map (IsUsedUp hash) (λ x. can_consume hash later db' x ≡ false) db'.one_time_tokens
        (λ x s. ground (arith, s)) h.spent in
    let both : (p : OneTimeToken → Bool)
        → first
            (update (λ x. p x && can_consume hash later db' x) (use_up later) db'.one_time_tokens).1
          ≡ none =
      λ p.
        rw
          (update_miss (λ x. p x && can_consume hash later db' x) (use_up later) db'.one_time_tokens
            (All-map (λ x. can_consume hash later db' x ≡ false)
              (λ x. (p x && can_consume hash later db' x) ≡ false) db'.one_time_tokens
              (λ x miss. ground (arith, miss)) missed))
          refl in
    (both (λ x. same_type again x.token_type), both (λ x. is_email_change x.token_type))
