-- ===== src/Email/Gate/Counters.antt =====
-- What the commands of one check do to a counter.
use corebase.Base.{
  ℕ, ◌+◌, ◌≤◌, ◌≡◌, String, refl, inl, inr, true, none, some, List, [], ◌∷◌, arith, str_eq, eq_iff,
  ap, ◌==◌, Bool-cases, All, any,
}
use corebase.Email.Gate.{CounterStore, Charge, one_at, bump, bump_all, roll_back}

-- How often a key is charged.
abbrev pub spends : String → List String → ℕ
spends k [] = 0
spends k (key ∷ spent) = one_at k key + spends k spent

module _ (redis : CounterStore) (k : String) where
  pub bump_count :
      (c : Charge) (s : redis.State)
      → redis.count k (bump redis c s).0 ≡ redis.count k s + one_at k c.key
  bump_count c s = elim (Bool-cases ((redis.incr c.key s).1 == 1)) [
    | inl e ↦
        rw (e, redis.expire_count k c.key c.ttl (redis.incr c.key s).0) (redis.incr_count k c.key s)
    | inr e ↦ rw e (redis.incr_count k c.key s)
  ]

  -- The counter goes up by the keys that are in `spent`.
  pub bump_all_count :
      (cs : List Charge) (s : redis.State)
      → redis.count k (bump_all redis cs s).0 ≡ redis.count k s + spends k (bump_all redis cs s).1
  unfolding bump_all
  bump_all_count [] s = omega arith
  bump_all_count (c ∷ cs) s =
      let once = bump_count c s in
      let rest = bump_all_count cs (bump redis c s).0 in
      elim (Bool-cases (bump redis c s).1) [
        | inl over ↦ rw over (omega arith)
        | inr under ↦ rw under (omega arith)
      ]

  pub roll_back_at_most :
      (spent : List String) (s : redis.State)
      → redis.count k s ≤ redis.count k (roll_back redis spent s) + spends k spent
  unfolding roll_back
  roll_back_at_most [] s = omega arith
  roll_back_at_most (key ∷ spent) s =
      let once = redis.decr_count k key s in
      let rest = roll_back_at_most spent (redis.decr key s) in omega arith

  -- A key that is charged without a refusal was under its limit, and goes up.
  pub bump_all_under :
      (cs : List Charge) (s : redis.State) (limit : ℕ)
      → (bump_all redis cs s).2 ≡ none
      → All (λ c. str_eq k c.key ≡ true → c.limit ≤ limit) cs
      → any (λ c. str_eq k c.key) cs ≡ true
      → (redis.count k s + 1 ≤ limit)
        × (redis.count k s + 1 ≤ redis.count k (bump_all redis cs s).0)
  unfolding bump_all
  bump_all_under [] s limit e h i = absurd (cc)
  bump_all_under (c ∷ cs) s limit e (h, hs) i =
      let once = bump_count c s in
      let value = redis.incr_value c.key s in
      let rest = bump_all_count cs (bump redis c s).0 in
      elim (Bool-cases (bump redis c s).1) [
        | inl over ↦ let wrong : some c.cap ≡ none = rw over at e in absurd (cc)
        | inr under ↦ elim (Bool-cases (str_eq k c.key)) [
          | inl here ↦
              let same : k ≡ c.key = (eq_iff k c.key).0 here in
              let counts : redis.count k s ≡ redis.count c.key s = ap (λ x. redis.count x s) same in
              let one : one_at k c.key ≡ 1 = rw here refl in
              let fits : c.limit ≤ limit = h here in (ground arith, rw under (omega arith))
          | inr away ↦
              let others : any (λ c. str_eq k c.key) cs ≡ true = rw away at i in
              let later : (bump_all redis cs (bump redis c s).0).2 ≡ none = rw under at e in
              let ih = bump_all_under cs (bump redis c s).0 limit later hs others in
              (omega arith, rw under (omega arith))
        ]
      ]
