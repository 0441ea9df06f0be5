-- ===== src/Email/Gate/Limits.antt =====
-- How many sends a counter lets through.
use corebase.Base.{
  ℕ, ◌+◌, ◌-◌, ◌≤◌, ◌≡◌, String, ap, inl, inr, Bool, true, ◌&&◌, List, [], ◌∷◌, arith, str_eq,
  Bool-cases, All, any, if◌then◌else◌,
}
use corebase.Email.Gate.{CounterStore, GateArgs, charges, bump_all, check_and_consume, is_allowed}
use corebase.Email.Gate.Counters.{bump_all_count, bump_all_under, roll_back_at_most}
use corebase.Email.Gate.Restore.{check_and_consume-Checked, held_back, refused, admitted}

abbrev pub is_charged : String → GateArgs → Bool
is_charged k a = any (λ c. str_eq k c.key) (charges a)

-- Where a request is charged to the counter, the limit is at most `limit`.
abbrev pub IsLimited : String → ℕ → GateArgs → Type 0
IsLimited k limit a = All (λ c. str_eq k c.key ≡ true → c.limit ≤ limit) (charges a)

module _ (redis : CounterStore) (k : String) where
  -- How many of the requests, one after another, are charged to the counter and allowed.
  unfoldable pub sent : List GateArgs → redis.State → ℕ
  sent [] s = 0
  sent (a ∷ requests) s =
      let (t, verdict) = check_and_consume redis a s in
      let rest = sent requests t in if is_charged k a && is_allowed verdict then rest + 1 else rest

  never_falls :
      (a : GateArgs) (s : redis.State)
      → redis.count k s ≤ redis.count k (check_and_consume redis a s).0
  never_falls a s =
      let up = bump_all_count redis k (charges a) s in
      elim (check_and_consume-Checked redis k a s) [
        | held_back same _ ↦ let equal = ap (redis.count k) same in omega arith
        | refused t counted end _ ↦
            let equal = ap (redis.count k) end in
            let down = roll_back_at_most redis k (bump_all redis (charges a) s).1 t in omega arith
        | admitted _ counted _ ↦ omega arith
      ]

  pays :
      (a : GateArgs) (s : redis.State) (limit : ℕ)
      → IsLimited k limit a
      → is_charged k a ≡ true
      → is_allowed (check_and_consume redis a s).1 ≡ true
      → (redis.count k s + 1 ≤ limit)
        × (redis.count k s + 1 ≤ redis.count k (check_and_consume redis a s).0)
  pays a s limit h i e = elim (check_and_consume-Checked redis k a s) [
    | held_back _ stop ↦ absurd (cc)
    | refused _ _ _ stop ↦ absurd (cc)
    | admitted under counted _ ↦
        let (low, up) = bump_all_under redis k (charges a) s limit under h i in (low, omega arith)
  ]

  -- However many requests are made, of any projects and recipients, no more of those charged to
  -- a counter are allowed than what its limit has left at the start, if no request charged to it
  -- has a larger limit. A DECR may fail.
  pub sends_within_caps :
      (limit : ℕ) (requests : List GateArgs) (s : redis.State)
      → All (IsLimited k limit) requests
      → sent requests s ≤ limit - redis.count k s
  unfolding sent
  sends_within_caps limit [] s h = omega arith
  sends_within_caps limit (a ∷ requests) s (h, hs) =
      let ih = sends_within_caps limit requests (check_and_consume redis a s).0 hs in
      let up = never_falls a s in
      elim (Bool-cases (is_charged k a && is_allowed (check_and_consume redis a s).1)) [
        | inl both ↦
            let (low, more) = pays a s limit h (ground arith) (ground arith) in
            rw both (omega arith)
        | inr not_both ↦ rw not_both (omega arith)
      ]
