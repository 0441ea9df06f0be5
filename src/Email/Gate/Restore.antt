-- ===== src/Email/Gate/Restore.antt =====
-- What a refused send costs.
use corebase.Base.{
  ◌-◌, ◌≡◌, String, refl, ap, subst, ◌∙◌, inl, inr, true, false, none, List, [], ◌∷◌, arith, ltb,
  ◌==◌, Bool-cases, Option-cases,
}
use corebase.Email.Gate.{
  CounterStore, GateArgs, one_at, charges, bump_all, roll_back, check_and_consume,
  consume_recipient, GateVerdict, suppressed, global_scope, project_scope, rate_limited, is_allowed,
  mail_key, ◌^◌, day_ttl,
}
use corebase.Email.Gate.Counters.{spends, bump_all_count}

module _ (redis : CounterStore) (k : String) where
  -- No DECR fails.
  abbrev pub NoFailure : Type 0
  NoFailure =
      (key : String) (s : redis.State)
      → redis.count k (redis.decr key s) ≡ redis.count k s - one_at k key

  rolled_back :
      NoFailure
      → (spent : List String) (s : redis.State)
      → redis.count k (roll_back redis spent s) ≡ redis.count k s - spends k spent
  unfolding roll_back
  rolled_back r [] s = omega arith
  rolled_back r (key ∷ spent) s =
      let once = r key s in let rest = rolled_back r spent (redis.decr key s) in omega arith

  -- How a check ends.
  pub data Checked (a : GateArgs) (s : redis.State) (r : redis.State × GateVerdict) : Type 0 where
    held_back : r.0 ≡ s → is_allowed r.1 ≡ false → Checked a s r
    refused :
        (t : redis.State)
        → redis.count k t ≡ redis.count k (bump_all redis (charges a) s).0
        → r.0 ≡ roll_back redis (bump_all redis (charges a) s).1 t
        → is_allowed r.1 ≡ false
        → Checked a s r
    admitted :
        (bump_all redis (charges a) s).2 ≡ none
        → redis.count k r.0 ≡ redis.count k (bump_all redis (charges a) s).0
        → is_allowed r.1 ≡ true
        → Checked a s r

  consume_recipient-Checked :
      (a : GateArgs) (s : redis.State)
      → (bump_all redis (charges a) s).2 ≡ none
      → Checked a s (
          consume_recipient redis a
            (bump_all redis (charges a) s).1
            (bump_all redis (charges a) s).0)
  unfolding consume_recipient
  consume_recipient-Checked a s e =
      let b = bump_all redis (charges a) s in
      let hll = mail_key a ^ ":rcpts:" ^ a.day in
      let t = (redis.pfadd hll a.recipient b.0).0 in
      let added = redis.pfadd_count k hll a.recipient b.0 in
      let kept = redis.expire_count k hll day_ttl t in
      elim (Bool-cases ((redis.pfadd hll a.recipient b.0).1 == 1)) [
        | inr old ↦ rw (old, consume_recipient) (admitted e added refl)
        | inl new ↦
            elim (Bool-cases (
              ltb a.caps.distinct_recipients_per_day
                (redis.pfcount hll (redis.expire hll day_ttl t)))) [
                  | inl wide ↦
                      rw (new, wide, consume_recipient)
                        (refused (redis.expire hll day_ttl t) (kept ∙ added) refl refl)
                  | inr narrow ↦
                      rw (new, narrow, consume_recipient) (admitted e (kept ∙ added) refl)
                ]
      ]

  as-Checked :
      (a : GateArgs) (s : redis.State) (r : redis.State × GateVerdict)
      → r ≡ check_and_consume redis a s
      → Checked a s r
      → Checked a s (check_and_consume redis a s)
  as-Checked a s r e c = subst (Checked a s) e c

  pub check_and_consume-Checked :
      (a : GateArgs) (s : redis.State) → Checked a s (check_and_consume redis a s)
  unfolding check_and_consume
  check_and_consume-Checked a s =
      let b = bump_all redis (charges a) s in
      elim (Bool-cases a.global_suppression) [
        | inl all ↦ as-Checked a s (s, suppressed global_scope) (cc) (held_back refl refl)
        | inr free ↦ elim (Bool-cases a.project_suppression) [
          | inl one ↦ as-Checked a s (s, suppressed project_scope) (cc) (held_back refl refl)
          | inr mine ↦ elim (Option-cases b.2) [
            | inl e ↦
                as-Checked a s (consume_recipient redis a b.1 b.0) (cc)
                  (consume_recipient-Checked a s e)
            | inr (which, e) ↦
                as-Checked a s (roll_back redis b.1 b.0, rate_limited which) (cc)
                  (refused b.0 refl refl refl)
          ]
        ]
      ]

  -- A send that is refused, by a suppression or by any cap, leaves every counter as it was, if no
  -- DECR fails.
  pub check_and_consume_restores :
      NoFailure
      → (a : GateArgs) (s : redis.State) → is_allowed (check_and_consume redis a s).1 ≡ false
      → redis.count k (check_and_consume redis a s).0 ≡ redis.count k s
  check_and_consume_restores r a s e = elim (check_and_consume-Checked a s) [
    | held_back same _ ↦ ap (redis.count k) same
    | refused t counted end _ ↦
        let up = bump_all_count redis k (charges a) s in
        let down = rolled_back r (bump_all redis (charges a) s).1 t in
        ap (redis.count k) end ∙ (omega arith)
    | admitted _ _ pass ↦ absurd (cc)
  ]
