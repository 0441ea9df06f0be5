-- ===== src/Email/Tests.antt =====
-- Sends of one project, over counters that are a function.
use corebase.Base.{
  ℕ, ◌+◌, ◌-◌, ◌≤◌, ◌≡◌, String, refl, false, some, List, [], ◌∷◌, arith, str_eq, any, length,
  if◌then◌else◌, inl, inr, Bool-cases,
}
use corebase.Email.Caps.{caps_for}
use corebase.Email.Gate.{
  CounterStore, GateArgs, one_at, bump_all, roll_back, consume_recipient, check_and_consume,
}
use corebase.Email.Gate.Restore.{check_and_consume_restores}
use corebase.Email.Gate.Limits.{IsLimited, sent, sends_within_caps}

-- The counters, and the recipients seen.
abbrev Memory : Type 0
Memory = (String → ℕ) × List String

abbrev add : String → Memory → Memory × ℕ
add value s = if any (str_eq value) s.1 then (s, 0) else ((s.0, value ∷ s.1), 1)

add_count : (k value : String) (s : Memory) → (add value s).0.0 k ≡ s.0 k
add_count k value s = elim (Bool-cases (any (str_eq value) s.1)) [
  | inl e ↦ rw e refl
  | inr e ↦ rw e refl
]

decr_at_most : (n m : ℕ) → n ≤ (n - m) + m
decr_at_most n m = omega arith

abbrev memory : CounterStore
memory = record {
  State = Memory;
  incr = λ key s. ((λ k. s.0 k + one_at k key, s.1), s.0 key + 1);
  expire = λ key ttl s. s;
  pfadd = λ key value s. add value s;
  pfcount = λ key s. length s.1;
  decr = λ key s. (λ k. s.0 k - one_at k key, s.1);
  count = λ k s. s.0 k;
  incr_value = λ key s. refl;
  incr_count = λ k key s. refl;
  expire_count = λ k key ttl s. refl;
  pfadd_count = λ k key value s. add_count k value s;
  decr_count = λ k key s. decr_at_most (s.0 k) (one_at k key);
}

abbrev args : GateArgs
args = record {
  project_id = "p1";
  recipient = "abc";
  caps = caps_for "free" (some 1000);
  global_suppression = false;
  project_suppression = false;
  hour = "2026-01-01T09";
  day = "2026-01-01";
}

abbrev used : ℕ → memory.State
used n = (λ k. if str_eq k "sh:mail:p1:h:2026-01-01T09" then n else 0, [])

gate : Unit {0}
unfolding caps_for bump_all roll_back consume_recipient check_and_consume sent
gate = tt

-- The fifth message to one recipient in an hour is refused.
fifth :
    sent memory "sh:mail:p1:h:2026-01-01T09" (args ∷ args ∷ args ∷ args ∷ args ∷ []) (used 0) ≡ 4
unfolding gate
fifth = refl

check_and_consume_restores_example :
    memory.count "sh:mail:p1:h:2026-01-01T09" (check_and_consume memory args (used 15)).0 ≡ 15
unfolding gate
check_and_consume_restores_example =
    check_and_consume_restores memory "sh:mail:p1:h:2026-01-01T09" (λ key s. refl) args (used 15)
      refl

limited : IsLimited "sh:mail:p1:h:2026-01-01T09" 15 args
unfolding gate
limited = (λ e. absurd (cc), (λ e. absurd (cc), (λ e. omega arith, (λ e. absurd (cc), tt))))

sends_within_caps_example :
    sent memory "sh:mail:p1:h:2026-01-01T09" (args ∷ args ∷ args ∷ []) (used 13) ≤ 15 - 13
unfolding gate
sends_within_caps_example =
    sends_within_caps memory "sh:mail:p1:h:2026-01-01T09" 15 (args ∷ args ∷ args ∷ []) (used 13)
      (limited, (limited, (limited, tt)))
