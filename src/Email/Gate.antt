-- ===== src/Email/Gate.antt =====
-- packages/email/src/gate.ts: `checkAndConsume`. Redis is the interface CounterStore. The hash of
-- a recipient and the hour and day of the clock come from the platform: they are arguments.
pub mod Counters
pub mod Restore
pub mod Limits
use Prim.Native.String
use corebase.Base.{
  ℕ, ◌+◌, ◌*◌, ◌≤◌, ◌≡◌, String, Bool, true, false, Option, none, some, List, [], ◌∷◌, ◌++◌, str_eq,
  ltb, ◌==◌, if◌then◌else◌,
}
use corebase.Email.Caps.{EmailCaps}

-- What one command on `key` counts for at `k`.
abbrev pub one_at : String → String → ℕ
one_at k key = if str_eq k key then 1 else 0

pub record CounterStore : Type 1 where
  pub State : Type 0
  pub incr : String → State → State × ℕ
  pub expire : String → ℕ → State → State
  pub pfadd : String → String → State → State × ℕ
  pub pfcount : String → State → ℕ
  -- A command that fails is ignored by its caller.
  pub decr : String → State → State
  -- The value of a counter.
  pub count : String → State → ℕ
  pub incr_value : (key : String) (s : State) → (incr key s).1 ≡ count key s + 1
  pub incr_count : (k key : String) (s : State) → count k (incr key s).0 ≡ count k s + one_at k key
  pub expire_count : (k key : String) (ttl : ℕ) (s : State) → count k (expire key ttl s) ≡ count k s
  pub pfadd_count : (k key value : String) (s : State) → count k (pfadd key value s).0 ≡ count k s
  pub decr_count : (k key : String) (s : State) → count k s ≤ count k (decr key s) + one_at k key

pub data Scope : Type 0 where
  global_scope project_scope : Scope

pub data Cap : Type 0 where
  per_hour per_day distinct_recipients_per_day per_recipient_per_hour per_recipient_per_day : Cap

pub data GateVerdict : Type 0 where
  allowed : GateVerdict
  suppressed : Scope → GateVerdict
  rate_limited : Cap → GateVerdict

abbrev pub is_allowed : GateVerdict → Bool
is_allowed allowed = true
is_allowed _ = false

pub record GateArgs : Type 0 where
  pub project_id : String
  -- `rcpt(recipient)`
  pub recipient : String
  pub caps : EmailCaps
  pub global_suppression : Bool
  pub project_suppression : Bool
  -- `windows(now)`
  pub hour : String
  pub day : String

abbrev pub hour_ttl : ℕ
hour_ttl = 3600

abbrev pub day_ttl : ℕ
day_ttl = 2 * 86400

-- A counter that a send is charged to.
pub record Charge : Type 0 where
  pub key : String
  pub ttl : ℕ
  pub limit : ℕ
  pub cap : Cap

infixr 20 ◌^◌
abbrev pub ◌^◌ : String → String → String
a ^ b = String.◌++◌ a b

abbrev pub mail_key : GateArgs → String
mail_key a = "sh:mail:" ^ a.project_id

-- The arguments of the four calls of `bump`, in order.
abbrev pub charges : GateArgs → List Charge
charges a =
    record {
      key = mail_key a ^ ":r:" ^ a.recipient ^ ":h:" ^ a.hour;
      ttl = hour_ttl;
      limit = a.caps.per_recipient_per_hour;
      cap = per_recipient_per_hour;
    }
    ∷ record {
      key = mail_key a ^ ":r:" ^ a.recipient ^ ":d:" ^ a.day;
      ttl = day_ttl;
      limit = a.caps.per_recipient_per_day;
      cap = per_recipient_per_day;
    }
    ∷ record {
      key = mail_key a ^ ":h:" ^ a.hour;
      ttl = hour_ttl;
      limit = a.caps.per_hour;
      cap = per_hour;
    }
    ∷ record {
      key = mail_key a ^ ":d:" ^ a.day;
      ttl = day_ttl;
      limit = a.caps.per_day;
      cap = per_day;
    }
    ∷ []

module _ (redis : CounterStore) where
  -- `bump`: the counter, and whether it is over its limit.
  abbrev pub bump : Charge → redis.State → redis.State × Bool
  bump c s =
      let (s', n) = redis.incr c.key s in
      (if n == 1 then redis.expire c.key c.ttl s' else s', ltb c.limit n)

  -- The chain of `??`: the keys in `spent`, and the cap that the last of them is over.
  unfoldable pub bump_all : List Charge → redis.State → redis.State × List String × Option Cap
  bump_all [] s = (s, [], none)
  bump_all (c ∷ cs) s =
      let (s', over) = bump c s in
      let (t, spent, capped) = bump_all cs s' in
      if over then (s', c.key ∷ [], some c.cap) else (t, c.key ∷ spent, capped)

  unfoldable pub roll_back : List String → redis.State → redis.State
  roll_back [] s = s
  roll_back (key ∷ spent) s = roll_back spent (redis.decr key s)

  -- From the HyperLogLog on.
  unfoldable pub consume_recipient :
      GateArgs → List String → redis.State → redis.State × GateVerdict
  consume_recipient a spent s =
      let hll = mail_key a ^ ":rcpts:" ^ a.day in
      let (t, added) = redis.pfadd hll a.recipient s in
      let u = redis.expire hll day_ttl t in
      if added == 1
      then (if ltb a.caps.distinct_recipients_per_day (redis.pfcount hll u)
          then (roll_back spent u, rate_limited distinct_recipients_per_day)
          else (u, allowed))
      else (t, allowed)

  unfoldable pub check_and_consume : GateArgs → redis.State → redis.State × GateVerdict
  check_and_consume a s =
      if a.global_suppression
      then (s, suppressed global_scope)
      else if a.project_suppression
      then (s, suppressed project_scope)
      else let (t, spent, over) = bump_all (charges a) s in
        elim over [
          | some which ↦ (roll_back spent t, rate_limited which)
          | none ↦ consume_recipient a spent t
        ]
