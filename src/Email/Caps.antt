-- ===== src/Email/Caps.antt =====
-- packages/email/src/caps.ts: the caps of a plan. An age is in milliseconds.
use corebase.Base.{
  ℕ, ◌+◌, ◌*◌, ◌/◌, ◌≤◌, ◌≡◌, String, Bool, false, ◌&&◌, Option, none, some, arith, ltb, str_eq,
  if◌then◌else◌,
}

pub record EmailCaps : Type 0 where
  pub per_hour : ℕ
  pub per_day : ℕ
  pub distinct_recipients_per_day : ℕ
  pub per_recipient_per_hour : ℕ
  pub per_recipient_per_day : ℕ

-- CAPS, with the free plan's for any other.
abbrev pub caps : String → EmailCaps
caps plan =
    if str_eq plan "pro"
    then record {
      per_hour = 200;
      per_day = 2000;
      distinct_recipients_per_day = 1000;
      per_recipient_per_hour = 8;
      per_recipient_per_day = 40;
    }
    else if str_eq plan "team"
    then record {
      per_hour = 500;
      per_day = 10000;
      distinct_recipients_per_day = 5000;
      per_recipient_per_hour = 8;
      per_recipient_per_day = 40;
    }
    else record {
      per_hour = 30;
      per_day = 200;
      distinct_recipients_per_day = 100;
      per_recipient_per_hour = 4;
      per_recipient_per_day = 10;
    }

-- `Math.ceil(n / 2)`
abbrev pub half : ℕ → ℕ
half n = (n + 1) / 2

abbrev pub is_young : String → Option ℕ → Bool
is_young plan none = false
is_young plan (some age) = str_eq plan "free" && ltb age (24 * 3600 * 1000)

unfoldable pub caps_for : String → Option ℕ → EmailCaps
caps_for plan age =
    let base = caps plan in
    if is_young plan age
    then record {
      per_hour = half base.per_hour;
      per_day = half base.per_day;
      distinct_recipients_per_day = half base.distinct_recipients_per_day;
      per_recipient_per_hour = base.per_recipient_per_hour;
      per_recipient_per_day = base.per_recipient_per_day;
    }
    else base

-- The caps `c` of a project, against the caps of its plan.
pub record IsCapped (c base : EmailCaps) : Type 0 where
  pub hour : (c.per_hour ≤ base.per_hour) × (base.per_hour ≤ 2 * c.per_hour)
  pub day : (c.per_day ≤ base.per_day) × (base.per_day ≤ 2 * c.per_day)
  pub recipient_hour : c.per_recipient_per_hour ≡ base.per_recipient_per_hour
  pub recipient_day : c.per_recipient_per_day ≡ base.per_recipient_per_day
  pub some_mail : 1 ≤ c.per_recipient_per_hour
  pub hour_in_day : c.per_hour ≤ c.per_day
  pub recipient_in_day : c.per_recipient_per_hour ≤ c.per_recipient_per_day
  pub recipient_in_hour : c.per_recipient_per_hour ≤ c.per_hour
  pub recipient_in_project : c.per_recipient_per_day ≤ c.per_day

-- A project's caps per hour and per day are at most its plan's and at least half of them; those on
-- one recipient are its plan's, whatever its age. No cap on one recipient is zero or larger than
-- the project's own, and none for an hour is larger than that for the day.
caps_for-IsCapped : (plan : String) (age : Option ℕ) → IsCapped (caps_for plan age) (caps plan)
unfolding caps_for
caps_for-IsCapped plan age = record {
  hour = ground arith;
  day = ground arith;
  recipient_hour = ground arith;
  recipient_day = ground arith;
  some_mail = ground arith;
  hour_in_day = ground arith;
  recipient_in_day = ground arith;
  recipient_in_hour = ground arith;
  recipient_in_project = ground arith;
}
