-- ===== src/Kernel/RateLimit.antt =====
-- services/api/src/kernel/rate-limit.ts: the in-memory limiter. Times are in milliseconds; the
-- map is a function; a limit is at least one, where it matters (`remaining` of a first hit).
pub mod Windows
use corebase.Base.{
  ℕ, ◌+◌, ◌-◌, ◌*◌, ◌/◌, String, Bool, true, false, Option, none, some, str_eq, leb, if◌then◌else◌,
}

pub record RateLimitResult : Type 0 where
  pub allowed : Bool
  pub remaining : ℕ
  pub retry_after_seconds : ℕ

pub record RateLimitOptions : Type 0 where
  pub limit : ℕ
  pub window_seconds : ℕ

-- A value of the map.
pub record Hits : Type 0 where
  pub count : ℕ
  pub reset_at : ℕ

abbrev pub HitMap : Type 0
HitMap = String → Option Hits

abbrev pub put : String → Option Hits → HitMap → HitMap
put key entry hits k = if str_eq k key then entry else hits k

-- `entry`, if it is there and its window is not over.
abbrev pub live : ℕ → Option Hits → Option Hits
live now none = none
live now (some e) = if leb e.reset_at now then none else some e

unfoldable pub hit : RateLimitOptions → String → ℕ → HitMap → HitMap × RateLimitResult
hit opts key now hits = elim (live now (hits key)) [
  | none ↦ (
    put key (some (record { count = 1; reset_at = now + opts.window_seconds * 1000 })) hits,
    record {
      allowed = true;
      remaining = opts.limit - 1;
      retry_after_seconds = opts.window_seconds;
    },
  )
  | some e ↦ (
    put key (some (record e { count = e.count + 1 })) hits,
    record {
      allowed = leb (e.count + 1) opts.limit;
      remaining = opts.limit - (e.count + 1);
      retry_after_seconds = (e.reset_at - now + 999) / 1000;
    },
  )
]

unfoldable pub reset : String → HitMap → HitMap
reset key hits = put key none hits
