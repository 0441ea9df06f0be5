-- ===== src/Kernel/Tests.antt =====
-- Two hits a second.
use corebase.Base.{◌≤◌, ◌≡◌, refl, none, List, [], ◌∷◌, arith}
use corebase.Kernel.RateLimit.{RateLimitOptions, HitMap, hit, reset}
use corebase.Kernel.RateLimit.Windows.{Hit, passed, passed_within_limit}

abbrev two : RateLimitOptions
two = record { limit = 2; window_seconds = 1 }

abbrev nothing : HitMap
nothing k = none

abbrev burst : List Hit
burst = ("a", 10) ∷ ("a", 20) ∷ ("b", 30) ∷ ("a", 900) ∷ []

limiter : Unit {0}
unfolding hit reset passed
limiter = tt

third_refused : passed two "a" burst nothing ≡ 2
unfolding limiter
third_refused = refl

next_window : passed two "a" (("a", 10) ∷ ("a", 20) ∷ ("a", 900) ∷ ("a", 1010) ∷ []) nothing ≡ 3
unfolding limiter
next_window = refl

passed_within_limit_example : passed two "a" burst nothing ≤ 2
passed_within_limit_example = passed_within_limit two "a" 10 burst nothing (omega arith) refl (
  (omega arith, omega arith),
  ((omega arith, omega arith), ((omega arith, omega arith), ((omega arith, omega arith), tt))),
)
