-- ===== src/Kernel/RateLimit/Windows.antt =====
-- How many hits a window lets through.
use corebase.Base.{
  ℕ, ◌+◌, ◌-◌, ◌*◌, ◌≤◌, ◌<◌, ◌≡◌, String, refl, inl, inr, true, false, ◌&&◌, Option, none, some,
  List, [], ◌∷◌, arith, str_eq, eq_iff, leb, Bool-cases, All, if◌then◌else◌,
}
use corebase.Kernel.RateLimit.{RateLimitOptions, Hits, HitMap, live, hit}

-- A hit: its key and its time.
abbrev pub Hit : Type 0
Hit = String × ℕ

module _ (opts : RateLimitOptions) (key : String) where
  -- How many of the hits, one after another, are on the key and allowed.
  unfoldable pub passed : List Hit → HitMap → ℕ
  passed [] hits = 0
  passed (h ∷ later) hits =
      let (hits', result) = hit opts h.0 h.1 hits in
      let rest = passed later hits' in if str_eq key h.0 && result.allowed then rest + 1 else rest

  elsewhere :
      (other : String) (now : ℕ) (hits : HitMap)
      → str_eq key other ≡ false
      → (hit opts other now hits).0 key ≡ hits key
  unfolding hit
  elsewhere other now hits e = ground arith

  live_later : (e : Hits) (now : ℕ) → now < e.reset_at → live now (some e) ≡ some e
  live_later e now h = ground arith

  -- With a window that is open until after every hit.
  passed_open :
      (later : List Hit) (hits : HitMap) (e : Hits)
      → hits key ≡ some e
      → All (λ h. h.1 < e.reset_at) later
      → passed later hits ≤ opts.limit - e.count
  unfolding passed hit
  passed_open [] hits e at_key h = omega arith
  passed_open (x ∷ later) hits e at_key (h, hs) = elim (Bool-cases (str_eq key x.0)) [
    | inr other ↦
        let same = elsewhere x.0 x.1 hits other in
        let ih = passed_open later (hit opts x.0 x.1 hits).0 e (cc) hs in rw other ih
    | inl here ↦
        let on : key ≡ x.0 = (eq_iff key x.0).0 here in
        let open_now = live_later e x.1 h in
        let found : live x.1 (hits x.0) ≡ some e = cc in
        let next : Hits = record e { count = e.count + 1 } in
        let stored : (hit opts x.0 x.1 hits).0 key ≡ some next = ground arith in
        let ih = passed_open later (hit opts x.0 x.1 hits).0 next stored hs in
        let verdict : (hit opts x.0 x.1 hits).1.allowed ≡ leb (e.count + 1) opts.limit =
          ground arith in
        elim (Bool-cases (leb (e.count + 1) opts.limit)) [
          | inl fits ↦ rw (here, verdict, fits) (ground arith)
          | inr full ↦ rw (here, verdict, full) (omega arith)
        ]
  ]

  stays_over :
      (entry : Option Hits) (start now : ℕ)
      → start ≤ now
      → live start entry ≡ none
      → live now entry ≡ none
  stays_over none start now h e = refl
  stays_over (some x) start now h e = ground arith

  All-before :
      (later : List Hit) (start now w : ℕ)
      → start ≤ now
      → All (λ h. (start ≤ h.1) × (h.1 < start + w)) later
      → All (λ h. h.1 < now + w) later
  All-before [] start now w h a = tt
  All-before (x ∷ later) start now w h ((low, high), a) =
      (omega arith, All-before later start now w h a)

  -- Of the hits in a stretch of time as long as the window, of any keys, no more of one key are
  -- allowed than the limit, if the key has no open window when the stretch starts and the limit is
  -- at least one.
  pub passed_within_limit :
      (start : ℕ) (later : List Hit) (hits : HitMap)
      → 1 ≤ opts.limit
      → live start (hits key) ≡ none
      → All (λ h. (start ≤ h.1) × (h.1 < start + opts.window_seconds * 1000)) later
      → passed later hits ≤ opts.limit
  unfolding passed hit
  passed_within_limit start [] hits l e h = omega arith
  passed_within_limit start (x ∷ later) hits l e ((low, high), hs) =
      elim (Bool-cases (str_eq key x.0)) [
        | inr other ↦
            let same = elsewhere x.0 x.1 hits other in
            let still : live start ((hit opts x.0 x.1 hits).0 key) ≡ none = cc in
            let ih = passed_within_limit start later (hit opts x.0 x.1 hits).0 l still hs in
            rw other ih
        | inl here ↦
            let on : key ≡ x.0 = (eq_iff key x.0).0 here in
            let over = stays_over (hits key) start x.1 low e in
            let absent : live x.1 (hits x.0) ≡ none = cc in
            let first : Hits = record { count = 1; reset_at = x.1 + opts.window_seconds * 1000 } in
            let stored : (hit opts x.0 x.1 hits).0 key ≡ some first = ground arith in
            let ih =
              passed_open later (hit opts x.0 x.1 hits).0 first stored
                (All-before later start x.1 (opts.window_seconds * 1000) low hs) in
            let verdict : (hit opts x.0 x.1 hits).1.allowed ≡ true = cc in
            rw (here, verdict) (omega arith)
      ]
