-- ===== src/Scans/Ladders/Hysteresis.antt =====
-- When a project is stored as read-only, over any sequence of sweeps.
use corebase.Base.{
  ◌≡◌, ◌⊎◌, ◌↔◌, ◌∙◌, refl, sym, ap, subst, inl, inr, Bool, true, false, not, ◌&&◌, ◌||◌, none,
  some, List, [], ◌∷◌, ◌++◌, arith, All, Bool-cases, Option-cases,
}
use corebase.Scans.Ladders.{
  DiskState, disk_ok, disk_warn, disk_critical, read_only, is_read_only, at_least, rung_for, Visit,
  scan_one,
}

-- The state after the sweeps.
unfoldable pub swept : List Visit → DiskState → DiskState
swept [] state = state
swept (v ∷ vs) state = swept vs (scan_one v state)

-- Measured at 95 % or more, and the flag was set.
abbrev pub engages : Visit → Bool
engages v = elim v.usage [ none ↦ false | some u ↦ at_least 95 u && v.flag_set ]

-- Not measured, or at 90 % or more, or the flag could not be lifted.
abbrev pub stays : Visit → Bool
stays v = elim v.usage [ none ↦ true | some u ↦ at_least 90 u || not v.flag_set ]

-- The project was made read-only at some sweep and lifted at no later one.
pub record IsLatched (vs : List Visit) : Type 0 where
  pub before : List Visit
  pub peak : Visit
  pub after : List Visit
  pub split : vs ≡ before ++ peak ∷ after
  pub engaged : engages peak ≡ true
  pub not_lifted : All (λ v. stays v ≡ true) after

-- What one sweep does to a state that is read-only, and to one that is not.
latched : (v : Visit) → is_read_only (scan_one v read_only) ≡ stays v
unfolding scan_one rung_for
latched v = elim (Option-cases v.usage) [
  | inl e ↦ rw e refl
  | inr (u, e) ↦ elim (Bool-cases (at_least 95 u)) [
    | inl full ↦ let high : at_least 90 u ≡ true = ground arith in rw (e, full, high) refl
    | inr f ↦ elim (Bool-cases (at_least 90 u)) [
      | inl high ↦ rw (e, f, high) refl
      | inr low ↦ elim (Bool-cases (at_least 80 u)) [
        | inl g ↦ elim (Bool-cases v.flag_set) [
          | inl b ↦ rw (e, f, low, g, b) refl
          | inr b ↦ rw (e, f, low, g, b) refl
        ]
        | inr g ↦ elim (Bool-cases v.flag_set) [
          | inl b ↦ rw (e, f, low, g, b) refl
          | inr b ↦ rw (e, f, low, g, b) refl
        ]
      ]
    ]
  ]
]

lifted :
    (v : Visit) (state : DiskState)
    → is_read_only state ≡ false
    → is_read_only (scan_one v state) ≡ engages v
unfolding scan_one rung_for
lifted v state w = ground arith

held :
    (v : Visit) (state : DiskState)
    → is_read_only state ≡ true
    → is_read_only (scan_one v state) ≡ stays v
held v disk_ok e = absurd (cc)
held v disk_warn e = absurd (cc)
held v disk_critical e = absurd (cc)
held v read_only e = latched v

-- Where the flag is set at 95 %, the project was or becomes read-only.
at_peak :
    (v : Visit) (state : DiskState) → engages v ≡ true → is_read_only (scan_one v state) ≡ true
at_peak v state p = elim (Bool-cases (is_read_only state)) [
  | inl on ↦ let high : stays v ≡ true = engages-stays v p in held v state on ∙ high
  | inr off ↦ lifted v state off ∙ p
]
  where
    engages-stays : (w : Visit) → engages w ≡ true → stays w ≡ true
    engages-stays w q = ground arith

holds :
    (vs : List Visit) (state : DiskState)
    → is_read_only state ≡ true
    → All (λ v. stays v ≡ true) vs
    → is_read_only (swept vs state) ≡ true
unfolding swept
holds [] state e h = e
holds (v ∷ vs) state e (p, h) = holds vs (scan_one v state) (held v state e ∙ p) h

engaged_holds :
    (before after : List Visit) (peak : Visit) (state : DiskState)
    → engages peak ≡ true
    → All (λ v. stays v ≡ true) after
    → is_read_only (swept (before ++ peak ∷ after) state) ≡ true
unfolding swept
engaged_holds [] after peak state p h = holds after (scan_one peak state) (at_peak peak state p) h
engaged_holds (v ∷ vs) after peak state p h = engaged_holds vs after peak (scan_one v state) p h

-- Why one sweep leaves it read-only.
one_sweep :
    (v : Visit) (state : DiskState)
    → is_read_only (scan_one v state) ≡ true
    → (engages v ≡ true) ⊎ ((is_read_only state ≡ true) × (stays v ≡ true))
one_sweep v state e = elim (Bool-cases (is_read_only state)) [
  | inl on ↦ inr (on, sym (held v state on) ∙ e)
  | inr off ↦ inl (sym (lifted v state off) ∙ e)
]

causes :
    (vs : List Visit) (state : DiskState)
    → is_read_only (swept vs state) ≡ true
    → IsLatched vs ⊎ ((is_read_only state ≡ true) × All (λ v. stays v ≡ true) vs)
unfolding swept
causes [] state e = inr (e, tt)
causes (v ∷ vs) state e = elim (causes vs (scan_one v state) e) [
  | inl l ↦ inl (record {
    before = v ∷ l.before;
    peak = l.peak;
    after = l.after;
    split = ap (λ xs. v ∷ xs) l.split;
    engaged = l.engaged;
    not_lifted = l.not_lifted;
  })
  | inr (on, h) ↦ elim (one_sweep v state on) [
    | inl full ↦
        inl (record {
          before = [];
          peak = v;
          after = vs;
          split = refl;
          engaged = full;
          not_lifted = h;
        })
    | inr (was, high) ↦ inr (was, (high, h))
  ]
]

-- A project that starts out writable is stored as read-only after any sequence of sweeps exactly if
-- at one of them it was measured at 95 % or more of its cap and its flag could be set, and at every
-- later one it could not be measured, was at 90 % or more, or its flag could not be lifted.
pub read_only-IsLatched :
    (vs : List Visit) → (is_read_only (swept vs disk_ok) ≡ true) ↔ IsLatched vs
read_only-IsLatched vs = (
  λ e. elim (causes vs disk_ok e) [ inl l ↦ l | inr (wrong, _) ↦ absurd (cc) ],
  λ l.
      subst (λ xs. is_read_only (swept xs disk_ok) ≡ true) (sym l.split)
        (engaged_holds l.before l.after l.peak disk_ok l.engaged l.not_lifted),
)
