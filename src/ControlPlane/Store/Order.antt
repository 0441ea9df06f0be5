-- ===== src/ControlPlane/Store/Order.antt =====
-- The order of the list: texts by code units, projects by creation time and id, newest first.
use corebase.Base.{◌≡◌, ◌≢◌, refl, subst, inl, inr, true, false, [], ◌∷◌, Bool-cases, arith}
use corebase.Base.Texts.{Text, same}
use corebase.Kernel.Pagination.{Cursor}
use corebase.ControlPlane.Store.{Project, before, newer_first, after_cursor}

before_not : (s : Text) → before s s ≡ false
before_not [] = refl
before_not (c ∷ s) = ground (arith, before_not s)

before_asym : (s t : Text) → before s t ≡ true → before t s ≡ false
before_asym [] [] e = refl
before_asym [] (d ∷ t) e = refl
before_asym (c ∷ s) [] e = absurd (cc)
before_asym (c ∷ s) (d ∷ t) e = ground (arith, e, before_asym s t)

before_trans : (s t u : Text) → before s t ≡ true → before t u ≡ true → before s u ≡ true
before_trans s t [] e f = absurd (cc)
before_trans s [] (c ∷ u) e f = absurd (cc)
before_trans [] (d ∷ t) (c ∷ u) e f = refl
before_trans (b ∷ s) (d ∷ t) (c ∷ u) e f = ground (arith, e, f, before_trans s t u)

-- Texts of which neither is before the other are the same.
before_same : (s t : Text) → before s t ≡ false → before t s ≡ false → s ≡ t
before_same [] [] e f = refl
before_same [] (d ∷ t) e f = absurd (cc)
before_same (c ∷ s) [] e f = absurd (cc)
before_same (c ∷ s) (d ∷ t) e f =
    let heads : c ≡ d = ground (arith, e, f) in
    let tails : s ≡ t = before_same s t (ground (arith, e, heads)) (ground (arith, f, heads)) in
    rw (heads, tails) refl

same_refl : (s : Text) → same s s ≡ true
same_refl [] = refl
same_refl (c ∷ s) = ground (arith, same_refl s)

before_apart : (s t : Text) → before s t ≡ true → (same s t ≡ false) × (same t s ≡ false)
before_apart s [] e = absurd (cc)
before_apart [] (d ∷ t) e = (refl, refl)
before_apart (c ∷ s) (d ∷ t) e = ground (arith, e, before_apart s t)

before_below : (x y z : Text) → before y z ≡ false → before y x ≡ true → before z x ≡ true
before_below x y z e f = elim (Bool-cases (before z y)) [
  | inl g ↦ before_trans z y x g f
  | inr g ↦ subst (λ t. before t x ≡ true) (before_same y z e g) f
]

before_above : (x y z : Text) → before x y ≡ false → before z y ≡ true → before z x ≡ true
before_above x y z e f = elim (Bool-cases (before y x)) [
  | inl g ↦ before_trans z y x f g
  | inr g ↦ subst (λ t. before z t ≡ true) (before_same y x g e) f
]

before_not_trans : (x y z : Text) → before x y ≡ false → before y z ≡ false → before x z ≡ false
before_not_trans x y z e f = elim (Bool-cases (before x z)) [
  | inl g ↦ let less = before_above y z x f g in absurd (cc)
  | inr g ↦ g
]

pub newer_total : (a b : Project) → newer_first a b ≡ false → newer_first b a ≡ true
newer_total a b e = ground (
  arith,
  e,
  before_asym a.created_at b.created_at,
  before_asym b.created_at a.created_at,
  before_asym a.id b.id,
)

pub newer_trans :
    (a b c : Project) → newer_first a b ≡ true → newer_first b c ≡ true → newer_first a c ≡ true
newer_trans a b c e f = ground (
  arith,
  e,
  f,
  before_not_trans a.created_at b.created_at c.created_at,
  before_below a.created_at b.created_at c.created_at,
  before_above a.created_at b.created_at c.created_at,
  before_not_trans a.id b.id c.id,
)

abbrev pub cursor_of : Project → Cursor
cursor_of p = record { created_at = p.created_at; id = p.id }

pub after_cursor_not : (p : Project) → after_cursor (cursor_of p) p ≡ false
after_cursor_not p = ground (arith, before_not p.created_at, before_not p.id)

pub after_cursor_asym :
    (p q : Project) → after_cursor (cursor_of p) q ≡ true → after_cursor (cursor_of q) p ≡ false
after_cursor_asym p q e = ground (
  arith,
  e,
  before_asym q.created_at p.created_at,
  before_apart q.created_at p.created_at,
  before_apart p.created_at q.created_at,
  before_asym q.id p.id,
)

-- With different ids, an older project comes after the cursor of a newer one.
pub newer_first-after_cursor :
    (p q : Project) → p.id ≢ q.id → newer_first p q ≡ true → after_cursor (cursor_of p) q ≡ true
newer_first-after_cursor p q apart e = elim (Bool-cases (before q.created_at p.created_at)) [
  | inl f ↦ rw f refl
  | inr f ↦
      let g : before p.created_at q.created_at ≡ false = ground (arith, e) in
      let times = before_same q.created_at p.created_at f g in
      let together : same q.created_at p.created_at ≡ true =
        subst (λ t. same q.created_at t ≡ true) times (same_refl q.created_at) in
      let not_older : before p.id q.id ≡ false = ground (arith, e, f, g) in
      elim (Bool-cases (before q.id p.id)) [
        | inl h ↦ ground (arith, together, h)
        | inr h ↦ absurd (apart (before_same p.id q.id not_older h))
      ]
]
