-- ===== src/Placement/Transactions/Sums.antt =====
-- What the placements on a node add up to.
use corebase.Base.{
  ℕ, ◌+◌, String, ◌≡◌, refl, inl, inr, Bool, true, false, not, none, some, List, [], ◌∷◌, arith,
  str_eq, eq_iff, Bool-cases, All, first, keep, ltb, any, if◌then◌else◌,
}
use corebase.Base.Update.{update, update_miss, update-All}
use corebase.Placement.Store.{Placed, of_project, on_node}
use corebase.Placement.Transactions.{is_booked}

abbrev pub share : (Placed → ℕ) → String → Placed → ℕ
share w id d = if on_node id d then w d else 0

abbrev pub load : (Placed → ℕ) → String → List Placed → ℕ
load w id [] = 0
load w id (d ∷ ds) = share w id d + load w id ds

-- `project_id` is UNIQUE.
abbrev pub UniqueProjects : List Placed → Type 0
UniqueProjects [] = Unit
UniqueProjects (d ∷ ds) = All (λ e. of_project d.project_id e ≡ false) ds × UniqueProjects ds

pub str_eq_comm : (a b : String) → str_eq a b ≡ str_eq b a
str_eq_comm a b = ground (arith, eq_iff a b, eq_iff b a)

others_apart :
    (p : String) (d : Placed) (ds : List Placed)
    → of_project p d ≡ true
    → All (λ e. of_project d.project_id e ≡ false) ds
    → All (λ e. of_project p e ≡ false) ds
others_apart p d [] h a = tt
others_apart p d (e ∷ ds) h (x, a) = (
  ground (arith, eq_iff e.project_id d.project_id, eq_iff d.project_id p, eq_iff e.project_id p),
  others_apart p d ds h a,
)

keep_misses :
    (p : String) (ds : List Placed)
    → All (λ e. of_project p e ≡ false) ds
    → keep (λ e. not (of_project p e)) ds ≡ ds
keep_misses p [] a = refl
keep_misses p (d ∷ ds) (x, a) = rw (x, keep_misses p ds a)

module _ (w : Placed → ℕ) (id p : String) where
  -- Deleting a project's row takes its share off.
  pub load_deleted :
      (ds : List Placed) {d : Placed}
      → UniqueProjects ds
      → first (keep (of_project p) ds) ≡ some d
      → load w id ds ≡ load w id (keep (λ e. not (of_project p e)) ds) + share w id d
  load_deleted [] u e = absurd (cc)
  load_deleted (x ∷ ds) {d} (apart, u) e = elim (Bool-cases (of_project p x)) [
    | inl hit ↦
        let same : some x ≡ some d = rw hit at e in
        let at_x : x ≡ d = cc in
        rw (hit, keep_misses p ds (others_apart p x ds hit apart), ← at_x) (omega arith)
    | inr miss ↦ let ih = load_deleted ds {d = d} u (rw miss at e) in rw miss (omega arith)
  ]

  -- Rewriting a project's row, on the node that it is on, exchanges its share.
  pub load_rewritten :
      (set : Placed → Placed) (ds : List Placed) {d : Placed}
      → ((e : Placed) → (set e).node_id ≡ e.node_id)
      → UniqueProjects ds
      → first (keep (of_project p) ds) ≡ some d
      → load w id (update (of_project p) set ds).0 + share w id d
        ≡ load w id ds + share (λ e. w (set e)) id d
  unfolding update
  load_rewritten set [] stay u e = absurd (cc)
  load_rewritten set (x ∷ ds) {d} stay (apart, u) e = elim (Bool-cases (of_project p x)) [
    | inl hit ↦
        let same : some x ≡ some d = rw hit at e in
        let at_x : x ≡ d = cc in
        rw (hit, update_miss (of_project p) set ds (others_apart p x ds hit apart), ← at_x, stay x)
          (omega arith)
    | inr miss ↦
        let ih = load_rewritten set ds {d = d} stay u (rw miss at e) in rw miss (omega arith)
  ]

none_booked :
    (p : String) (ds : List Placed)
    → All (λ e. of_project p e ≡ false) ds
    → keep (is_booked p) ds ≡ []
none_booked p [] a = refl
none_booked p (d ∷ ds) (x, a) = rw (x, none_booked p ds a)

-- The booked row of a project is its row.
pub first_booked :
    (p : String) (ds : List Placed) {d : Placed}
    → UniqueProjects ds
    → first (keep (is_booked p) ds) ≡ some d
    → first (keep (of_project p) ds) ≡ some d
first_booked p [] u e = absurd (cc)
first_booked p (x ∷ ds) {d} (apart, u) e = elim (Bool-cases (of_project p x)) [
  | inl hit ↦ elim (Bool-cases (ltb 0 x.ram_booked_mb)) [
    | inl full ↦ rw hit (rw (hit, full) at e)
    | inr empty ↦
        let gone : none ≡ some d =
          rw (hit, empty, none_booked p ds (others_apart p x ds hit apart)) at e in
        absurd (cc)
  ]
  | inr miss ↦ rw miss (first_booked p ds u (rw miss at e))
]

pub none_of_project :
    (p : String) (ds : List Placed)
    → any (of_project p) ds ≡ false
    → All (λ e. of_project p e ≡ false) ds
none_of_project p [] h = tt
none_of_project p (d ∷ ds) h = (ground arith, none_of_project p ds (ground arith))

pub UniqueProjects-keep :
    (p : String) (ds : List Placed)
    → UniqueProjects ds
    → UniqueProjects (keep (λ e. not (of_project p e)) ds)
UniqueProjects-keep p [] u = tt
UniqueProjects-keep p (d ∷ ds) (a, u) = elim (Bool-cases (of_project p d)) [
  | inl hit ↦ rw hit (UniqueProjects-keep p ds u)
  | inr miss ↦ rw miss (All-keep ds a, UniqueProjects-keep p ds u)
]
  where
    All-keep :
        (es : List Placed)
        → All (λ e. of_project d.project_id e ≡ false) es
        → All (λ e. of_project d.project_id e ≡ false) (keep (λ e. not (of_project p e)) es)
    All-keep [] h = tt
    All-keep (e ∷ es) (x, h) = elim (Bool-cases (of_project p e)) [
      | inl hit ↦ rw hit (All-keep es h)
      | inr miss ↦ rw miss (x, All-keep es h)
    ]

pub UniqueProjects-update :
    (test : Placed → Bool) (set : Placed → Placed) (ds : List Placed)
    → ((e : Placed) → (set e).project_id ≡ e.project_id)
    → UniqueProjects ds
    → UniqueProjects (update test set ds).0
unfolding update
UniqueProjects-update test set [] stay u = tt
UniqueProjects-update test set (d ∷ ds) stay (a, u) = elim (Bool-cases (test d)) [
  | inl hit ↦
      rw (hit, stay d)
        (
          update-All test set (λ e. of_project d.project_id e ≡ false) ds (λ e t h. rw (stay e) h)
              a,
          UniqueProjects-update test set ds stay u,
        )
  | inr miss ↦ rw miss (
    update-All test set (λ e. of_project d.project_id e ≡ false) ds (λ e t h. rw (stay e) h) a,
    UniqueProjects-update test set ds stay u,
  )
]
