-- ===== src/SqlGuard/Classify/Verdict.antt =====
-- What the verdict on a script says of its statements.
use corebase.Base.{
  ℕ, ◌≤◌, ◌≡◌, refl, sym, ◌∙◌, inl, inr, Bool, true, false, not, ◌&&◌, ◌||◌, List, [], ◌∷◌, ◌++◌,
  arith, keep, map, All, All-map, subst, Bool-cases, if◌then◌else◌,
}
use corebase.Base.Texts.{Text, same}
use corebase.SqlGuard.Split.{Statement, split}
use corebase.SqlGuard.Names.{is_one_of}
use corebase.SqlGuard.Danger.{
  Danger, safe, type_name, Rating, danger, drop_danger, alter_danger, grant_danger,
  unqualified_danger, command_is,
}
use corebase.SqlGuard.Classify.{
  Classified, Script, script_of, classify, classify_one, rank_of, is_safe, higher, worst, distinct,
  all_names,
}

abbrev pub is_type_name : Danger → Bool
is_type_name type_name = true
is_type_name _ = false

abbrev pub is_cons {ℓ} : {A : Type ℓ} → List A → Bool
is_cons [] = false
is_cons (x ∷ xs) = true

-- Names are asked for exactly on the highest rung.
abbrev pub IsNamed : Rating → Type 0
IsNamed r = is_type_name r.danger ≡ is_cons r.names

drop_danger-IsNamed : (s : Statement) → IsNamed (drop_danger s)
drop_danger-IsNamed s = ground arith

alter_danger-IsNamed : (s : Statement) → IsNamed (alter_danger s)
alter_danger-IsNamed s = ground arith

grant_danger-IsNamed : (s : Statement) → IsNamed (grant_danger s)
grant_danger-IsNamed s = ground arith

unqualified_danger-IsNamed : (s : Statement) → IsNamed (unqualified_danger s)
unqualified_danger-IsNamed s = ground arith

if-IsNamed : (b : Bool) (r q : Rating) → IsNamed r → IsNamed q → IsNamed (if b then r else q)
if-IsNamed true r q h k = h
if-IsNamed false r q h k = k

pub danger-IsNamed : (s : Statement) → IsNamed (danger s)
unfolding danger
danger-IsNamed s = if-IsNamed (command_is "DROP" s) _ _ (drop_danger-IsNamed s) (
    if-IsNamed (command_is "ALTER" s) _ _ (alter_danger-IsNamed s) (
      if-IsNamed (command_is "GRANT" s) _ _ (grant_danger-IsNamed s) (
        if-IsNamed (command_is "TRUNCATE" s) _ _ refl (
          if-IsNamed (command_is "DELETE" s) _ _ (unqualified_danger-IsNamed s)
            (if-IsNamed (command_is "UPDATE" s) _ _ (unqualified_danger-IsNamed s) refl)))))

-- What bounds the highest rung bounds them all.
worst_bounds :
    (k : ℕ) (acc : Danger) (cs : List Classified)
    → rank_of (worst acc cs) ≤ k
    → (rank_of acc ≤ k) × All (λ c. rank_of c.rating.danger ≤ k) cs
worst_bounds k acc [] h = (h, tt)
worst_bounds k acc (c ∷ cs) h =
    let (low, all) = worst_bounds k (higher acc c.rating.danger) cs h in
    (below acc c.rating.danger low, (below_too acc c.rating.danger low, all))
  where
    below : (a d : Danger) → rank_of (higher a d) ≤ k → rank_of a ≤ k
    below a d h = ground arith

    below_too : (a d : Danger) → rank_of (higher a d) ≤ k → rank_of d ≤ k
    below_too a d h = ground arith

higher_named : (a d : Danger) → is_type_name (higher a d) ≡ is_type_name a || is_type_name d
higher_named a d = ground arith

is_cons-append {ℓ} : {A : Type ℓ} (xs ys : List A) → is_cons (xs ++ ys) ≡ is_cons xs || is_cons ys
is_cons-append [] ys = refl
is_cons-append (x ∷ xs) ys = refl

or_assoc : (a b c : Bool) → (a || b) || c ≡ a || (b || c)
or_assoc true b c = refl
or_assoc false b c = refl

-- On the highest rung, someone names something.
worst_named :
    (acc : Danger) (cs : List Classified)
    → All (λ c. IsNamed c.rating) cs
    → is_type_name (worst acc cs) ≡ is_type_name acc || is_cons (all_names cs)
worst_named acc [] h = ground arith
worst_named acc (c ∷ cs) (n, h) =
    worst_named (higher acc c.rating.danger) cs h
    ∙ cc (
      higher_named acc c.rating.danger,
      n,
      is_cons-append c.rating.names (all_names cs),
      or_assoc (is_type_name acc) (is_cons c.rating.names) (is_cons (all_names cs)),
    )

pub same_refl : (s : Text) → same s s ≡ true
same_refl [] = refl
same_refl (c ∷ s) = ground (arith, same_refl s)

abbrev Asked : List Text → List Text → List Text → Type 0
Asked seen names out = All (λ n. is_one_of seen n || is_one_of out n ≡ true) names

-- A name is asked for or was seen.
distinct-All : (seen names : List Text) → Asked seen names (distinct seen names)
distinct-All seen [] = tt
distinct-All seen (name ∷ names) = elim (Bool-cases (is_one_of seen name)) [
  | inl old ↦
      let drops : distinct seen names ≡ distinct seen (name ∷ names) = rw old refl in
      subst (Asked seen (name ∷ names)) drops (rw old refl, distinct-All seen names)
  | inr new ↦
      let out = distinct (name ∷ seen) names in
      let keeps : name ∷ out ≡ distinct seen (name ∷ names) = rw new refl in
      subst (Asked seen (name ∷ names)) keeps (
        rw (new, same_refl name) refl,
        All-map (λ n. is_one_of (name ∷ seen) n || is_one_of out n ≡ true)
            (λ n. is_one_of seen n || is_one_of (name ∷ out) n ≡ true) names
            (λ n h. swap (same name n) (is_one_of seen n) (is_one_of out n) h)
            (distinct-All (name ∷ seen) names),
      )
]
  where
    swap : (a b c : Bool) → (a || b) || c ≡ true → b || (a || c) ≡ true
    swap a b c h = ground arith

-- None twice.
abbrev pub IsDistinct : List Text → Type 0
IsDistinct [] = Unit
IsDistinct (n ∷ names) = All (λ m. same n m ≡ false) names × IsDistinct names

apart :
    (seen : List Text) (name m : Text)
    → is_one_of (name ∷ seen) m ≡ false
    → (same name m ≡ false) × (is_one_of seen m ≡ false)
apart seen name m h = (ground arith, ground arith)

distinct_unseen :
    (seen names : List Text) → All (λ m. is_one_of seen m ≡ false) (distinct seen names)
distinct_unseen seen [] = tt
distinct_unseen seen (name ∷ names) = elim (Bool-cases (is_one_of seen name)) [
  | inl old ↦ rw old (distinct_unseen seen names)
  | inr new ↦
      let rest =
        All-map (λ m. is_one_of (name ∷ seen) m ≡ false) (λ m. is_one_of seen m ≡ false)
          (distinct (name ∷ seen) names) (λ m h. (apart seen name m h).1)
          (distinct_unseen (name ∷ seen) names) in
      rw new (new, rest)
]

distinct-IsDistinct : (seen names : List Text) → IsDistinct (distinct seen names)
distinct-IsDistinct seen [] = tt
distinct-IsDistinct seen (name ∷ names) = elim (Bool-cases (is_one_of seen name)) [
  | inl old ↦ rw old (distinct-IsDistinct seen names)
  | inr new ↦
      let others =
        All-map (λ m. is_one_of (name ∷ seen) m ≡ false) (λ m. same name m ≡ false)
          (distinct (name ∷ seen) names) (λ m h. (apart seen name m h).0)
          (distinct_unseen (name ∷ seen) names) in
      rw new (others, distinct-IsDistinct (name ∷ seen) names)
]

-- The verdict on a script, against its statements.
pub record IsVerdict (script : Script) : Type 0 where
  pub bound : All (λ c. rank_of c.rating.danger ≤ rank_of script.danger) script.statements
  pub quiet : is_safe script.danger ≡ not (is_cons script.dangerous)
  pub named : is_type_name script.danger ≡ is_cons script.names_to_type
  pub asked :
      All (λ c. All (λ n. is_one_of script.names_to_type n ≡ true) c.rating.names) script.statements
  pub once : IsDistinct script.names_to_type

higher_quiet : (a d : Danger) → is_safe (higher a d) ≡ is_safe a && is_safe d
higher_quiet a d = ground arith

and_true : (a b : Bool) → (a && true) && b ≡ a && b
and_true true b = refl
and_true false b = refl

and_false : (a b : Bool) → (a && false) && b ≡ a && false
and_false true b = refl
and_false false b = refl

worst_quiet :
    (acc : Danger) (cs : List Classified)
    → is_safe (worst acc cs)
      ≡ is_safe acc && not (is_cons (keep (λ c. not (is_safe c.rating.danger)) cs))
worst_quiet acc [] = ground arith
worst_quiet acc (c ∷ cs) =
    let ih = worst_quiet (higher acc c.rating.danger) cs in
    let both = higher_quiet acc c.rating.danger in
    ih ∙ (elim (Bool-cases (is_safe c.rating.danger)) [
      | inl calm ↦ rw (both, calm) (and_true (is_safe acc) _)
      | inr loud ↦ rw (both, loud) (and_false (is_safe acc) _)
    ])

All-parts :
    (P : Text → Type 0) (cs : List Classified)
    → All P (all_names cs)
    → All (λ c. All P c.rating.names) cs
All-parts P [] h = tt
All-parts P (c ∷ cs) h = let (mine, rest) = parts c.rating.names h in (mine, All-parts P cs rest)
  where
    parts : (names : List Text) → All P (names ++ all_names cs) → All P names × All P (all_names cs)
    parts [] h = (tt, h)
    parts (n ∷ names) (p, h) = let (mine, rest) = parts names h in ((p, mine), rest)

classified-IsNamed : (ss : List Statement) → All (λ c. IsNamed c.rating) (map classify_one ss)
unfolding classify_one
classified-IsNamed [] = tt
classified-IsNamed (s ∷ ss) = (danger-IsNamed s, classified-IsNamed ss)

distinct_some : (names : List Text) → is_cons (distinct [] names) ≡ is_cons names
distinct_some [] = refl
distinct_some (n ∷ names) = refl

-- A script is on a rung at least as high as each of its statements', and below the first rung
-- exactly if no statement is listed as dangerous; names must be typed exactly if it is on the
-- highest rung, so that rung never asks for nothing; every name of every statement is asked for, once.
pub classify-IsVerdict :
    (unicode_upper : Text → Text) (sql : Text) → IsVerdict (classify unicode_upper sql)
unfolding classify script_of
classify-IsVerdict unicode_upper sql =
    let cs = map classify_one (split unicode_upper sql) in
    record {
      bound = (worst_bounds (rank_of (worst safe cs)) safe cs (omega arith)).1;
      quiet = worst_quiet safe cs;
      named =
          worst_named safe cs (classified-IsNamed (split unicode_upper sql))
          ∙ sym (distinct_some (all_names cs));
      asked =
          All-parts (λ n. is_one_of (distinct [] (all_names cs)) n ≡ true) cs
            (distinct-All [] (all_names cs));
      once = distinct-IsDistinct [] (all_names cs);
    }
