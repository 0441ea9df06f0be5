-- ===== src/Console/Consent.antt =====
-- What was confirmed before anything is sent.
use corebase.Base.{
  ◌≤◌, ◌≡◌, ◌≢◌, ◌⊎◌, refl, ap, subst, inl, inr, true, not, ◌&&◌, none, List, [], ◌∷◌, arith, map,
  keep, length, ltb, All, All-map, Bool-cases, Option-cases,
}
use corebase.Base.Texts.{Text, same, trim}
use corebase.SqlGuard.Names.{is_one_of}
use corebase.SqlGuard.Danger.{Danger}
use corebase.SqlGuard.Classify.{Classified, Script, classify, is_safe, rank_of}
use corebase.SqlGuard.Classify.Verdict.{IsVerdict, classify-IsVerdict}
use corebase.Console.Run.{RunRequest, check_request, Client, Session, run_script, missing_names}

-- Every statement is safe, or the run is confirmed and every name of every statement is typed.
pub data IsConfirmed {V : Type 0} (script : Script) (req : RunRequest V) : Type 0 where
  all_safe : All (λ c. is_safe c.rating.danger ≡ true) script.statements → IsConfirmed script req
  confirmed :
      req.confirm_destructive ≡ true
      → All
          (λ c. All (λ n. is_one_of (map trim req.confirm_names) n ≡ true) c.rating.names)
          script.statements
      → IsConfirmed script req

pub record IsConsented {V : Type 0} (script : Script) (req : RunRequest V) : Type 0 where
  pub something : 1 ≤ length script.statements
  pub one_per_params : (length req.params ≡ 0) ⊎ (length script.statements ≡ 1)
  pub confirmation : IsConfirmed script req

same_eq : (s t : Text) → same s t ≡ true → s ≡ t
same_eq [] [] e = refl
same_eq [] (d ∷ t) e = absurd (cc)
same_eq (c ∷ s) [] e = absurd (cc)
same_eq (c ∷ s) (d ∷ t) e =
    let rest = same_eq s t (ground arith) in let head : c ≡ d = ground arith in cc

none_untyped :
    (typed names : List Text)
    → keep (λ n. not (is_one_of typed n)) names ≡ []
    → All (λ n. is_one_of typed n ≡ true) names
none_untyped typed [] e = tt
none_untyped typed (n ∷ names) e = elim (Bool-cases (is_one_of typed n)) [
  | inl hit ↦ (hit, none_untyped typed names (rw hit at e))
  | inr miss ↦
      let more : n ∷ keep (λ n. not (is_one_of typed n)) names ≡ [] = rw miss at e in absurd (cc)
]

one_of_all :
    (P : Text → Type 0) (names : List Text) (n : Text)
    → All P names
    → is_one_of names n ≡ true
    → P n
one_of_all P [] n h e = absurd (cc)
one_of_all P (m ∷ names) n (p, h) e = elim (Bool-cases (same m n)) [
  | inl hit ↦ subst P (same_eq m n hit) p
  | inr miss ↦ one_of_all P names n h (rw miss at e)
]

safe_below : (d e : Danger) → is_safe e ≡ true → rank_of d ≤ rank_of e → is_safe d ≡ true
safe_below d e s h = ground arith

consent_given :
    {V : Type 0} (script : Script) (req : RunRequest V) (c : Classified) (more : List Classified)
    → script.statements ≡ c ∷ more
    → IsVerdict script
    → check_request script req ≡ none
    → IsConfirmed script req
unfolding check_request
consent_given script req c more f v e = elim (Bool-cases (is_safe script.danger)) [
  | inl calm ↦ all_safe (
      All-map (λ c. rank_of c.rating.danger ≤ rank_of script.danger)
        (λ c. is_safe c.rating.danger ≡ true) script.statements
        (λ c h. safe_below c.rating.danger script.danger calm h) v.bound)
  | inr loud ↦ elim (Bool-cases req.confirm_destructive) [
    | inr silent ↦ absurd (ground arith)
    | inl yes_sent ↦
        let typed = map trim req.confirm_names in
        let none_missing : missing_names script req.confirm_names ≡ [] = ground arith in
        let all = none_untyped typed script.names_to_type none_missing in
        confirmed yes_sent (
          All-map (λ c. All (λ n. is_one_of script.names_to_type n ≡ true) c.rating.names)
            (λ c. All (λ n. is_one_of typed n ≡ true) c.rating.names) script.statements
            (λ c h.
              All-map (λ n. is_one_of script.names_to_type n ≡ true) (λ n. is_one_of typed n ≡ true)
                c.rating.names
                (λ n g. one_of_all (λ n. is_one_of typed n ≡ true) script.names_to_type n all g) h)
            v.asked)
  ]
]

consented :
    {V : Type 0} (script : Script) (req : RunRequest V) (cs : List Classified)
    → script.statements ≡ cs
    → IsVerdict script
    → check_request script req ≡ none
    → IsConsented script req
unfolding check_request
consented script req [] f v e = absurd (cc)
consented script req (c ∷ more) f v e = record {
  something = rw f (omega arith);
  one_per_params = elim (Bool-cases (ltb 0 (length req.params) && ltb 0 (length more))) [
    | inl many ↦ absurd (ground arith)
    | inr few ↦ ground arith
  ];
  confirmation = consent_given script req c more f v e;
}

module _ {V R : Type 0} (client : Client V R) where
  -- If a run sends anything to the database, then its script has a statement, and only one if
  -- parameters are bound, and the guard rates every statement as safe, or the request confirms the
  -- run and every name that the guard asks for at any of the statements is typed, up to the spaces
  -- around it.
  pub run_script-IsConsented :
      (unicode_upper : Text → Text) (req : RunRequest V) (s : Session client)
      → (run_script client unicode_upper req s).0.sent ≢ s.sent
      → IsConsented (classify unicode_upper req.sql) req
  unfolding run_script
  run_script-IsConsented up req s sends =
      let script = classify up req.sql in
      elim (Option-cases (check_request script req)) [
        | inl e ↦ consented script req script.statements refl (classify-IsVerdict up req.sql) e
        | inr (why, e) ↦
            let silent : (run_script client up req s).0 ≡ s = cc in
            absurd (sends (ap (λ t. t.sent) silent))
      ]
