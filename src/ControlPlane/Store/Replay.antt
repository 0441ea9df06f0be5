-- ===== src/ControlPlane/Store/Replay.antt =====
-- A creation or deletion that is asked for again.
use corebase.Base.{
  ◌≡◌, refl, sym, subst, inl, inr, String, true, false, none, some, List, [], ◌∷◌, ◌++◌, str_eq,
  eq_refl, first, keep, All, Bool-cases, arith,
}
use corebase.Base.Texts.{Text, same}
use corebase.ControlPlane.Store.{
  Project, JobRow, MemoryStore, NewProject, put, ref_of, get_project, create_project,
  insert_project, project_of, job_of,
}

same_refl : (s : Text) → same s s ≡ true
same_refl [] = refl
same_refl (c ∷ s) = ground (arith, same_refl s)

get-put :
    (p : Project) (projects : List Project)
    → first (keep (λ q. str_eq q.ref p.ref) (put p projects)) ≡ some p
get-put p [] = rw (eq_refl p.ref) refl
get-put p (q ∷ projects) = elim (Bool-cases (str_eq q.ref p.ref)) [
  | inl e ↦ rw (e, eq_refl p.ref) refl
  | inr e ↦ rw (e, e) (get-put p projects)
]

ref_of-append :
    (key : Text) (ref : String) (entries : List (Text × String))
    → ref_of key entries ≡ none
    → ref_of key (entries ++ (key, ref) ∷ []) ≡ some ref
ref_of-append key ref [] e = rw (same_refl key) refl
ref_of-append key ref (entry ∷ entries) e = elim (Bool-cases (same entry.0 key)) [
  | inl f ↦ let found : some entry.1 ≡ none = rw f at e in absurd (cc)
  | inr f ↦ rw f (ref_of-append key ref entries (rw f at e))
]

first_job :
    (job : JobRow) (id : Text) (jobs : List JobRow)
    → job.project_id ≡ id
    → All (λ j. same j.project_id id ≡ false) jobs
    → first (keep (λ j. same j.project_id id) (jobs ++ job ∷ [])) ≡ some job
first_job job id [] e h =
    let mine : same job.project_id id ≡ true =
      subst (λ t. same job.project_id t ≡ true) e (same_refl job.project_id) in
    rw mine refl
first_job job id (j ∷ jobs) e (other, h) = rw other (first_job job id jobs e h)

-- Let the key be new, the ref not empty, and no job belong to the id that is drawn. Asked again
-- with the key, whatever else the request says, the store answers with the project and the job of
-- the first request, says that it is a replay, and is left as it was.
pub create_project_replayed :
    (a again : NewProject) (s : MemoryStore)
    → ref_of a.idempotency_key s.by_idempotency ≡ none
    → str_eq a.ref "" ≡ false
    → All (λ j. same j.project_id a.project_id ≡ false) s.jobs
    → again.idempotency_key ≡ a.idempotency_key
    → let first_answer = create_project a s in
      create_project again first_answer.1 ≡ (
        record { project = first_answer.0.project; job = first_answer.0.job; replayed = true },
        first_answer.1,
      )
unfolding create_project get_project
create_project_replayed a again s new named fresh key =
    let made = ref_of-append a.idempotency_key a.ref s.by_idempotency new in
    let there = get-put (project_of a) s.projects in
    let job = first_job (job_of a) a.project_id s.jobs refl fresh in
    let seen =
      subst (λ k. ref_of k (insert_project a s).1.by_idempotency ≡ some a.ref) (sym key) made in
    let once : create_project a s ≡ insert_project a s = rw (new, create_project) refl in
    rw once (rw (seen, named, there, job, create_project) refl)
