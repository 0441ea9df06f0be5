-- ===== src/ControlPlane/Store.antt =====
-- services/api/src/modules/control-plane/store.ts: createMemoryStore.
-- The Map of projects is the list of its values in the order of insertion: their keys are their
-- refs. Ids and the time of creation are drawn outside and are arguments.
pub mod Order
pub mod Paging
pub mod Replay
use Prim.Native.String
use corebase.Base.{
  ℕ, suc, String, Bool, true, false, not, ◌&&◌, ◌||◌, Option, none, some, List, [], ◌∷◌, ◌++◌,
  str_eq, first, keep, any, ltb, ◌==◌, take, if◌then◌else◌,
}
use corebase.Base.Texts.{Text, same}
use corebase.Base.Sort.{sort}
use corebase.Kernel.Pagination.{Cursor}
use corebase.Kernel.Pagination.Walk.{rows_from}

pub record Project : Type 0 where
  pub id : Text
  pub ref : String
  pub name : String
  pub region : String
  pub plan : String
  pub organization_id : String
  pub status : String
  pub created_at : Text

pub record JobRow : Type 0 where
  pub id : Text
  pub kind : String
  pub project_id : Text
  -- 'delete_' and an id, or the key of the request.
  pub idempotency_key : Text
  pub state : String

pub record MemoryStore : Type 0 where
  pub projects : List Project
  pub jobs : List JobRow
  -- Keys and refs.
  pub by_idempotency : List (Text × String)

abbrev pub put : Project → List Project → List Project
put p [] = p ∷ []
put p (q ∷ projects) = if str_eq q.ref p.ref then p ∷ projects else q ∷ put p projects

unfoldable pub get_project : String → MemoryStore → Option Project
get_project ref s = first (keep (λ p. str_eq p.ref ref) s.projects)

abbrev pub ref_of : Text → List (Text × String) → Option String
ref_of key [] = none
ref_of key (entry ∷ entries) = if same entry.0 key then some entry.1 else ref_of key entries

unfoldable pub find_by_idempotency_key : Text → MemoryStore → Option Project
find_by_idempotency_key key s = elim (ref_of key s.by_idempotency) [
  | none ↦ none
  | some ref ↦ if str_eq ref "" then none else get_project ref s
]

pub record NewProject : Type 0 where
  pub ref : String
  pub name : String
  pub region : String
  pub plan : String
  pub idempotency_key : Text
  pub project_id : Text
  pub job_id : Text
  pub created_at : Text

pub record Created : Type 0 where
  pub project : Option Project
  pub job : Option JobRow
  pub replayed : Bool

abbrev pub memory_org_id : String
memory_org_id = "00000000-0000-4000-8000-000000000001"

abbrev pub project_of : NewProject → Project
project_of a = record {
  id = a.project_id;
  ref = a.ref;
  name = a.name;
  region = a.region;
  plan = a.plan;
  organization_id = memory_org_id;
  status = "creating";
  created_at = a.created_at;
}

abbrev pub job_of : NewProject → JobRow
job_of a = record {
  id = a.job_id;
  kind = "provision_project";
  project_id = a.project_id;
  idempotency_key = a.idempotency_key;
  state = "queued";
}

abbrev pub insert_project : NewProject → MemoryStore → Created × MemoryStore
insert_project a s = (
  record { project = some (project_of a); job = some (job_of a); replayed = false },
  record {
    projects = put (project_of a) s.projects;
    jobs = s.jobs ++ job_of a ∷ [];
    by_idempotency = s.by_idempotency ++ (a.idempotency_key, a.ref) ∷ [];
  },
)

-- A ref that is '' counts as not seen.
unfoldable pub create_project : NewProject → MemoryStore → Created × MemoryStore
create_project a s = elim (ref_of a.idempotency_key s.by_idempotency) [
  | none ↦ insert_project a s
  | some ref ↦ if str_eq ref "" then insert_project a s else elim (get_project ref s) [
    | none ↦ (record { project = none; job = none; replayed = true }, s)
    | some project ↦ (
      record {
        project = some project;
        job = first (keep (λ j. same j.project_id project.id) s.jobs);
        replayed = true;
      },
      s,
    )
  ]
]

-- `a < b` on strings, by UTF-16 code units.
abbrev pub before : Text → Text → Bool
before a [] = false
before [] (d ∷ t) = true
before (c ∷ s) (d ∷ t) = ltb c d || (c == d && before s t)

-- The comparator does not return 1.
abbrev pub newer_first : Project → Project → Bool
newer_first a b =
    if before a.created_at b.created_at
    then false
    else if before b.created_at a.created_at
    then true
    else not (before a.id b.id)

abbrev pub after_cursor : Cursor → Project → Bool
after_cursor c p =
    before p.created_at c.created_at || (same p.created_at c.created_at && before p.id c.id)

abbrev pub is_listed : Option String → Project → Bool
is_listed none p = not (str_eq p.status "deleted")
is_listed (some org) p =
    not (str_eq p.status "deleted") && (str_eq org "" || str_eq p.organization_id org)

unfoldable pub sorted_projects : Option String → MemoryStore → List Project
unfolding sort
sorted_projects org s = sort newer_first (keep (is_listed org) s.projects)

unfoldable pub list_projects_page : ℕ → Option Cursor → Option String → MemoryStore → List Project
unfolding sorted_projects
list_projects_page limit cursor org s =
    take (suc limit) (rows_from after_cursor (sorted_projects org s) cursor)

-- `delete_${project.id}`
abbrev pub delete_key : (String → Text) → Project → Text
delete_key codes p = codes "delete_" ++ p.id

pub record Deletion : Type 0 where
  pub project : Project
  pub job : JobRow
  pub already_requested : Bool

-- `job_id` is the uuid drawn for the job.
unfoldable pub request_delete :
    (String → Text) → Text → String → MemoryStore → Option Deletion × MemoryStore
request_delete codes job_id ref s = elim (get_project ref s) [
  | none ↦ (none, s)
  | some project ↦
      let key = delete_key codes project in
      elim (first (keep (λ j. same j.idempotency_key key) s.jobs)) [
        | some job ↦ (some (record { project = project; job = job; already_requested = true }), s)
        | none ↦
            let next : Project = record project { status = "deleting" } in
            let job : JobRow = record {
              id = job_id;
              kind = "delete_project";
              project_id = project.id;
              idempotency_key = key;
              state = "queued";
            } in
            (
              some (record { project = next; job = job; already_requested = false }),
              record s { projects = put next s.projects; jobs = s.jobs ++ job ∷ [] },
            )
      ]
]

unfoldable pub mark_status : String → String → MemoryStore → Option Project × MemoryStore
mark_status ref status s = elim (get_project ref s) [
  | none ↦ (none, s)
  | some p ↦
      let next : Project = record p { status = status } in
      (some next, record s { projects = put next s.projects })
]

unfoldable pub find_by_name : String → Option String → MemoryStore → Option Project
find_by_name name org s = first (
    keep
      (λ p.
        str_eq p.name name
        && elim org [ none ↦ true | some id ↦ str_eq id "" || str_eq p.organization_id id ])
      s.projects)
