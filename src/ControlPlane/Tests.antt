-- ===== src/ControlPlane/Tests.antt =====
-- Runs of the in-memory store and of a client that pages through it.
use corebase.Base.{
  ◌≡◌, ◌≢◌, subst, refl, ap, String, Bool, true, Option, none, some, [], ◌∷◌, ◌++◌, length, take,
  arith, map, is_some, first, false, All, ◌<◌,
}
use corebase.Base.Texts.{Text, codes, drop, same}
use corebase.Base.Sort.{sort, insert}
use corebase.Kernel.Pagination.{
  Cursor, Parsed, null_value, value, type_error, decode_cursor, to_page, page_limit,
}
use corebase.Kernel.Pagination.Walk.{walk, read_cursor}
use corebase.ControlPlane.Store.{
  MemoryStore, NewProject, create_project, get_project, request_delete, mark_status,
  sorted_projects, list_projects_page, ref_of,
}
use corebase.ControlPlane.Store.Order.{cursor_of}
use corebase.ControlPlane.Store.Paging.{IsListing, IsApart, walk-IsListing}
use corebase.ControlPlane.Store.Replay.{create_project_replayed}

abbrev asked : String → String → String → String → NewProject
asked ref key id time = record {
  ref = ref;
  name = ref;
  region = "eu";
  plan = "free";
  idempotency_key = codes key;
  project_id = codes id;
  job_id = codes id;
  created_at = codes time;
}

abbrev empty_store : MemoryStore
empty_store = record { projects = []; jobs = []; by_idempotency = [] }

abbrev three : MemoryStore
three =
    (create_project (asked "c" "k3" "i3" "2026")
      (create_project (asked "b" "k2" "i2" "2024")
        (create_project (asked "a" "k1" "i1" "2025") empty_store).1).1).1

-- A cursor as the length of its time, its time and its id.
abbrev print : Cursor → Text
print c = length c.created_at ∷ c.created_at ++ c.id

abbrev parse : Text → Option Parsed
parse [] = none
parse (n ∷ text) = some (value (some (take n text)) (some (drop n text)))

take-append : (s t : Text) → take (length s) (s ++ t) ≡ s
take-append [] t = refl
take-append (c ∷ s) t = ap (λ u. c ∷ u) (take-append s t)

drop-append : (s t : Text) → drop (length s) (s ++ t) ≡ t
drop-append [] t = refl
drop-append (c ∷ s) t = drop-append s t

parse-print : (c : Cursor) → parse (print c) ≡ some (value (some c.created_at) (some c.id))
parse-print c = rw (take-append c.created_at c.id, drop-append c.created_at c.id) refl

abbrev is_date : Text → Bool
is_date time = is_some (first time)

store : Unit {0}
unfolding insert sort create_project get_project request_delete mark_status sorted_projects
    list_projects_page decode_cursor to_page page_limit read_cursor walk
store = tt

-- base64url of `null`: a TypeError and not a 400.
decode_null : decode_cursor (λ t. some null_value) is_date (codes "bnVsbA") ≡ type_error
unfolding store
decode_null = refl

page_limit_runs : page_limit (λ t. some 500) (some (codes "500")) ≡ some 100
unfolding store
page_limit_runs = refl

sorted_projects_runs : map (λ p. p.ref) (sorted_projects none three) ≡ "c" ∷ "a" ∷ "b" ∷ []
unfolding store
sorted_projects_runs = refl

list_projects_page_runs :
    map
      (λ p. p.ref)
      (list_projects_page 1
        (some (record { created_at = codes "2025"; id = codes "i1" }))
        none
        three)
    ≡ "b" ∷ []
unfolding store
list_projects_page_runs = refl

request_delete_twice :
    map
      (λ j. j.kind)
      (request_delete codes (codes "j") "a" (request_delete codes (codes "j") "a" three).1).1.jobs
    ≡ "provision_project" ∷ "provision_project" ∷ "provision_project" ∷ "delete_project" ∷ []
unfolding store
request_delete_twice = refl

three_dated : All (λ p. is_date p.created_at ≡ true) three.projects
unfolding store
three_dated = (refl, (refl, (refl, tt)))

same_texts : (s : Text) → same s s ≡ true
same_texts [] = refl
same_texts (c ∷ s) = ground (arith, same_texts s)

unlike : (s t : Text) → same s t ≡ false → s ≢ t
unlike s t e f =
    let both : same s t ≡ true = subst (λ u. same s u ≡ true) f (same_texts s) in absurd (cc)

three_ids : IsApart three.projects
unfolding store
three_ids = ((unlike _ _ refl, (unlike _ _ refl, tt)), ((unlike _ _ refl, tt), (tt, tt)))

three_short : length (sorted_projects none three) < 4
unfolding store
three_short = omega arith

k9_new : ref_of (codes "k9") three.by_idempotency ≡ none
unfolding store
k9_new = refl

i4_new : All (λ j. same j.project_id (codes "i4") ≡ false) three.jobs
unfolding store
i4_new = (refl, (refl, (refl, tt)))

walk-IsListing_example :
    IsListing none three (
      walk parse print is_date cursor_of
        (λ cursor. list_projects_page 2 cursor none three)
        2
        4
        none)
walk-IsListing_example =
    walk-IsListing parse print is_date 2 none three 4 parse-print three_dated three_ids
      (omega arith) three_short

create_project_replayed_example :
    create_project
      (asked "z" "k9" "i9" "2027")
      (create_project (asked "d" "k9" "i4" "2026") three).1
    ≡ (
      record {
        project = (create_project (asked "d" "k9" "i4" "2026") three).0.project;
        job = (create_project (asked "d" "k9" "i4" "2026") three).0.job;
        replayed = true;
      },
      (create_project (asked "d" "k9" "i4" "2026") three).1,
    )
create_project_replayed_example =
    create_project_replayed (asked "d" "k9" "i4" "2026") (asked "z" "k9" "i9" "2027") three k9_new
      refl i4_new refl
