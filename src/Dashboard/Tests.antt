-- ===== src/Dashboard/Tests.antt =====
-- A visit to a paused project, and a page of a table.
use corebase.Base.{◌+◌, ◌≤◌, ◌≡◌, refl, true, false, none, some, List, [], ◌∷◌}
use corebase.Base.Texts.{codes, digits}
use corebase.Dashboard.GridSql.{PageRequest, desc, page_sql, count_sql}
use corebase.Dashboard.Resume.{
  ResumeState, initial_resume_state, on_status, on_resume_settled, is_deliberately_paused,
  settled_ok,
}
use corebase.Dashboard.Resume.Asks.{
  Event, polled, answered, asks, toasts, how_many, is_error, is_resuming, visit_asks_once,
}

visits : Unit {0}
unfolding on_status on_resume_settled is_deliberately_paused asks toasts
visits = tt

abbrev visit : List Event
visit =
    polled none
    ∷ polled (some "paused")
    ∷ answered settled_ok
    ∷ polled (some "resuming")
    ∷ polled (some "ready")
    ∷ polled (some "paused")
    ∷ []

visit_runs : (asks visit initial_resume_state ≡ 1) × (toasts visit initial_resume_state ≡ 1)
unfolding visits
visit_runs = (refl, refl)

visit_asks_once_example :
    (asks visit initial_resume_state ≤ how_many is_error visit + 1)
    × (toasts visit initial_resume_state ≤ how_many is_resuming visit)
visit_asks_once_example = visit_asks_once visit

abbrev ready : ResumeState
ready = record { asked = false; saw_resuming = false; saw_ready = true }

abbrev second_page : PageRequest
second_page = record {
  schema = codes "public";
  table = codes "a\"; drop table x --";
  columns = codes "id" ∷ codes "n" ∷ [];
  page = 1;
  page_size = 50;
  sort = some (codes "n", desc);
  primary_key = codes "id" ∷ [];
}

second_page_sql :
    page_sql second_page
    ≡ codes
        "select \"id\", \"n\"\n  from \"public\".\"a\"\"; drop table x --\"\norder by \"n\" desc\n limit 50 offset 50"
unfolding page_sql digits
second_page_sql = refl

counts_a_table :
    count_sql (codes "public") (codes "t") ≡ codes "select count(*) as exact from \"public\".\"t\""
unfolding count_sql
counts_a_table = refl
