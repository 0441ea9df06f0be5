-- ===== src/Console/Run.antt =====
-- services/api/src/modules/db/run.ts: `checkRequest` and `runScript`. The connection is the
-- interface Client; what is sent through it is kept in order in the session. Parameters, claims and
-- rows are of any type; fields and durations are left out.
use corebase.Base.{
  ℕ, ◌-◌, Bool, true, false, not, ◌&&◌, Option, none, some, List, [], ◌∷◌, ◌++◌, keep, map, take,
  length, min, ltb, ◌==◌, or_else, if◌then◌else◌,
}
use corebase.Base.Texts.{Text, codes, same, trim}
use corebase.SqlGuard.Names.{is_one_of}
use corebase.SqlGuard.Classify.{Classified, Script, is_safe, classify, with_limit}

pub data ConsoleRole : Type 0 where
  admin anon authenticated : ConsoleRole

abbrev pub is_authenticated : ConsoleRole → Bool
is_authenticated authenticated = true
is_authenticated _ = false

pub record RunRequest (Value : Type 0) : Type 0 where
  pub sql : Text
  pub params : List Value
  pub role : Option ConsoleRole
  pub claims : Option Value
  pub read_only : Bool
  pub confirm_destructive : Bool
  pub confirm_names : List Text
  pub timeout_ms : Option ℕ

pub data Refusal : Type 0 where
  no_statement params_of_many not_confirmed : Refusal
  not_typed : List Text → Refusal

abbrev pub missing_names : Script → List Text → List Text
missing_names script given =
    let typed = map trim given in keep (λ n. not (is_one_of typed n)) script.names_to_type

-- `none` where it returns.
unfoldable pub check_request : {V : Type 0} → Script → RunRequest V → Option Refusal
check_request script req = elim script.statements [
  | [] ↦ some no_statement
  | _ ∷ more ↦
      if ltb 0 (length req.params) && ltb 0 (length more)
      then some params_of_many
      else if is_safe script.danger
      then none
      else if not req.confirm_destructive
      then some not_confirmed
      else elim (missing_names script req.confirm_names) [
        | [] ↦ none
        | n ∷ missing ↦ some (not_typed (n ∷ missing))
      ]
]

pub data Query (Value : Type 0) : Type 0 where
  begin commit rollback set_read_only : Query Value
  set_timeout : ℕ → Query Value
  set_role : ConsoleRole → Query Value
  set_claims : Value → Query Value
  statement : Text → List Value → Query Value

-- The connection: a query throws or returns its rows and its row count.
pub record Client (Value Row : Type 0) : Type 1 where
  pub State : Type 0
  pub query : Query Value → State → State × Option (List Row × Option ℕ)

pub record StatementResult (Row : Type 0) : Type 0 where
  pub rows : List Row
  pub row_count : ℕ
  pub executed_sql : Text
  pub truncated : Bool
  pub command : Text

pub data Outcome (Row : Type 0) : Type 0 where
  refused : Refusal → Outcome Row
  threw : Outcome Row
  done : List (StatementResult Row) → Outcome Row

abbrev pub row_limit : ℕ
row_limit = 501

abbrev pub timeout_of : Option ℕ → ℕ
timeout_of ms = min (or_else ms 60000) 600000

-- The settings, in their order.
abbrev pub rails : {V : Type 0} → RunRequest V → List (Query V)
rails req =
    let role = or_else req.role admin in
    set_timeout (timeout_of req.timeout_ms) ∷ (if req.read_only then set_read_only ∷ [] else [])
    ++ set_role role ∷ (elim req.claims [
      | none ↦ []
      | some c ↦ if is_authenticated role then set_claims c ∷ [] else []
    ])

abbrev pub is_limited : Script → Classified → Bool
is_limited script c = elim script.limitable [ none ↦ false | some l ↦ same l.sql c.sql ]

abbrev pub executed : Script → Classified → Text
executed script c = if is_limited script c then with_limit c.sql (codes "501") else c.sql

abbrev pub result_of : {R : Type 0} → Script → Classified → List R × Option ℕ → StatementResult R
result_of script c (rows, count) =
    let truncated = is_limited script c && length rows == row_limit in
    record {
      rows = if truncated then take (row_limit - 1) rows else rows;
      row_count = if truncated then row_limit - 1 else or_else count (length rows);
      executed_sql = executed script c;
      truncated = truncated;
      command = c.command;
    }

module _ {V R : Type 0} (client : Client V R) where
  pub record Session : Type 0 where
    pub state : client.State
    pub sent : List (Query V)

  abbrev pub send : Query V → Session → Session × Option (List R × Option ℕ)
  send q s =
      let (state', answer) = client.query q s.state in
      (record { state = state'; sent = s.sent ++ q ∷ [] }, answer)

  -- `false` where one throws.
  unfoldable pub send_all : List (Query V) → Session → Session × Bool
  send_all [] s = (s, true)
  send_all (q ∷ qs) s =
      let (s', answer) = send q s in
      let rest = send_all qs s' in elim answer [ none ↦ (s', false) | some _ ↦ rest ]

  -- The loop over the statements; `none` where one throws.
  unfoldable pub run_all :
      Script → List V → List Classified → Session → Session × Option (List (StatementResult R))
  run_all script params [] s = (s, some [])
  run_all script params (c ∷ cs) s =
      let (s', answer) = send (statement (executed script c) params) s in
      let (t, results) = run_all script params cs s' in
      elim answer [
        | none ↦ (s', none)
        | some rows ↦
            (t, elim results [ none ↦ none | some rs ↦ some (result_of script c rows ∷ rs) ])
      ]

  abbrev pub give_up : Session → Session × Outcome R
  give_up s = ((send rollback s).0, threw)

  -- Between BEGIN and COMMIT.
  unfoldable pub run_wrapped : Script → RunRequest V → Session → Session × Outcome R
  run_wrapped script req s =
      let (s1, set) = send_all (rails req) s in
      let (s2, results) = run_all script req.params script.statements s1 in
      let (s3, committed) = send commit s2 in
      if not set then give_up s1 else elim results [
        | none ↦ give_up s2
        | some rs ↦ elim committed [ none ↦ give_up s3 | some _ ↦ (s3, done rs) ]
      ]

  unfoldable pub run_script : (Text → Text) → RunRequest V → Session → Session × Outcome R
  run_script unicode_upper req s =
      let script = classify unicode_upper req.sql in
      elim (check_request script req) [
        | some refusal ↦ (s, refused refusal)
        | none ↦
            let (s1, begun) = send begin s in
            let (s2, results) = run_all script req.params script.statements s in
            if script.owns_transaction
            then (s2, elim results [ none ↦ threw | some rs ↦ done rs ])
            else elim begun [ none ↦ (s1, threw) | some _ ↦ run_wrapped script req s1 ]
      ]
