-- ===== src/Console/Rails.antt =====
-- What a run sends, in order, and how it ends.
use corebase.Base.{◌≡◌, Bool, true, false, none, some, List, [], ◌∷◌, ◌++◌, map}
use corebase.SqlGuard.Classify.{Classified, Script}
use corebase.Console.Run.{
  RunRequest, Query, commit, rollback, statement, Client, StatementResult, Outcome, threw, done,
  rails, executed, Session,
}

module _ {V R : Type 0} (client : Client V R) where
  -- Queries sent one by one until one throws: the connection afterwards, those that were sent, the
  -- one that threw included, and whether all returned.
  abbrev pub attempt : List (Query V) → client.State → client.State × List (Query V) × Bool
  attempt [] state = (state, [], true)
  attempt (q ∷ qs) state =
      let (next, answer) = client.query q state in
      let (last, sent, all) = attempt qs next in
      elim answer [ none ↦ (next, q ∷ [], false) | some _ ↦ (last, q ∷ sent, all) ]

  -- A session that attempted the queries, and what it found.
  record Attempted (qs : List (Query V)) (s t : Session client) (all : Bool) : Type 0 where
    pub state : (attempt qs s.state).0 ≡ t.state
    pub sent : t.sent ≡ s.sent ++ (attempt qs s.state).1
    pub flag : (attempt qs s.state).2 ≡ all

  -- The statements of a script, as they are sent.
  abbrev pub statements_of : Script → List V → List Classified → List (Query V)
  statements_of script params cs = map (λ c. statement (executed script c) params) cs

  -- What is sent between BEGIN and the end.
  abbrev pub planned : Script → RunRequest V → List (Query V)
  planned script req =
      rails req ++ (statements_of script req.params script.statements ++ commit ∷ [])

  -- How a run in the console's own transaction ends that has come to `s` with its BEGIN.
  pub data Railed (script : Script) (req : RunRequest V) (s : Session client)
      (r : Session client × Outcome R) : Type 0 where
    kept :
        (results : List (StatementResult R))
        → (attempt (planned script req) s.state).2 ≡ true
        → r.0.sent ≡ s.sent ++ (attempt (planned script req) s.state).1
        → r.1 ≡ done results
        → Railed script req s r
    undone :
        (attempt (planned script req) s.state).2 ≡ false
        → r.0.sent ≡ s.sent ++ ((attempt (planned script req) s.state).1 ++ rollback ∷ [])
        → r.1 ≡ threw
        → Railed script req s r
