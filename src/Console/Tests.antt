-- ===== src/Console/Tests.antt =====
-- Runs over a connection that answers every query with no row.
use corebase.Base.{ℕ, suc, true, none, some, [], ◌∷◌}
use corebase.Base.Texts.{Text, codes, trim}
use corebase.SqlGuard.Lexer.{block_comment, literal, token_at, lex_at}
use corebase.SqlGuard.Split.{split, split_from}
use corebase.SqlGuard.Names.{
  has_word_at, dotted_parts, dotted_name, names_from, object_names, actions_after, alter_actions,
  alter_drop, grant_target_from, grantee_from, grantee,
}
use corebase.SqlGuard.Danger.{alter_drops, danger}
use corebase.SqlGuard.Classify.{
  classify, classify_one, script_of, is_limitable, has_any_at, with_limit,
}
use corebase.Console.Run.{
  RunRequest, anon, check_request, Client, Session, send_all, run_all, run_wrapped, run_script,
}
use corebase.Console.Consent.{IsConsented, run_script-IsConsented}

abbrev pub quiet : Client ℕ ℕ
quiet = record { State = ℕ; query = λ q n. (suc n, some ([], none)) }

abbrev pub fresh : Session quiet
fresh = record { state = 0; sent = [] }

abbrev pub asking : Text → RunRequest ℕ
asking sql = record {
  sql = sql;
  params = [];
  role = some anon;
  claims = none;
  read_only = true;
  confirm_destructive = true;
  confirm_names = codes " a" ∷ [];
  timeout_ms = none;
}

abbrev same_case : Text → Text
same_case w = w

guard : Unit {0}
unfolding block_comment literal token_at lex_at split split_from trim has_word_at dotted_parts
    dotted_name names_from object_names actions_after alter_actions alter_drop grant_target_from
    grantee_from grantee alter_drops danger classify classify_one script_of is_limitable has_any_at
    with_limit check_request send_all run_all run_wrapped run_script
guard = tt

run_script-IsConsented_example :
    IsConsented (classify same_case (codes "drop table a")) (asking (codes "drop table a"))
unfolding guard
run_script-IsConsented_example =
    run_script-IsConsented quiet same_case (asking (codes "drop table a")) fresh (λ e. absurd (cc))
