-- ===== src/SqlGuard/Classify.antt =====
-- packages/sql-guard/src/index.ts: `isLimitable`, `classifyOne`, `classify` and `withLimit`.
pub mod Verdict
pub mod Admitted
pub mod Flat
use corebase.Base.{
  ℕ, zero, suc, ◌+◌, Bool, true, false, not, ◌&&◌, ◌||◌, Option, none, some, List, [], ◌∷◌, ◌++◌,
  any, keep, map, length, ltb, ◌==◌, if◌then◌else◌,
}
use corebase.Base.Texts.{Text, codes, same, is_space, skip_space, backwards}
use corebase.SqlGuard.Lexer.{Token}
use corebase.SqlGuard.Split.{Statement, is_paren, depth_after, split}
use corebase.SqlGuard.Names.{lead, is_one_of, is_noise}
use corebase.SqlGuard.Danger.{Danger, safe, confirm, type_name, Rating, danger, command_is}

abbrev pub limit_words : List Text
limit_words =
    codes "LIMIT"
    ∷ codes "FETCH"
    ∷ codes "OFFSET"
    ∷ codes "UNION"
    ∷ codes "INTERSECT"
    ∷ codes "EXCEPT"
    ∷ codes "INTO"
    ∷ []

-- Whether a word of the list stands outside parentheses.
unfoldable pub has_any_at : ℕ → List Text → List Token → Bool
has_any_at depth words [] = false
has_any_at depth words (t ∷ toks) =
    (not (is_paren t) && depth == 0 && is_noise words t)
    || has_any_at (depth_after depth t) words toks

unfoldable pub is_limitable : Statement → Bool
is_limitable s = command_is "SELECT" s && not (has_any_at 0 limit_words s.tokens)

abbrev pub tx : List Text
tx =
    codes "BEGIN"
    ∷ codes "COMMIT"
    ∷ codes "ROLLBACK"
    ∷ codes "START"
    ∷ codes "END"
    ∷ codes "SAVEPOINT"
    ∷ []

pub record Classified : Type 0 where
  pub sql : Text
  pub command : Text
  pub rating : Rating
  pub limitable : Bool
  pub transaction_control : Bool

unfoldable pub classify_one : Statement → Classified
classify_one s = record {
  sql = s.sql;
  command = lead s;
  rating = danger s;
  limitable = is_limitable s;
  transaction_control = is_one_of tx (lead s);
}

pub record Script : Type 0 where
  pub statements : List Classified
  pub danger : Danger
  pub dangerous : List Classified
  pub names_to_type : List Text
  pub owns_transaction : Bool
  pub limitable : Option Classified

abbrev pub rank_of : Danger → ℕ
rank_of safe = 0
rank_of confirm = 1
rank_of type_name = 2

abbrev pub is_safe : Danger → Bool
is_safe safe = true
is_safe _ = false

-- The `reduce`, and its function.
abbrev pub higher : Danger → Danger → Danger
higher acc d = if ltb (rank_of acc) (rank_of d) then d else acc

abbrev pub worst : Danger → List Classified → Danger
worst acc [] = acc
worst acc (s ∷ statements) = worst (higher acc s.rating.danger) statements

-- `[...new Set(names)]`: each name where it comes first.
abbrev pub distinct : List Text → List Text → List Text
distinct seen [] = []
distinct seen (name ∷ names) =
    let others = distinct (name ∷ seen) names in
    let rest = distinct seen names in if is_one_of seen name then rest else name ∷ others

abbrev pub all_names : List Classified → List Text
all_names [] = []
all_names (s ∷ statements) = s.rating.names ++ all_names statements

unfoldable pub script_of : List Classified → Script
script_of statements = record {
  statements = statements;
  danger = worst safe statements;
  dangerous = keep (λ s. not (is_safe s.rating.danger)) statements;
  names_to_type = distinct [] (all_names statements);
  owns_transaction = any (λ s. s.transaction_control) statements;
  limitable = elim statements [
    | [] ↦ none
    | s ∷ more ↦ elim more [ [] ↦ if s.limitable then some s else none | _ ∷ _ ↦ none ]
  ];
}

unfoldable pub classify : (Text → Text) → Text → Script
classify unicode_upper sql = script_of (map classify_one (split unicode_upper sql))

-- `sql.replace(/;\s*$/, '')`
abbrev pub without_semicolon : Text → Text
without_semicolon sql = elim (skip_space (backwards sql [])) [
  | [] ↦ sql
  | c ∷ s ↦ if c == b';' then backwards s [] else sql
]

-- The limit is given in decimal.
unfoldable pub with_limit : Text → Text → Text
with_limit sql limit = without_semicolon sql ++ codes " LIMIT " ++ limit
