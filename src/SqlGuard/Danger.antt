-- ===== src/SqlGuard/Danger.antt =====
-- packages/sql-guard/src/index.ts: `danger`, without the sentences.
use corebase.Base.{Bool, true, false, Option, none, some, List, [], ◌∷◌, String, if◌then◌else◌}
use corebase.Base.Texts.{Text, codes, same}
use corebase.SqlGuard.Lexer.{Token}
use corebase.SqlGuard.Split.{Statement, is_word}
use corebase.SqlGuard.Names.{
  lead, has_top_level_where, object_names, object_name, alter_actions, alter_drop, AlterDrop,
  drops_column, drops_constraint, drops_other, grantee, grant_target, first_is_word,
}

pub data Danger : Type 0 where
  safe confirm type_name : Danger

-- `danger`, `object` and `names` of a classified statement.
pub record Rating : Type 0 where
  pub danger : Danger
  pub object : Option Text
  pub names : List Text

abbrev pub rate : Danger → Option Text → Rating
rate danger object = record { danger = danger; object = object; names = [] }

abbrev pub second_is_word : Text → Statement → Bool
second_is_word w s = elim s.tokens [ [] ↦ false | _ ∷ toks ↦ first_is_word w toks ]

abbrev pub drop_danger : Statement → Rating
drop_danger s =
    if second_is_word (codes "TABLE") s
    then all
    else if second_is_word (codes "SCHEMA") s
    then all
    else rate confirm (object_name s)
  where
    all : Rating
    all = record {
      danger = elim (object_names s) [ [] ↦ confirm | _ ∷ _ ↦ type_name ];
      object = object_name s;
      names = object_names s;
    }

-- The columns and the number of constraints dropped, and whether a name was not read.
pub record AlterDrops : Type 0 where
  pub columns : List Text
  pub constraints : List Text
  pub unnamed : Bool

abbrev pub add_drop : AlterDrop → AlterDrops → AlterDrops
add_drop (drops_column (some name)) d = record d { columns = name ∷ d.columns }
add_drop (drops_constraint (some name)) d = record d { constraints = name ∷ d.constraints }
add_drop (drops_column none) d = record d { unnamed = true }
add_drop (drops_constraint none) d = record d { unnamed = true }
add_drop drops_other d = d

unfoldable pub alter_drops : Statement → List (List Token) → AlterDrops
alter_drops s [] = record { columns = []; constraints = []; unnamed = false }
alter_drops s ([] ∷ actions) = alter_drops s actions
alter_drops s ((t ∷ toks) ∷ actions) =
    let rest = alter_drops s actions in
    if is_word (codes "DROP") t then add_drop (alter_drop s toks) rest else rest

abbrev pub alter_danger : Statement → Rating
alter_danger s =
    let d = alter_drops s (alter_actions s) in
    elim d.columns [
      | c ∷ columns ↦ record { danger = type_name; object = object_name s; names = c ∷ columns }
      | [] ↦ elim d.constraints [
        | _ ∷ _ ↦ rate confirm (object_name s)
        | [] ↦ if d.unnamed then rate confirm (object_name s) else rate safe (object_name s)
      ]
    ]

abbrev pub grant_danger : Statement → Rating
grant_danger s = elim (grantee s) [
  | none ↦ rate safe (object_name s)
  | some _ ↦ rate confirm (grant_target s)
]

abbrev pub unqualified_danger : Statement → Rating
unqualified_danger s =
    if has_top_level_where s then rate safe (object_name s) else rate confirm (object_name s)

abbrev pub command_is : String → Statement → Bool
command_is w s = same (lead s) (codes w)

unfoldable pub danger : Statement → Rating
danger s =
    if command_is "DROP" s
    then drop_danger s
    else if command_is "ALTER" s
    then alter_danger s
    else if command_is "GRANT" s
    then grant_danger s
    else if command_is "TRUNCATE" s
    then rate confirm (object_name s)
    else if command_is "DELETE" s
    then unqualified_danger s
    else if command_is "UPDATE" s
    then unqualified_danger s
    else rate safe (object_name s)
