-- ===== src/Dashboard/Ddl.antt =====
-- apps/dashboard/src/lib/ddl.ts: the statements of the table editor. Only the text is modelled, with
-- the reasons for which there is none.
pub mod Reads
pub mod Ladder
mod Tests
use corebase.Base.{
  ℕ, zero, suc, ◌+◌, Bool, true, false, not, ◌&&◌, ◌||◌, Option, none, some, List, [], ◌∷◌, ◌++◌,
  ◌==◌, map, take, if◌then◌else◌, String,
}
use corebase.Base.Texts.{Text, codes, join, trim, between, same}
use corebase.Dashboard.GridSql.{quote, qualified, quoted_list}

pub record TableFacts : Type 0 where
  pub schema : Text
  pub table : Text
  -- `none` for -1
  pub rows_estimate : Option ℕ

pub record NewColumn : Type 0 where
  pub name : Text
  pub column_type : Text
  pub nullable : Bool
  pub default_expression : Text

-- `Incomplete`, `Impossible`, or the statement.
pub data Built : Type 0 where
  unfinished impossible : Built
  built : Text → Built

-- Whether a text is empty, or blank.
abbrev pub is_empty : Text → Bool
is_empty [] = true
is_empty (c ∷ s) = false

abbrev pub is_blank : Text → Bool
is_blank s = is_empty (trim s)

-- `(given && given.trim()) || other`
abbrev pub given_or : Option Text → Text → Text
given_or none other = other
given_or (some s) other = if is_blank s then other else trim s

abbrev pub alter : TableFacts → Text
alter f = codes "alter table " ++ qualified f.schema f.table

-- `none` where it throws.
abbrev pub column_definition : NewColumn → Option Text
column_definition c =
    if is_blank c.name
    then none
    else if is_blank c.column_type
    then none
    else some (
        quote c.name
        ++ (codes " "
            ++ (trim c.column_type
                ++ ((if c.nullable then [] else codes " not null")
                    ++ (if is_blank c.default_expression
                        then []
                        else codes " default " ++ trim c.default_expression)))))

-- `columns.map(columnDefinition)`
abbrev pub column_definitions : List NewColumn → Option (List Text)
column_definitions [] = some []
column_definitions (c ∷ columns) =
    let rest = column_definitions columns in
    elim (column_definition c) [
      | none ↦ none
      | some line ↦ elim rest [ none ↦ none | some lines ↦ some (line ∷ lines) ]
    ]

unfoldable pub create_table : Text → Text → List NewColumn → Built
create_table schema name columns =
    let target = qualified schema name in
    if is_blank name then unfinished else elim (column_definitions columns) [
      | none ↦ unfinished
      | some lines ↦ built (
          codes "create table "
          ++ (target
              ++ (codes " (\n  "
                  ++ (join (codes ",\n  ") (
                        (quote (codes "id") ++ codes " uuid primary key default gen_random_uuid()")
                        ∷ (quote (codes "created_at")
                            ++ codes " timestamptz not null default now()")
                        ∷ lines)
                      ++ (codes "\n);\n\nalter table "
                          ++ (target ++ codes " enable row level security;"))))))
    ]

unfoldable pub rename_table : TableFacts → Text → Built
rename_table f to =
    if is_blank to
    then unfinished
    else if same to f.table
    then unfinished
    else built (alter f ++ (codes " rename to " ++ (quote to ++ codes ";")))

unfoldable pub drop_table : TableFacts → Bool → Text
drop_table f cascade =
    codes "drop table "
    ++ (qualified f.schema f.table ++ (if cascade then codes " cascade;" else codes " restrict;"))

unfoldable pub add_column : TableFacts → NewColumn → Built
add_column f c =
    let is_empty_table : Bool = elim f.rows_estimate [ none ↦ false | some n ↦ n == 0 ] in
    if not c.nullable && is_blank c.default_expression && not is_empty_table
    then impossible
    else elim (column_definition c) [
      | none ↦ unfinished
      | some line ↦ built (alter f ++ (codes " add column " ++ (line ++ codes ";")))
    ]

unfoldable pub rename_column : TableFacts → Text → Text → Built
rename_column f column to =
    if is_blank to
    then unfinished
    else if same to column
    then unfinished
    else built (
        alter f
        ++ (codes " rename column " ++ (quote column ++ (codes " to " ++ (quote to ++ codes ";")))))

unfoldable pub change_type : TableFacts → Text → Text → Option Text → Built
change_type f column new_type using =
    if is_blank new_type
    then unfinished
    else built (
        alter f
        ++ (codes " alter column "
            ++ (quote column
                ++ (codes " type "
                    ++ (trim new_type
                        ++ (codes "\n  using "
                            ++ (given_or using (quote column ++ (codes "::" ++ trim new_type))
                                ++ codes ";")))))))

-- `alter column` with what is done to it.
abbrev pub alter_column : TableFacts → Text → Text → Text
alter_column f column action = alter f ++ (codes " alter column " ++ (quote column ++ action))

unfoldable pub drop_column : TableFacts → Text → Text
drop_column f column = alter f ++ (codes " drop column " ++ (quote column ++ codes ";"))

unfoldable pub set_not_null : TableFacts → Text → Text
set_not_null f column = alter_column f column (codes " set not null;")

unfoldable pub drop_not_null : TableFacts → Text → Text
drop_not_null f column = alter_column f column (codes " drop not null;")

unfoldable pub set_default : TableFacts → Text → Text → Built
set_default f column expression =
    if is_blank expression
    then unfinished
    else built (alter_column f column (codes " set default " ++ (trim expression ++ codes ";")))

unfoldable pub drop_default : TableFacts → Text → Text
drop_default f column = alter_column f column (codes " drop default;")

unfoldable pub grant_anon_read : TableFacts → Text
grant_anon_read f = codes "grant select on " ++ (qualified f.schema f.table ++ codes " to anon;")

unfoldable pub revoke_anon_access : TableFacts → Text
revoke_anon_access f = codes "revoke all on " ++ (qualified f.schema f.table ++ codes " from anon;")

unfoldable pub add_primary_key : TableFacts → List Text → Built
add_primary_key f [] = unfinished
add_primary_key f (c ∷ columns) =
    built (alter f ++ (codes " add primary key (" ++ (quoted_list (c ∷ columns) ++ codes ");")))

unfoldable pub drop_index : Text → Text → Text
drop_index schema name = codes "drop index " ++ (qualified schema name ++ codes ";")

unfoldable pub drop_constraint : TableFacts → Text → Text
drop_constraint f name = alter f ++ (codes " drop constraint " ++ (quote name ++ codes ";"))

unfoldable pub enable_rls : TableFacts → Text
enable_rls f = alter f ++ codes " enable row level security;"

pub record ForeignKey : Type 0 where
  pub column : Text
  pub target_schema : Text
  pub target_table : Text
  pub target_column : Text
  pub on_delete : Option Text
  pub also_index : Bool
  pub name : Option Text

abbrev pub is_name_char : ℕ → Bool
is_name_char c = between b'a' b'z' c || between b'0' b'9' c || c == b'_'

-- `s.replace(/[^a-z0-9_]+/g, '_')`; the test says that the last code unit was replaced.
abbrev pub replaced : Bool → Text → Text
replaced was [] = []
replaced was (c ∷ s) =
    let kept = replaced false s in
    let rest = replaced true s in
    if is_name_char c then c ∷ kept else if was then rest else b'_' ∷ rest

-- `lower` is `toLowerCase`.
module _ (lower : Text → Text) where
  abbrev pub plain_name : Text → Text
  plain_name s = replaced false (lower s)

  unfoldable pub index_name : Text → List Text → Text
  index_name table columns =
      take 63 (plain_name (codes "idx_" ++ (table ++ (codes "_" ++ join (codes "_") columns))))

  unfoldable pub create_index : TableFacts → List Text → Bool → Option Text → Built
  create_index f [] unique name = unfinished
  create_index f (c ∷ columns) unique name = built (
      codes "create "
      ++ ((if unique then codes "unique " else [])
          ++ (codes "index "
              ++ (quote (given_or name (index_name f.table (c ∷ columns)))
                  ++ (codes "\n  on "
                      ++ (qualified f.schema f.table
                          ++ (codes " (" ++ (quoted_list (c ∷ columns) ++ codes ");"))))))))

  abbrev pub text_of : Built → Text
  text_of (built s) = s
  text_of _ = []

  unfoldable pub add_foreign_key : TableFacts → ForeignKey → Built
  unfolding create_index
  add_foreign_key f k =
      if is_empty k.column || is_empty k.target_table || is_empty k.target_column
      then unfinished
      else built (
          alter f
          ++ (codes " add constraint "
              ++ (quote (
                    given_or k.name
                      (plain_name (f.table ++ (codes "_" ++ (k.column ++ codes "_fkey")))))
                  ++ (codes "\n  foreign key ("
                      ++ (quote k.column
                          ++ (codes ")\n  references "
                              ++ (qualified k.target_schema k.target_table
                                  ++ (codes " ("
                                      ++ (quote k.target_column
                                          ++ (codes ")"
                                              ++ (on_delete_text
                                                  ++ (codes ";"
                                                      ++ (if k.also_index
                                                          then codes "\n\n"
                                                            ++ text_of (
                                                            create_index f (k.column ∷ []) false
                                                            none)
                                                          else [])))))))))))))
    where
      on_delete_text : Text
      on_delete_text = elim k.on_delete [
        | none ↦ []
        | some s ↦ if is_blank s then [] else codes "\n  on delete " ++ trim s
      ]

  unfoldable pub add_check : TableFacts → Text → Option Text → Built
  add_check f expression name =
      if is_blank expression
      then unfinished
      else built (
          alter f
          ++ (codes " add constraint "
              ++ (quote (given_or name (plain_name (f.table ++ codes "_check")))
                  ++ (codes "\n  check (" ++ (trim expression ++ codes ");")))))

  unfoldable pub add_unique : TableFacts → List Text → Option Text → Built
  add_unique f [] name = unfinished
  add_unique f (c ∷ columns) name =
      let other =
        plain_name (f.table ++ (codes "_" ++ (join (codes "_") (c ∷ columns) ++ codes "_key"))) in
      built (
        alter f
        ++ (codes " add constraint "
            ++ (quote (given_or name other)
                ++ (codes "\n  unique (" ++ (quoted_list (c ∷ columns) ++ codes ");")))))
