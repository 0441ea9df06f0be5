-- ===== src/Dashboard/Ddl/Ladder.antt =====
-- What the guard asks before the statements of the table editor.
use corebase.Base.{
  ◌≡◌, refl, sym, ap, ◌∙◌, subst, Bool, none, some, List, [], ◌∷◌, ◌++◌, arith, if◌then◌else◌,
}
use corebase.Base.Texts.{Text, codes}
use corebase.SqlGuard.Lexer.{word, lex_at, token_at}
use corebase.SqlGuard.Lexer.Chunks.{literal_read}
use corebase.SqlGuard.Split.Single.{semicolon}
use corebase.SqlGuard.Names.{
  redundantly_quoted, has_word_at, dotted_parts, dotted_name, names_from, object_names,
  actions_after, alter_actions, alter_drop, grant_target_from, grantee_from, grantee,
}
use corebase.SqlGuard.Danger.{Danger, safe, confirm, type_name, alter_drops, danger}
use corebase.SqlGuard.Classify.{Script, classify, classify_one, script_of}
use corebase.SqlGuard.Classify.Flat.{flat-IsScriptOf}
use corebase.Dashboard.GridSql.{quote, qualified}
use corebase.Dashboard.Ddl.{
  TableFacts, drop_table, drop_column, set_not_null, drop_not_null, drop_default, grant_anon_read,
  revoke_anon_access, drop_index, drop_constraint, enable_rls,
}
use corebase.Dashboard.Ddl.Reads.{
  name_shape, table_shapes, table_read, named_column, drop_reads, drop_table_read, altered,
  on_column,
}

-- How the guard writes a quoted name.
abbrev pub asked_name : Text → Text
asked_name x = elim (redundantly_quoted (quote x)) [ some bare ↦ bare | none ↦ quote x ]

abbrev pub asked_table : Text → Text → Text
asked_table schema table = asked_name schema ++ codes "." ++ asked_name table

-- A rung, and the names to type.
pub record IsRated (script : Script) (rung : Danger) (names : List Text) : Type 0 where
  pub rated : script.danger ≡ rung
  pub typed : script.names_to_type ≡ names

guard : Unit {0}
unfolding has_word_at dotted_parts dotted_name names_from object_names actions_after alter_actions
    alter_drop grant_target_from grantee_from grantee alter_drops danger script_of classify_one
guard = tt

module _ (up : Text → Text) where
  drop_table-IsRated :
      (f : TableFacts) (cascade : Bool)
      → IsRated (classify up (drop_table f cascade)) type_name (asked_table f.schema f.table ∷ [])
  unfolding guard drop_table
  drop_table-IsRated f cascade =
      let it =
        flat-IsScriptOf up (codes "drop ") (codes "DROP") _ 4 5
          ((word, codes "TABLE") ∷ table_shapes f.schema f.table
            ++ (word, if cascade then codes "CASCADE" else codes "RESTRICT") ∷ [])
          (drop_reads up _) refl (omega arith) (drop_table_read up f cascade) refl in
      subst (λ script. IsRated script type_name (asked_table f.schema f.table ∷ [])) (sym it.is)
        (record { rated = refl; typed = refl })

  drop_index-IsRated :
      (schema name : Text) → IsRated (classify up (drop_index schema name)) confirm []
  unfolding guard drop_index lex_at token_at
  drop_index-IsRated schema name =
      let rest = qualified schema name ++ codes ";" in
      let read =
        literal_read up (codes "index ") ((word, codes "INDEX") ∷ []) 6 rest refl
        ∙ ap (λ us. (word, codes "INDEX") ∷ us) (table_read up schema name (codes ";") refl) in
      let it =
        flat-IsScriptOf up (codes "drop ") (codes "DROP") (codes "index " ++ rest) 4 5
          ((word, codes "INDEX") ∷ table_shapes schema name)
          (drop_reads up (codes "index " ++ rest)) refl (omega arith) read refl in
      subst (λ script. IsRated script confirm []) (sym it.is)
        (record { rated = refl; typed = refl })

  drop_column-IsRated :
      (f : TableFacts) (column : Text)
      → IsRated (classify up (drop_column f column)) type_name (asked_name column ∷ [])
  unfolding guard drop_column lex_at token_at
  drop_column-IsRated f column =
      let it =
        altered up f (codes " drop column " ++ (quote column ++ codes ";"))
          ((word, codes "DROP") ∷ (word, codes "COLUMN") ∷ name_shape column ∷ []) refl
          (named_column up (codes " drop column ") column (codes ";")
            ((word, codes "DROP") ∷ (word, codes "COLUMN") ∷ []) (semicolon ∷ []) 13 refl refl refl)
          refl in
      subst (λ script. IsRated script type_name (asked_name column ∷ [])) (sym it.is)
        (record { rated = refl; typed = refl })

  drop_constraint-IsRated :
      (f : TableFacts) (name : Text) → IsRated (classify up (drop_constraint f name)) confirm []
  unfolding guard drop_constraint lex_at token_at
  drop_constraint-IsRated f name =
      let it =
        altered up f (codes " drop constraint " ++ (quote name ++ codes ";"))
          ((word, codes "DROP") ∷ (word, codes "CONSTRAINT") ∷ name_shape name ∷ []) refl
          (named_column up (codes " drop constraint ") name (codes ";")
            ((word, codes "DROP") ∷ (word, codes "CONSTRAINT") ∷ []) (semicolon ∷ []) 17 refl refl
            refl)
          refl in
      subst (λ script. IsRated script confirm []) (sym it.is)
        (record { rated = refl; typed = refl })

  set_not_null-IsRated :
      (f : TableFacts) (column : Text) → IsRated (classify up (set_not_null f column)) safe []
  unfolding guard set_not_null lex_at token_at
  set_not_null-IsRated f column =
      let it =
        on_column up f column (codes " set not null;")
          ((word, codes "SET") ∷ (word, codes "NOT") ∷ (word, codes "NULL") ∷ []) refl refl refl in
      subst (λ script. IsRated script safe []) (sym it.is) (record { rated = refl; typed = refl })

  drop_not_null-IsRated :
      (f : TableFacts) (column : Text) → IsRated (classify up (drop_not_null f column)) safe []
  unfolding guard drop_not_null lex_at token_at
  drop_not_null-IsRated f column =
      let it =
        on_column up f column (codes " drop not null;")
          ((word, codes "DROP") ∷ (word, codes "NOT") ∷ (word, codes "NULL") ∷ []) refl refl refl in
      subst (λ script. IsRated script safe []) (sym it.is) (record { rated = refl; typed = refl })

  drop_default-IsRated :
      (f : TableFacts) (column : Text) → IsRated (classify up (drop_default f column)) safe []
  unfolding guard drop_default lex_at token_at
  drop_default-IsRated f column =
      let it =
        on_column up f column (codes " drop default;")
          ((word, codes "DROP") ∷ (word, codes "DEFAULT") ∷ []) refl refl refl in
      subst (λ script. IsRated script safe []) (sym it.is) (record { rated = refl; typed = refl })

  enable_rls-IsRated : (f : TableFacts) → IsRated (classify up (enable_rls f)) safe []
  unfolding guard enable_rls lex_at token_at
  enable_rls-IsRated f =
      let it =
        altered up f (codes " enable row level security;")
          ((word, codes "ENABLE")
            ∷ (word, codes "ROW")
            ∷ (word, codes "LEVEL")
            ∷ (word, codes "SECURITY")
            ∷ [])
          refl refl refl in
      subst (λ script. IsRated script safe []) (sym it.is) (record { rated = refl; typed = refl })

  grant_anon_read-IsRated : (f : TableFacts) → IsRated (classify up (grant_anon_read f)) confirm []
  unfolding guard grant_anon_read lex_at token_at
  grant_anon_read-IsRated f =
      let rest = qualified f.schema f.table ++ codes " to anon;" in
      let t = codes "select on " ++ rest in
      let read =
        literal_read up (codes "select on ") ((word, codes "SELECT") ∷ (word, codes "ON") ∷ []) 10
          rest refl
        ∙ ap (λ us. (word, codes "SELECT") ∷ (word, codes "ON") ∷ us)
            (table_read up f.schema f.table (codes " to anon;") refl) in
      let it =
        flat-IsScriptOf up (codes "grant ") (codes "GRANT") t 5 6
          ((word, codes "SELECT") ∷ (word, codes "ON") ∷ table_shapes f.schema f.table
            ++ (word, codes "TO") ∷ (word, codes "ANON") ∷ [])
          refl refl (omega arith) read refl in
      subst (λ script. IsRated script confirm []) (sym it.is)
        (record { rated = refl; typed = refl })

  revoke_anon_access-IsRated :
      (f : TableFacts) → IsRated (classify up (revoke_anon_access f)) safe []
  unfolding guard revoke_anon_access lex_at token_at
  revoke_anon_access-IsRated f =
      let rest = qualified f.schema f.table ++ codes " from anon;" in
      let t = codes "all on " ++ rest in
      let read =
        literal_read up (codes "all on ") ((word, codes "ALL") ∷ (word, codes "ON") ∷ []) 7 rest
          refl
        ∙ ap (λ us. (word, codes "ALL") ∷ (word, codes "ON") ∷ us)
            (table_read up f.schema f.table (codes " from anon;") refl) in
      let it =
        flat-IsScriptOf up (codes "revoke ") (codes "REVOKE") t 6 7
          ((word, codes "ALL") ∷ (word, codes "ON") ∷ table_shapes f.schema f.table
            ++ (word, codes "FROM") ∷ (word, codes "ANON") ∷ [])
          refl refl (omega arith) read refl in
      subst (λ script. IsRated script safe []) (sym it.is) (record { rated = refl; typed = refl })

-- The rungs of the statements that write names only.
pub record IsOnLadder (up : Text → Text) (f : TableFacts) (cascade : Bool)
    (schema index column constraint : Text) : Type 0 where
  pub table_dropped :
      IsRated (classify up (drop_table f cascade)) type_name (asked_table f.schema f.table ∷ [])
  pub column_dropped :
      IsRated (classify up (drop_column f column)) type_name (asked_name column ∷ [])
  pub constraint_dropped : IsRated (classify up (drop_constraint f constraint)) confirm []
  pub index_dropped : IsRated (classify up (drop_index schema index)) confirm []
  pub anon_granted : IsRated (classify up (grant_anon_read f)) confirm []
  pub anon_revoked : IsRated (classify up (revoke_anon_access f)) safe []
  pub not_null_set : IsRated (classify up (set_not_null f column)) safe []
  pub not_null_dropped : IsRated (classify up (drop_not_null f column)) safe []
  pub default_dropped : IsRated (classify up (drop_default f column)) safe []
  pub rls_enabled : IsRated (classify up (enable_rls f)) safe []

-- Whatever the names are, the guard asks for the table's name before DROP TABLE, with CASCADE or
-- not, and for the column's before DROP COLUMN, each as it writes them; it wants DROP CONSTRAINT,
-- DROP INDEX and the grant to anon confirmed, with no name to type; and it takes as safe the
-- revocation, SET NOT NULL, DROP NOT NULL, DROP DEFAULT and enabling row level security.
pub statements-IsOnLadder :
    (up : Text → Text) (f : TableFacts) (cascade : Bool) (schema index column constraint : Text)
    → IsOnLadder up f cascade schema index column constraint
statements-IsOnLadder up f cascade schema index column constraint = record {
  table_dropped = drop_table-IsRated up f cascade;
  column_dropped = drop_column-IsRated up f column;
  constraint_dropped = drop_constraint-IsRated up f constraint;
  index_dropped = drop_index-IsRated up schema index;
  anon_granted = grant_anon_read-IsRated up f;
  anon_revoked = revoke_anon_access-IsRated up f;
  not_null_set = set_not_null-IsRated up f column;
  not_null_dropped = drop_not_null-IsRated up f column;
  default_dropped = drop_default-IsRated up f column;
  rls_enabled = enable_rls-IsRated up f;
}
