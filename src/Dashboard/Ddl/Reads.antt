-- ===== src/Dashboard/Ddl/Reads.antt =====
-- How the statements of the table editor are read.
use mathlib.Core.List.{append_assoc}
use corebase.Base.{
  ℕ, ◌≡◌, refl, ap, ◌∙◌, Bool, true, false, List, [], ◌∷◌, ◌++◌, arith, map, if◌then◌else◌,
}
use corebase.Base.Texts.{Text, codes}
use corebase.SqlGuard.Lexer.{word, punct, ident, lex, lex_at, token_at}
use corebase.SqlGuard.Lexer.Chunks.{Shape, shape, shapes, unquoted, every, name_read, literal_read}
use corebase.SqlGuard.Split.Closed.{flat}
use corebase.SqlGuard.Split.Single.{semicolon}
use corebase.SqlGuard.Classify.{classify}
use corebase.SqlGuard.Classify.Flat.{IsScriptOf, flat-IsScriptOf}
use corebase.Dashboard.GridSql.{quote, qualified}
use corebase.Dashboard.Ddl.{TableFacts}

abbrev pub name_shape : Text → Shape
name_shape x = (ident, quote x)

abbrev pub table_shapes : Text → Text → List Shape
table_shapes schema table = name_shape schema ∷ (punct, codes ".") ∷ name_shape table ∷ []

module _ (up : Text → Text) where
  pub table_read :
      (schema table rest : Text)
      → unquoted rest ≡ true
      → shapes up (qualified schema table ++ rest) ≡ table_shapes schema table ++ shapes up rest
  unfolding lex_at token_at
  table_read schema table rest k =
      ap (shapes up) (append_assoc (quote schema) (codes "." ++ quote table) rest)
      ∙ (name_read up schema (codes "." ++ quote table ++ rest) refl
          ∙ ap (λ ts. name_shape schema ∷ ts)
              (literal_read up (codes ".") ((punct, codes ".") ∷ []) 1 (quote table ++ rest) refl
                ∙ ap (λ ts. (punct, codes ".") ∷ ts) (name_read up table rest k)))

  pub named_table :
      (schema table rest : Text) (ts : List Shape)
      → unquoted rest ≡ true
      → shapes up rest ≡ ts
      → shapes up (codes "table " ++ (qualified schema table ++ rest))
        ≡ (word, codes "TABLE") ∷ table_shapes schema table ++ ts
  unfolding lex_at token_at
  named_table schema table rest ts k h =
      literal_read up (codes "table ") ((word, codes "TABLE") ∷ []) 6
        (qualified schema table ++ rest) refl
      ∙ ap (λ us. (word, codes "TABLE") ∷ us)
          (table_read schema table rest k ∙ ap (λ us. table_shapes schema table ++ us) h)

  -- Words, a name and an action on it.
  pub named_column :
      (words column action : Text) (ws ts : List Shape) (n : ℕ)
      → shapes up (words ++ (quote column ++ action))
        ≡ ws ++ map shape (lex_at up 0 n (quote column ++ action))
      → unquoted action ≡ true
      → shapes up action ≡ ts
      → shapes up (words ++ (quote column ++ action)) ≡ ws ++ name_shape column ∷ ts
  named_column words column action ws ts n h k e =
      literal_read up words ws n (quote column ++ action) h
      ∙ ap (λ us. ws ++ us) (name_read up column action k ∙ ap (λ us. name_shape column ∷ us) e)

  pub drop_reads :
      (t : Text)
      → lex up (codes "drop " ++ t)
        ≡ record { kind = word; value = codes "DROP"; start = 0; stop = 4 } ∷ lex_at up 0 5 t
  unfolding lex_at token_at
  drop_reads t = refl

  pub alter_reads :
      (t : Text)
      → lex up (codes "alter " ++ t)
        ≡ record { kind = word; value = codes "ALTER"; start = 0; stop = 5 } ∷ lex_at up 0 6 t
  unfolding lex_at token_at
  alter_reads t = refl

  pub drop_table_read :
      (f : TableFacts) (cascade : Bool)
      → shapes up (
          codes "table "
          ++ (qualified f.schema f.table
              ++ (if cascade then codes " cascade;" else codes " restrict;")))
        ≡ (word, codes "TABLE") ∷ table_shapes f.schema f.table
          ++ (word, if cascade then codes "CASCADE" else codes "RESTRICT") ∷ semicolon ∷ []
  unfolding lex_at token_at
  drop_table_read f true = named_table f.schema f.table (codes " cascade;") _ refl refl
  drop_table_read f false = named_table f.schema f.table (codes " restrict;") _ refl refl

  -- ALTER TABLE and what follows the table.
  pub altered :
      (f : TableFacts) (rest : Text) (ts : List Shape)
      → unquoted rest ≡ true
      → shapes up rest ≡ ts ++ semicolon ∷ []
      → every flat ts ≡ true
      → IsScriptOf
          (codes "ALTER")
          5
          ((word, codes "TABLE") ∷ table_shapes f.schema f.table ++ ts)
          (classify up (codes "alter table " ++ (qualified f.schema f.table ++ rest)))
  altered f rest ts k h e =
      let t = codes "table " ++ (qualified f.schema f.table ++ rest) in
      flat-IsScriptOf up (codes "alter ") (codes "ALTER") t 5 6
        ((word, codes "TABLE") ∷ table_shapes f.schema f.table ++ ts) (alter_reads t) refl
        (omega arith) (named_table f.schema f.table rest (ts ++ semicolon ∷ []) k h) (rw e refl)

  -- An action on a column that drops none of its data.
  pub on_column :
      (f : TableFacts) (column action : Text) (ts : List Shape)
      → unquoted action ≡ true
      → shapes up action ≡ ts ++ semicolon ∷ []
      → every flat ts ≡ true
      → IsScriptOf
          (codes "ALTER")
          5
          ((word, codes "TABLE") ∷ table_shapes f.schema f.table
            ++ ((word, codes "ALTER") ∷ (word, codes "COLUMN") ∷ name_shape column ∷ ts))
          (classify up (
            codes "alter table "
            ++ (qualified f.schema f.table
                ++ (codes " alter column " ++ (quote column ++ action)))))
  unfolding lex_at token_at
  on_column f column action ts k h e =
      altered f (codes " alter column " ++ (quote column ++ action))
        ((word, codes "ALTER") ∷ (word, codes "COLUMN") ∷ name_shape column ∷ ts) refl
        (named_column (codes " alter column ") column action
          ((word, codes "ALTER") ∷ (word, codes "COLUMN") ∷ []) (ts ++ semicolon ∷ []) 14 refl k h)
        (rw e refl)
