-- ===== src/Dashboard/Ddl/Tests.antt =====
-- A table with a name that would end a careless statement.
use corebase.Base.{◌≡◌, refl, true, false, none, [], ◌∷◌}
use corebase.Base.Texts.{codes, trim}
use corebase.Dashboard.Ddl.{
  TableFacts, NewColumn, built, impossible, create_table, drop_table, add_column, index_name,
}
use corebase.Dashboard.Ddl.Ladder.{IsOnLadder, statements-IsOnLadder}

abbrev facts : TableFacts
facts = record {
  schema = codes "public";
  table = codes "a\"; drop table x --";
  rows_estimate = none;
}

abbrev column : NewColumn
column = record {
  name = codes "n";
  column_type = codes " int ";
  nullable = false;
  default_expression = codes " ";
}

drops_a_table :
    drop_table facts true ≡ codes "drop table \"public\".\"a\"\"; drop table x --\" cascade;"
unfolding drop_table
drops_a_table = refl

creates_a_table :
    create_table (codes "public") (codes "t") (column ∷ [])
    ≡ built (
        codes
          "create table \"public\".\"t\" (\n  \"id\" uuid primary key default gen_random_uuid(),\n  \"created_at\" timestamptz not null default now(),\n  \"n\" int not null\n);\n\nalter table \"public\".\"t\" enable row level security;")
unfolding create_table trim
creates_a_table = refl

-- The size of the table is unknown.
needs_a_default : add_column facts column ≡ impossible
unfolding add_column trim
needs_a_default = refl

names_an_index :
    index_name (λ s. s) (codes "t") (codes "a b" ∷ codes "c" ∷ []) ≡ codes "idx_t_a_b_c"
unfolding index_name
names_an_index = refl

statements-IsOnLadder_example :
    IsOnLadder (λ w. w) facts true (codes "public") (codes "i") (codes "c") (codes "k")
statements-IsOnLadder_example =
    statements-IsOnLadder (λ w. w) facts true (codes "public") (codes "i") (codes "c") (codes "k")
