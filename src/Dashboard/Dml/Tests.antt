-- ===== src/Dashboard/Dml/Tests.antt =====
-- Edits of a table with a name that would end a careless statement.
use corebase.Base.{ℕ, ◌≡◌, refl, List, [], ◌∷◌, if◌then◌else◌}
use corebase.Base.Texts.{Text, codes, digits, same}
use corebase.Dashboard.Dml.{
  Cell, value, null, default, Target, Field, field, undefined_field, RowPlan, Compiled, compiled,
  incomplete, no_key_value, update_row, delete_rows,
}
use corebase.Dashboard.Dml.Update.{IsUpdate, update_row-IsUpdate}

abbrev same_case : Text → Text
same_case w = w

abbrev target : Target
target = record { schema = codes "public"; table = codes "a\"; drop table x --" }

abbrev cells : List Cell
cells =
    record { column = codes "n"; cell = value (codes "7") }
    ∷ record { column = codes "m"; cell = null }
    ∷ record { column = codes "o"; cell = default }
    ∷ []

abbrev row : Text → Field ℕ
row c = if same c (codes "id") then field 12 else undefined_field

abbrev key : List Text
key = codes "id" ∷ []

sql_of : Compiled (RowPlan ℕ) → Text
sql_of (incomplete _) = []
sql_of (compiled plan) = plan.sql

updates_a_row :
    sql_of (update_row digits target row key cells)
    ≡ codes
        "update \"public\".\"a\"\"; drop table x --\"\n   set \"n\" = $1,\n       \"m\" = $2\n where \"id\" = $3;"
unfolding sql_of update_row digits
updates_a_row = refl

deletes_rows :
    sql_of (delete_rows digits target (row ∷ row ∷ []) (codes "id" ∷ codes "of" ∷ []))
    ≡ codes
        "delete from \"public\".\"a\"\"; drop table x --\"\n where (\"id\", \"of\") in (($1, $2), ($3, $4));"
unfolding sql_of delete_rows digits
deletes_rows = refl

no_key : update_row digits target row (codes "of" ∷ []) cells ≡ incomplete no_key_value
unfolding update_row
no_key = refl

update_row-IsUpdate_example :
    IsUpdate same_case digits row key cells (update_row digits target row key cells)
update_row-IsUpdate_example = update_row-IsUpdate same_case digits target row key cells
