-- ===== src/Dashboard/GridSql.antt =====
-- apps/dashboard/src/lib/grid-sql.ts: the SQL of the grid. A text is the list of its UTF-16 code
-- units.
use corebase.Base.{ℕ, ◌*◌, Option, none, some, List, [], ◌∷◌, ◌++◌, map}
use corebase.Base.Texts.{Text, codes, join, enquoted, digits}

abbrev pub quote : Text → Text
quote identifier = enquoted b'"' identifier

abbrev pub qualified : Text → Text → Text
qualified schema table = quote schema ++ (codes "." ++ quote table)

-- `names.map(quote).join(', ')`
abbrev pub quoted_list : List Text → Text
quoted_list names = join (codes ", ") (map quote names)

pub data Direction : Type 0 where
  asc desc : Direction

abbrev pub direction_word : Direction → Text
direction_word asc = codes "asc"
direction_word desc = codes "desc"

pub record PageRequest : Type 0 where
  pub schema : Text
  pub table : Text
  pub columns : List Text
  pub page : ℕ
  pub page_size : ℕ
  pub sort : Option (Text × Direction)
  pub primary_key : List Text

abbrev pub selected : PageRequest → Text
selected req = elim req.columns [ [] ↦ codes "*" | c ∷ columns ↦ quoted_list (c ∷ columns) ]

-- By the sort, else by the primary key, else not at all.
abbrev pub order_by : PageRequest → Text
order_by req = elim req.sort [
  | some (column, direction) ↦
      codes "\norder by " ++ (quote column ++ (codes " " ++ direction_word direction))
  | none ↦ elim req.primary_key [
    | [] ↦ []
    | c ∷ columns ↦ codes "\norder by " ++ quoted_list (c ∷ columns)
  ]
]

unfoldable pub page_sql : PageRequest → Text
page_sql req =
    codes "select "
    ++ (selected req
        ++ (codes "\n  from "
            ++ (qualified req.schema req.table
                ++ (order_by req
                    ++ (codes "\n limit "
                        ++ (digits req.page_size
                            ++ (codes " offset " ++ digits (req.page * req.page_size))))))))

unfoldable pub count_sql : Text → Text → Text
count_sql schema table = codes "select count(*) as exact from " ++ qualified schema table
