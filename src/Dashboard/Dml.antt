-- ===== src/Dashboard/Dml.antt =====
-- apps/dashboard/src/lib/dml.ts: row edits as statements with bound parameters. A row gives each
-- column a field; the values of fields are of any type, which `String` writes out.
pub mod Pieces
pub mod Bound
pub mod Update
pub mod Insert
pub mod Delete
mod Tests
use corebase.Base.{
  ℕ, zero, suc, ◌+◌, ◌*◌, Bool, true, false, Option, none, some, List, [], ◌∷◌, ◌++◌, any, map,
  length, if◌then◌else◌,
}
use corebase.Base.Texts.{Text, codes, join, digits, numbered}
use corebase.Dashboard.GridSql.{quote, qualified, quoted_list}

pub data CellValue : Type 0 where
  value : Text → CellValue
  null default : CellValue

pub data BoundValue : Type 0 where
  text : Text → BoundValue
  nothing : BoundValue

pub record Cell : Type 0 where
  pub column : Text
  pub cell : CellValue

pub record BoundCell : Type 0 where
  pub column : Text
  pub bound : BoundValue

pub record Target : Type 0 where
  pub schema : Text
  pub table : Text

-- What `row[c]` is, or is not.
pub data Field (Value : Type 0) : Type 0 where
  undefined_field null_field : Field Value
  field : Value → Field Value

pub data Param (Value : Type 0) : Type 0 where
  null_param : Param Value
  text_param : Text → Param Value
  key_param : Value → Param Value

pub record Binding : Type 0 where
  pub placeholder : Text
  pub column : Text
  pub shown : Text

pub record RowPlan (Value : Type 0) : Type 0 where
  pub sql : Text
  pub params : List (Param Value)
  pub bindings : List Binding

pub data Incomplete : Type 0 where
  no_primary_key no_key_value no_change no_column no_row : Incomplete

pub data Compiled {ℓ} (A : Type ℓ) : Type ℓ where
  incomplete : Incomplete → Compiled A
  compiled : A → Compiled A

-- The filter that takes `default` out.
abbrev pub bound_cells : List Cell → List BoundCell
bound_cells [] = []
bound_cells (c ∷ cells) = elim c.cell [
  | value t ↦ record { column = c.column; bound = text t } ∷ bound_cells cells
  | null ↦ record { column = c.column; bound = nothing } ∷ bound_cells cells
  | default ↦ bound_cells cells
]

abbrev pub bind : {V : Type 0} → BoundCell → Param V
bind c = elim c.bound [ text t ↦ text_param t | nothing ↦ null_param ]

abbrev pub shown : BoundCell → Text
shown c = elim c.bound [
  | nothing ↦ codes "null"
  | text t ↦ elim t [ [] ↦ codes "(empty string)" | d ∷ u ↦ d ∷ u ]
]

abbrev pub hole : ℕ → Text
hole n = b'$' ∷ digits n

abbrev pub holes : List Text → ℕ → Text
holes columns from = join (codes ", ") (numbered (λ _ n. hole n) from columns)

abbrev pub set_of : BoundCell → ℕ → Text
set_of c n = quote c.column ++ (codes " = " ++ hole n)

abbrev pub binding_of : BoundCell → ℕ → Binding
binding_of c n = record { placeholder = hole n; column = c.column; shown = shown c }

module _ {V : Type 0} (string_of : V → Text) where
  -- `row[c] ?? null` and `String(row[c])`
  abbrev pub key_param_of : Field V → Param V
  key_param_of (field v) = key_param v
  key_param_of _ = null_param

  abbrev pub key_shown : Field V → Text
  key_shown undefined_field = codes "undefined"
  key_shown null_field = codes "null"
  key_shown (field v) = string_of v

  abbrev pub is_null : Param V → Bool
  is_null null_param = true
  is_null _ = false

  abbrev pub key_params : List Text → (Text → Field V) → List (Param V)
  key_params primary_key row = map (λ c. key_param_of (row c)) primary_key

  abbrev pub key_binding : (Text → Field V) → Text → ℕ → Binding
  key_binding row c n = record { placeholder = hole n; column = c; shown = key_shown (row c) }

  abbrev pub where_sql : Text → List Text → ℕ → Text
  where_sql c [] from = quote c ++ (codes " = " ++ hole from)
  where_sql c (d ∷ more) from =
      codes "("
      ++ (quoted_list (c ∷ d ∷ more) ++ (codes ") = (" ++ (holes (c ∷ d ∷ more) from ++ codes ")")))

  abbrev pub pk_where : List Text → (Text → Field V) → ℕ → Compiled (Text × List (Param V))
  pk_where primary_key row from = elim primary_key [
    | [] ↦ incomplete no_primary_key
    | c ∷ more ↦
        if any is_null (key_params (c ∷ more) row)
        then incomplete no_key_value
        else compiled (where_sql c more from, key_params (c ∷ more) row)
  ]

  abbrev pub update_sql : Target → List BoundCell → Text → Text
  update_sql target changes where_text =
      codes "update "
      ++ (qualified target.schema target.table
          ++ (codes "\n   set "
              ++ (join (codes ",\n       ") (numbered set_of 1 changes)
                  ++ (codes "\n where " ++ (where_text ++ codes ";")))))

  unfoldable pub update_row :
      Target → (Text → Field V) → List Text → List Cell → Compiled (RowPlan V)
  update_row target row primary_key cells = elim (bound_cells cells) [
    | [] ↦ incomplete no_change
    | c ∷ more ↦
        let changes = c ∷ more in
        elim (pk_where primary_key row (length changes + 1)) [
          | incomplete why ↦ incomplete why
          | compiled (where_text, keys) ↦ compiled (record {
            sql = update_sql target changes where_text;
            params = map bind changes ++ keys;
            bindings =
                numbered binding_of 1 changes
                ++ numbered (key_binding row) (length changes + 1) primary_key;
          })
        ]
  ]

  abbrev pub insert_sql : Target → List BoundCell → Text
  insert_sql target given =
      codes "insert into "
      ++ (qualified target.schema target.table
          ++ (codes "\n       ("
              ++ (quoted_list (map (λ c. c.column) given)
                  ++ (codes ")\nvalues ("
                      ++ (holes (map (λ c. c.column) given) 1 ++ codes ")\nreturning *;")))))

  unfoldable pub insert_row : Target → List Cell → Compiled (RowPlan V)
  insert_row target cells = elim (bound_cells cells) [
    | [] ↦ incomplete no_column
    | c ∷ given ↦ compiled (record {
      sql = insert_sql target (c ∷ given);
      params = map bind (c ∷ given);
      bindings = numbered binding_of 1 (c ∷ given);
    })
  ]

  -- One side of the comparison, or one row of the other: in parentheses if there are several.
  abbrev pub grouped : List Text → Text → Text
  grouped (_ ∷ _ ∷ _) s = codes "(" ++ (s ++ codes ")")
  grouped _ s = s

  -- The rows' placeholders: `from` is one more than the number of parameters so far.
  abbrev pub tuples : List Text → List (Text → Field V) → ℕ → List Text
  tuples primary_key [] from = []
  tuples primary_key (row ∷ rows) from =
      grouped primary_key (holes primary_key from)
      ∷ tuples primary_key rows (from + length primary_key)

  abbrev pub rows_params : List Text → List (Text → Field V) → List (Param V)
  rows_params primary_key [] = []
  rows_params primary_key (row ∷ rows) = key_params primary_key row ++ rows_params primary_key rows

  abbrev pub rows_bindings : List Text → List (Text → Field V) → ℕ → List Binding
  rows_bindings primary_key [] r = []
  rows_bindings primary_key (row ∷ rows) r =
      numbered (key_binding row) (r * length primary_key + 1) primary_key
      ++ rows_bindings primary_key rows (r + 1)

  abbrev pub delete_sql : Target → List Text → List (Text → Field V) → Text
  delete_sql target primary_key rows =
      codes "delete from "
      ++ (qualified target.schema target.table
          ++ (codes "\n where "
              ++ (grouped primary_key (quoted_list primary_key)
                  ++ (codes " in ("
                      ++ (join (codes ", ") (tuples primary_key rows 1) ++ codes ");")))))

  unfoldable pub delete_rows : Target → List (Text → Field V) → List Text → Compiled (RowPlan V)
  delete_rows target rows primary_key = elim rows [
    | [] ↦ incomplete no_row
    | row ∷ more ↦ elim primary_key [
      | [] ↦ incomplete no_primary_key
      | c ∷ key ↦ compiled (record {
        sql = delete_sql target (c ∷ key) (row ∷ more);
        params = rows_params (c ∷ key) (row ∷ more);
        bindings = rows_bindings (c ∷ key) (row ∷ more) 0;
      })
    ]
  ]
