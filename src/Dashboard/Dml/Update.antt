-- ===== src/Dashboard/Dml/Update.antt =====
-- How `updateRow` is read.
use mathlib.Core.List.{append-nil}
use corebase.Base.{
  ℕ, ◌+◌, ◌≡◌, ◌≢◌, refl, ap, ◌∙◌, subst, inl, inr, true, false, List, [], ◌∷◌, ◌++◌, arith, any,
  length, length-append, map, Bool-cases,
}
use corebase.Base.Texts.{Text, codes, join, digits, numbered}
use corebase.SqlGuard.Lexer.{word, lex, lex_at, token_at}
use corebase.SqlGuard.Lexer.Chunks.{Chunk, calm, anything, literal_chunk, append}
use corebase.SqlGuard.Split.Closed.{inner, flat, Closed, after_flat, after_inner}
use corebase.SqlGuard.Classify.Admitted.{command-IsAdmitted, command-numbers, updates}
use corebase.Dashboard.GridSql.{qualified}
use corebase.Dashboard.Dml.{
  set_of, BoundCell, Cell, Target, Field, Param, RowPlan, Compiled, compiled, incomplete, no_change,
  no_primary_key, no_key_value, bound_cells, bind, binding_of, key_param_of, key_binding,
  key_params, is_null, where_sql, update_sql, update_row,
}
use corebase.Dashboard.Dml.Pieces.{
  counted, loosen, relax, names, some_holes, compared, table_name, sets, opened, shut, between_rows,
}
use corebase.Dashboard.Dml.Bound.{
  IsBound, length-map, placeholder_of, numbered_twice, placeholders_twice, semicolon, where_before,
}

module _ (up : Text → Text) where
  set_word : Chunk up flat anything (codes "\n   set ") []
  unfolding lex_at token_at
  set_word =
      literal_chunk up flat (codes "\n   set ") ((word, codes "SET") ∷ []) 8 (λ rest. refl) refl

  where_chunk :
      {V : Type 0} (string_of : V → Text) (c : Text) (more : List Text) (from : ℕ)
      → Chunk up inner calm
          (where_sql string_of c more from)
          (numbered (λ _ n. digits n) from (c ∷ more))
  where_chunk string_of c [] from = loosen up (compared up c from)
  where_chunk string_of c (d ∷ more) from =
      let ns = numbered (λ _ n. digits n) from (c ∷ d ∷ more) in
      let columns = loosen up (names up c (d ∷ more)) in
      let its_holes =
        append up inner (loosen up (some_holes up c (d ∷ more) from)) (shut up) (λ rest k. refl) in
      let all =
        append up inner (opened up)
          (append up inner columns (append up inner (between_rows up) its_holes (λ rest k. refl))
            (λ rest k. refl))
          (λ rest k. refl) in
      subst (Chunk up inner calm (where_sql string_of c (d ∷ more) from)) (append-nil ns)
        (relax up all (λ rest k. refl))

  update_tail :
      {V : Type 0} (string_of : V → Text) (target : Target) (c : BoundCell) (cs : List BoundCell)
      (k : Text) (key : List Text) (from : ℕ)
      → Closed up true
          (qualified target.schema target.table
            ++ (codes "\n   set "
                ++ (join (codes ",\n       ") (numbered set_of 1 (c ∷ cs))
                    ++ (codes "\n where " ++ (where_sql string_of k key from ++ codes ";")))))
          (numbered (λ _ n. digits n) 1 (c ∷ cs)
            ++ (numbered (λ _ n. digits n) from (k ∷ key) ++ []))
  update_tail string_of target c cs k key from =
      after_flat up (table_name up target.schema target.table)
        (after_flat up set_word
          (after_flat up (sets up c cs)
            (where_before up
              (after_inner up (where_chunk string_of k key from) (semicolon up) refl))
            refl)
          refl)
        refl

  update_reads :
      (t : Text)
      → lex up (codes "update " ++ t)
        ≡ record { kind = word; value = codes "UPDATE"; start = 0; stop = 6 } ∷ lex_at up 0 7 t
  unfolding lex_at token_at
  update_reads t = refl

-- What `updateRow` answers, in every case.
pub data IsUpdate {V : Type 0} (up : Text → Text) (string_of : V → Text) (row : Text → Field V)
    (key : List Text) (cells : List Cell) : Compiled (RowPlan V) → Type 0 where
  unchanged : bound_cells cells ≡ [] → IsUpdate up string_of row key cells (incomplete no_change)
  keyless :
      bound_cells cells ≢ []
      → key ≡ []
      → IsUpdate up string_of row key cells (incomplete no_primary_key)
  null_key :
      bound_cells cells ≢ []
      → any (is_null string_of) (key_params string_of key row) ≡ true
      → IsUpdate up string_of row key cells (incomplete no_key_value)
  made :
      (plan : RowPlan V)
      → bound_cells cells ≢ []
      → key ≢ []
      → any (is_null string_of) (key_params string_of key row) ≡ false
      → plan.params ≡ map bind (bound_cells cells) ++ key_params string_of key row
      → IsBound up plan
      → IsUpdate up string_of row key cells (compiled plan)

module _ {V : Type 0} (up : Text → Text) (string_of : V → Text) (target : Target)
    (row : Text → Field V) where
  abbrev planned : BoundCell → List BoundCell → Text → List Text → RowPlan V
  planned c cs k key =
      let changes = c ∷ cs in
      let from = length changes + 1 in
      record {
        sql = update_sql string_of target changes (where_sql string_of k key from);
        params = map bind changes ++ key_params string_of (k ∷ key) row;
        bindings =
            numbered binding_of 1 changes ++ numbered (key_binding string_of row) from (k ∷ key);
      }

  many :
      (c : BoundCell) (cs : List BoundCell) (k : Text) (key : List Text)
      → length (c ∷ cs) + length (k ∷ key) ≡ length (planned c cs k key).params
  many c cs k key =
      let keys = key_params string_of (k ∷ key) row in
      let bound : List (Param V) = map bind (c ∷ cs) in
      omega (
        arith,
        length-append bound keys,
        length-map {B = Param V} bind (c ∷ cs),
        length-map (λ c. key_param_of string_of (row c)) (k ∷ key),
      )

  planned-IsBound :
      (c : BoundCell) (cs : List BoundCell) (k : Text) (key : List Text)
      → IsBound up (planned c cs k key)
  planned-IsBound c cs k key =
      let tail = update_tail up string_of target c cs k key (length (c ∷ cs) + 1) in
      let upto = many c cs k key in
      record {
        admitted =
            command-IsAdmitted up (codes "update ") (codes "UPDATE") _ 6 7 true (update_reads up _)
              refl (omega arith) tail (updates refl refl);
        placeholders =
            command-numbers up (codes "update ") (codes "UPDATE") _ 6 7 true (update_reads up _)
              tail
            ∙ (numbered_twice (c ∷ cs) (k ∷ key) ∙ ap (counted 1) upto);
        bound =
            placeholders_twice binding_of (key_binding string_of row) (λ c n. refl) (λ c n. refl)
              (c ∷ cs) (k ∷ key)
            ∙ ap (λ n. map placeholder_of (counted 1 n)) upto;
      }

  -- An update with a change, a key and a value in each of its columns is compiled, to one statement
  -- that the guard takes as safe and that is run inside the console's transaction, whatever the
  -- names and values are. The numbers read in its text, and the bindings' placeholders, are 1 to the
  -- number of parameters, in order; the parameters are the new values and then the key's. In every
  -- other case what is missing is said.
  pub update_row-IsUpdate :
      (key : List Text) (cells : List Cell)
      → IsUpdate up string_of row key cells (update_row string_of target row key cells)
  unfolding update_row
  update_row-IsUpdate key cells = answer (bound_cells cells) key refl
    where
      answer :
          (changes : List BoundCell) (key : List Text)
          → bound_cells cells ≡ changes
          → IsUpdate up string_of row key cells (update_row string_of target row key cells)
      answer [] key e = rw (e, update_row) (unchanged e)
      answer (c ∷ cs) [] e = rw (e, update_row) (keyless (λ none_left. absurd (cc)) refl)
      answer (c ∷ cs) (k ∷ key) e =
          let some_change : bound_cells cells ≢ [] = λ none_left. absurd (cc) in
          elim (Bool-cases (any (is_null string_of) (key_params string_of (k ∷ key) row))) [
            | inl missing ↦ rw (e, update_row, missing) (null_key some_change missing)
            | inr whole ↦
                rw (e, update_row, whole)
                  (made (planned c cs k key) some_change (λ none_left. absurd (cc)) whole
                    (rw e refl) (planned-IsBound c cs k key))
          ]
