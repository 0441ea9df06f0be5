-- ===== src/Dashboard/Dml/Insert.antt =====
-- How `insertRow` is read.
use mathlib.Core.List.{append-nil}
use corebase.Base.{◌≡◌, ◌≢◌, refl, sym, ap, ◌∙◌, false, List, [], ◌∷◌, ◌++◌, arith, length, map}
use corebase.Base.Texts.{Text, codes, digits, numbered}
use corebase.SqlGuard.Lexer.{word, punct, lex, lex_at, token_at}
use corebase.SqlGuard.Lexer.Chunks.{Chunk, anything, literal_chunk}
use corebase.SqlGuard.Split.Closed.{inner, Closed, after_inner}
use corebase.SqlGuard.Classify.Admitted.{command-IsAdmitted, command-numbers, inserts}
use corebase.Dashboard.GridSql.{qualified, quoted_list}
use corebase.Dashboard.Dml.{
  holes, BoundCell, Cell, Target, Param, RowPlan, Compiled, compiled, incomplete, bound_cells, bind,
  binding_of, insert_sql, insert_row, no_column,
}
use corebase.Dashboard.Dml.Pieces.{counted, numbered-counted, loosen, names, some_holes, table_name}
use corebase.Dashboard.Dml.Bound.{IsBound, length-map, placeholder_of, numbered_placeholders}

module _ (up : Text → Text) where
  first_bracket : Chunk up inner anything (codes "\n       (") []
  unfolding lex_at token_at
  first_bracket =
      literal_chunk up inner (codes "\n       (") ((punct, codes "(") ∷ []) 9 (λ rest. refl) refl

  values_word : Chunk up inner anything (codes ")\nvalues (") []
  unfolding lex_at token_at
  values_word =
      literal_chunk up inner (codes ")\nvalues (")
        ((punct, codes ")") ∷ (word, codes "VALUES") ∷ (punct, codes "(") ∷ []) 10 (λ rest. refl)
        refl

  returning : Closed up false (codes ")\nreturning *;") []
  unfolding lex_at token_at
  returning = record {
    read =
        (punct, codes ")")
        ∷ (word, codes "RETURNING")
        ∷ (punct, codes "*")
        ∷ (punct, codes ";")
        ∷ [];
    reads = refl;
    closed = refl;
    found = λ e. absurd (cc);
    numbers = refl;
  }

  into_word : Chunk up inner anything (codes "into ") []
  unfolding lex_at token_at
  into_word =
      literal_chunk up inner (codes "into ") ((word, codes "INTO") ∷ []) 5 (λ rest. refl) refl

  insert_tail :
      (target : Target) (c : Text) (cs : List Text)
      → Closed up false
          (codes "into "
            ++ (qualified target.schema target.table
                ++ (codes "\n       ("
                    ++ (quoted_list (c ∷ cs)
                        ++ (codes ")\nvalues ("
                            ++ (holes (c ∷ cs) 1 ++ codes ")\nreturning *;"))))))
          (numbered (λ _ n. digits n) 1 (c ∷ cs) ++ [])
  insert_tail target c cs =
      after_inner up into_word
        (after_inner up (loosen up (table_name up target.schema target.table))
          (after_inner up first_bracket
            (after_inner up (loosen up (names up c cs))
              (after_inner up values_word
                (after_inner up (loosen up (some_holes up c cs 1)) returning refl) refl)
              refl)
            refl)
          refl)
        refl

  insert_reads :
      (t : Text)
      → lex up (codes "insert " ++ t)
        ≡ record { kind = word; value = codes "INSERT"; start = 0; stop = 6 } ∷ lex_at up 0 7 t
  unfolding lex_at token_at
  insert_reads t = refl

-- What `insertRow` answers, in every case.
pub data IsInsert {V : Type 0} (up : Text → Text) (cells : List Cell)
    : Compiled (RowPlan V) → Type 0 where
  unfilled : bound_cells cells ≡ [] → IsInsert up cells (incomplete no_column)
  made :
      (plan : RowPlan V)
      → bound_cells cells ≢ []
      → plan.params ≡ map bind (bound_cells cells)
      → IsBound up plan
      → IsInsert up cells (compiled plan)

module _ {V : Type 0} (up : Text → Text) (string_of : V → Text) (target : Target) where
  abbrev planned : BoundCell → List BoundCell → RowPlan V
  planned c cs = record {
    sql = insert_sql string_of target (c ∷ cs);
    params = map bind (c ∷ cs);
    bindings = numbered binding_of 1 (c ∷ cs);
  }

  planned-IsBound : (c : BoundCell) (cs : List BoundCell) → IsBound up (planned c cs)
  planned-IsBound c cs =
      let columns = map (λ c. c.column) cs in
      let tail = insert_tail up target c.column columns in
      let upto : length (c ∷ cs) ≡ length (planned c cs).params =
        sym (length-map {B = Param V} bind (c ∷ cs)) in
      let all : length (c.column ∷ columns) ≡ length (c ∷ cs) =
        length-map (λ c. c.column) (c ∷ cs) in
      record {
        admitted =
            command-IsAdmitted up (codes "insert ") (codes "INSERT") _ 6 7 false (insert_reads up _)
              refl (omega arith) tail (inserts refl);
        placeholders =
            command-numbers up (codes "insert ") (codes "INSERT") _ 6 7 false (insert_reads up _)
              tail
            ∙ (append-nil (numbered (λ _ n. digits n) 1 (c.column ∷ columns))
                ∙ (numbered-counted (c.column ∷ columns) 1 ∙ ap (counted 1) (all ∙ upto)));
        bound =
            numbered_placeholders binding_of (λ c n. refl) (c ∷ cs) 1
            ∙ ap (λ n. map placeholder_of (counted 1 n)) upto;
      }

  -- An insert with a column that is given a value is compiled, to one statement that the guard takes
  -- as safe and that is run inside the console's transaction, whatever the names and values are.
  -- The numbers read in its text, and the bindings' placeholders, are 1 to the number of parameters,
  -- in order; the parameters are the given values. With no such column it is refused.
  insert_row-IsInsert : (cells : List Cell) → IsInsert up cells (insert_row string_of target cells)
  unfolding insert_row
  insert_row-IsInsert cells = answer (bound_cells cells) refl
    where
      answer :
          (given : List BoundCell)
          → bound_cells cells ≡ given
          → IsInsert up cells (insert_row string_of target cells)
      answer [] e = rw (e, insert_row) (unfilled e)
      answer (c ∷ cs) e =
          rw (e, insert_row)
            (made (planned c cs) (λ none_left. absurd (cc)) (rw e refl) (planned-IsBound c cs))
