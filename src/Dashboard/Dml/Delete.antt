-- ===== src/Dashboard/Dml/Delete.antt =====
-- How `deleteRows` is read.
use mathlib.Core.List.{append-nil, map-append}
use corebase.Base.{
  ℕ, ◌+◌, ◌*◌, ◌≡◌, ◌≢◌, refl, sym, ap, ◌∙◌, subst, true, false, List, [], ◌∷◌, ◌++◌, arith, length,
  length-append, map,
}
use corebase.Base.Texts.{Text, codes, join, numbered}
use corebase.SqlGuard.Lexer.{word, punct, lex, lex_at, token_at}
use corebase.SqlGuard.Lexer.Chunks.{Chunk, calm, anything, literal_chunk}
use corebase.SqlGuard.Split.Closed.{inner, flat, Closed, after_flat, after_inner}
use corebase.SqlGuard.Classify.Admitted.{command-IsAdmitted, command-numbers, deletes}
use corebase.Dashboard.GridSql.{qualified, quoted_list}
use corebase.Dashboard.Dml.{
  holes, Target, Field, RowPlan, Compiled, compiled, incomplete, no_primary_key, key_param_of,
  key_binding, key_params, delete_sql, delete_rows, grouped, tuples, rows_params, rows_bindings,
  no_row,
}
use corebase.Dashboard.Dml.Pieces.{
  counted, numbered-counted, counted_append, loosen, relax, names, some_holes, table_name,
  in_parentheses, join_chunk, comma, Items, last, more,
}
use corebase.Dashboard.Dml.Bound.{
  IsBound, length-map, placeholder_of, numbered_placeholders, where_before,
}

module _ (up : Text → Text) where
  from_word : Chunk up flat anything (codes "from ") []
  unfolding lex_at token_at
  from_word =
      literal_chunk up flat (codes "from ") ((word, codes "FROM") ∷ []) 5 (λ rest. refl) refl

  in_word : Chunk up inner anything (codes " in (") []
  unfolding lex_at token_at
  in_word =
      literal_chunk up inner (codes " in (") ((word, codes "IN") ∷ (punct, codes "(") ∷ []) 5
        (λ rest. refl) refl

  the_end : Closed up false (codes ");") []
  unfolding lex_at token_at
  the_end = record {
    read = (punct, codes ")") ∷ (punct, codes ";") ∷ [];
    reads = refl;
    closed = refl;
    found = λ e. absurd (cc);
    numbers = refl;
  }

  grouped_chunk :
      {V : Type 0} (string_of : V → Text) (k : Text) (key : List Text) {s : Text} {ns : List Text}
      → Chunk up inner calm s ns
      → Chunk up inner calm (grouped string_of (k ∷ key) s) ns
  grouped_chunk string_of k [] c = c
  grouped_chunk string_of k (l ∷ key) {s} {ns} c =
      subst (Chunk up inner calm (grouped string_of (k ∷ l ∷ key) s)) (append-nil ns)
        (relax up (in_parentheses up c) (λ rest k. refl))

  delete_reads :
      (t : Text)
      → lex up (codes "delete " ++ t)
        ≡ record { kind = word; value = codes "DELETE"; start = 0; stop = 6 } ∷ lex_at up 0 7 t
  unfolding lex_at token_at
  delete_reads t = refl

-- As many as the rows have keys.
abbrev count {ℓ} : {A : Type ℓ} → ℕ → List A → ℕ
count size [] = 0
count size (row ∷ rows) = size + count size rows

module _ {V : Type 0} (up : Text → Text) (string_of : V → Text) (k : Text) (key : List Text) where
  one_row :
      (from : ℕ)
      → Chunk up inner calm
          (grouped string_of (k ∷ key) (holes (k ∷ key) from))
          (counted from (length (k ∷ key)))
  one_row from =
      subst (Chunk up inner calm (grouped string_of (k ∷ key) (holes (k ∷ key) from)))
        (numbered-counted (k ∷ key) from)
        (grouped_chunk up string_of k key (loosen up (some_holes up k key from)))

  rows-Items :
      (row : Text → Field V) (rows : List (Text → Field V)) (from : ℕ)
      → Items up inner
          (tuples string_of (k ∷ key) (row ∷ rows) from)
          (counted from (count (length (k ∷ key)) (row ∷ rows)))
  rows-Items row [] from =
      let same_count : length (k ∷ key) ≡ length (k ∷ key) + 0 = omega arith in
      subst (λ n. Items up inner (tuples string_of (k ∷ key) (row ∷ []) from) (counted from n))
        same_count (last (one_row from))
  rows-Items row (row' ∷ rows) from =
      subst (Items up inner (tuples string_of (k ∷ key) (row ∷ row' ∷ rows) from))
        (counted_append (length (k ∷ key)) (count (length (k ∷ key)) (row' ∷ rows)) from)
        (more (one_row from) (rows-Items row' rows (from + length (k ∷ key))))

  delete_tail :
      (target : Target) (row : Text → Field V) (rows : List (Text → Field V))
      → Closed up true
          (codes "from "
            ++ (qualified target.schema target.table
                ++ (codes "\n where "
                    ++ (grouped string_of (k ∷ key) (quoted_list (k ∷ key))
                        ++ (codes " in ("
                            ++ (join (codes ", ") (tuples string_of (k ∷ key) (row ∷ rows) 1)
                                ++ codes ");"))))))
          (counted 1 (count (length (k ∷ key)) (row ∷ rows)) ++ [])
  delete_tail target row rows =
      after_flat up (from_word up)
        (after_flat up (table_name up target.schema target.table)
          (where_before up (
            after_inner up (grouped_chunk up string_of k key (loosen up (names up k key)))
              (after_inner up (in_word up)
                (after_inner up
                  (join_chunk up (codes ", ") (loosen up (comma up)) (λ rest. refl)
                    (rows-Items row rows 1))
                  (the_end up) refl)
                refl)
              refl))
          refl)
        refl

  params_count :
      (rows : List (Text → Field V))
      → length (rows_params string_of (k ∷ key) rows) ≡ count (length (k ∷ key)) rows
  params_count [] = refl
  params_count (row ∷ rows) =
      length-append (key_params string_of (k ∷ key) row) (rows_params string_of (k ∷ key) rows)
      ∙ (let here = length-map (λ c. key_param_of string_of (row c)) (k ∷ key) in
          let rest = params_count rows in cc)

  bindings_placeholders :
      (rows : List (Text → Field V)) (r : ℕ)
      → map (λ b. b.placeholder) (rows_bindings string_of (k ∷ key) rows r)
        ≡ map placeholder_of (counted (r * length (k ∷ key) + 1) (count (length (k ∷ key)) rows))
  bindings_placeholders [] r = refl
  bindings_placeholders (row ∷ rows) r =
      let n = length (k ∷ key) in
      let from = r * n + 1 in
      let on : (r + 1) * n + 1 ≡ from + n = omega arith in
      map-append (λ b. b.placeholder) (numbered (key_binding string_of row) from (k ∷ key))
        (rows_bindings string_of (k ∷ key) rows (r + 1))
      ∙ (ap (λ xs. xs ++ map (λ b. b.placeholder) (rows_bindings string_of (k ∷ key) rows (r + 1)))
            (numbered_placeholders (key_binding string_of row) (λ c n. refl) (k ∷ key) from)
          ∙ (ap (λ xs. map placeholder_of (counted from n) ++ xs)
                (bindings_placeholders rows (r + 1)
                  ∙ ap (λ f. map placeholder_of (counted f (count n rows))) on)
              ∙ (sym
                    (map-append placeholder_of (counted from n) (counted (from + n) (count n rows)))
                  ∙ ap (map placeholder_of) (counted_append n (count n rows) from))))

-- What `deleteRows` answers, in every case.
pub data IsDelete {V : Type 0} (up : Text → Text) (string_of : V → Text)
    (rows : List (Text → Field V)) (key : List Text) : Compiled (RowPlan V) → Type 0 where
  rowless : rows ≡ [] → IsDelete up string_of rows key (incomplete no_row)
  keyless : rows ≢ [] → key ≡ [] → IsDelete up string_of rows key (incomplete no_primary_key)
  made :
      (plan : RowPlan V)
      → rows ≢ []
      → key ≢ []
      → plan.params ≡ rows_params string_of key rows
      → IsBound up plan
      → IsDelete up string_of rows key (compiled plan)

module _ {V : Type 0} (up : Text → Text) (string_of : V → Text) (target : Target) where
  abbrev planned : Text → List Text → (Text → Field V) → List (Text → Field V) → RowPlan V
  planned k key row rows = record {
    sql = delete_sql string_of target (k ∷ key) (row ∷ rows);
    params = rows_params string_of (k ∷ key) (row ∷ rows);
    bindings = rows_bindings string_of (k ∷ key) (row ∷ rows) 0;
  }

  planned-IsBound :
      (k : Text) (key : List Text) (row : Text → Field V) (rows : List (Text → Field V))
      → IsBound up (planned k key row rows)
  planned-IsBound k key row rows =
      let tail = delete_tail up string_of k key target row rows in
      let many = count (length (k ∷ key)) (row ∷ rows) in
      let upto : many ≡ length (planned k key row rows).params =
        sym (params_count up string_of k key (row ∷ rows)) in
      let first : 0 * length (k ∷ key) + 1 ≡ 1 = omega arith in
      record {
        admitted =
            command-IsAdmitted up (codes "delete ") (codes "DELETE") _ 6 7 true (delete_reads up _)
              refl (omega arith) tail (deletes refl refl);
        placeholders =
            command-numbers up (codes "delete ") (codes "DELETE") _ 6 7 true (delete_reads up _)
              tail
            ∙ (append-nil (counted 1 many) ∙ ap (counted 1) upto);
        bound =
            bindings_placeholders up string_of k key (row ∷ rows) 0
            ∙ (ap (λ f. map placeholder_of (counted f many)) first
                ∙ ap (λ n. map placeholder_of (counted 1 n)) upto);
      }

  -- A delete of one row or more by a key is compiled, to one statement that the guard takes as safe
  -- and that is run inside the console's transaction, whatever the names and values are. The
  -- numbers read in its text, and the bindings' placeholders, are 1 to the number of parameters,
  -- in order; the parameters are the rows' keys, row by row. Without a row, or else without a key,
  -- it is refused.
  delete_rows-IsDelete :
      (rows : List (Text → Field V)) (key : List Text)
      → IsDelete up string_of rows key (delete_rows string_of target rows key)
  unfolding delete_rows
  delete_rows-IsDelete [] key = rowless refl
  delete_rows-IsDelete (row ∷ rows) [] = keyless (λ none_left. absurd (cc)) refl
  delete_rows-IsDelete (row ∷ rows) (k ∷ key) =
      made (planned k key row rows) (λ none_left. absurd (cc)) (λ none_left. absurd (cc)) refl
        (planned-IsBound k key row rows)
