-- ===== src/SqlGuard/Tests.antt =====
-- Scripts as the console gets them; their words need no capital outside ASCII.
use corebase.Base.{◌+◌, ◌≤◌, ◌≡◌, refl, [], ◌∷◌, ◌++◌, length}
use corebase.Base.Texts.{enquoted, Text, codes, trim}
use corebase.SqlGuard.Lexer.{ident, string, block_comment, literal, token_at, lex_at, lex}
use corebase.SqlGuard.Lexer.Quoted.{lex_identifier, lex_string}
use corebase.SqlGuard.Lexer.Tiling.{token_at_moves}
use corebase.SqlGuard.Split.{split, split_from}
use corebase.SqlGuard.Names.{
  has_word_at, dotted_parts, dotted_name, names_from, object_names, actions_after, alter_actions,
  alter_drop, grant_target_from, grantee_from, grantee,
}
use corebase.SqlGuard.Danger.{safe, confirm, type_name, alter_drops, danger}
use corebase.SqlGuard.Classify.{
  Script, classify, classify_one, script_of, is_limitable, has_any_at, with_limit,
}
use corebase.SqlGuard.Classify.Verdict.{IsVerdict, classify-IsVerdict}

abbrev pub same_case : Text → Text
same_case w = w

abbrev verdict : Text → Script
verdict sql = classify same_case sql

guard : Unit {0}
unfolding block_comment literal token_at lex_at split split_from trim has_word_at dotted_parts
    dotted_name names_from object_names actions_after alter_actions alter_drop grant_target_from
    grantee_from grantee alter_drops danger classify classify_one script_of is_limitable has_any_at
    with_limit
guard = tt

drops_two :
    ((verdict (codes "drop table a, public.b cascade")).danger ≡ type_name)
    × ((verdict (codes "drop table a, public.b cascade")).names_to_type
        ≡ codes "a" ∷ codes "public.b" ∷ [])
unfolding guard
drops_two = (refl, refl)

drops_columns :
    (verdict (
      codes
        "ALTER TABLE t DROP COLUMN \"a\", ALTER b DROP DEFAULT, DROP IF EXISTS \"C\"")).names_to_type
    ≡ codes "a" ∷ codes "\"C\"" ∷ []
unfolding guard
drops_columns = refl

deletes :
    ((verdict (codes "DELETE FROM t")).danger ≡ confirm)
    × ((verdict (codes "DELETE FROM t WHERE id = 1; SELECT ';'")).danger ≡ safe)
unfolding guard
deletes = (refl, refl)

grants :
    ((verdict (codes "GRANT SELECT ON public.a TO anon")).danger ≡ confirm)
    × ((verdict (codes "GRANT USAGE ON SCHEMA public TO anon")).danger ≡ safe)
unfolding guard
grants = (refl, refl)

-- A DELETE with no WHERE under a WITH is on no rung.
delete_under_with :
    (verdict (codes "WITH d AS (DELETE FROM users RETURNING *) SELECT * FROM d")).danger ≡ safe
unfolding guard
delete_under_with = refl

-- A carriage return does not end a line comment here.
drop_after_return : (verdict (codes "SELECT 1 -- x\r; DROP TABLE users")).danger ≡ safe
unfolding guard
drop_after_return = refl

-- A limit after a trailing comment is in the comment.
limit_in_comment :
    lex same_case (with_limit (codes "SELECT 1 -- all") (codes "501"))
    ≡ lex same_case (codes "SELECT 1")
unfolding guard
limit_in_comment = refl

abbrev column : Text
column = codes "a\"; drop table x --"

lex_identifier_example :
    lex_at same_case 0 4 (enquoted b'"' column ++ codes " = $1")
    ≡ record {
      kind = ident;
      value = enquoted b'"' column;
      start = 4;
      stop = 4 + length (enquoted b'"' column);
    }
      ∷ lex_at same_case 0 (4 + length (enquoted b'"' column)) (codes " = $1")
lex_identifier_example = lex_identifier same_case column (codes " = $1") 4 refl

lex_string_example :
    lex_at same_case 0 0 (enquoted b'\'' (codes "it's; --") ++ codes ";")
    ≡ record {
      kind = string;
      value = enquoted b'\'' (codes "it's; --");
      start = 0;
      stop = 0 + length (enquoted b'\'' (codes "it's; --"));
    }
      ∷ lex_at same_case 0 (0 + length (enquoted b'\'' (codes "it's; --"))) (codes ";")
lex_string_example = lex_string same_case (codes "it's; --") (codes ";") 0 refl

token_at_moves_example : 1 ≤ (token_at b'/' (codes "* open")).1
token_at_moves_example = token_at_moves b'/' (codes "* open")

classify-IsVerdict_example : IsVerdict (classify same_case (codes "DROP TABLE a, b; SELECT 1"))
classify-IsVerdict_example = classify-IsVerdict same_case (codes "DROP TABLE a, b; SELECT 1")
