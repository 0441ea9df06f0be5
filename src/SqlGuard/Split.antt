-- ===== src/SqlGuard/Split.antt =====
-- packages/sql-guard/src/lex.ts: `split`. The slices of `tokens` are the lists of those read since
-- the last cut.
pub mod Closed
pub mod Single
use corebase.Base.{
  ℕ, ◌+◌, ◌-◌, Bool, true, false, not, ◌&&◌, ◌||◌, List, [], ◌∷◌, ◌++◌, ◌==◌, length, if◌then◌else◌,
}
use corebase.Base.Texts.{Text, slice, same, trim}
use corebase.SqlGuard.Lexer.{TokenKind, word, punct, ident, Token, lex}

abbrev pub is_word_kind : TokenKind → Bool
is_word_kind word = true
is_word_kind _ = false

abbrev pub is_punct_kind : TokenKind → Bool
is_punct_kind punct = true
is_punct_kind _ = false

abbrev pub is_ident_kind : TokenKind → Bool
is_ident_kind ident = true
is_ident_kind _ = false

-- `t.kind === 'punct' && t.value === c`
abbrev pub is_punct : ℕ → Token → Bool
is_punct c t = is_punct_kind t.kind && same t.value (c ∷ [])

-- `t.kind === 'word' && t.value === w`
abbrev pub is_word : Text → Token → Bool
is_word w t = is_word_kind t.kind && same t.value w

-- The depth of parentheses past a token, never under zero.
abbrev pub depth_after : ℕ → Token → ℕ
depth_after depth t =
    if is_punct b'(' t then depth + 1 else if is_punct b')' t then depth - 1 else depth

abbrev pub is_paren : Token → Bool
is_paren t = is_punct b'(' t || is_punct b')' t

abbrev pub is_cut : ℕ → Token → Bool
is_cut depth t = not (is_paren t) && is_punct b';' t && depth == 0

pub record Statement : Type 0 where
  pub sql : Text
  pub tokens : List Token
  pub start : ℕ
  pub stop : ℕ

-- `push`: the statement, if there is one.
abbrev pub push : Text → List Token → ℕ → List Statement → List Statement
push sql [] stop out = out
push sql (t ∷ toks) stop out = elim (trim (slice t.start stop sql)) [
  | [] ↦ out
  | c ∷ text ↦ record { sql = c ∷ text; tokens = t ∷ toks; start = t.start; stop = stop } ∷ out
]

-- The loop: the tokens since the last cut, and those ahead.
unfoldable pub split_from : Text → ℕ → List Token → List Token → List Statement
split_from sql depth since [] = push sql since (length sql) []
split_from sql depth since (t ∷ ahead) =
    let cut = split_from sql 0 [] ahead in
    let on = split_from sql (depth_after depth t) (since ++ t ∷ []) ahead in
    if is_cut depth t then push sql since t.start cut else on

unfoldable pub split : (Text → Text) → Text → List Statement
split unicode_upper sql = split_from sql 0 [] (lex unicode_upper sql)
