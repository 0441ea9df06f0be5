-- ===== src/SqlGuard/Lexer.antt =====
-- packages/sql-guard/src/lex.ts: `lex`. The text is a list of UTF-16 code units. Each round of the
-- loop is `token_at`, the length of what begins here and the kind of token, if it is one; the code
-- units of it are then passed over one by one.
pub mod Quoted
pub mod Tiling
pub mod Reading
pub mod Chunks
use corebase.Base.{
  ℕ, zero, suc, ◌+◌, ◌-◌, ◌≡◌, refl, String, Bool, true, false, not, ◌&&◌, ◌||◌, Option, none, some,
  List, [], ◌∷◌, ◌++◌, map, ◌==◌, leb, ltb, length, take, if◌then◌else◌,
}
use corebase.Base.Texts.{Text, codes, drop, starts, index_of, run, between, is_space, same}

pub data TokenKind : Type 0 where
  word punct string ident number : TokenKind

pub record Token : Type 0 where
  pub kind : TokenKind
  pub value : Text
  pub start : ℕ
  pub stop : ℕ

abbrev pub is_letter : ℕ → Bool
is_letter c = between b'A' b'Z' c || between b'a' b'z' c || c == b'_'

abbrev pub is_digit : ℕ → Bool
is_digit c = between b'0' b'9' c

abbrev pub is_word_start : ℕ → Bool
is_word_start c = is_letter c || ltb 127 c

abbrev pub is_word_char : ℕ → Bool
is_word_char c = is_letter c || is_digit c || c == b'$' || ltb 127 c

abbrev pub is_number_char : ℕ → Bool
is_number_char c = is_digit c || c == b'.' || c == b'_'

abbrev pub head_is : ℕ → Text → Bool
head_is d [] = false
head_is d (c ∷ s) = c == d

-- The block comment's loop: the first number is what `i += 2` still has to pass over.
unfoldable pub block_comment : ℕ → ℕ → Text → ℕ
block_comment skip depth [] = 0
block_comment (suc skip) depth (c ∷ s) = suc (block_comment skip depth s)
block_comment zero depth (c ∷ s) = elim (c == b'/' && head_is b'*' s) [
  | true ↦ suc (block_comment 1 (depth + 1) s)
  | false ↦ elim (c == b'*' && head_is b'/' s) [
    | true ↦ elim (depth == 1) [ true ↦ 2 | false ↦ suc (block_comment 1 (depth - 1) s) ]
    | false ↦ suc (block_comment 0 depth s)
  ]
]

-- The three loops over a literal, past its opening quote: a doubled quote goes on, and a backslash
-- passes over the next code unit if `escapes`, past the end if there is none.
unfoldable pub literal : ℕ → Bool → ℕ → Text → ℕ
literal quote escapes skip [] = skip
literal quote escapes (suc skip) (c ∷ s) = suc (literal quote escapes skip s)
literal quote escapes zero (c ∷ s) = elim (escapes && c == b'\\') [
  | true ↦ suc (literal quote escapes 1 s)
  | false ↦ elim (c == quote) [
    | true ↦ elim (head_is quote s) [ true ↦ suc (literal quote escapes 1 s) | false ↦ 1 ]
    | false ↦ suc (literal quote escapes 0 s)
  ]
]

-- `/^\$([A-Za-z_][A-Za-z0-9_]*)?\$/` after the first `$`: how long the tag between the two is.
abbrev pub dollar_tag : Text → Option ℕ
dollar_tag [] = none
dollar_tag (c ∷ s) =
    if c == b'$'
    then some 0
    else if is_letter c
    then (let n = suc (run (λ d. is_letter d || is_digit d) s) in
        if head_is b'$' (drop n (c ∷ s)) then some n else none)
    else none

-- From the opening tag of `n + 2` code units to the end of the closing one.
abbrev pub dollar_body : ℕ → Text → ℕ
dollar_body n s = elim (index_of (take (n + 2) s) (drop (n + 2) s)) [
  | none ↦ length s
  | some i ↦ (n + 2) + i + (n + 2)
]

-- From a word on.
abbrev pub plain_at : ℕ → Text → Option TokenKind × ℕ
plain_at c s =
    if is_digit c
    then (some number, suc (run is_number_char s))
    else if is_word_start c
    then (some word, run is_word_char (c ∷ s))
    else (some punct, 1)

-- From a quoted token on.
abbrev pub quoted_at : ℕ → Text → Option TokenKind × ℕ
quoted_at c s =
    if (c == b'E' || c == b'e') && head_is b'\'' s
    then (some string, suc (suc (literal b'\'' true 0 (drop 1 s))))
    else if c == b'\''
    then (some string, suc (literal b'\'' false 0 s))
    else if c == b'"'
    then (some ident, suc (literal b'"' false 0 s))
    else plain_at c s

unfoldable pub token_at : ℕ → Text → Option TokenKind × ℕ
token_at c s =
    if is_space c
    then (none, 1)
    else if c == b'-' && head_is b'-' s
    then (none, run (λ d. not (d == b'\n')) (c ∷ s))
    else if c == b'/' && head_is b'*' s
    then (none, block_comment 0 0 (c ∷ s))
    else if c == b'$'
    then elim (dollar_tag s) [
      | none ↦ quoted_at c s
      | some n ↦ (some string, dollar_body n (c ∷ s))
    ]
    else quoted_at c s

abbrev pub ascii_upper : ℕ → ℕ
ascii_upper c = if between b'a' b'z' c then c - 32 else c

abbrev pub is_ascii : Text → Bool
is_ascii [] = true
is_ascii (c ∷ s) = ltb c 128 && is_ascii s

-- `unicode_upper` is `toUpperCase` where it is not ASCII's.
module _ (unicode_upper : Text → Text) where
  abbrev pub upper : Text → Text
  upper s = if is_ascii s then map ascii_upper s else unicode_upper s

  abbrev pub token_value : TokenKind → Text → Text
  token_value word s = upper s
  token_value _ s = s

  -- `skip` code units of what was read last are still ahead.
  unfoldable pub lex_at : ℕ → ℕ → Text → List Token
  lex_at skip i [] = []
  lex_at (suc skip) i (c ∷ s) = lex_at skip (i + 1) s
  lex_at zero i (c ∷ s) =
      let (kind, n) = token_at c s in
      let rest = lex_at (n - 1) (i + 1) s in
      elim kind [
        | none ↦ rest
        | some k ↦
            record { kind = k; value = token_value k (take n (c ∷ s)); start = i; stop = i + n }
            ∷ rest
      ]

  abbrev pub lex : Text → List Token
  lex sql = lex_at 0 0 sql

-- A text whose words need no capital outside ASCII.
abbrev kinds : Text → List TokenKind
kinds s = map (λ t. t.kind) (lex (λ w. w) s)

lexes_a_string : kinds (codes "SELECT '; DROP --' , $$ ; $$") ≡ word ∷ string ∷ punct ∷ string ∷ []
unfolding lex_at token_at literal block_comment
lexes_a_string = refl
