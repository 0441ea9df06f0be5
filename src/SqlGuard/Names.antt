-- ===== src/SqlGuard/Names.antt =====
-- packages/sql-guard/src/index.ts: what a statement names. A position in `tokens` is the list of
-- the tokens from there on.
pub mod Enough
use corebase.Base.{
  ℕ, zero, suc, ◌-◌, Bool, false, not, ◌&&◌, ◌||◌, Option, none, some, List, [], ◌∷◌, ◌++◌, any,
  first, ◌==◌, length, if◌then◌else◌,
}
use corebase.Base.Texts.{Text, codes, slice, same, drop, run, between, join}
use corebase.SqlGuard.Lexer.{Token, is_digit}
use corebase.SqlGuard.Split.{
  Statement, is_word_kind, is_ident_kind, is_punct, is_word, is_paren, depth_after,
}

abbrev pub is_one_of : List Text → Text → Bool
is_one_of texts s = any (λ t. same t s) texts

abbrev pub skip_words : List Text
skip_words =
    codes "TABLE"
    ∷ codes "SCHEMA"
    ∷ codes "VIEW"
    ∷ codes "MATERIALIZED"
    ∷ codes "INDEX"
    ∷ codes "SEQUENCE"
    ∷ codes "FUNCTION"
    ∷ codes "PROCEDURE"
    ∷ codes "TRIGGER"
    ∷ codes "TYPE"
    ∷ codes "DOMAIN"
    ∷ codes "EXTENSION"
    ∷ codes "DATABASE"
    ∷ codes "ROLE"
    ∷ codes "USER"
    ∷ codes "POLICY"
    ∷ codes "PUBLICATION"
    ∷ codes "SUBSCRIPTION"
    ∷ codes "CONCURRENTLY"
    ∷ codes "IF"
    ∷ codes "EXISTS"
    ∷ codes "NOT"
    ∷ codes "ONLY"
    ∷ codes "FROM"
    ∷ []

-- First real token's value, or '' for an empty statement.
abbrev pub lead : Statement → Text
lead s = elim s.tokens [ [] ↦ [] | t ∷ _ ↦ if is_word_kind t.kind then t.value else [] ]

-- `depth === 0` at a token that is no parenthesis, and the word is `w`.
unfoldable pub has_word_at : ℕ → Text → List Token → Bool
has_word_at depth w [] = false
has_word_at depth w (t ∷ toks) =
    (not (is_paren t) && depth == 0 && is_word w t) || has_word_at (depth_after depth t) w toks

abbrev pub has_top_level_where : Statement → Bool
has_top_level_where s = has_word_at 0 (codes "WHERE") s.tokens

-- `/^"([a-z_][a-z0-9_$]*)"$/`: the identifier between the quotes.
abbrev pub is_plain_start : ℕ → Bool
is_plain_start c = between b'a' b'z' c || c == b'_'

abbrev pub is_plain_char : ℕ → Bool
is_plain_char c = is_plain_start c || is_digit c || c == b'$'

abbrev pub redundantly_quoted : Text → Option Text
redundantly_quoted (c ∷ d ∷ s) =
    let n = run is_plain_char s in
    if c == b'"' && is_plain_start d && same (drop n s) (b'"' ∷ [])
    then some (slice 0 (suc n) (d ∷ s))
    else none
redundantly_quoted _ = none

-- `text`
abbrev pub token_text : Statement → Token → Text
token_text s t =
    if is_ident_kind t.kind
    then elim (redundantly_quoted t.value) [ some bare ↦ bare | none ↦ t.value ]
    else slice (t.start - s.start) (t.stop - s.start) s.sql

abbrev pub is_name : Token → Bool
is_name t = is_word_kind t.kind || is_ident_kind t.kind

-- `.name` over and over: the parts, and the tokens after them.
unfoldable pub dotted_parts : Statement → List Token → List Text × List Token
dotted_parts s (dot ∷ t ∷ toks) =
    let (parts, next) = dotted_parts s toks in
    if is_punct b'.' dot && is_name t then (token_text s t ∷ parts, next) else ([], dot ∷ t ∷ toks)
dotted_parts s toks = ([], toks)

unfoldable pub dotted_name : Statement → List Token → Option (Text × List Token)
dotted_name s [] = none
dotted_name s (t ∷ toks) =
    let (parts, next) = dotted_parts s toks in
    if is_name t then some (join (b'.' ∷ []) (token_text s t ∷ parts), next) else none

abbrev pub is_noise : List Text → Token → Bool
is_noise words t = is_word_kind t.kind && is_one_of words t.value

abbrev pub skip_noise : List Text → List Token → List Token
skip_noise words [] = []
skip_noise words (t ∷ toks) = if is_noise words t then skip_noise words toks else t ∷ toks

abbrev pub name_list_start : Statement → List Token
name_list_start s = skip_noise skip_words (drop 1 s.tokens)

-- The loop of `objectNames`; each round takes a token, so their number is fuel enough.
unfoldable pub names_from : Statement → ℕ → List Token → List Text
names_from s zero toks = []
names_from s (suc fuel) toks = elim (dotted_name s toks) [
  | none ↦ []
  | some (name, next) ↦ elim next [
    | [] ↦ name ∷ []
    | t ∷ ahead ↦
        let more = names_from s fuel ahead in if is_punct b',' t then name ∷ more else name ∷ []
  ]
]

unfoldable pub object_names : Statement → List Text
object_names s = let toks = name_list_start s in names_from s (suc (length toks)) toks

abbrev pub object_name : Statement → Option Text
object_name s = first (object_names s)

-- What follows each comma outside parentheses.
unfoldable pub actions_after : ℕ → List Token → List (List Token)
actions_after depth [] = []
actions_after depth (t ∷ toks) =
    let more = actions_after (depth_after depth t) toks in
    if not (is_paren t) && depth == 0 && is_punct b',' t then toks ∷ more else more

unfoldable pub alter_actions : Statement → List (List Token)
alter_actions s = elim (dotted_name s (name_list_start s)) [
  | none ↦ []
  | some (name, next) ↦ next ∷ actions_after 0 next
]

abbrev pub drop_not_column : List Text
drop_not_column =
    codes "DEFAULT"
    ∷ codes "NOT"
    ∷ codes "IDENTITY"
    ∷ codes "EXPRESSION"
    ∷ codes "GENERATED"
    ∷ codes "CLUSTER"
    ∷ codes "OIDS"
    ∷ codes "STATISTICS"
    ∷ []

pub data AlterDrop : Type 0 where
  drops_column drops_constraint : Option Text → AlterDrop
  drops_other : AlterDrop

-- Past the word, if it is the next token.
abbrev pub past_word : Text → List Token → List Token
past_word w [] = []
past_word w (t ∷ toks) = if is_word w t then toks else t ∷ toks

abbrev pub dropped_name : Statement → List Token → Option Text
dropped_name s toks =
    elim (dotted_name s (past_word (codes "EXISTS") (past_word (codes "IF") toks))) [
      | none ↦ none
      | some (name, _) ↦ some name
    ]

-- The action from past its DROP on.
unfoldable pub alter_drop : Statement → List Token → AlterDrop
alter_drop s [] = drops_column none
alter_drop s (t ∷ toks) =
    if is_word (codes "COLUMN") t
    then drops_column (dropped_name s toks)
    else if is_word (codes "CONSTRAINT") t
    then drops_constraint (dropped_name s toks)
    else if is_noise drop_not_column t
    then drops_other
    else drops_column (dropped_name s (t ∷ toks))

abbrev pub grant_noise : List Text
grant_noise =
    codes "ALL"
    ∷ codes "TABLES"
    ∷ codes "SEQUENCES"
    ∷ codes "FUNCTIONS"
    ∷ codes "ROUTINES"
    ∷ codes "IN"
    ∷ []

abbrev pub first_is_word : Text → List Token → Bool
first_is_word w [] = false
first_is_word w (t ∷ toks) = is_word w t

-- The name after an ON.
abbrev pub granted_name : Statement → List Token → Option Text
granted_name s toks = elim (dotted_name s (skip_noise (skip_words ++ grant_noise) toks)) [
  | none ↦ none
  | some (name, _) ↦
      if first_is_word (codes "ALL") toks then some (codes "everything in " ++ name) else some name
]

unfoldable pub grant_target_from : Statement → ℕ → List Token → Option Text
grant_target_from s depth [] = none
grant_target_from s depth (t ∷ toks) =
    let later = grant_target_from s (depth_after depth t) toks in
    if not (is_paren t) && depth == 0 && is_word (codes "ON") t then granted_name s toks else later

abbrev pub grant_target : Statement → Option Text
grant_target s = grant_target_from s 0 s.tokens

pub data Grantee : Type 0 where
  anon everyone : Grantee

abbrev pub names_a_schema : List Token → Bool
names_a_schema [] = false
names_a_schema (t ∷ toks) =
    (is_word (codes "ON") t && first_is_word (codes "SCHEMA") toks) || names_a_schema toks

unfoldable pub grantee_from : ℕ → Bool → List Token → Option Grantee
grantee_from depth after_to [] = none
grantee_from depth after_to (t ∷ toks) =
    let top = not (is_paren t) && depth == 0 in
    let to = top && is_word (codes "TO") t in
    let later = grantee_from (depth_after depth t) (after_to || to) toks in
    if to
    then later
    else if top && after_to && is_word (codes "PUBLIC") t
    then some everyone
    else if top && after_to && is_word (codes "ANON") t
    then some anon
    else if top && after_to && is_ident_kind t.kind && same t.value (codes "\"anon\"")
    then some anon
    else later

unfoldable pub grantee : Statement → Option Grantee
grantee s = if names_a_schema s.tokens then none else grantee_from 0 false s.tokens
