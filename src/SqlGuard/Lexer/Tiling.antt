-- ===== src/SqlGuard/Lexer/Tiling.antt =====
-- Where tokens stand.
use corebase.Base.{
  ℕ, zero, suc, ◌+◌, ◌-◌, ◌≤◌, ◌<◌, ◌≡◌, refl, subst, inl, inr, Bool, true, false, not, ◌&&◌, ◌||◌,
  Option, none, some, List, [], ◌∷◌, arith, ◌==◌, take, Option-cases, if◌then◌else◌,
}
use corebase.Base.Texts.{Text, drop, run, index_of, is_space}
use corebase.SqlGuard.Lexer.{
  TokenKind, Token, token_at, token_value, lex_at, lex, quoted_at, is_digit, dollar_body,
  dollar_tag, head_is, string, is_word_char, is_word_start, block_comment,
}

-- In order and apart, from `i` on; each token is what stands at its place, of one code unit at
-- least.
pub data IsTiling (up : Text → Text) (sql : Text) : ℕ → List Token → Type 0 where
  at_end : {i : ℕ} → IsTiling up sql i []
  then_token :
      {i : ℕ} (t : Token) (toks : List Token)
      → i ≤ t.start
      → t.start < t.stop
      → t.value ≡ token_value up t.kind (take (t.stop - t.start) (drop t.start sql))
      → IsTiling up sql t.stop toks
      → IsTiling up sql i (t ∷ toks)

block_moves : (depth c : ℕ) (s : Text) → 1 ≤ block_comment 0 depth (c ∷ s)
unfolding block_comment
block_moves depth c s = ground arith

dollar_moves : (n c : ℕ) (s : Text) → 1 ≤ dollar_body n (c ∷ s)
dollar_moves n c s = elim (Option-cases (index_of (take (n + 2) (c ∷ s)) (drop (n + 2) (c ∷ s)))) [
  | inl e ↦ rw (dollar_body, e) (omega arith)
  | inr (i, e) ↦ rw (dollar_body, e) (omega arith)
]

run_moves : (p : ℕ → Bool) (c : ℕ) (s : Text) → p c ≡ true → 1 ≤ run p (c ∷ s)
run_moves p c s e = rw e (omega arith)

abbrev Moves : Option TokenKind × ℕ → Type 0
Moves r = 1 ≤ r.1

if-Moves :
    (b : Bool) (r q : Option TokenKind × ℕ)
    → (b ≡ true → Moves r)
    → Moves q
    → Moves (if b then r else q)
if-Moves true r q h k = h refl
if-Moves false r q h k = k

word_starts : (c : ℕ) → is_word_start c ≡ true → is_word_char c ≡ true
word_starts c e = ground arith

quoted_at-Moves : (c : ℕ) (s : Text) → Moves (quoted_at c s)
quoted_at-Moves c s =
    if-Moves ((c == b'E' || c == b'e') && head_is b'\'' s) _ _ (λ e. omega arith)
      (if-Moves (c == b'\'') _ _ (λ e. omega arith)
        (if-Moves (c == b'"') _ _ (λ e. omega arith)
          (if-Moves (is_digit c) _ _ (λ e. omega arith)
            (if-Moves (is_word_start c) _ _ (λ e. run_moves is_word_char c s (word_starts c e))
              (omega arith)))))

comment_starts : (c : ℕ) (b : Bool) → c == b'-' && b ≡ true → not (c == b'\n') ≡ true
comment_starts c b e = ground arith

tag-Moves :
    (o : Option ℕ) (c : ℕ) (s : Text)
    → Moves (elim o [ none ↦ quoted_at c s | some n ↦ (some string, dollar_body n (c ∷ s)) ])
tag-Moves none c s = quoted_at-Moves c s
tag-Moves (some n) c s = dollar_moves n c s

-- Every round of the loop passes over something, so the loop ends.
pub token_at_moves : (c : ℕ) (s : Text) → 1 ≤ (token_at c s).1
unfolding token_at
token_at_moves c s =
    if-Moves (is_space c) _ _ (λ e. omega arith)
      (if-Moves (c == b'-' && head_is b'-' s) _ _
        (λ e. run_moves (λ d. not (d == b'\n')) c s (comment_starts c (head_is b'-' s) e))
        (if-Moves (c == b'/' && head_is b'*' s) _ _ (λ e. block_moves 0 c s)
          (if-Moves (c == b'$') _ _ (λ e. tag-Moves (dollar_tag s) c s) (quoted_at-Moves c s))))

drop_suc : (i : ℕ) (sql : Text) (c : ℕ) (s : Text) → drop i sql ≡ c ∷ s → drop (i + 1) sql ≡ s
drop_suc zero [] c s e = absurd (cc)
drop_suc zero (d ∷ sql) c s e = cc
drop_suc (suc i) [] c s e = absurd (cc)
drop_suc (suc i) (d ∷ sql) c s e =
    let there : suc i + 1 ≡ suc (i + 1) = omega arith in rw there (drop_suc i sql c s e)

from_lower :
    (up : Text → Text) (sql : Text) (i j : ℕ) (toks : List Token)
    → i ≤ j
    → IsTiling up sql j toks
    → IsTiling up sql i toks
from_lower up sql i j [] h t = at_end
from_lower up sql i j (x ∷ toks) h (then_token _ _ low wide reads more) =
    then_token x toks (omega arith) wide reads more

-- One round, with what follows it.
tile :
    (up : Text → Text) (sql : Text) (i n : ℕ) (s : Text) (rest : List Token)
    → drop i sql ≡ s
    → 1 ≤ n
    → IsTiling up sql (i + n) rest
    → (kind : Option TokenKind)
    → IsTiling up sql (i + 0) (elim kind [
      | none ↦ rest
      | some k ↦
          record { kind = k; value = token_value up k (take n s); start = i; stop = i + n } ∷ rest
    ])
tile up sql i n s rest e h t none = from_lower up sql (i + 0) (i + n) rest (omega arith) t
tile up sql i n s rest e h t (some k) =
    let width : i + n - i ≡ n = omega arith in
    then_token _ rest (omega arith) (omega arith) (rw (width, e) refl) t

tiles :
    (up : Text → Text) (sql : Text) (skip i : ℕ) (s : Text)
    → drop i sql ≡ s
    → IsTiling up sql (i + skip) (lex_at up skip i s)
unfolding lex_at
tiles up sql skip i [] e = at_end
tiles up sql (suc skip) i (c ∷ s) e =
    let there : i + 1 + skip ≡ i + suc skip = omega arith in
    subst (λ j. IsTiling up sql j (lex_at up skip (i + 1) s)) there
      (tiles up sql skip (i + 1) s (drop_suc i sql c s e))
tiles up sql zero i (c ∷ s) e =
    let n = (token_at c s).1 in
    let moves = token_at_moves c s in
    let there : i + 1 + (n - 1) ≡ i + n = omega arith in
    tile up sql i n (c ∷ s) (lex_at up (n - 1) (i + 1) s) e moves
      (subst (λ j. IsTiling up sql j (lex_at up (n - 1) (i + 1) s)) there
        (tiles up sql (n - 1) (i + 1) s (drop_suc i sql c s e)))
      (token_at c s).0

-- The tokens of a text stand in it in order and apart, each takes up at least one code unit, and
-- its value is what stands there, in upper case for a word.
pub lex-IsTiling :
    (unicode_upper : Text → Text) (sql : Text)
    → IsTiling unicode_upper sql 0 (lex unicode_upper sql)
lex-IsTiling up sql = tiles up sql 0 0 sql refl
