-- ===== src/SqlGuard/Lexer/Reading.antt =====
-- What the lexer passes over, and that it passes over nothing else.
use corebase.Base.{ℕ, ◌+◌, ◌≤◌, ◌≡◌, Bool, true, false, not, ◌&&◌, ◌||◌, List, [], ◌∷◌, ◌==◌, take}
use corebase.Base.Texts.{Text, drop, run, is_space}
use corebase.SqlGuard.Lexer.{TokenKind, Token, token_value, head_is, block_comment}

-- What begins here is no token: a space, a comment up to the end of its line, or a block comment.
pub data IsBlank (c : ℕ) (s : Text) : ℕ → Type 0 where
  space : is_space c ≡ true → IsBlank c s 1
  line_comment :
      c ≡ b'-' → head_is b'-' s ≡ true → IsBlank c s (run (λ d. not (d == b'\n')) (c ∷ s))
  block : c ≡ b'/' → head_is b'*' s ≡ true → IsBlank c s (block_comment 0 0 (c ∷ s))

abbrev pub is_blank : ℕ → Text → Bool
is_blank c s = is_space c || (c == b'-' && head_is b'-' s) || (c == b'/' && head_is b'*' s)

-- The text from `i` on is read to its end, as blanks and tokens.
pub data IsRead (up : Text → Text) : ℕ → Text → List Token → Type 0 where
  at_end : {i : ℕ} → IsRead up i [] []
  blank :
      {i : ℕ} (c : ℕ) (s : Text) (n : ℕ) (toks : List Token)
      → IsBlank c s n
      → 1 ≤ n
      → IsRead up (i + n) (drop n (c ∷ s)) toks
      → IsRead up i (c ∷ s) toks
  token :
      {i : ℕ} (c : ℕ) (s : Text) (n : ℕ) (k : TokenKind) (toks : List Token)
      → is_blank c s ≡ false
      → 1 ≤ n
      → IsRead up (i + n) (drop n (c ∷ s)) toks
      → IsRead up i (c ∷ s) (
          record { kind = k; value = token_value up k (take n (c ∷ s)); start = i; stop = i + n }
          ∷ toks)
