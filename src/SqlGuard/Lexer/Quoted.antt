-- ===== src/SqlGuard/Lexer/Quoted.antt =====
-- A quoted text is one token, whatever it holds.
use corebase.Base.{
  ℕ, suc, ◌+◌, ◌-◌, ◌≡◌, refl, ap, ◌∙◌, inl, inr, true, false, List, [], ◌∷◌, ◌++◌, arith, ◌==◌,
  length, length-append, take, Bool-cases,
}
use corebase.Base.Texts.{doubled, enquoted, Text}
use corebase.SqlGuard.Lexer.{TokenKind, ident, string, Token, literal, head_is, token_at, lex_at}

literal-doubled :
    (q : ℕ) (x rest : Text)
    → head_is q rest ≡ false
    → literal q false 0 (doubled q x ++ q ∷ rest) ≡ suc (length (doubled q x))
unfolding literal
literal-doubled q [] rest h = let self : q == q ≡ true = ground arith in rw (literal, self, h) refl
literal-doubled q (c ∷ x) rest h =
    let ih = literal-doubled q x rest h in
    elim (Bool-cases (c == q)) [
      | inl hit ↦ rw (hit, literal, hit, head_is, hit) (ap (λ n. suc (suc n)) ih)
      | inr miss ↦ rw (miss, literal, miss) (ap suc ih)
    ]

pub lex_at_past :
    (unicode_upper : Text → Text) (read rest : Text) (i : ℕ)
    → lex_at unicode_upper (length read) i (read ++ rest)
      ≡ lex_at unicode_upper 0 (i + length read) rest
unfolding lex_at
lex_at_past up [] rest i = ap (λ j. lex_at up 0 j rest) (omega arith)
lex_at_past up (c ∷ read) rest i =
    lex_at_past up read rest (i + 1) ∙ ap (λ j. lex_at up 0 j rest) (omega arith)

pub take-append {ℓ} : {A : Type ℓ} (xs ys : List A) → take (length xs) (xs ++ ys) ≡ xs
take-append [] ys = refl
take-append (x ∷ xs) ys = ap (λ zs. x ∷ zs) (take-append xs ys)

snoc-append : (xs ys : Text) (q : ℕ) → (xs ++ q ∷ []) ++ ys ≡ xs ++ q ∷ ys
snoc-append [] ys q = refl
snoc-append (x ∷ xs) ys q = ap (λ zs. x ∷ zs) (snoc-append xs ys q)

-- How long a doubled text is read to be, with its closing quote.
literal-enquoted :
    (q : ℕ) (x rest : Text)
    → head_is q rest ≡ false
    → literal q false 0 ((doubled q x ++ q ∷ []) ++ rest) ≡ length (doubled q x ++ q ∷ [])
literal-enquoted q x rest h =
    ap (literal q false 0) (snoc-append (doubled q x) rest q)
    ∙ (literal-doubled q x rest h ∙ omega (arith, length-append (doubled q x) (q ∷ [])))

-- A token of kind `k` that is `q` and then `body`, as it is read off.
abbrev read_off : (Text → Text) → ℕ → TokenKind → ℕ → Text → Text → ℕ → List Token
read_off up i k q body rest n =
    record { kind = k; value = q ∷ take n (body ++ rest); start = i; stop = i + suc n }
    ∷ lex_at up (suc n - 1) (i + 1) (body ++ rest)

read_off-body :
    (up : Text → Text) (i : ℕ) (k : TokenKind) (q : ℕ) (body rest : Text)
    → read_off up i k q body rest (length body)
      ≡ record { kind = k; value = q ∷ body; start = i; stop = i + suc (length body) }
        ∷ lex_at up 0 (i + suc (length body)) rest
read_off-body up i k q body rest =
    let past = lex_at_past up body rest (i + 1) in
    let less : suc (length body) - 1 ≡ length body = omega arith in
    let there : i + 1 + length body ≡ i + suc (length body) = omega arith in
    rw (take-append body rest, less, past, there) refl

-- An identifier is its text between quotes, each quote in it doubled. Whatever the text, it is read
-- as one identifier, and what follows is read as if it stood alone, if that does not begin
-- with a quote.
pub lex_identifier :
    (unicode_upper : Text → Text) (x rest : Text) (i : ℕ)
    → head_is b'"' rest ≡ false
    → lex_at unicode_upper 0 i (enquoted b'"' x ++ rest)
      ≡ record {
        kind = ident;
        value = enquoted b'"' x;
        start = i;
        stop = i + length (enquoted b'"' x);
      }
        ∷ lex_at unicode_upper 0 (i + length (enquoted b'"' x)) rest
unfolding lex_at token_at
lex_identifier up x rest i h =
    let body = doubled b'"' x ++ b'"' ∷ [] in
    ap (read_off up i ident b'"' body rest) (literal-enquoted b'"' x rest h)
    ∙ read_off-body up i ident b'"' body rest

-- The same for a string.
pub lex_string :
    (unicode_upper : Text → Text) (x rest : Text) (i : ℕ)
    → head_is b'\'' rest ≡ false
    → lex_at unicode_upper 0 i (enquoted b'\'' x ++ rest)
      ≡ record {
        kind = string;
        value = enquoted b'\'' x;
        start = i;
        stop = i + length (enquoted b'\'' x);
      }
        ∷ lex_at unicode_upper 0 (i + length (enquoted b'\'' x)) rest
unfolding lex_at token_at
lex_string up x rest i h =
    let body = doubled b'\'' x ++ b'\'' ∷ [] in
    ap (read_off up i string b'\'' body rest) (literal-enquoted b'\'' x rest h)
    ∙ read_off-body up i string b'\'' body rest
