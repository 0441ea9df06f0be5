-- ===== src/SqlGuard/Lexer/Chunks.antt =====
-- Texts that are read the same whatever follows them.
use mathlib.Core.List.{append_assoc}
use corebase.Base.{
  ℕ, zero, suc, ◌+◌, ◌-◌, ◌/◌, ◌%◌, ◌≡◌, refl, sym, ap, ◌∙◌, subst, inl, inr, Bool, true, false,
  not, ◌&&◌, some, List, [], ◌∷◌, ◌++◌, arith, ◌==◌, length, map, take, Bool-cases, Option-cases,
  if◌then◌else◌,
}
use corebase.Base.Texts.{Text, codes, enquoted, digits, digits_from, run, is_space}
use corebase.SqlGuard.Lexer.{
  TokenKind, token_value, ident, number, punct, Token, lex_at, token_at, is_number_char, is_digit,
  is_letter, head_is,
}
use corebase.SqlGuard.Lexer.Quoted.{lex_identifier, lex_at_past, take-append}

-- A token less its place.
abbrev pub Shape : Type 0
Shape = TokenKind × Text

abbrev pub shape : Token → Shape
shape t = (t.kind, t.value)

abbrev pub is_number : TokenKind → Bool
is_number number = true
is_number _ = false

abbrev pub numbers : List Shape → List Text
numbers [] = []
numbers (t ∷ ts) = if is_number t.0 then t.1 ∷ numbers ts else numbers ts

abbrev pub every {ℓ} : {A : Type ℓ} → (A → Bool) → List A → Bool
every p [] = true
every p (x ∷ xs) = p x && every p xs

pub numbers_append : (ts us : List Shape) → numbers (ts ++ us) ≡ numbers ts ++ numbers us
numbers_append [] us = refl
numbers_append (t ∷ ts) us =
    let ih = numbers_append ts us in
    elim (Bool-cases (is_number t.0)) [ inl e ↦ rw e (ap (λ xs. t.1 ∷ xs) ih) | inr e ↦ rw e ih ]

pub every_append {ℓ} :
    {A : Type ℓ} (p : A → Bool) (ts us : List A)
    → every p ts ≡ true
    → every p us ≡ true
    → every p (ts ++ us) ≡ true
every_append p [] us h k = k
every_append p (t ∷ ts) us h k =
    let here : p t ≡ true = ground arith in
    let there : every p ts ≡ true = ground arith in
    let ih = every_append p ts us there k in rw (here, ih) refl

-- What may follow a number or an identifier: no part of a number and no quote.
abbrev pub calm : Text → Bool
calm [] = true
calm (c ∷ s) = not (c == b'"') && not (is_number_char c)

abbrev pub anything : Text → Bool
anything s = true

abbrev pub unquoted : Text → Bool
unquoted s = not (head_is b'"' s)

pub calm-unquoted : (rest : Text) → calm rest ≡ true → unquoted rest ≡ true
calm-unquoted [] k = refl
calm-unquoted (c ∷ s) k = ground arith

-- Digits.
digit_at :
    (c : ℕ) (s : Text)
    → is_digit c ≡ true
    → token_at c s ≡ (some number, suc (run is_number_char s))
unfolding token_at
digit_at c s e =
    let a : is_space c ≡ false = ground arith in
    let b : c == b'-' ≡ false = ground arith in
    let d : c == b'/' ≡ false = ground arith in
    let f : c == b'$' ≡ false = ground arith in
    let g : c == b'E' ≡ false = ground arith in
    let h : c == b'e' ≡ false = ground arith in
    let i : c == b'\'' ≡ false = ground arith in
    let j : c == b'"' ≡ false = ground arith in rw (a, b, d, f, g, h, i, j, e) refl

hole_at : (d : ℕ) (s : Text) → is_digit d ≡ true → token_at b'$' (d ∷ s) ≡ (some punct, 1)
unfolding token_at
hole_at d s e =
    let a : d == b'$' ≡ false = ground arith in
    let b : is_letter d ≡ false = ground arith in rw (a, b) refl

data IsNumeral : Text → Type 0 where
  numeral : (d : ℕ) (ds : Text) → is_digit d ≡ true → every is_digit ds ≡ true → IsNumeral (d ∷ ds)

last_digit : (n : ℕ) → is_digit (b'0' + n % 10) ≡ true
last_digit n = ground arith

if-IsNumeral : (b : Bool) (s t : Text) → IsNumeral s → IsNumeral t → IsNumeral (if b then s else t)
if-IsNumeral true s t h k = h
if-IsNumeral false s t h k = k

digits_from-IsNumeral :
    (fuel n d : ℕ) (ds : Text)
    → is_digit d ≡ true
    → every is_digit ds ≡ true
    → IsNumeral (digits_from fuel n (d ∷ ds))
digits_from-IsNumeral zero n d ds e h = numeral d ds e h
digits_from-IsNumeral (suc fuel) n d ds e h =
    let more : every is_digit (d ∷ ds) ≡ true = rw (e, h) refl in
    if-IsNumeral (n / 10 == 0) _ _ (numeral _ _ (last_digit n) more)
      (digits_from-IsNumeral fuel (n / 10) _ _ (last_digit n) more)

digits-IsNumeral : (n : ℕ) → IsNumeral (digits n)
unfolding digits
digits-IsNumeral n =
    let fuel : suc n ≡ n + 1 = omega arith in
    subst (λ f. IsNumeral (digits_from f n [])) fuel
      (if-IsNumeral (n / 10 == 0) _ _ (numeral _ _ (last_digit n) refl)
        (digits_from-IsNumeral n (n / 10) _ _ (last_digit n) refl))

stops : (rest : Text) → calm rest ≡ true → run is_number_char rest ≡ 0
stops [] k = refl
stops (c ∷ s) k = ground arith

run_digits :
    (ds rest : Text)
    → every is_digit ds ≡ true
    → calm rest ≡ true
    → run is_number_char (ds ++ rest) ≡ length ds
run_digits [] rest e k = stops rest k
run_digits (d ∷ ds) rest e k =
    let here : is_number_char d ≡ true = ground arith in
    let ih = run_digits ds rest (ground arith) k in rw (here, ih) refl

module _ (up : Text → Text) where
  abbrev pub shapes : Text → List Shape
  shapes s = map shape (lex_at up 0 0 s)

  pub lex_at-shapes :
      (s : Text) (skip i j : ℕ) → map shape (lex_at up skip i s) ≡ map shape (lex_at up skip j s)
  unfolding lex_at
  lex_at-shapes [] skip i j = refl
  lex_at-shapes (c ∷ s) (suc skip) i j = lex_at-shapes s skip (i + 1) (j + 1)
  lex_at-shapes (c ∷ s) zero i j =
      let ih = lex_at-shapes s ((token_at c s).1 - 1) (i + 1) (j + 1) in
      elim (Option-cases (token_at c s).0) [
        | inl e ↦ rw (e, lex_at) ih
        | inr (k, e) ↦
            rw (e, lex_at)
              (ap (λ ts. (k, token_value up k (take (token_at c s).1 (c ∷ s))) ∷ ts) ih)
      ]

  -- One step at a time.
  pub literal_read :
      (s : Text) (ts : List Shape) (n : ℕ) (rest : Text)
      → shapes (s ++ rest) ≡ ts ++ map shape (lex_at up 0 n rest)
      → shapes (s ++ rest) ≡ ts ++ shapes rest
  literal_read s ts n rest h = h ∙ ap (λ us. ts ++ us) (lex_at-shapes rest 0 n 0)

  pub name_read :
      (x rest : Text)
      → unquoted rest ≡ true
      → shapes (enquoted b'"' x ++ rest) ≡ (ident, enquoted b'"' x) ∷ shapes rest
  name_read x rest k =
      ap (λ ts. map shape ts) (lex_identifier up x rest 0 (ground arith))
      ∙ ap (λ us. (ident, enquoted b'"' x) ∷ us)
          (lex_at-shapes rest 0 (0 + length (enquoted b'"' x)) 0)

  -- It reads as the same tokens before all that `ok` allows; `p` holds of each.
  pub record Chunk (p : Shape → Bool) (ok : Text → Bool) (s : Text) (ns : List Text) : Type 0 where
    pub read : List Shape
    pub reads : (rest : Text) → ok rest ≡ true → shapes (s ++ rest) ≡ read ++ shapes rest
    pub every : every p read ≡ true
    pub numbers : numbers read ≡ ns

  module _ (p : Shape → Bool) where
    pub literal_chunk :
        (s : Text) (ts : List Shape) (n : ℕ)
        → ((rest : Text) → shapes (s ++ rest) ≡ ts ++ map shape (lex_at up 0 n rest))
        → every p ts ≡ true
        → Chunk p anything s (numbers ts)
    literal_chunk s ts n h e = record {
      read = ts;
      reads = λ rest k. h rest ∙ ap (λ us. ts ++ us) (lex_at-shapes rest 0 n 0);
      every = e;
      numbers = refl;
    }

    pub append :
        {ok ok' : Text → Bool} {s t : Text} {ns ms : List Text}
        → Chunk p ok s ns
        → Chunk p ok' t ms
        → ((rest : Text) → ok' rest ≡ true → ok (t ++ rest) ≡ true)
        → Chunk p ok' (s ++ t) (ns ++ ms)
    append {ok} {ok'} {s} {t} {ns} a b meets = record {
      read = a.read ++ b.read;
      reads = λ rest k.
          ap shapes (append_assoc s t rest)
          ∙ (a.reads (t ++ rest) (meets rest k)
              ∙ (ap (λ us. a.read ++ us) (b.reads rest k)
                  ∙ sym (append_assoc a.read b.read (shapes rest))));
      every = every_append p a.read b.read a.every b.every;
      numbers =
          numbers_append a.read b.read
          ∙ (ap (λ xs. xs ++ numbers b.read) a.numbers ∙ ap (λ xs. ns ++ xs) b.numbers);
    }

    pub name_chunk :
        (x : Text) → p (ident, enquoted b'"' x) ≡ true → Chunk p unquoted (enquoted b'"' x) []
    name_chunk x e = record {
      read = (ident, enquoted b'"' x) ∷ [];
      reads = λ rest k.
          ap (λ ts. map shape ts) (lex_identifier up x rest 0 (ground arith))
          ∙ ap (λ us. (ident, enquoted b'"' x) ∷ us)
              (lex_at-shapes rest 0 (0 + length (enquoted b'"' x)) 0);
      every = rw e refl;
      numbers = refl;
    }

    round :
        (c : ℕ) (s : Text) (i n : ℕ) (k : TokenKind)
        → token_at c s ≡ (some k, n)
        → map shape (lex_at up 0 i (c ∷ s))
          ≡ (k, token_value up k (take n (c ∷ s))) ∷ map shape (lex_at up (n - 1) (i + 1) s)
    unfolding lex_at
    round c s i n k e =
        let kind : (token_at c s).0 ≡ some k = ap (λ r. r.0) e in
        rw (kind, lex_at)
          (ap
            (λ n. (k, token_value up k (take n (c ∷ s))) ∷ map shape (lex_at up (n - 1) (i + 1) s))
            (ap (λ r. r.1) e))

    numeral_read :
        (d : ℕ) (ds rest : Text) (i : ℕ)
        → is_digit d ≡ true
        → every is_digit ds ≡ true
        → calm rest ≡ true
        → map shape (lex_at up 0 i (d ∷ ds ++ rest)) ≡ (number, d ∷ ds) ∷ shapes rest
    numeral_read d ds rest i e h k =
        let far = run_digits ds rest h k in
        let less : suc (length ds) - 1 ≡ length ds = omega arith in
        let long : token_at d (ds ++ rest) ≡ (some number, suc (length ds)) =
          digit_at d (ds ++ rest) e ∙ ap (λ n. (some number, suc n)) far in
        round d (ds ++ rest) i (suc (length ds)) number long
        ∙ (rw (take-append ds rest, less, lex_at_past up ds rest (i + 1))
            (ap (λ ts. (number, d ∷ ds) ∷ ts) (lex_at-shapes rest 0 _ 0)))

    hole_read :
        (s rest : Text)
        → IsNumeral s
        → calm rest ≡ true
        → shapes (b'$' ∷ s ++ rest) ≡ (punct, codes "$") ∷ (number, s) ∷ shapes rest
    hole_read s rest (numeral d ds e h) k =
        round b'$' (d ∷ ds ++ rest) 0 1 punct (hole_at d (ds ++ rest) e)
        ∙ ap (λ ts. (punct, codes "$") ∷ ts) (numeral_read d ds rest 1 e h k)

    pub hole_chunk :
        (n : ℕ)
        → p (punct, codes "$") ≡ true
        → p (number, digits n) ≡ true
        → Chunk p calm (b'$' ∷ digits n) (digits n ∷ [])
    hole_chunk n e f = record {
      read = (punct, codes "$") ∷ (number, digits n) ∷ [];
      reads = λ rest k. hole_read (digits n) rest (digits-IsNumeral n) k;
      every = rw (e, f) refl;
      numbers = refl;
    }

    pub numeral_chunk :
        (n : ℕ) → p (number, digits n) ≡ true → Chunk p calm (digits n) (digits n ∷ [])
    numeral_chunk n e = record {
      read = (number, digits n) ∷ [];
      reads = λ rest k. alone (digits n) rest (digits-IsNumeral n) k;
      every = rw e refl;
      numbers = refl;
    }
      where
        alone :
            (s rest : Text)
            → IsNumeral s
            → calm rest ≡ true
            → shapes (s ++ rest) ≡ (number, s) ∷ shapes rest
        alone s rest (numeral d ds e h) k = numeral_read d ds rest 0 e h k
