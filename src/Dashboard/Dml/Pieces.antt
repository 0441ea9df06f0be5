-- ===== src/Dashboard/Dml/Pieces.antt =====
-- How the parts of the compiled statements are read.
use mathlib.Core.List.{append-nil}
use corebase.Base.{
  ℕ, zero, suc, ◌+◌, ◌≡◌, refl, ap, ◌∙◌, subst, Bool, true, List, [], ◌∷◌, ◌++◌, arith, length, map,
}
use corebase.Base.Texts.{Text, codes, join, digits, numbered}
use corebase.SqlGuard.Lexer.{punct, lex_at, token_at}
use corebase.SqlGuard.Lexer.Chunks.{
  Shape, Chunk, calm, calm-unquoted, anything, literal_chunk, append, name_chunk, hole_chunk,
}
use corebase.SqlGuard.Split.Closed.{inner, flat, flat-inner}
use corebase.Dashboard.GridSql.{quote, qualified, quoted_list}
use corebase.Dashboard.Dml.{hole, holes, set_of, BoundCell}

-- n placeholders from the given one on.
abbrev pub counted : ℕ → ℕ → List Text
counted from zero = []
counted from (suc n) = digits from ∷ counted (from + 1) n

pub numbered-counted {ℓ} :
    {A : Type ℓ} (xs : List A) (from : ℕ)
    → numbered (λ _ n. digits n) from xs ≡ counted from (length xs)
numbered-counted [] from = refl
numbered-counted (x ∷ xs) from = ap (λ ds. digits from ∷ ds) (numbered-counted xs (from + 1))

pub counted_append : (a b from : ℕ) → counted from a ++ counted (from + a) b ≡ counted from (a + b)
counted_append zero b from = ap (λ f. counted f b) (omega arith) ∙ ap (counted from) (omega arith)
counted_append (suc a) b from =
    let there : from + suc a ≡ from + 1 + a = omega arith in
    let total : suc a + b ≡ suc (a + b) = omega arith in
    rw (there, total) (ap (λ ds. digits from ∷ ds) (counted_append a b (from + 1)))

module _ (up : Text → Text) where
  pub loosen :
      {ok : Text → Bool} {s : Text} {ns : List Text}
      → Chunk up flat ok s ns
      → Chunk up inner ok s ns
  loosen c = record {
    read = c.read;
    reads = c.reads;
    every = flat-inner c.read c.every;
    numbers = c.numbers;
  }

  pub relax :
      {p : Shape → Bool} {ok ok' : Text → Bool} {s : Text} {ns : List Text}
      → Chunk up p ok s ns
      → ((rest : Text) → ok' rest ≡ true → ok rest ≡ true)
      → Chunk up p ok' s ns
  relax c weaker = record {
    read = c.read;
    reads = λ rest k. c.reads rest (weaker rest k);
    every = c.every;
    numbers = c.numbers;
  }

  pub data Items (p : Shape → Bool) : List Text → List Text → Type 0 where
    last : {x : Text} {ns : List Text} → Chunk up p calm x ns → Items p (x ∷ []) ns
    more :
        {x y : Text} {ys ns ms : List Text}
        → Chunk up p calm x ns
        → Items p (y ∷ ys) ms
        → Items p (x ∷ y ∷ ys) (ns ++ ms)

  pub join_chunk :
      {p : Shape → Bool} (separator : Text) {xs ns : List Text}
      → Chunk up p anything separator []
      → ((rest : Text) → calm (separator ++ rest) ≡ true)
      → Items p xs ns
      → Chunk up p calm (join separator xs) ns
  join_chunk separator sep starts_calm (last c) = c
  join_chunk {p} separator sep starts_calm (more {x} {y} {ys} {ns} {ms} c items) =
      let first = append up p c sep (λ rest k. starts_calm rest) in
      let all = append up p first (join_chunk separator sep starts_calm items) (λ rest k. refl) in
      subst (λ ks. Chunk up p calm (join separator (x ∷ y ∷ ys)) (ks ++ ms)) (append-nil ns) all

  pub comma : Chunk up flat anything (codes ", ") []
  unfolding lex_at token_at
  comma = literal_chunk up flat (codes ", ") ((punct, codes ",") ∷ []) 2 (λ rest. refl) refl

  pub wide_comma : Chunk up flat anything (codes ",\n       ") []
  unfolding lex_at token_at
  wide_comma =
      literal_chunk up flat (codes ",\n       ") ((punct, codes ",") ∷ []) 9 (λ rest. refl) refl

  pub name : (x : Text) → Chunk up flat calm (quote x) []
  name x = relax (name_chunk up flat x refl) calm-unquoted

  pub one_hole : (n : ℕ) → Chunk up flat calm (hole n) (digits n ∷ [])
  one_hole n = hole_chunk up flat n refl refl

  names-Items : (c : Text) (cs : List Text) → Items flat (map quote (c ∷ cs)) []
  names-Items c [] = last (name c)
  names-Items c (d ∷ cs) = more (name c) (names-Items d cs)

  pub names : (c : Text) (cs : List Text) → Chunk up flat calm (quoted_list (c ∷ cs)) []
  names c cs = join_chunk (codes ", ") comma (λ rest. refl) (names-Items c cs)

  holes-Items {ℓ} :
      {A : Type ℓ} (x : A) (xs : List A) (from : ℕ)
      → Items flat
          (numbered (λ _ n. hole n) from (x ∷ xs))
          (numbered (λ _ n. digits n) from (x ∷ xs))
  holes-Items x [] from = last (one_hole from)
  holes-Items x (y ∷ xs) from = more (one_hole from) (holes-Items y xs (from + 1))

  pub some_holes :
      (c : Text) (cs : List Text) (from : ℕ)
      → Chunk up flat calm (holes (c ∷ cs) from) (numbered (λ _ n. digits n) from (c ∷ cs))
  some_holes c cs from = join_chunk (codes ", ") comma (λ rest. refl) (holes-Items c cs from)

  equals : Chunk up flat anything (codes " = ") []
  unfolding lex_at token_at
  equals = literal_chunk up flat (codes " = ") ((punct, codes "=") ∷ []) 3 (λ rest. refl) refl

  pub compared :
      (c : Text) (n : ℕ) → Chunk up flat calm (quote c ++ (codes " = " ++ hole n)) (digits n ∷ [])
  compared c n =
      append up flat (name c) (append up flat equals (one_hole n) (λ rest k. refl)) (λ rest k. refl)

  dot : Chunk up flat anything (codes ".") []
  unfolding lex_at token_at
  dot = literal_chunk up flat (codes ".") ((punct, codes ".") ∷ []) 1 (λ rest. refl) refl

  pub table_name : (schema table : Text) → Chunk up flat calm (qualified schema table) []
  table_name schema table =
      append up flat (name_chunk up flat schema refl)
        (append up flat dot (name table) (λ rest k. refl)) (λ rest k. refl)

  -- `SET`'s list.
  sets-Items :
      (c : BoundCell) (cs : List BoundCell) (from : ℕ)
      → Items flat (numbered set_of from (c ∷ cs)) (numbered (λ _ n. digits n) from (c ∷ cs))
  sets-Items c [] from = last (compared c.column from)
  sets-Items c (d ∷ cs) from = more (compared c.column from) (sets-Items d cs (from + 1))

  pub sets :
      (c : BoundCell) (cs : List BoundCell)
      → Chunk up flat calm
          (join (codes ",\n       ") (numbered set_of 1 (c ∷ cs)))
          (numbered (λ _ n. digits n) 1 (c ∷ cs))
  sets c cs = join_chunk (codes ",\n       ") wide_comma (λ rest. refl) (sets-Items c cs 1)

  -- Something in parentheses.
  pub opened : Chunk up inner anything (codes "(") []
  unfolding lex_at token_at
  opened = literal_chunk up inner (codes "(") ((punct, codes "(") ∷ []) 1 (λ rest. refl) refl

  pub shut : Chunk up inner anything (codes ")") []
  unfolding lex_at token_at
  shut = literal_chunk up inner (codes ")") ((punct, codes ")") ∷ []) 1 (λ rest. refl) refl

  pub between_rows : Chunk up inner anything (codes ") = (") []
  unfolding lex_at token_at
  between_rows =
      literal_chunk up inner (codes ") = (")
        ((punct, codes ")") ∷ (punct, codes "=") ∷ (punct, codes "(") ∷ []) 5 (λ rest. refl) refl

  pub in_parentheses :
      {s : Text} {ns : List Text}
      → Chunk up inner calm s ns
      → Chunk up inner anything (codes "(" ++ (s ++ codes ")")) (ns ++ [])
  in_parentheses c =
      append up inner opened (append up inner c shut (λ rest k. refl)) (λ rest k. refl)
