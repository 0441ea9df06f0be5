-- ===== src/SqlGuard/Split/Closed.antt =====
-- Texts that end in their only semicolon are one statement.
use corebase.Base.{
  ℕ, ◌≡◌, refl, ap, ◌∙◌, Bool, true, false, not, ◌&&◌, ◌||◌, List, [], ◌∷◌, ◌++◌, arith, map,
}
use corebase.Base.Texts.{Text, codes}
use corebase.SqlGuard.Lexer.{Token}
use corebase.SqlGuard.Lexer.Chunks.{Shape, Chunk, shapes, every, numbers, numbers_append}
use corebase.SqlGuard.Split.{is_punct, is_paren, depth_after}
use corebase.SqlGuard.Names.{has_word_at}

-- A token at no place.
abbrev pub bare : Shape → Token
bare t = record { kind = t.0; value = t.1; start = 0; stop = 0 }

abbrev pub inner : Shape → Bool
inner t = not (is_punct b';' (bare t))

abbrev pub flat : Shape → Bool
flat t = not (is_paren (bare t)) && not (is_punct b';' (bare t))

abbrev is_semicolon : Shape → Bool
is_semicolon t = is_punct b';' (bare t)

abbrev pub is_closed : List Shape → Bool
is_closed [] = false
is_closed (t ∷ []) = is_semicolon t
is_closed (t ∷ u ∷ ts) = inner t && is_closed (u ∷ ts)

pub closed_cons :
    (t : Shape) (ts : List Shape) → inner t ≡ true → is_closed ts ≡ true → is_closed (t ∷ ts) ≡ true
closed_cons t [] e h = absurd (cc)
closed_cons t (u ∷ ts) e h = rw (e, h) refl

closed_append :
    (ts us : List Shape) → every inner ts ≡ true → is_closed us ≡ true → is_closed (ts ++ us) ≡ true
closed_append [] us e h = h
closed_append (t ∷ ts) us e h =
    closed_cons t (ts ++ us) (ground arith) (closed_append ts us (ground arith) h)

abbrev pub finds : ℕ → List Shape → Bool
finds depth ts = has_word_at depth (codes "WHERE") (map bare ts)

finds_past :
    (ts us : List Shape) → every flat ts ≡ true → finds 0 us ≡ true → finds 0 (ts ++ us) ≡ true
unfolding has_word_at
finds_past [] us e h = h
finds_past (t ∷ ts) us e h =
    let flat_here : is_paren (bare t) ≡ false = ground arith in
    let level : depth_after 0 (bare t) ≡ 0 = ground arith in
    let ih = finds_past ts us (ground arith) h in rw (level, ih) (or_true _)
  where
    or_true : (b : Bool) → b || true ≡ true
    or_true b = ground arith

pub flat-inner : (ts : List Shape) → every flat ts ≡ true → every inner ts ≡ true
flat-inner [] e = refl
flat-inner (t ∷ ts) e =
    let here : inner t ≡ true = ground arith in
    let ih = flat-inner ts (ground arith) in rw (here, ih) refl

module _ (up : Text → Text) where
  -- Read to its end, it ends in its only semicolon; if `guarded`, it has a WHERE outside
  -- parentheses.
  pub record Closed (guarded : Bool) (s : Text) (ns : List Text) : Type 0 where
    pub read : List Shape
    pub reads : shapes up s ≡ read
    pub closed : is_closed read ≡ true
    pub found : guarded ≡ true → finds 0 read ≡ true
    pub numbers : numbers read ≡ ns

  pub after_inner :
      {guarded : Bool} {ok : Text → Bool} {s t : Text} {ns ms : List Text}
      → Chunk up inner ok s ns
      → Closed guarded t ms
      → ok t ≡ true
      → Closed false (s ++ t) (ns ++ ms)
  after_inner {guarded} {ok} {s} {t} {ns} a b meets = record {
    read = a.read ++ b.read;
    reads = a.reads t meets ∙ ap (λ us. a.read ++ us) b.reads;
    closed = closed_append a.read b.read a.every b.closed;
    found = λ e. absurd (cc);
    numbers =
        numbers_append a.read b.read
        ∙ (ap (λ xs. xs ++ numbers b.read) a.numbers ∙ ap (λ xs. ns ++ xs) b.numbers);
  }

  pub after_flat :
      {guarded : Bool} {ok : Text → Bool} {s t : Text} {ns ms : List Text}
      → Chunk up flat ok s ns
      → Closed guarded t ms
      → ok t ≡ true
      → Closed guarded (s ++ t) (ns ++ ms)
  after_flat {guarded} {ok} {s} {t} {ns} a b meets = record {
    read = a.read ++ b.read;
    reads = a.reads t meets ∙ ap (λ us. a.read ++ us) b.reads;
    closed = closed_append a.read b.read (flat-inner a.read a.every) b.closed;
    found = λ e. finds_past a.read b.read a.every (b.found e);
    numbers =
        numbers_append a.read b.read
        ∙ (ap (λ xs. xs ++ numbers b.read) a.numbers ∙ ap (λ xs. ns ++ xs) b.numbers);
  }
