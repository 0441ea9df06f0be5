-- ===== src/Dashboard/Page.antt =====
-- How a page of the grid is read.
use mathlib.Core.List.{append_assoc, append-nil, map-append}
use corebase.Base.{
  ℕ, ◌*◌, ◌≡◌, refl, sym, ap, ◌∙◌, subst, Bool, true, not, ◌&&◌, ◌||◌, Option, none, some, List, [],
  ◌∷◌, ◌++◌, arith, ◌==◌, map,
}
use corebase.Base.Texts.{Text, codes, digits}
use corebase.SqlGuard.Lexer.{word, punct, Token, lex, lex_at, token_at}
use corebase.SqlGuard.Lexer.Chunks.{
  Shape, shape, shapes, calm, anything, every, every_append, Chunk, literal_chunk, literal_read,
  numeral_chunk, append, lex_at-shapes,
}
use corebase.SqlGuard.Split.{split, split_from, is_paren, depth_after}
use corebase.SqlGuard.Split.Closed.{flat, bare}
use corebase.SqlGuard.Split.Single.{split_from-Pushed}
use corebase.SqlGuard.Names.{is_noise}
use corebase.SqlGuard.Danger.{danger}
use corebase.SqlGuard.Classify.{
  Script, classify, classify_one, script_of, is_limitable, has_any_at, limit_words,
}
use corebase.SqlGuard.Classify.Admitted.{IsAdmitted, led_by}
use corebase.Dashboard.GridSql.{
  PageRequest, Direction, asc, desc, direction_word, quote, qualified, selected, order_by, page_sql,
}
use corebase.Dashboard.Dml.Pieces.{names, name, table_name}

any_past :
    (toks us : List Token)
    → every flat (map shape toks) ≡ true
    → has_any_at 0 limit_words us ≡ true
    → has_any_at 0 limit_words (toks ++ us) ≡ true
unfolding has_any_at
any_past [] us e h = h
any_past (t ∷ toks) us e h =
    let level : depth_after 0 t ≡ 0 = ground arith in
    let ih = any_past toks us (ground arith) h in rw (level, ih) (or_true _)
  where
    or_true : (b : Bool) → b || true ≡ true
    or_true b = ground arith

any_by_shape :
    (toks : List Token) (depth : ℕ)
    → has_any_at depth limit_words (map bare (map shape toks)) ≡ has_any_at depth limit_words toks
unfolding has_any_at
any_by_shape [] depth = refl
any_by_shape (t ∷ toks) depth =
    ap (λ b. (not (is_paren t) && depth == 0 && is_noise limit_words t) || b)
      (any_by_shape toks (depth_after depth t))

map-bare : (ts : List Shape) → map shape (map bare ts) ≡ ts
map-bare [] = refl
map-bare (t ∷ ts) = ap (λ us. t ∷ us) (map-bare ts)

module _ (up : Text → Text) where
  -- Read without parentheses and semicolons, with a limit.
  record Limited (s : Text) : Type 0 where
    pub read : List Shape
    pub reads : shapes up s ≡ read
    pub flatly : every flat read ≡ true
    pub found : has_any_at 0 limit_words (map bare read) ≡ true

  after :
      {ok : Text → Bool} {s t : Text} {ns : List Text}
      → Chunk up flat ok s ns
      → Limited t
      → ok t ≡ true
      → Limited (s ++ t)
  after a b meets = record {
    read = a.read ++ b.read;
    reads = a.reads _ meets ∙ ap (λ us. a.read ++ us) b.reads;
    flatly = every_append flat a.read b.read a.every b.flatly;
    found =
        ap (has_any_at 0 limit_words) (map-append bare a.read b.read)
        ∙ any_past (map bare a.read) (map bare b.read) (ap (every flat) (map-bare a.read) ∙ a.every)
            b.found;
  }

  -- `… limit … offset …`
  abbrev numbers_after : Text → ℕ → ℕ → Text
  numbers_after s size start = s ++ (digits size ++ (codes " offset " ++ digits start))

  bounded :
      (s : Text) (ts : List Shape) (n size start : ℕ)
      → ((rest : Text) → shapes up (s ++ rest) ≡ ts ++ map shape (lex_at up 0 n rest))
      → every flat ts ≡ true
      → ((us : List Shape) → has_any_at 0 limit_words (map bare (ts ++ us)) ≡ true)
      → Limited (numbers_after s size start)
  unfolding lex_at token_at
  bounded s ts n size start reads flatly found =
      let sized = numeral_chunk up flat size refl in
      let started = numeral_chunk up flat start refl in
      let offset =
        literal_chunk up flat (codes " offset ") ((word, codes "OFFSET") ∷ []) 8 (λ rest. refl)
          refl in
      let rest =
        append up flat sized (append up flat offset started (λ rest k. refl)) (λ rest k. refl) in
      let tail = digits size ++ (codes " offset " ++ digits start) in
      record {
        read = ts ++ rest.read;
        reads =
            literal_read up s ts n tail (reads tail)
            ∙ ap (λ us. ts ++ us)
                (ap (shapes up) (sym (append-nil tail))
                  ∙ (rest.reads [] refl ∙ append-nil rest.read));
        flatly = every_append flat ts rest.read flatly rest.every;
        found = found rest.read;
      }

  limited : (size start : ℕ) → Limited (numbers_after (codes "\n limit ") size start)
  unfolding lex_at token_at has_any_at
  limited size start =
      bounded (codes "\n limit ") ((word, codes "LIMIT") ∷ []) 8 size start (λ rest. refl) refl
        (λ us. refl)

  star : Chunk up flat anything (codes "*") []
  unfolding lex_at token_at
  star = literal_chunk up flat (codes "*") ((punct, codes "*") ∷ []) 1 (λ rest. refl) refl

  from_word : Chunk up flat anything (codes "\n  from ") []
  unfolding lex_at token_at
  from_word =
      literal_chunk up flat (codes "\n  from ") ((word, codes "FROM") ∷ []) 8 (λ rest. refl) refl

  order_word : Chunk up flat anything (codes "\norder by ") []
  unfolding lex_at token_at
  order_word =
      literal_chunk up flat (codes "\norder by ") ((word, codes "ORDER") ∷ (word, codes "BY") ∷ [])
        10 (λ rest. refl) refl

  directed :
      (d : Direction) (size start : ℕ)
      → Limited (codes " " ++ (direction_word d ++ numbers_after (codes "\n limit ") size start))
  unfolding lex_at token_at has_any_at
  directed asc size start =
      bounded (codes " asc\n limit ") ((word, codes "ASC") ∷ (word, codes "LIMIT") ∷ []) 12 size
        start (λ rest. refl) refl (λ us. refl)
  directed desc size start =
      bounded (codes " desc\n limit ") ((word, codes "DESC") ∷ (word, codes "LIMIT") ∷ []) 13 size
        start (λ rest. refl) refl (λ us. refl)

  ordered :
      (sort : Option (Text × Direction)) (key : List Text) (req : PageRequest) (size start : ℕ)
      → req.sort ≡ sort
      → req.primary_key ≡ key
      → Limited (order_by req ++ numbers_after (codes "\n limit ") size start)
  ordered (some (column, d)) key req size start e h =
      let rest = numbers_after (codes "\n limit ") size start in
      let there : quote column ++ (codes " " ++ (direction_word d ++ rest))
          ≡ (quote column ++ (codes " " ++ direction_word d)) ++ rest =
        sym (append_assoc (quote column) (codes " " ++ direction_word d) rest) in
      let it = after order_word (after (name up column) (directed d size start) refl) refl in
      rw e (subst (λ s. Limited (codes "\norder by " ++ s)) there it)
  ordered none [] req size start e h = rw (e, h) (limited size start)
  ordered none (k ∷ key) req size start e h =
      rw (e, h) (after order_word (after (names up k key) (limited size start) refl) refl)

  chosen :
      (columns : List Text) (req : PageRequest) (t : Text)
      → req.columns ≡ columns
      → calm t ≡ true
      → Limited t
      → Limited (selected req ++ t)
  chosen [] req t e k l = rw e (after star l refl)
  chosen (c ∷ columns) req t e k l = rw e (after (names up c columns) l k)

  select_reads :
      (t : Text)
      → lex up (codes "select " ++ t)
        ≡ record { kind = word; value = codes "SELECT"; start = 0; stop = 6 } ∷ lex_at up 0 7 t
  unfolding lex_at token_at
  select_reads t = refl

  calm_order :
      (sort : Option (Text × Direction)) (key : List Text) (req : PageRequest) (rest : Text)
      → req.sort ≡ sort
      → req.primary_key ≡ key
      → calm rest ≡ true
      → calm (order_by req ++ rest) ≡ true
  calm_order (some (column, d)) key req rest e h k = rw e refl
  calm_order none [] req rest e h k = rw (e, h) k
  calm_order none (c ∷ key) req rest e h k = rw (e, h) refl

  abbrev tail_of : PageRequest → Text
  tail_of req =
      selected req
      ++ (codes "\n  from "
          ++ (qualified req.schema req.table
              ++ (order_by req
                  ++ numbers_after (codes "\n limit ") req.page_size (req.page * req.page_size))))

  tail-Limited : (req : PageRequest) → Limited (tail_of req)
  tail-Limited req =
      let rest = numbers_after (codes "\n limit ") req.page_size (req.page * req.page_size) in
      let sorted =
        ordered req.sort req.primary_key req req.page_size (req.page * req.page_size) refl refl in
      let quiet = calm_order req.sort req.primary_key req rest refl refl refl in
      chosen req.columns req
        (codes "\n  from " ++ (qualified req.schema req.table ++ (order_by req ++ rest))) refl refl
        (after from_word (after (table_name up req.schema req.table) sorted quiet) refl)

-- A page is one safe statement that gets no limit of the console's.
pub record IsPage (script : Script) : Type 0 where
  pub admitted : IsAdmitted script
  pub unlimited : script.limitable ≡ none

selects-IsPage :
    (b : ℕ) (sql : Text) (toks : List Token) (start stop : ℕ)
    → has_any_at 0 limit_words toks ≡ true
    → IsPage (script_of (classify_one (led_by (codes "SELECT") 0 b sql toks start stop) ∷ []))
unfolding script_of classify_one danger is_limitable has_any_at
selects-IsPage b sql toks start stop h = record {
  admitted = record { one = refl; safely = refl; unnamed = refl; wrapped = refl };
  unlimited = rw h refl;
}

-- The page that the grid asks for is one statement that the guard takes as safe and that is run
-- inside the console's transaction, whatever the names are, and the console adds no limit of its
-- own to it.
page_sql-IsPage : (up : Text → Text) (req : PageRequest) → IsPage (classify up (page_sql req))
unfolding classify split split_from page_sql
page_sql-IsPage up req =
    let sql = codes "select " ++ tail_of up req in
    let l = tail-Limited up req in
    let first : Token = record { kind = word; value = codes "SELECT"; start = 0; stop = 6 } in
    let ahead = lex_at up 0 7 (tail_of up req) in
    let read : map shape ahead ≡ l.read = lex_at-shapes up (tail_of up req) 0 7 0 ∙ l.reads in
    let p = split_from-Pushed sql first ahead refl refl (ap (every flat) read ∙ l.flatly) in
    let out : split up sql ≡ led_by (codes "SELECT") 0 6 p.text ahead p.start p.stop ∷ [] =
      ap (λ ts. split_from sql 0 [] ts) (select_reads up (tail_of up req)) ∙ p.pushed in
    let limit : has_any_at 0 limit_words ahead ≡ true =
      sym (any_by_shape ahead 0)
      ∙ (ap (λ ts. has_any_at 0 limit_words (map bare ts)) read ∙ l.found) in
    subst IsPage (sym (ap (λ ss. script_of (map classify_one ss)) out))
      (selects-IsPage 6 p.text ahead p.start p.stop limit)
