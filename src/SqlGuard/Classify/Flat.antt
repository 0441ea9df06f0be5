-- ===== src/SqlGuard/Classify/Flat.antt =====
-- The verdict on a text without parentheses that ends in its only semicolon.
use corebase.Base.{ℕ, ◌≤◌, ◌≡◌, refl, ap, ◌∙◌, subst, true, List, [], ◌∷◌, ◌++◌, map}
use corebase.Base.Texts.{Text}
use corebase.SqlGuard.Lexer.{word, Token, lex_at, lex}
use corebase.SqlGuard.Lexer.Tiling.{IsTiling, lex-IsTiling}
use corebase.SqlGuard.Lexer.Chunks.{Shape, shape, shapes, every, lex_at-shapes}
use corebase.SqlGuard.Split.{split_from, split}
use corebase.SqlGuard.Split.Closed.{flat}
use corebase.SqlGuard.Split.Single.{split_from-IsWhole, semicolon, starts_solid}
use corebase.SqlGuard.Classify.{Script, classify, classify_one, script_of}
use corebase.SqlGuard.Classify.Admitted.{led_by, after_first}

-- Tokens of the given shapes at the given places.
abbrev first_place : List (ℕ × ℕ) → ℕ × ℕ
first_place [] = (0, 0)
first_place (p ∷ ps) = p

abbrev more_places : List (ℕ × ℕ) → List (ℕ × ℕ)
more_places [] = []
more_places (p ∷ ps) = ps

abbrev pub placed : List Shape → List (ℕ × ℕ) → List Token
placed [] ps = []
placed (s ∷ ss) ps =
    record { kind = s.0; value = s.1; start = (first_place ps).0; stop = (first_place ps).1 }
    ∷ placed ss (more_places ps)

placed_back :
    (toks : List Token) → toks ≡ placed (map shape toks) (map (λ t. (t.start, t.stop)) toks)
placed_back [] = refl
placed_back (t ∷ toks) = ap (λ ts. t ∷ ts) (placed_back toks)

-- The script of the one statement, wherever its tokens are.
pub record IsScriptOf (w : Text) (b : ℕ) (ts : List Shape) (script : Script) : Type 0 where
  pub text : Text
  pub places : List (ℕ × ℕ)
  pub start : ℕ
  pub stop : ℕ
  pub is : script ≡ script_of (classify_one (led_by w 0 b text (placed ts places) start stop) ∷ [])

module _ (up : Text → Text) where
  pub flat-IsScriptOf :
      (s w t : Text) (b n : ℕ) (ts : List Shape)
      → lex up (s ++ t) ≡ record { kind = word; value = w; start = 0; stop = b } ∷ lex_at up 0 n t
      → starts_solid (s ++ t) ≡ true
      → 1 ≤ b
      → shapes up t ≡ ts ++ semicolon ∷ []
      → every flat ts ≡ true
      → IsScriptOf w b ts (classify up (s ++ t))
  unfolding classify split split_from
  flat-IsScriptOf s w t b n ts read solid_start moves rest h =
      let sql = s ++ t in
      let first : Token = record { kind = word; value = w; start = 0; stop = b } in
      let ahead = lex_at up 0 n t in
      let tiling =
        after_first up sql 0 first ahead (subst (IsTiling up sql 0) read (lex-IsTiling up sql)) in
      let it =
        split_from-IsWhole sql first ahead ts solid_start refl moves
          (lex_at-shapes up t 0 n 0 ∙ rest) h tiling in
      let p = it.pushed in
      let places = map (λ t. (t.start, t.stop)) it.toks in
      let toks : it.toks ≡ placed ts places =
        placed_back it.toks ∙ ap (λ ss. placed ss places) it.shapes in
      let out : split up sql ≡ led_by w 0 b p.text it.toks p.start p.stop ∷ [] =
        ap (λ ts. split_from sql 0 [] ts) read ∙ p.pushed in
      record {
        text = p.text;
        places = places;
        start = p.start;
        stop = p.stop;
        is =
            ap (λ ss. script_of (map classify_one ss)) out
            ∙ ap (λ ts. script_of (classify_one (led_by w 0 b p.text ts p.start p.stop) ∷ [])) toks;
      }
