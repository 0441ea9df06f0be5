-- ===== src/SqlGuard/Split/Single.antt =====
-- How a text that ends in its only semicolon is split.
use mathlib.Core.List.{append_assoc, append-nil}
use corebase.Base.{
  ℕ, zero, suc, ◌-◌, ◌≤◌, ◌≡◌, refl, sym, ap, ◌∙◌, subst, inl, inr, Bool, true, false, not, ◌&&◌,
  ◌||◌, List, [], ◌∷◌, ◌++◌, arith, ◌==◌, length, map, any, Bool-cases, All,
}
use corebase.Base.Texts.{Text, codes, slice, trim, is_space, skip_space, backwards}
use corebase.SqlGuard.Lexer.{punct, Token}
use corebase.SqlGuard.Lexer.Tiling.{IsTiling, at_end, then_token}
use corebase.SqlGuard.Lexer.Chunks.{Shape, every, shape}
use corebase.SqlGuard.Split.{
  is_punct, is_word, is_paren, depth_after, is_cut, Statement, push, split_from,
}
use corebase.SqlGuard.Split.Closed.{inner, flat, is_closed}
use corebase.SqlGuard.Names.{has_word_at}

-- A text with something but space in it is not trimmed away.
solid : Text → Bool
solid s = any (λ c. not (is_space c)) s

solid-backwards : (s out : Text) → solid s || solid out ≡ true → solid (backwards s out) ≡ true
unfolding solid
solid-backwards [] out e = e
solid-backwards (c ∷ s) out e =
    solid-backwards s (c ∷ out) (turn (not (is_space c)) (solid s) (solid out) e)
  where
    turn : (a b d : Bool) → (a || b) || d ≡ true → b || (a || d) ≡ true
    turn a b d e = ground arith

solid_skip : (s : Text) → solid s ≡ true → solid (skip_space s) ≡ true
unfolding solid
solid_skip [] e = absurd (cc)
solid_skip (c ∷ s) e = elim (Bool-cases (is_space c)) [
  | inl sp ↦ let rest = solid_skip s (ground arith) in rw sp rest
  | inr solid_here ↦ rw (solid_here, solid_here) refl
]

solid_back : (s : Text) → solid s ≡ true → solid (backwards s []) ≡ true
solid_back s e = solid-backwards s [] (rw e refl)

trim-solid : (s : Text) → solid s ≡ true → solid (trim s) ≡ true
unfolding trim
trim-solid s e =
    solid_back (skip_space (backwards (skip_space s) []))
      (solid_skip (backwards (skip_space s) []) (solid_back (skip_space s) (solid_skip s e)))

-- Pushing what begins with no space.
pub record Pushed (toks : List Token) (out : List Statement) : Type 0 where
  pub text : Text
  pub start : ℕ
  pub stop : ℕ
  pub pushed : out ≡ record { sql = text; tokens = toks; start = start; stop = stop } ∷ []

push-Pushed :
    (sql : Text) (t : Token) (toks : List Token) (stop : ℕ)
    → solid (slice t.start stop sql) ≡ true
    → Pushed (t ∷ toks) (push sql (t ∷ toks) stop [])
unfolding solid
push-Pushed sql t toks stop e =
    go (trim (slice t.start stop sql)) refl (trim-solid (slice t.start stop sql) e)
  where
    go :
        (u : Text)
        → trim (slice t.start stop sql) ≡ u
        → solid u ≡ true
        → Pushed (t ∷ toks) (push sql (t ∷ toks) stop [])
    go [] e h = absurd (cc)
    go (c ∷ u) e h = record {
      text = c ∷ u;
      start = t.start;
      stop = stop;
      pushed = rw (e, push) refl;
    }

abbrev pub AllFrom : ℕ → List Token → Type 0
AllFrom i toks = All (λ t. i ≤ t.start) toks

tiling_from :
    {up : Text → Text} {sql : Text} (i : ℕ) (toks : List Token)
    → IsTiling up sql i toks
    → (j : ℕ) → j ≤ i
    → AllFrom j toks
tiling_from i toks at_end j le = tt
tiling_from i toks (then_token t more after moves v h) j le =
    (omega arith, tiling_from t.stop more h j (omega arith))

abbrev pub starts_solid : Text → Bool
starts_solid [] = false
starts_solid (c ∷ s) = not (is_space c)

cut_solid : (sql : Text) (n : ℕ) → starts_solid sql ≡ true → 1 ≤ n → solid (slice 0 n sql) ≡ true
unfolding solid
cut_solid [] n e h = absurd (cc)
cut_solid (c ∷ s) zero e h = absurd (omega arith)
cut_solid (c ∷ s) (suc n) e h =
    let here : not (is_space c) ≡ true = e in
    let whole : suc n - 0 ≡ suc n = omega arith in rw (whole, here) refl

-- Where the split of a closed text ends: before its semicolon, or past it if it is in parentheses
-- that were left open.
data Cut (sql : Text) (t : Token) (mid ahead : List Token) (out : List Statement) : Type 0 where
  at_semicolon :
      (toks : List Token) (u : Token)
      → toks ++ u ∷ [] ≡ ahead
      → is_punct b';' u ≡ true
      → 1 ≤ u.start
      → out ≡ push sql (t ∷ (mid ++ toks)) u.start []
      → Cut sql t mid ahead out
  at_the_end : out ≡ push sql (t ∷ (mid ++ ahead)) (length sql) [] → Cut sql t mid ahead out

not_cut : (depth : ℕ) (u : Token) → inner (shape u) ≡ true → is_cut depth u ≡ false
not_cut depth u e = ground arith

snoc : (xs ys : List Token) (u : Token) → (xs ++ u ∷ []) ++ ys ≡ xs ++ u ∷ ys
snoc xs ys u = append_assoc xs (u ∷ []) ys

split_from-Cut :
    (sql : Text) (t : Token) (mid ahead : List Token) (depth : ℕ)
    → is_closed (map shape ahead) ≡ true
    → AllFrom 1 ahead
    → Cut sql t mid ahead (split_from sql depth (t ∷ mid) ahead)
unfolding split_from
split_from-Cut sql t mid [] depth e h = absurd (cc)
split_from-Cut sql t mid (u ∷ []) depth e (h, _) = elim (Bool-cases (is_cut depth u)) [
  | inl cut ↦ let empty = append-nil mid in at_semicolon [] u refl e h (rw (cut, empty) refl)
  | inr on ↦ at_the_end (rw on refl)
]
split_from-Cut sql t mid (u ∷ v ∷ more) depth e (h, hs) =
    let goes : is_cut depth u ≡ false = not_cut depth u (ground arith) in
    let rest =
      split_from-Cut sql t (mid ++ u ∷ []) (v ∷ more) (depth_after depth u) (ground arith) hs in
    let on : split_from sql (depth_after depth u) (t ∷ (mid ++ u ∷ [])) (v ∷ more)
        ≡ split_from sql depth (t ∷ mid) (u ∷ v ∷ more) =
      rw goes refl in
    elim rest [
      | at_semicolon toks x whole semi pos done ↦
          at_semicolon (u ∷ toks) x (ap (λ xs. u ∷ xs) whole) semi pos
            (sym on ∙ (done ∙ ap (λ xs. push sql (t ∷ xs) x.start []) (snoc mid toks u)))
      | at_the_end done ↦
          at_the_end
            (sym on ∙ (done ∙ ap (λ xs. push sql (t ∷ xs) (length sql) []) (snoc mid (v ∷ more) u)))
    ]

-- One statement, whose first token is `t`; if the text has a WHERE outside parentheses, so has it.
pub record IsAlone (t : Token) (ahead : List Token) (out : List Statement) : Type 0 where
  pub toks : List Token
  pub pushed : Pushed (t ∷ toks) out
  pub kept : has_word_at 0 (codes "WHERE") ahead ≡ true → has_word_at 0 (codes "WHERE") toks ≡ true

without_last :
    (depth : ℕ) (toks : List Token) (u : Token)
    → is_punct b';' u ≡ true
    → has_word_at depth (codes "WHERE") (toks ++ u ∷ []) ≡ true
    → has_word_at depth (codes "WHERE") toks ≡ true
unfolding has_word_at
without_last depth [] u e h = absurd (ground arith)
without_last depth (t ∷ toks) u e h =
    elim (Bool-cases (not (is_paren t) && depth == 0 && is_word (codes "WHERE") t)) [
      | inl here ↦ rw here refl
      | inr later ↦ rw later (without_last (depth_after depth t) toks u e (rw later at h))
    ]

some_length : (sql : Text) → starts_solid sql ≡ true → 1 ≤ length sql
some_length [] e = absurd (cc)
some_length (c ∷ s) e = omega arith

pub split_from-IsAlone :
    {up : Text → Text} (sql : Text) (t : Token) (ahead : List Token)
    → starts_solid sql ≡ true
    → t.start ≡ 0
    → 1 ≤ t.stop
    → is_closed (map shape ahead) ≡ true
    → IsTiling up sql t.stop ahead
    → IsAlone t ahead (split_from sql 0 (t ∷ []) ahead)
split_from-IsAlone sql t ahead solid_start zero_start moves closed tiling =
    elim (split_from-Cut sql t [] ahead 0 closed (tiling_from t.stop ahead tiling 1 moves)) [
      | at_semicolon toks u whole semi pos done ↦ record {
        toks = toks;
        pushed = subst (Pushed (t ∷ toks)) (sym done) (
            push-Pushed sql t toks u.start (rw zero_start (cut_solid sql u.start solid_start pos)));
        kept = λ h.
            without_last 0 toks u semi
              (subst (λ xs. has_word_at 0 (codes "WHERE") xs ≡ true) (sym whole) h);
      }
      | at_the_end done ↦ record {
        toks = ahead;
        pushed = subst (Pushed (t ∷ ahead)) (sym done) (
            push-Pushed sql t ahead (length sql) (
              rw zero_start
                (cut_solid sql (length sql) solid_start (some_length sql solid_start))));
        kept = λ h. h;
      }
    ]

-- The statement of a text without parentheses: all tokens before the semicolon.
pub record IsWhole (t : Token) (ts : List Shape) (out : List Statement) : Type 0 where
  pub toks : List Token
  pub pushed : Pushed (t ∷ toks) out
  pub shapes : map shape toks ≡ ts

abbrev pub semicolon : Shape
semicolon = (punct, codes ";")

record FlatCut (sql : Text) (t : Token) (mid : List Token) (ts : List Shape) (out : List Statement)
    : Type 0 where
  pub toks : List Token
  pub stop : ℕ
  pub past : 1 ≤ stop
  pub pushed : out ≡ push sql (t ∷ (mid ++ toks)) stop []
  pub shapes : map shape toks ≡ ts

cuts_at : (u : Token) → shape u ≡ semicolon → is_cut 0 u ≡ true
cuts_at u e =
    let kind : u.kind ≡ punct = ap (λ s. s.0) e in
    let value : u.value ≡ codes ";" = ap (λ s. s.1) e in rw (kind, value) refl

goes_past :
    (u : Token) (s : Shape)
    → shape u ≡ s
    → flat s ≡ true
    → (is_cut 0 u ≡ false) × (depth_after 0 u ≡ 0)
goes_past u s e h = let here : flat (shape u) ≡ true = ap flat e ∙ h in (ground arith, ground arith)

one_more :
    (sql : Text) (t u : Token) (mid : List Token) (s : Shape) (ts : List Shape)
    (out : List Statement)
    → shape u ≡ s
    → FlatCut sql t (mid ++ u ∷ []) ts out
    → FlatCut sql t mid (s ∷ ts) out
one_more sql t u mid s ts out e c = record {
  toks = u ∷ c.toks;
  stop = c.stop;
  past = c.past;
  pushed = c.pushed ∙ ap (λ xs. push sql (t ∷ xs) c.stop []) (snoc mid c.toks u);
  shapes = let there = c.shapes in cc;
}

split_from-FlatCut :
    (sql : Text) (t : Token) (mid ahead : List Token) (ts : List Shape)
    → map shape ahead ≡ ts ++ semicolon ∷ []
    → every flat ts ≡ true
    → AllFrom 1 ahead
    → FlatCut sql t mid ts (split_from sql 0 (t ∷ mid) ahead)
unfolding split_from
split_from-FlatCut sql t mid [] [] e h a = absurd (cc)
split_from-FlatCut sql t mid [] (s ∷ ts) e h a = absurd (cc)
split_from-FlatCut sql t mid (u ∷ []) [] e h (pos, a) =
    let cut = cuts_at u (cc) in
    let empty = append-nil mid in
    record { toks = []; stop = u.start; past = pos; pushed = rw (cut, empty) refl; shapes = refl }
split_from-FlatCut sql t mid (u ∷ v ∷ more) [] e h a = absurd (cc)
split_from-FlatCut sql t mid (u ∷ more) (s ∷ ts) e h (pos, a) =
    let here : shape u ≡ s = cc in
    let (goes, level) = goes_past u s here (ground arith) in
    let out = split_from sql 0 (t ∷ (mid ++ u ∷ [])) more in
    let rest = split_from-FlatCut sql t (mid ++ u ∷ []) more ts (cc) (ground arith) a in
    rw (goes, level) (one_more sql t u mid s ts out here rest)

pub split_from-IsWhole :
    {up : Text → Text} (sql : Text) (t : Token) (ahead : List Token) (ts : List Shape)
    → starts_solid sql ≡ true
    → t.start ≡ 0
    → 1 ≤ t.stop
    → map shape ahead ≡ ts ++ semicolon ∷ []
    → every flat ts ≡ true
    → IsTiling up sql t.stop ahead
    → IsWhole t ts (split_from sql 0 (t ∷ []) ahead)
split_from-IsWhole sql t ahead ts solid_start zero_start moves read h tiling =
    let c = split_from-FlatCut sql t [] ahead ts read h (tiling_from t.stop ahead tiling 1 moves) in
    record {
      toks = c.toks;
      pushed = subst (Pushed (t ∷ c.toks)) (sym c.pushed) (
          push-Pushed sql t c.toks c.stop (
            subst (λ n. solid (slice n c.stop sql) ≡ true) (sym zero_start)
              (cut_solid sql c.stop solid_start c.past)));
      shapes = c.shapes;
    }

-- Without a semicolon, all tokens.
split_from_open :
    (sql : Text) (t : Token) (mid ahead : List Token)
    → every flat (map shape ahead) ≡ true
    → split_from sql 0 (t ∷ mid) ahead ≡ push sql (t ∷ (mid ++ ahead)) (length sql) []
unfolding split_from
split_from_open sql t mid [] h = ap (λ xs. push sql (t ∷ xs) (length sql) []) (sym (append-nil mid))
split_from_open sql t mid (u ∷ more) h =
    let (goes, level) = goes_past u (shape u) refl (ground arith) in
    let rest = split_from_open sql t (mid ++ u ∷ []) more (ground arith) in
    rw (goes, level) (rest ∙ ap (λ xs. push sql (t ∷ xs) (length sql) []) (snoc mid more u))

pub split_from-Pushed :
    (sql : Text) (t : Token) (ahead : List Token)
    → starts_solid sql ≡ true
    → t.start ≡ 0
    → every flat (map shape ahead) ≡ true
    → Pushed (t ∷ ahead) (split_from sql 0 (t ∷ []) ahead)
split_from-Pushed sql t ahead solid_start zero_start h =
    subst (Pushed (t ∷ ahead)) (sym (split_from_open sql t [] ahead h)) (
      push-Pushed sql t ahead (length sql) (
        subst (λ n. solid (slice n (length sql) sql) ≡ true) (sym zero_start)
          (cut_solid sql (length sql) solid_start (some_length sql solid_start))))
