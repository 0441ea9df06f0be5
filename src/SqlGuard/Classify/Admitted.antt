-- ===== src/SqlGuard/Classify/Admitted.antt =====
-- Scripts of one statement that is safe.
use corebase.Base.{
  ℕ, ◌≤◌, ◌≡◌, refl, sym, ap, ◌∙◌, subst, Bool, true, false, not, ◌&&◌, ◌||◌, List, [], ◌∷◌, ◌++◌,
  ◌==◌, length, map,
}
use corebase.Base.Texts.{Text, codes}
use corebase.SqlGuard.Lexer.{word, Token, lex_at, lex}
use corebase.SqlGuard.Lexer.Tiling.{IsTiling, then_token, lex-IsTiling}
use corebase.SqlGuard.Lexer.Chunks.{shape, shapes, numbers, lex_at-shapes}
use corebase.SqlGuard.Split.{Statement, split_from, split, is_paren, is_word, depth_after}
use corebase.SqlGuard.Split.Closed.{bare, is_closed, Closed}
use corebase.SqlGuard.Split.Single.{split_from-IsAlone, starts_solid}
use corebase.SqlGuard.Names.{has_word_at}
use corebase.SqlGuard.Danger.{safe, danger}
use corebase.SqlGuard.Classify.{Script, classify, classify_one, script_of}

-- One statement, safe, with no names to type, and not one of transaction control.
pub record IsAdmitted (script : Script) : Type 0 where
  pub one : length script.statements ≡ 1
  pub safely : script.danger ≡ safe
  pub unnamed : script.names_to_type ≡ []
  pub wrapped : script.owns_transaction ≡ false

-- The commands that are safe, on their own or with a WHERE.
pub data IsEdit (w : Text) (guarded : Bool) : Type 0 where
  inserts : w ≡ codes "INSERT" → IsEdit w guarded
  selects : w ≡ codes "SELECT" → IsEdit w guarded
  updates : w ≡ codes "UPDATE" → guarded ≡ true → IsEdit w guarded
  deletes : w ≡ codes "DELETE" → guarded ≡ true → IsEdit w guarded

-- A statement that begins with the word.
abbrev pub led_by : Text → ℕ → ℕ → Text → List Token → ℕ → ℕ → Statement
led_by w a b sql toks start stop = record {
  sql = sql;
  tokens = record { kind = word; value = w; start = a; stop = b } ∷ toks;
  start = start;
  stop = stop;
}

guarded_safe :
    (w : Text) (a b : ℕ) (sql : Text) (toks : List Token) (start stop : ℕ) (guarded : Bool)
    → IsEdit w guarded
    → (guarded ≡ true → has_word_at 0 (codes "WHERE") toks ≡ true)
    → IsAdmitted (script_of (classify_one (led_by w a b sql toks start stop) ∷ []))
unfolding script_of classify_one danger has_word_at
guarded_safe w a b sql toks start stop guarded (inserts e) h =
    subst (λ w. IsAdmitted (script_of (classify_one (led_by w a b sql toks start stop) ∷ [])))
      (sym e) (record { one = refl; safely = refl; unnamed = refl; wrapped = refl })
guarded_safe w a b sql toks start stop guarded (selects e) h =
    subst (λ w. IsAdmitted (script_of (classify_one (led_by w a b sql toks start stop) ∷ [])))
      (sym e) (record { one = refl; safely = refl; unnamed = refl; wrapped = refl })
guarded_safe w a b sql toks start stop guarded (updates e g) h =
    let found = h g in
    subst (λ w. IsAdmitted (script_of (classify_one (led_by w a b sql toks start stop) ∷ [])))
      (sym e)
      (record { one = refl; safely = rw found refl; unnamed = rw found refl; wrapped = refl })
guarded_safe w a b sql toks start stop guarded (deletes e g) h =
    let found = h g in
    subst (λ w. IsAdmitted (script_of (classify_one (led_by w a b sql toks start stop) ∷ [])))
      (sym e)
      (record { one = refl; safely = rw found refl; unnamed = rw found refl; wrapped = refl })

finds_by_shape :
    (toks : List Token) (depth : ℕ)
    → has_word_at depth (codes "WHERE") (map bare (map shape toks))
      ≡ has_word_at depth (codes "WHERE") toks
unfolding has_word_at
finds_by_shape [] depth = refl
finds_by_shape (t ∷ toks) depth =
    ap (λ b. (not (is_paren t) && depth == 0 && is_word (codes "WHERE") t) || b)
      (finds_by_shape toks (depth_after depth t))

module _ (up : Text → Text) where
  pub after_first :
      (sql : Text) (i : ℕ) (t : Token) (toks : List Token)
      → IsTiling up sql i (t ∷ toks)
      → IsTiling up sql t.stop toks
  after_first sql i t toks (then_token _ _ _ _ _ h) = h

  lone :
      (sql w : Text) (b : ℕ) (ahead : List Token) (guarded : Bool)
      → lex up sql ≡ record { kind = word; value = w; start = 0; stop = b } ∷ ahead
      → starts_solid sql ≡ true
      → 1 ≤ b
      → is_closed (map shape ahead) ≡ true
      → (guarded ≡ true → has_word_at 0 (codes "WHERE") ahead ≡ true)
      → IsEdit w guarded
      → IsAdmitted (classify up sql)
  unfolding classify split split_from
  lone sql w b ahead guarded read solid_start moves closed found edit =
      let t : Token = record { kind = word; value = w; start = 0; stop = b } in
      let tiling =
        after_first sql 0 t ahead (subst (IsTiling up sql 0) read (lex-IsTiling up sql)) in
      let it = split_from-IsAlone sql t ahead solid_start refl moves closed tiling in
      let p = it.pushed in
      let out : split up sql ≡ led_by w 0 b p.text it.toks p.start p.stop ∷ [] =
        ap (λ ts. split_from sql 0 [] ts) read ∙ p.pushed in
      let script : script_of (classify_one (led_by w 0 b p.text it.toks p.start p.stop) ∷ [])
          ≡ classify up sql =
        sym (ap (λ ss. script_of (map classify_one ss)) out) in
      subst IsAdmitted script
        (guarded_safe w 0 b p.text it.toks p.start p.stop guarded edit (λ g. it.kept (found g)))

  -- A text that begins with a command and goes on as a closed one.
  pub command-IsAdmitted :
      {ns : List Text} (s w t : Text) (b n : ℕ) (guarded : Bool)
      → lex up (s ++ t) ≡ record { kind = word; value = w; start = 0; stop = b } ∷ lex_at up 0 n t
      → starts_solid (s ++ t) ≡ true
      → 1 ≤ b
      → Closed up guarded t ns
      → IsEdit w guarded
      → IsAdmitted (classify up (s ++ t))
  command-IsAdmitted s w t b n guarded read solid_start moves c edit =
      let same_read : map shape (lex_at up 0 n t) ≡ c.read = lex_at-shapes up t 0 n 0 ∙ c.reads in
      lone (s ++ t) w b (lex_at up 0 n t) guarded read solid_start moves (rw same_read c.closed)
        (λ g. sym (finds_by_shape (lex_at up 0 n t) 0) ∙ (rw same_read (c.found g))) edit

  -- The numbers in it are those of what follows the command.
  pub command-numbers :
      {ns : List Text} (s w t : Text) (b n : ℕ) (guarded : Bool)
      → lex up (s ++ t) ≡ record { kind = word; value = w; start = 0; stop = b } ∷ lex_at up 0 n t
      → Closed up guarded t ns
      → numbers (shapes up (s ++ t)) ≡ ns
  command-numbers s w t b n guarded read c =
      ap (λ ts. numbers (map shape ts)) read
      ∙ (ap numbers (lex_at-shapes up t 0 n 0 ∙ c.reads) ∙ c.numbers)
