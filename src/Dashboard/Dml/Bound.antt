-- ===== src/Dashboard/Dml/Bound.antt =====
-- What the compiled statements promise the server and its guard.
use mathlib.Core.List.{append-nil, map-append}
use corebase.Base.{
  ℕ, suc, ◌+◌, ◌≡◌, refl, sym, ap, ◌∙◌, Bool, true, false, List, [], ◌∷◌, ◌++◌, arith, length, map,
}
use corebase.Base.Texts.{Text, codes, digits, numbered}
use corebase.SqlGuard.Lexer.{word, punct, lex_at, token_at}
use corebase.SqlGuard.Lexer.Chunks.{shapes, numbers, lex_at-shapes}
use corebase.SqlGuard.Split.Closed.{Closed, closed_cons}
use corebase.SqlGuard.Names.{has_word_at}
use corebase.SqlGuard.Classify.{classify}
use corebase.SqlGuard.Classify.Admitted.{IsAdmitted}
use corebase.Dashboard.Dml.{hole, Binding, RowPlan}
use corebase.Dashboard.Dml.Pieces.{counted, numbered-counted, counted_append}

pub length-map {ℓ κ} :
    {A : Type ℓ} {B : Type κ} (f : A → B) (xs : List A) → length (map f xs) ≡ length xs
length-map f [] = refl
length-map f (x ∷ xs) = ap suc (length-map f xs)

abbrev pub placeholder_of : Text → Text
placeholder_of n = b'$' ∷ n

-- The guard takes the statement as one that is safe and is run inside the console's transaction;
-- the numbers that its lexer reads in it, and the placeholders of the bindings, are 1 to the
-- number of parameters, in order.
pub record IsBound {V : Type 0} (up : Text → Text) (plan : RowPlan V) : Type 0 where
  pub admitted : IsAdmitted (classify up plan.sql)
  pub placeholders : numbers (shapes up plan.sql) ≡ counted 1 (length plan.params)
  pub bound :
      map (λ b. b.placeholder) plan.bindings ≡ map placeholder_of (counted 1 (length plan.params))

pub numbered_placeholders {ℓ} :
    {A : Type ℓ} (f : A → ℕ → Binding)
    → ((x : A) (n : ℕ) → (f x n).placeholder ≡ hole n)
    → (xs : List A) (from : ℕ)
    → map (λ b. b.placeholder) (numbered f from xs) ≡ map placeholder_of (counted from (length xs))
numbered_placeholders f e [] from = refl
numbered_placeholders f e (x ∷ xs) from =
    let here = e x from in let rest = numbered_placeholders f e xs (from + 1) in cc

-- What is numbered on from what was numbered before.
pub numbered_twice {ℓ κ} :
    {A : Type ℓ} {B : Type κ} (xs : List A) (ys : List B)
    → numbered (λ _ n. digits n) 1 xs ++ (numbered (λ _ n. digits n) (length xs + 1) ys ++ [])
      ≡ counted 1 (length xs + length ys)
numbered_twice xs ys =
    let from : length xs + 1 ≡ 1 + length xs = omega arith in
    rw
      (
        append-nil (numbered (λ _ n. digits n) (length xs + 1) ys),
        numbered-counted xs 1,
        numbered-counted ys (length xs + 1),
        from,
      )
      (counted_append (length xs) (length ys) 1)

pub placeholders_twice {ℓ κ} :
    {A : Type ℓ} {B : Type κ} (f : A → ℕ → Binding) (g : B → ℕ → Binding)
    → ((x : A) (n : ℕ) → (f x n).placeholder ≡ hole n)
    → ((y : B) (n : ℕ) → (g y n).placeholder ≡ hole n)
    → (xs : List A) (ys : List B)
    → map (λ b. b.placeholder) (numbered f 1 xs ++ numbered g (length xs + 1) ys)
      ≡ map placeholder_of (counted 1 (length xs + length ys))
placeholders_twice f g e h xs ys =
    let from : length xs + 1 ≡ 1 + length xs = omega arith in
    map-append (λ b. b.placeholder) (numbered f 1 xs) (numbered g (length xs + 1) ys)
    ∙ (rw (numbered_placeholders f e xs 1, numbered_placeholders g h ys (length xs + 1), from)
        (sym (
            map-append placeholder_of (counted 1 (length xs)) (counted (1 + length xs) (length ys)))
          ∙ ap (map placeholder_of) (counted_append (length xs) (length ys) 1)))

module _ (up : Text → Text) where
  pub semicolon : Closed up false (codes ";") []
  unfolding lex_at token_at
  semicolon = record {
    read = (punct, codes ";") ∷ [];
    reads = refl;
    closed = refl;
    found = λ e. absurd (cc);
    numbers = refl;
  }

  pub where_before :
      {b : Bool} {t : Text} {ns : List Text}
      → Closed up b t ns
      → Closed up true (codes "\n where " ++ t) ns
  unfolding lex_at token_at has_word_at
  where_before {b} {t} c = record {
    read = (word, codes "WHERE") ∷ c.read;
    reads = ap (λ ts. (word, codes "WHERE") ∷ ts) (lex_at-shapes up t 0 8 0 ∙ c.reads);
    closed = closed_cons (word, codes "WHERE") c.read refl c.closed;
    found = λ e. refl;
    numbers = c.numbers;
  }
