-- ===== src/Kernel/Pagination/Walk.antt =====
-- A client that follows `next_cursor` from the first page on.
use corebase.Base.{
  ℕ, zero, suc, ◌≤◌, ◌<◌, ◌≡◌, refl, sym, ◌∙◌, ap, subst, inl, inr, Bool, true, false, Option, none,
  some, List, [], ◌∷◌, ◌++◌, ltb, length, take, keep, All, Bool-cases, arith,
}
use mathlib.Core.List.{append_assoc}
use corebase.Base.Texts.{Text, drop}
use corebase.Kernel.Pagination.Cuts.{
  take-drop, length-drop, take_all, take_again, length-take, split_last,
}
use corebase.Kernel.Pagination.{Cursor, Parsed, value, decoded, decode_cursor, Page, last, to_page}

-- A cursor that is printed is read back.
pub decode_cursor-print :
    (parse : Text → Option Parsed) (print : Cursor → Text) (is_date : Text → Bool) (c : Cursor)
    → parse (print c) ≡ some (value (some c.created_at) (some c.id))
    → is_date c.created_at ≡ true
    → decode_cursor parse is_date (print c) ≡ decoded c
unfolding decode_cursor
decode_cursor-print parse print is_date c reads dated = rw (reads, dated, decode_cursor) refl

-- The cursor of a request, `none` where it is refused.
unfoldable pub read_cursor :
    (Text → Option Parsed) → (Text → Bool) → Option Text → Option (Option Cursor)
unfolding decode_cursor
read_cursor parse is_date none = some none
read_cursor parse is_date (some text) = elim (decode_cursor parse is_date text) [
  | decoded c ↦ some (some c)
  | _ ↦ none
]

module _ {A : Type 0} (after_cursor : Cursor → A → Bool) (rows : List A) where
  abbrev pub rows_from : Option Cursor → List A
  rows_from none = rows
  rows_from (some c) = keep (after_cursor c) rows

module _ {A : Type 0} (parse : Text → Option Parsed) (print : Cursor → Text) (is_date : Text → Bool)
    (cursor_of : A → Cursor) (fetch : Option Cursor → List A) (limit : ℕ) where
  abbrev pub page_at : Option Cursor → Page A
  page_at cursor = to_page print cursor_of (fetch cursor) limit

  -- The items of all pages; `none` where `fuel` pages are not enough or a cursor is refused.
  unfoldable pub walk : ℕ → Option Text → Option (List A)
  walk zero raw = none
  walk (suc fuel) raw = elim (read_cursor parse is_date raw) [
    | none ↦ none
    | some cursor ↦ elim (page_at cursor).next_cursor [
      | none ↦ some (page_at cursor).items
      | some text ↦ elim (walk fuel (some text)) [
        | none ↦ none
        | some rest ↦ some ((page_at cursor).items ++ rest)
      ]
    ]
  ]

All-last : {A : Type 0} (P : A → Type 0) (x : A) (pre rest : List A) → All P (pre ++ x ∷ rest) → P x
All-last P x [] rest (p, h) = p
All-last P x (y ∷ pre) rest (p, h) = All-last P x pre rest h

-- Each row comes after all earlier ones.
module _ {A : Type 0} (after : A → A → Bool) where
  abbrev pub IsOrdered : List A → Type 0
  IsOrdered [] = Unit
  IsOrdered (x ∷ xs) = All (λ y. after x y ≡ true) xs × IsOrdered xs

  keep_all : (x : A) (xs : List A) → All (λ y. after x y ≡ true) xs → keep (after x) xs ≡ xs
  keep_all x [] h = refl
  keep_all x (y ∷ xs) (e, h) = rw (e, keep_all x xs h) refl

  -- What comes after a row of an ordered list is the rest of the list.
  pub keep-after :
      (irreflexive : (x : A) → after x x ≡ false)
      (asymmetric : (x y : A) → after x y ≡ true → after y x ≡ false) (x : A) (pre rest : List A)
      → IsOrdered (pre ++ x ∷ rest)
      → keep (after x) (pre ++ x ∷ rest) ≡ rest
  keep-after irreflexive asymmetric x [] rest (here, h) = rw (irreflexive x) (keep_all x rest here)
  keep-after irreflexive asymmetric x (y ∷ pre) rest (here, h) =
      let later : after y x ≡ true = All-last (λ z. after y z ≡ true) x pre rest here in
      rw (asymmetric y x later) (keep-after irreflexive asymmetric x pre rest h)

-- One page, in the two cases.
module _ {A : Type 0} (print : Cursor → Text) (cursor_of : A → Cursor) (limit : ℕ) where
  to_page_last :
      (rest : List A)
      → length rest ≤ limit
      → let page = to_page print cursor_of (take (suc limit) rest) limit in
        (page.next_cursor ≡ none) × (page.items ≡ rest)
  unfolding to_page
  to_page_last rest h =
      let all = take_all (suc limit) rest (omega (arith, h)) in
      let short : ltb limit (length rest) ≡ false = ground (arith, h) in
      rw (all, short) (refl, refl)

  to_page_more :
      (rest init : List A) (x : A)
      → limit < length rest
      → take limit rest ≡ init ++ x ∷ []
      → last (take limit rest) ≡ some x
      → let page = to_page print cursor_of (take (suc limit) rest) limit in
        (page.next_cursor ≡ some (print (cursor_of x))) × (page.items ≡ init ++ x ∷ [])
  unfolding to_page
  to_page_more rest init x h e f =
      let size = length-take (suc limit) rest (omega (arith, h)) in
      let more : ltb limit (length (take (suc limit) rest)) ≡ true = ground (arith, size) in
      let same = take_again limit rest in rw (more, same, f, e) (refl, refl)

module _ {A : Type 0} (parse : Text → Option Parsed) (print : Cursor → Text) (is_date : Text → Bool)
    (cursor_of : A → Cursor) (fetch : Option Cursor → List A) (limit : ℕ)
    (after_cursor : Cursor → A → Bool) (rows : List A)
    (fetches : (cursor : Option Cursor)
      → fetch cursor ≡ take (suc limit) (rows_from after_cursor rows cursor))
    (codec : All
      (λ x. decode_cursor parse is_date (print (cursor_of x)) ≡ decoded (cursor_of x))
      rows)
    (irreflexive : (x : A) → after_cursor (cursor_of x) x ≡ false)
    (asymmetric : (x y : A)
      → after_cursor (cursor_of x) y ≡ true
      → after_cursor (cursor_of y) x ≡ false)
    (ordered : IsOrdered (λ x. after_cursor (cursor_of x)) rows) (positive : 0 < limit) where
  read_again :
      (x : A) (pre rest : List A)
      → rows ≡ pre ++ x ∷ rest
      → read_cursor parse is_date (some (print (cursor_of x))) ≡ some (some (cursor_of x))
  unfolding read_cursor
  read_again x pre rest split =
      let reads : A → Type 0 =
        λ y. decode_cursor parse is_date (print (cursor_of y)) ≡ decoded (cursor_of y) in
      let mine = All-last reads x pre rest (subst (All reads) split codec) in
      rw (mine, read_cursor) refl

  walk_from :
      (fuel : ℕ) (raw : Option Text) (cursor : Option Cursor) (pre rest : List A)
      → read_cursor parse is_date raw ≡ some cursor
      → rows ≡ pre ++ rest
      → rows_from after_cursor rows cursor ≡ rest
      → length rest < fuel
      → walk parse print is_date cursor_of fetch limit fuel raw ≡ some rest
  unfolding walk read_cursor
  walk_from zero raw cursor pre rest reads split here enough = absurd (omega arith)
  walk_from (suc fuel) raw cursor pre rest reads split here enough =
      let page : List A → Page A = λ r. to_page print cursor_of r limit in
      let fetched : fetch cursor ≡ take (suc limit) rest =
        fetches cursor ∙ ap (λ r. take (suc limit) r) here in
      elim (Bool-cases (ltb limit (length rest))) [
        | inr short ↦
            let (stop, items) = to_page_last print cursor_of limit rest (ground (arith, short)) in
            let stop_here = subst (λ r. (page r).next_cursor ≡ none) (sym fetched) stop in
            let items_here = subst (λ r. (page r).items ≡ rest) (sym fetched) items in
            rw (reads, walk, stop_here, items_here) refl
        | inl long ↦
            let less : limit < length rest = ground (arith, long) in
            let (init, x, e, f) = split_last (take limit rest) (
              let size = length-take limit rest (omega (arith, less)) in
              omega (arith, size, positive)) in
            let (next, items) = to_page_more print cursor_of limit rest init x less e f in
            let whole : rows ≡ (pre ++ init) ++ x ∷ drop limit rest =
              split
              ∙ ap (λ ys. pre ++ ys)
                  (sym (take-drop limit rest)
                    ∙ ap (λ ys. ys ++ drop limit rest) e
                    ∙ append_assoc init (x ∷ []) (drop limit rest))
              ∙ sym (append_assoc pre init (x ∷ drop limit rest)) in
            let left : keep (after_cursor (cursor_of x)) rows ≡ drop limit rest = rw whole (
              keep-after (λ y. after_cursor (cursor_of y)) irreflexive asymmetric x (pre ++ init)
                (drop limit rest)
                (subst (IsOrdered (λ y. after_cursor (cursor_of y))) whole ordered)) in
            let fewer = length-drop limit rest (omega (arith, less)) in
            let later =
              walk_from fuel (some (print (cursor_of x))) (some (cursor_of x))
                ((pre ++ init) ++ x ∷ []) (drop limit rest)
                (read_again x (pre ++ init) (drop limit rest) whole)
                (whole ∙ sym (append_assoc (pre ++ init) (x ∷ []) (drop limit rest))) left
                (omega (arith, fewer, enough, positive)) in
            let joined : (init ++ x ∷ []) ++ drop limit rest ≡ rest =
              ap (λ ys. ys ++ drop limit rest) (sym e) ∙ take-drop limit rest in
            let next_here =
              subst (λ r. (page r).next_cursor ≡ some (print (cursor_of x))) (sym fetched) next in
            let items_here = subst (λ r. (page r).items ≡ init ++ x ∷ []) (sym fetched) items in
            rw (reads, walk, next_here, later, items_here, joined) refl
      ]

  -- Let a fetch return the rows after its cursor, one more than a page at most, let the printed
  -- cursor of each row read back, let no row come after itself nor two after each other, and let
  -- each row come after the earlier ones. Then a client that starts without a cursor and follows
  -- `next_cursor` gets every row once and in order, for any page size from 1 on; one page more than
  -- there are rows is enough.
  pub walk_all :
      (fuel : ℕ)
      → length rows < fuel
      → walk parse print is_date cursor_of fetch limit fuel none ≡ some rows
  unfolding read_cursor
  walk_all fuel enough = walk_from fuel none none [] rows refl refl refl enough
