-- ===== src/Kernel/Pagination.antt =====
-- services/api/src/kernel/pagination.ts: page requests, pages and their cursors.
-- JSON and base64url are arguments: `print` encodes a cursor, `parse` reads a text back, `none`
-- where that throws. `Number` and `Date.parse` are arguments too.
pub mod Cuts
pub mod Walk
use corebase.Base.{
  ℕ, zero, suc, ◌+◌, Bool, true, false, not, ◌&&◌, Option, none, some, List, [], ◌∷◌, ltb, leb, min,
  length, take, is_some, if◌then◌else◌,
}
use corebase.Base.Texts.{Text}

pub record Cursor : Type 0 where
  pub created_at : Text
  pub id : Text

-- What JSON.parse returns: `null`, or a value with the two fields where they are texts.
pub data Parsed : Type 0 where
  null_value : Parsed
  value : Option Text → Option Text → Parsed

pub data Decoded : Type 0 where
  decoded : Cursor → Decoded
  bad_request : Decoded
  -- A field of `null` was read, outside the `try`.
  type_error : Decoded

unfoldable pub decode_cursor : (Text → Option Parsed) → (Text → Bool) → Text → Decoded
decode_cursor parse is_date raw = elim (parse raw) [
  | none ↦ bad_request
  | some null_value ↦ type_error
  | some (value none id) ↦ bad_request
  | some (value (some created_at) none) ↦ bad_request
  | some (value (some created_at) (some id)) ↦
      if is_date created_at
      then decoded (record { created_at = created_at; id = id })
      else bad_request
]

-- `n` is `Number(raw)` where that is a whole number from 0 on; an absent or empty text gives 20.
unfoldable pub page_limit : (Text → Option ℕ) → Option Text → Option ℕ
page_limit number none = some 20
page_limit number (some []) = some 20
page_limit number (some (c ∷ raw)) = elim (number (c ∷ raw)) [
  | none ↦ none
  | some n ↦ if ltb n 1 then none else some (min n 100)
]

pub record Page (A : Type 0) : Type 0 where
  pub items : List A
  pub next_cursor : Option Text
  pub has_more : Bool

-- `items.at(-1)`
abbrev pub last : {A : Type 0} → List A → Option A
last [] = none
last (x ∷ xs) = elim (last xs) [ none ↦ some x | some y ↦ some y ]

module _ {A : Type 0} (print : Cursor → Text) (cursor_of : A → Cursor) where
  unfoldable pub to_page : List A → ℕ → Page A
  to_page rows limit =
      let has_more = ltb limit (length rows) in
      let items = if has_more then take limit rows else rows in
      record {
        items = items;
        next_cursor =
            if has_more
            then elim (last items) [ none ↦ none | some x ↦ some (print (cursor_of x)) ]
            else none;
        has_more = has_more;
      }
