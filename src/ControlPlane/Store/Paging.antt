-- ===== src/ControlPlane/Store/Paging.antt =====
-- The pages of the project list.
use mathlib.Core.List.{Perm}
use corebase.Base.{
  ℕ, ◌<◌, ◌≡◌, ◌≢◌, refl, sym, inl, inr, String, Bool, true, Option, none, some, List, [], ◌∷◌,
  length, keep, All, All-map, All-map2, Bool-cases,
}
use corebase.Base.Texts.{Text}
use corebase.Base.Sort.{sort, insert, IsSorted, sort-IsSorted, sort-perm, sort-All, insert-All}
use corebase.Kernel.Pagination.{Cursor, Parsed, value, decoded, decode_cursor}
use corebase.Kernel.Pagination.Walk.{walk, walk_all, IsOrdered, decode_cursor-print}
use corebase.ControlPlane.Store.{
  Project, MemoryStore, newer_first, after_cursor, is_listed, sorted_projects, list_projects_page,
}
use corebase.ControlPlane.Store.Order.{
  newer_total, newer_trans, cursor_of, after_cursor_not, after_cursor_asym,
  newer_first-after_cursor,
}

-- No two rows have one id.
abbrev pub IsApart : List Project → Type 0
IsApart [] = Unit
IsApart (p ∷ projects) = All (λ q. p.id ≢ q.id) projects × IsApart projects

keep-All :
    (P : Project → Type 0) (test : Project → Bool) (projects : List Project)
    → All P projects
    → All P (keep test projects)
keep-All P test [] h = tt
keep-All P test (p ∷ projects) (here, h) = elim (Bool-cases (test p)) [
  | inl e ↦ rw e (here, keep-All P test projects h)
  | inr e ↦ rw e (keep-All P test projects h)
]

keep-IsApart :
    (test : Project → Bool) (projects : List Project)
    → IsApart projects
    → IsApart (keep test projects)
keep-IsApart test [] h = tt
keep-IsApart test (p ∷ projects) (here, h) = elim (Bool-cases (test p)) [
  | inl e ↦ rw e (keep-All (λ q. p.id ≢ q.id) test projects here, keep-IsApart test projects h)
  | inr e ↦ rw e (keep-IsApart test projects h)
]

insert-IsApart :
    (p : Project) (projects : List Project)
    → All (λ q. p.id ≢ q.id) projects
    → IsApart projects
    → IsApart (insert newer_first p projects)
unfolding insert
insert-IsApart p [] new h = (tt, tt)
insert-IsApart p (q ∷ projects) (other, new) (here, h) = elim (Bool-cases (newer_first p q)) [
  | inl e ↦ rw e ((other, new), (here, h))
  | inr e ↦ rw e (
    insert-All newer_first (λ r. q.id ≢ r.id) p projects (λ same. other (sym same)) here,
    insert-IsApart p projects new h,
  )
]

sort-IsApart : (projects : List Project) → IsApart projects → IsApart (sort newer_first projects)
unfolding sort
sort-IsApart [] h = tt
sort-IsApart (p ∷ projects) (here, h) =
    insert-IsApart p (sort newer_first projects)
      (sort-All newer_first (λ q. p.id ≢ q.id) projects here) (sort-IsApart projects h)

abbrev pub comes_after : Project → Project → Bool
comes_after p q = after_cursor (cursor_of p) q

IsSorted-IsOrdered :
    (projects : List Project)
    → IsSorted newer_first projects
    → IsApart projects
    → IsOrdered comes_after projects
IsSorted-IsOrdered [] h k = tt
IsSorted-IsOrdered (p ∷ projects) (newer, h) (other, k) = (
  All-map2 (λ q. newer_first p q ≡ true) (λ q. p.id ≢ q.id) (λ q. comes_after p q ≡ true) projects
      (λ q e apart. newer_first-after_cursor p q apart e) newer other,
  IsSorted-IsOrdered projects h k,
)

-- What the pages hold together.
pub record IsListing (org : Option String) (s : MemoryStore) (pages : Option (List Project))
    : Type 0 where
  pub rows : List Project
  pub read : pages ≡ some rows
  pub each_once : Perm rows (keep (is_listed org) s.projects)
  pub newest_first : IsOrdered comes_after rows

module _ (parse : Text → Option Parsed) (print : Cursor → Text) (is_date : Text → Bool) (limit : ℕ)
    (org : Option String) where
  -- Let a printed cursor be read back as an object with its two texts, let every project's time be a date
  -- and no two projects have one id. Then the pages that a client gets by following
  -- `next_cursor` hold every listed project of the organization exactly once, newest first,
  -- whatever the page size.
  pub walk-IsListing :
      (s : MemoryStore) (fuel : ℕ)
      → ((c : Cursor) → parse (print c) ≡ some (value (some c.created_at) (some c.id)))
      → All (λ p. is_date p.created_at ≡ true) s.projects
      → IsApart s.projects
      → 0 < limit
      → length (sorted_projects org s) < fuel
      → IsListing org s (
          walk parse print is_date cursor_of
            (λ cursor. list_projects_page limit cursor org s)
            limit
            fuel
            none)
  unfolding list_projects_page sorted_projects
  walk-IsListing s fuel reads dated apart positive enough =
      let listed = keep (is_listed org) s.projects in
      let rows = sort newer_first listed in
      let ordered =
        IsSorted-IsOrdered rows (sort-IsSorted newer_first newer_total newer_trans listed)
          (sort-IsApart listed (keep-IsApart (is_listed org) s.projects apart)) in
      record {
        rows = rows;
        read =
            walk_all parse print is_date cursor_of (λ cursor. list_projects_page limit cursor org s)
              limit after_cursor rows (λ cursor. refl)
              (sort-All newer_first
                (λ p. decode_cursor parse is_date (print (cursor_of p)) ≡ decoded (cursor_of p))
                listed
                (All-map (λ p. is_date p.created_at ≡ true)
                  (λ p. decode_cursor parse is_date (print (cursor_of p)) ≡ decoded (cursor_of p))
                  listed
                  (λ p. decode_cursor-print parse print is_date (cursor_of p) (reads (cursor_of p)))
                  (keep-All (λ p. is_date p.created_at ≡ true) (is_listed org) s.projects dated)))
              after_cursor_not after_cursor_asym ordered positive fuel enough;
        each_once = sort-perm newer_first listed;
        newest_first = ordered;
      }
