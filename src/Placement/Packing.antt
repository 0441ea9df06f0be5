-- ===== src/Placement/Packing.antt =====
-- services/worker/src/placement.ts: `fillRatio`, `fits` and `rankNodes`.
-- Ratios are doubles, of which the platform says what they are; `fits` is in exact arithmetic.
pub mod Order
pub mod Ranking
use corebase.Base.{
  ℕ, zero, suc, ◌+◌, ◌*◌, ◌/◌, ◌≡◌, String, Bool, true, false, ◌&&◌, ◌||◌, Option, none, some, List,
  [], ◌∷◌, leb, ltb, if◌then◌else◌, keep,
}
use corebase.Base.Sort.{sort}

pub record NodeCandidate : Type 0 where
  pub id : String
  pub hostname : String
  pub ram_total_mb : ℕ
  pub ram_reserved_mb : ℕ
  pub disk_total_gb : ℕ
  pub disk_reserved_gb : ℕ

pub record Booking : Type 0 where
  pub ram_mb : ℕ
  pub disk_gb : ℕ

-- What the code takes from the platform: doubles, and `localeCompare` on host names. No double here
-- is a NaN, since a quotient is by a positive number.
pub record Platform : Type 1 where
  pub Double : Type 0
  pub infinity : Double
  -- `reserved / (total * ceiling)`, with `ceiling` in percent.
  pub quotient : ℕ → ℕ → ℕ → Double
  -- `x <= y`
  pub double_le : Double → Double → Bool
  pub double_total : (x y : Double) → double_le x y ≡ false → double_le y x ≡ true
  pub double_trans :
      (x y z : Double) → double_le x y ≡ true → double_le y z ≡ true → double_le x z ≡ true
  -- `a.localeCompare(b) <= 0`
  pub host_le : String → String → Bool
  pub host_total : (a b : String) → host_le a b ≡ false → host_le b a ≡ true
  pub host_trans : (a b c : String) → host_le a b ≡ true → host_le b c ≡ true → host_le a c ≡ true

module _ (platform : Platform) where
  open platform use {Double, infinity, quotient, double_le}

  -- `cap > 0 ? reserved / cap : Infinity`
  abbrev pub fill_of : ℕ → ℕ → ℕ → Double
  fill_of reserved total ceiling =
      if ltb 0 (total * ceiling) then quotient reserved total ceiling else infinity

  unfoldable pub fill_ratio : ℕ → NodeCandidate → Double
  fill_ratio ceiling n =
      let ram = fill_of n.ram_reserved_mb n.ram_total_mb ceiling in
      let disk = fill_of n.disk_reserved_gb n.disk_total_gb ceiling in
      if double_le ram disk then disk else ram

abbrev pub is_booking : Booking → Bool
is_booking b = ltb 0 b.ram_mb && ltb 0 b.disk_gb

-- The two tests of `fits`, with nothing subtracted.
unfoldable pub fits_both : ℕ → NodeCandidate → Booking → Bool
fits_both ceiling n b =
    leb (n.ram_reserved_mb + b.ram_mb) (n.ram_total_mb * ceiling / 100)
    && leb (n.disk_reserved_gb + b.disk_gb) (n.disk_total_gb * ceiling / 100)

-- `none` where it throws.
unfoldable pub fits : ℕ → NodeCandidate → Booking → Option Bool
fits ceiling n b = if is_booking b then some (fits_both ceiling n b) else none

module _ (platform : Platform) (ceiling : ℕ) where
  open platform use {double_le, host_le}

  -- The comparator is not positive. The difference of two doubles is 0 only if they are equal; a node
  -- of ratio Infinity never fits, so no two of these are compared.
  unfoldable pub node_le : NodeCandidate → NodeCandidate → Bool
  node_le x y =
      let rx = fill_ratio platform ceiling x in
      let ry = fill_ratio platform ceiling y in
      if double_le rx ry
      then if double_le ry rx then host_le x.hostname y.hostname else true
      else false

  -- `filter` throws at the first node where `fits` does.
  unfoldable pub rank_nodes : List NodeCandidate → Booking → Option (List NodeCandidate)
  rank_nodes [] b = some []
  rank_nodes (n ∷ nodes) b =
      if is_booking b
      then some (sort node_le (keep (λ m. fits_both ceiling m b) (n ∷ nodes)))
      else none
