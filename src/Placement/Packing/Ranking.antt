-- ===== src/Placement/Packing/Ranking.antt =====
-- `rankNodes`: every node that fits, emptiest first.
use mathlib.Core.List.{Perm}
use mathlib.Core.List.Perm
use corebase.Base.{ℕ, ◌+◌, ◌*◌, ◌/◌, ◌≤◌, ◌≡◌, true, List, arith, All, keep}
use corebase.Base.Sort.{IsSorted}
use corebase.Placement.Packing.{NodeCandidate, Booking, fits_both, Platform, node_le}

-- The booking stays under the ceiling on both axes.
pub record HasRoom (ceiling : ℕ) (b : Booking) (n : NodeCandidate) : Type 0 where
  pub ram : n.ram_reserved_mb + b.ram_mb ≤ n.ram_total_mb * ceiling / 100
  pub disk : n.disk_reserved_gb + b.disk_gb ≤ n.disk_total_gb * ceiling / 100

pub fits_both-HasRoom :
    (ceiling : ℕ) (b : Booking) (n : NodeCandidate)
    → fits_both ceiling n b ≡ true
    → HasRoom ceiling b n
unfolding fits_both
fits_both-HasRoom ceiling b n h = ground arith

-- The ranking of a region's nodes for a booking.
pub record IsRanking (platform : Platform) (ceiling : ℕ) (nodes : List NodeCandidate) (b : Booking)
    (ranked : List NodeCandidate) : Type 0 where
  pub sorted : IsSorted (node_le platform ceiling) ranked
  pub complete : Perm ranked (keep (λ n. fits_both ceiling n b) nodes)
  pub room : All (HasRoom ceiling b) ranked
