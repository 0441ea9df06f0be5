-- ===== src/Placement/Tests.antt =====
-- Placements on one node.
use mathlib.Core.List.{Memᴰ}
use corebase.Base.{ℕ, ◌*◌, ◌/◌, leb, arith, ◌≡◌, ◌⊎◌, refl, true, false, none, some, [], ◌∷◌, All}
use corebase.Base.Sort.{sort}
use corebase.Base.Update.{update}
use corebase.Placement.Plans.{
  plan_ram_mb, plan_disk_cap_mb, plan_container_limit_mb, disk_booking_gb_for, quota_mb_for,
  can_fit,
}
use corebase.Placement.Packing.{
  NodeCandidate, Booking, Platform, rank_nodes, fill_ratio, node_le, fits, fits_both,
}
use corebase.Placement.Ports.{pick_port, pick_port_pair}
use corebase.Placement.Store.{
  NodeRow, Placed, Tables, ok, AllocateArgs, PortRanges, active, register_node, pick_node,
  lock_first,
}
use corebase.Placement.Transactions.{
  Placement, allocate_node, release_node, release_ram, book_ram, recompute_node, placement_of,
}
use corebase.Placement.Transactions.History.{History}
use corebase.Placement.Transactions.Ceiling.{UnderCeiling, allocate_node-UnderCeiling}
use corebase.Placement.Transactions.Replay.{allocate_node_replayed}

later : (x y : ℕ) → leb x y ≡ false → leb y x ≡ true
later x y e = ground arith

through : (x y z : ℕ) → leb x y ≡ true → leb y z ≡ true → leb x z ≡ true
through x y z e f = ground arith

-- Ratios in millionths. One host name only is compared here.
abbrev host : Platform
host = record {
  Double = ℕ;
  infinity = 1000000000;
  quotient = λ reserved total ceiling. reserved * 100000000 / (total * ceiling);
  double_le = leb;
  double_total = later;
  double_trans = through;
  host_le = λ a b. true;
  host_total = λ a b e. refl;
  host_trans = λ a b c e f. refl;
}

abbrev ranges : PortRanges
ranges = record { pg = (5433, 5434); pooler = (6433, 6434); postgrest = (7433, 7436) }

abbrev node : NodeRow
node = record {
  candidate = record {
    id = "n1";
    hostname = "alpha";
    ram_total_mb = 2000;
    ram_reserved_mb = 0;
    disk_total_gb = 40;
    disk_reserved_gb = 0;
  };
  region = "eu-central";
  status = active;
  last_seen_at = some 100;
}

abbrev args : AllocateArgs
args = record { project_id = "p1"; ref = "abc"; plan = "pro"; region = none }

abbrev row : ℕ → Placed
row mb = record {
  project_id = "p1";
  node_id = "n1";
  volume_name = "sh-abc-pgdata";
  port = 5433;
  pooler_port = 6433;
  postgrest_port = some 7433;
  postgrest_admin_port = some 7434;
  ram_limit_mb = 1536;
  ram_booked_mb = mb;
  disk_limit_mb = 8192;
}

abbrev full : ℕ → Tables
full mb = record {
  nodes =
      record node {
        candidate = record node.candidate { ram_reserved_mb = mb; disk_reserved_gb = 10 };
      }
      ∷ [];
  databases = row mb ∷ [];
}

abbrev before : Tables
before = record { nodes = node ∷ []; databases = [] }

abbrev answer : Placement
answer = record { row = row 1024; hostname = "alpha"; booked_mb = 1024; replayed = false }

transactions : Unit {0}
unfolding update register_node allocate_node release_node release_ram book_ram recompute_node
    placement_of pick_node lock_first rank_nodes fill_ratio node_le fits fits_both can_fit
    plan_ram_mb plan_disk_cap_mb plan_container_limit_mb disk_booking_gb_for quota_mb_for pick_port
    pick_port_pair sort
transactions = tt

allocates_pro : allocate_node host 900 ranges 120 args (node ∷ []) before ≡ ok (full 1024, answer)
unfolding transactions
allocates_pro = refl

registers_node : register_node "n1" "alpha" none 2000 40 100 [] ≡ (node ∷ [], "n1")
unfolding transactions
registers_node = refl

unbooks_pro : release_ram "p1" (full 1024) ≡ (full 0, true, 1024)
unfolding transactions
unbooks_pro = refl

-- A second resume whose snapshot is from before the first one's COMMIT reserves the RAM twice.
books_twice :
    book_ram "p1" "free" (full 0).databases (full 350)
    ≡ ok (record (full 350) { nodes = (full 700).nodes }, true, 350)
unfolding transactions
books_twice = refl

-- The RAM that a pause gave back is reserved again by the next recomputation.
recomputes_paused : (recompute_node (λ p. "pro") "n1" (full 0) (full 0)).nodes ≡ (full 1024).nodes
unfolding transactions
recomputes_paused = refl

releases_pro : release_node "p1" (full 1024) ≡ (before, true, 1024)
unfolding transactions
releases_pro = refl

abbrev pro : Booking
pro = record { ram_mb = 1024; disk_gb = 10 }

abbrev busy : NodeCandidate
busy = record node.candidate { id = "n2"; ram_reserved_mb = 500 }

allocate_node-UnderCeiling_example :
    All (λ n. UnderCeiling n ⊎ Memᴰ n (node ∷ [])) (full 1024).nodes
allocate_node-UnderCeiling_example =
    allocate_node-UnderCeiling host 900 ranges 120 args (node ∷ []) before (tt, tt) allocates_pro

allocate_node_replayed_example :
    allocate_node host 900 ranges 500 args [] (full 1024)
    ≡ ok (full 1024, record answer { booked_mb = plan_ram_mb "pro"; replayed = true })
allocate_node_replayed_example =
    allocate_node_replayed host 900 ranges 120 args (node ∷ []) before 500 args [] refl
      allocates_pro
