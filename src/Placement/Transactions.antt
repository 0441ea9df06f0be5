-- ===== src/Placement/Transactions.antt =====
-- services/worker/src/placement.ts: `allocateNode`, `releaseNode`, `releaseRam` and `bookRam`,
-- and services/worker/src/reconcile.ts: the recomputation of what a node has reserved.
-- Each maps the tables to the tables at COMMIT and the answer, or to an error and a ROLLBACK.
pub mod Sums
pub mod Accounting
pub mod History
pub mod Ceiling
pub mod Replay
use corebase.Base.{
  ℕ, ◌+◌, ◌==◌, [], ◌-◌, String, Bool, true, false, ◌&&◌, Option, none, some, List, ◌∷◌, any, first,
  keep, map, not, ltb, or_else, if◌then◌else◌,
}
use corebase.Base.Update.{update}
use corebase.Placement.Plans.{
  plan_ram_mb, plan_disk_cap_mb, plan_container_limit_mb, disk_booking_gb_for, disk_gb, can_fit,
}
use corebase.Placement.Packing.{NodeCandidate, Booking, Platform}
use corebase.Placement.Ports.{pick_port, pick_port_pair}
use corebase.Placement.Store.{
  NodeRow, Placed, Tables, Result, ok, err, ◌>>=◌, or_err, no_ports, no_capacity, no_placement,
  not_positive, unique_violation, is_node, of_project, on_node, update_node, pick_node,
  volume_name_for, PortRanges, postgrest_ports, AllocateArgs,
}

-- The answer of `allocateNode`.
pub record Placement : Type 0 where
  pub row : Placed
  pub hostname : String
  pub booked_mb : ℕ
  pub replayed : Bool

-- The node's ports in use, and the lowest free ones.
abbrev pub choose_ports : PortRanges → List Placed → Result (ℕ × ℕ × ℕ)
choose_ports ranges there = do
  port ← or_err no_ports (pick_port (map (λ d. d.port) there) ranges.pg.0 ranges.pg.1)
  pooler ←
      or_err no_ports (pick_port (map (λ d. d.pooler_port) there) ranges.pooler.0 ranges.pooler.1)
  pair ←
      or_err no_ports (pick_port_pair (postgrest_ports there) ranges.postgrest.0 ranges.postgrest.1)
  ok (port, pooler, pair)

-- The INSERT, the UPDATE of the node and the answer.
abbrev pub place : AllocateArgs → NodeCandidate → ℕ × ℕ × ℕ → Tables → Tables × Placement
place args n (port, pooler, pair) db =
    let row : Placed = record {
      project_id = args.project_id;
      node_id = n.id;
      volume_name = volume_name_for args.ref;
      port = port;
      pooler_port = pooler;
      postgrest_port = some pair;
      postgrest_admin_port = some (pair + 1);
      ram_limit_mb = plan_container_limit_mb args.plan;
      ram_booked_mb = plan_ram_mb args.plan;
      disk_limit_mb = plan_disk_cap_mb args.plan;
    } in
    (
      record {
        nodes =
            update_node n.id (λ r. r + plan_ram_mb args.plan)
              (λ d. d + disk_booking_gb_for args.plan) db.nodes;
        databases = row ∷ db.databases;
      },
      record {
        row = row;
        hostname = n.hostname;
        booked_mb = plan_ram_mb args.plan;
        replayed = false;
      },
    )

abbrev pub wanted : String → Booking
wanted plan = record { ram_mb = plan_ram_mb plan; disk_gb = disk_booking_gb_for plan }

-- `SELECT … FROM project_databases d JOIN nodes n ON n.id = d.node_id WHERE d.project_id = $1`
unfoldable pub placement_of : String → Tables → Option (Placed × NodeRow)
placement_of project_id db = elim (first (keep (of_project project_id) db.databases)) [
  | none ↦ none
  | some d ↦ elim (first (keep (is_node d.node_id) db.nodes)) [ none ↦ none | some n ↦ some (d, n) ]
]

module _ (platform : Platform) (stale_seconds : ℕ) (ranges : PortRanges) where
  -- `seen` is the reading of `nodes` that the ranking is made from.
  unfoldable pub allocate_node :
      ℕ → AllocateArgs → List NodeRow → Tables → Result (Tables × Placement)
  allocate_node now args seen db = elim (placement_of args.project_id db) [
    | some (d, n) ↦ ok (
      db,
      record { row = d; hostname = n.hostname; booked_mb = plan_ram_mb args.plan; replayed = true },
    )
    | none ↦ do
      n ←
          pick_node platform stale_seconds now (or_else args.region "eu-central") (wanted args.plan)
            seen db.nodes
      ports ← choose_ports ranges (keep (on_node n.id) db.databases)
      -- The INSERT fails on `project_id UNIQUE`; the ports chosen are free on the node.
      if any (of_project args.project_id) db.databases
          then err unique_violation
          else ok (place args n ports db)
  ]

-- The tables, `released` and `freedMb`.
unfoldable pub release_node : String → Tables → Tables × Bool × ℕ
release_node project_id db = elim (first (keep (of_project project_id) db.databases)) [
  | none ↦ (db, false, 0)
  | some d ↦ (
    record {
      nodes =
          update_node d.node_id (λ r. r - d.ram_booked_mb) (λ g. g - disk_gb d.disk_limit_mb)
            db.nodes;
      databases = keep (λ e. not (of_project project_id e)) db.databases;
    },
    true,
    d.ram_booked_mb,
  )
]

abbrev pub is_booked : String → Placed → Bool
is_booked project_id d = of_project project_id d && ltb 0 d.ram_booked_mb

abbrev pub book : ℕ → Placed → Placed
book mb d = record d { ram_booked_mb = mb }

unfoldable pub release_ram : String → Tables → Tables × Bool × ℕ
release_ram project_id db = elim (first (keep (is_booked project_id) db.databases)) [
  | none ↦ (db, false, 0)
  | some d ↦ (
    record {
      nodes = update_node d.node_id (λ r. r - d.ram_booked_mb) (λ g. g) db.nodes;
      databases = (update (of_project project_id) (book 0) db.databases).0;
    },
    true,
    d.ram_booked_mb,
  )
]

-- The tables, `rebooked` and `bookedMb`. Only the node's row is locked: the project's row is read
-- from the snapshot `seen`, taken before the lock is had, and the node's as it is then.
unfoldable pub book_ram : String → String → List Placed → Tables → Result (Tables × Bool × ℕ)
book_ram project_id plan seen db = do
  (d, n) ← or_err no_placement (placement_of project_id (record db { databases = seen }))
  if ltb 0 d.ram_booked_mb then ok (db, false, d.ram_booked_mb) else do
    fit ← or_err not_positive (can_fit n.ram_total_mb n.ram_reserved_mb (plan_ram_mb plan))
    if fit
        then ok (
          record {
            nodes = update_node d.node_id (λ r. r + plan_ram_mb plan) (λ g. g) db.nodes;
            databases = (update (of_project project_id) (book (plan_ram_mb plan)) db.databases).0;
          },
          true,
          plan_ram_mb plan,
        )
        else err no_capacity

-- services/worker/src/reconcile.ts: what the placements of a node should add up to, each by the plan
-- of its project, whether it is paused or not.
abbrev pub expected : (String → String) → String → List Placed → ℕ
expected plan_of id [] = 0
expected plan_of id (d ∷ ds) =
    let rest = expected plan_of id ds in
    if on_node id d then plan_ram_mb (plan_of d.project_id) + rest else rest

-- The recomputation of one node's reservation; `seen` is its reading, which locks nothing.
unfoldable pub recompute_node : (String → String) → String → Tables → Tables → Tables
recompute_node plan_of id seen db =
    let sum = expected plan_of id seen.databases in
    elim (first (keep (is_node id) seen.nodes)) [
      | none ↦ db
      | some n ↦
          if n.ram_reserved_mb == sum
          then db
          else record db { nodes = update_node id (λ r. sum) (λ g. g) db.nodes }
    ]
