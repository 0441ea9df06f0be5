-- ===== src/Placement/Store.antt =====
-- services/worker/src/placement.ts: the `nodes` and `project_databases` tables and the
-- transactions on them. A transaction that throws is rolled back, so its result is an error and
-- no tables. `pickNode` reads twice: its ranking is made from an earlier reading of `nodes`, the
-- row it returns from the tables as they are when the row's lock is held, which is until COMMIT.
-- Times are in seconds, error messages are left out; `ceil` and the ceiling as in Plans.
use corebase.Base.{
  ℕ, ◌+◌, String, Bool, true, false, not, ◌&&◌, Option, none, some, List, [], ◌∷◌, ◌++◌, str_eq,
  first, keep, map, ltb, or_else, if◌then◌else◌,
}
use Prim.Native.String
use corebase.Base.Update.{update}
use corebase.Placement.Plans.{fill_ceiling}
use corebase.Placement.Packing.{NodeCandidate, Booking, Platform, rank_nodes, fits}

pub data NodeStatus : Type 0 where
  active cordoned draining retired : NodeStatus

abbrev pub is_active : NodeStatus → Bool
is_active active = true
is_active _ = false

-- The columns of `nodes` that placement reads or writes.
pub record NodeRow : Type 0 where
  pub candidate : NodeCandidate
  pub open candidate use *
  pub region : String
  pub status : NodeStatus
  pub last_seen_at : Option ℕ

-- Those of `project_databases`.
pub record Placed : Type 0 where
  pub project_id : String
  pub node_id : String
  pub volume_name : String
  pub port : ℕ
  pub pooler_port : ℕ
  pub postgrest_port : Option ℕ
  pub postgrest_admin_port : Option ℕ
  pub ram_limit_mb : ℕ
  pub ram_booked_mb : ℕ
  pub disk_limit_mb : ℕ

pub record Tables : Type 0 where
  pub nodes : List NodeRow
  pub databases : List Placed

pub data Refusal : Type 0 where
  no_capacity no_ports no_placement not_positive unique_violation : Refusal

pub data Result {ℓ} (A : Type ℓ) : Type ℓ where
  ok : A → Result A
  err : Refusal → Result A

infixl 5 ◌>>=◌
abbrev pub ◌>>=◌ {ℓ κ} : {A : Type ℓ} {B : Type κ} → Result A → (A → Result B) → Result B
ok a >>= f = f a
err e >>= f = err e

-- `none` as the error that it stands for.
abbrev pub or_err {ℓ} : {A : Type ℓ} → Refusal → Option A → Result A
or_err e none = err e
or_err e (some a) = ok a

abbrev pub is_node : String → NodeRow → Bool
is_node id n = str_eq n.id id

abbrev pub of_project : String → Placed → Bool
of_project project_id d = str_eq d.project_id project_id

abbrev pub on_node : String → Placed → Bool
on_node id d = str_eq d.node_id id

-- `UPDATE nodes SET … WHERE id = $1` on the two reservations.
abbrev pub reserve : (ℕ → ℕ) → (ℕ → ℕ) → NodeRow → NodeRow
reserve ram disk n = record n {
  candidate = record n.candidate {
    ram_reserved_mb = ram n.candidate.ram_reserved_mb;
    disk_reserved_gb = disk n.candidate.disk_reserved_gb;
  };
}

abbrev pub update_node : String → (ℕ → ℕ) → (ℕ → ℕ) → List NodeRow → List NodeRow
update_node id ram disk nodes = (update (is_node id) (reserve ram disk) nodes).0

abbrev pub is_host : String → NodeRow → Bool
is_host hostname n = str_eq n.hostname hostname

-- What a worker that registers again writes.
abbrev pub refresh : ℕ → ℕ → ℕ → NodeRow → NodeRow
refresh ram_total_mb disk_total_gb now n = record n {
  candidate = record n.candidate { ram_total_mb = ram_total_mb; disk_total_gb = disk_total_gb };
  last_seen_at = some now;
}

-- Registration (`INSERT … ON CONFLICT (hostname) DO UPDATE`), the new row's id given by the
-- database; the returned row's id. Labels and the address are left out.
unfoldable pub register_node :
    String → String → Option String → ℕ → ℕ → ℕ → List NodeRow → List NodeRow × String
register_node new_id hostname region ram_total_mb disk_total_gb now nodes =
    let (nodes', rows) = update (is_host hostname) (refresh ram_total_mb disk_total_gb now) nodes in
    let fresh : NodeRow = record {
      candidate = record {
        id = new_id;
        hostname = hostname;
        ram_total_mb = ram_total_mb;
        ram_reserved_mb = 0;
        disk_total_gb = disk_total_gb;
        disk_reserved_gb = 0;
      };
      region = or_else region "eu-central";
      status = active;
      last_seen_at = some now;
    } in
    elim (first rows) [ some n ↦ (nodes', n.id) | none ↦ (fresh ∷ nodes, new_id) ]

-- `last_seen_at IS NULL OR last_seen_at < now() - NODE_STALE_SECONDS`
abbrev pub is_stale : ℕ → ℕ → NodeRow → Bool
is_stale stale_seconds now n = elim n.last_seen_at [
  | none ↦ true
  | some t ↦ ltb (t + stale_seconds) now
]

-- The walk along the ranking: each candidate's row is locked and read again.
unfoldable pub lock_first : List NodeRow → Booking → List NodeCandidate → Result NodeCandidate
lock_first nodes want [] = err no_capacity
lock_first nodes want (c ∷ ranked) =
    let rest = lock_first nodes want ranked in
    elim (first (keep (is_node c.id) nodes)) [
      | none ↦ rest
      | some r ↦
          if is_active r.status
          then elim (fits fill_ceiling r.candidate want) [
            | none ↦ err not_positive
            | some fit ↦ if fit then ok r.candidate else rest
          ]
          else rest
    ]

module _ (platform : Platform) (stale_seconds : ℕ) where
  -- `seen` is the earlier reading.
  unfoldable pub pick_node :
      ℕ → String → Booking → List NodeRow → List NodeRow → Result NodeCandidate
  pick_node now region want seen nodes =
      let live =
        keep (λ n. not (is_stale stale_seconds now n))
          (keep (λ n. is_active n.status && str_eq n.region region) seen) in
      do
        ranked ←
            or_err not_positive
              (rank_nodes platform fill_ceiling (map (λ n. n.candidate) live) want)
        lock_first nodes want ranked

abbrev pub volume_name_for : String → String
volume_name_for ref = String.◌++◌ "sh-" (String.◌++◌ ref "-pgdata")

-- PG_PORT_RANGE, POOLER_PORT_RANGE and POSTGREST_PORT_RANGE.
pub record PortRanges : Type 0 where
  pub pg : ℕ × ℕ
  pub pooler : ℕ × ℕ
  pub postgrest : ℕ × ℕ

abbrev pub somes : List (Option ℕ) → List ℕ
somes [] = []
somes (none ∷ xs) = somes xs
somes (some x ∷ xs) = x ∷ somes xs

-- Both PostgREST columns of every row, nulls dropped.
abbrev pub postgrest_ports : List Placed → List ℕ
postgrest_ports [] = []
postgrest_ports (d ∷ ds) =
    somes (d.postgrest_port ∷ d.postgrest_admin_port ∷ []) ++ postgrest_ports ds

pub record AllocateArgs : Type 0 where
  pub project_id : String
  pub ref : String
  pub plan : String
  pub region : Option String
