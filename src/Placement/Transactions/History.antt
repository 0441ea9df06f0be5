-- ===== src/Placement/Transactions/History.antt =====
-- The placement tables over any sequence of transactions.
use corebase.Base.{
  ℕ, ◌+◌, ◌⊎◌, String, ◌≡◌, refl, subst, inl, inr, Bool, true, false, some, Option, List, [], ◌∷◌,
  arith, Bool-cases, Option-cases, All, first, keep, any, ltb, or_else,
}
use corebase.Base.Update.{update, update-All}
use corebase.Placement.Plans.{disk_gb, plan_ram_mb, can_fit}
use corebase.Placement.Packing.{NodeCandidate, Platform}
use corebase.Placement.Store.{
  update_node, NodeRow, Placed, Tables, Result, Refusal, ok, err, of_project, on_node, PortRanges,
  AllocateArgs, pick_node, register_node, is_host, refresh,
}
use corebase.Placement.Transactions.{
  book, Placement, place, placement_of, allocate_node, release_node, release_ram, book_ram,
  choose_ports, wanted, recompute_node,
}
use corebase.Placement.Transactions.Sums.{load}
use corebase.Placement.Transactions.Accounting.{
  IsAccounted, Accounts, place-IsAccounted, rebooked, placement_of-first,
}

pub Result-cases {ℓ} :
    {A : Type ℓ} (m : Result A) → ((a : A) × (m ≡ ok a)) ⊎ ((x : Refusal) × (m ≡ err x))
Result-cases (ok a) = inl (a, refl)
Result-cases (err x) = inr (x, refl)

module _ (platform : Platform) (stale_seconds : ℕ) (ranges : PortRanges) where
  -- How an allocation that commits comes about.
  pub data Allocated (args : AllocateArgs) (db : Tables) (r : Tables × Placement) : Type 0 where
    replay :
        (d : Placed) (n : NodeRow)
        → placement_of args.project_id db ≡ some (d, n)
        → (
          db,
          record {
            row = d;
            hostname = n.hostname;
            booked_mb = plan_ram_mb args.plan;
            replayed = true;
          },
        )
          ≡ r
        → Allocated args db r
    placed :
        (n : NodeCandidate) (ports : ℕ × ℕ × ℕ) (now : ℕ) (seen : List NodeRow) (region : String)
        → pick_node platform stale_seconds now region (wanted args.plan) seen db.nodes ≡ ok n
        → choose_ports ranges (keep (on_node n.id) db.databases) ≡ ok ports
        → any (of_project args.project_id) db.databases ≡ false
        → place args n ports db ≡ r
        → Allocated args db r

  pub allocate_node-Allocated :
      (now : ℕ) (args : AllocateArgs) (seen : List NodeRow) (db : Tables) {r : Tables × Placement}
      → allocate_node platform stale_seconds ranges now args seen db ≡ ok r
      → Allocated args db r
  unfolding allocate_node
  allocate_node-Allocated now args seen db {r} e =
      elim (Option-cases (placement_of args.project_id db)) [
        | inr ((d, n), f) ↦ replay d n f (cc)
        | inl f ↦
            elim (Result-cases (
              pick_node platform stale_seconds now (or_else args.region "eu-central")
                (wanted args.plan) seen db.nodes)) [
                  | inr (x, g) ↦ absurd (cc)
                  | inl (n, picked) ↦
                      elim (Result-cases (choose_ports ranges (keep (on_node n.id) db.databases))) [
                        | inr (x, g) ↦ absurd (cc)
                        | inl (ports, chosen) ↦
                            elim (Bool-cases (any (of_project args.project_id) db.databases)) [
                              | inl old ↦ absurd (cc)
                              | inr new ↦ placed n ports now seen _ picked chosen new (cc)
                            ]
                      ]
                ]
      ]

  pub allocate_node-IsAccounted :
      (now : ℕ) (args : AllocateArgs) (seen : List NodeRow) (db : Tables) {r : Tables × Placement}
      → allocate_node platform stale_seconds ranges now args seen db ≡ ok r
      → IsAccounted db
      → IsAccounted r.0
  allocate_node-IsAccounted now args seen db {r} e a =
      elim (allocate_node-Allocated now args seen db e) [
        | replay _ _ _ end ↦ subst (λ q. IsAccounted q.0) end a
        | placed n ports _ _ _ picked chosen new end ↦
            subst (λ q. IsAccounted q.0) end (place-IsAccounted args n ports db new a)
      ]

pub book_ram-IsAccounted :
    (p plan : String) (db : Tables) {r : Tables × Bool × ℕ}
    → book_ram p plan db.databases db ≡ ok r
    → IsAccounted db
    → IsAccounted r.0
unfolding book_ram
book_ram-IsAccounted p plan db {r} e a = elim (Option-cases (placement_of p db)) [
  | inl f ↦ absurd (cc)
  | inr ((d, n), f) ↦ elim (Bool-cases (ltb 0 d.ram_booked_mb)) [
    | inl full ↦ let same : db ≡ r.0 = cc in subst IsAccounted same a
    | inr empty ↦
        elim (Option-cases (can_fit n.ram_total_mb n.ram_reserved_mb (plan_ram_mb plan))) [
          | inl g ↦ absurd (cc)
          | inr (true, g) ↦
              let same : record {
                nodes = update_node d.node_id (λ r. r + plan_ram_mb plan) (λ g. g) db.nodes;
                databases = (update (of_project p) (book (plan_ram_mb plan)) db.databases).0;
              }
                  ≡ r.0 =
                cc in
              subst IsAccounted same (
                rebooked p (plan_ram_mb plan) (λ r. r + plan_ram_mb plan) d db a
                  (placement_of-first p db f).0 (λ r l k h1 h2. ground arith))
          | inr (false, g) ↦ absurd (cc)
        ]
  ]
]

-- Registration leaves every reservation; the id that the database gives a new node is on no
-- placement.
pub register_node-Accounts :
    (new_id hostname : String) (region : Option String) (ram disk now : ℕ) (nodes : List NodeRow)
    (ds : List Placed)
    → All (λ d. on_node new_id d ≡ false) ds
    → All (Accounts ds) nodes
    → All (Accounts ds) (register_node new_id hostname region ram disk now nodes).0
unfolding register_node
register_node-Accounts new_id hostname region ram disk now nodes ds fresh a =
    elim (Option-cases (first (update (is_host hostname) (refresh ram disk now) nodes).1)) [
      | inr (n, e) ↦
          rw (e, register_node)
            (update-All (is_host hostname) (refresh ram disk now) (Accounts ds) nodes (λ n f h. h)
              a)
      | inl e ↦
          rw (e, register_node)
            (
              (
                empty (λ d. d.ram_booked_mb) ds fresh,
                empty (λ d. disk_gb d.disk_limit_mb) ds fresh,
              ),
              a,
            )
    ]
  where
    empty :
        (w : Placed → ℕ) (es : List Placed)
        → All (λ d. on_node new_id d ≡ false) es
        → 0 ≡ load w new_id es
    empty w [] h = refl
    empty w (d ∷ es) (x, h) = rw (x, ← empty w es h) refl

module _ (platform : Platform) (stale_seconds : ℕ) (ranges : PortRanges) where
  -- One committed transaction.
  pub data Step (db : Tables) : Tables → Type 0 where
    registers :
        (new_id hostname : String) (region : Option String) (ram disk now : ℕ)
        → All (λ d. on_node new_id d ≡ false) db.databases
        → Step db
            (record db { nodes = (register_node new_id hostname region ram disk now db.nodes).0 })
    allocates :
        (now : ℕ) (args : AllocateArgs) (seen : List NodeRow) (r : Tables × Placement)
        → allocate_node platform stale_seconds ranges now args seen db ≡ ok r
        → Step db r.0
    releases : (p : String) → Step db (release_node p db).0
    unbooks : (p : String) → Step db (release_ram p db).0
    -- No other transaction on the project's row commits between the reading and the lock.
    books :
        (p plan : String) (r : Tables × Bool × ℕ)
        → book_ram p plan db.databases db ≡ ok r
        → Step db r.0
    -- No placement on the node is paused, and nothing commits during the recomputation.
    recomputes :
        (plan_of : String → String) (id : String)
        → All
            (λ d. on_node id d ≡ true → d.ram_booked_mb ≡ plan_ram_mb (plan_of d.project_id))
            db.databases
        → Step db (recompute_node plan_of id db db)

  pub data History : Tables → Type 0 where
    created : History (record { nodes = []; databases = [] })
    then_step : {db db' : Tables} → History db → Step db db' → History db'
