-- ===== src/Placement/Transactions/Ceiling.antt =====
-- No booking takes a node over the ceiling, whatever the reading was that ranked it.
use mathlib.Core.List.{Memᴰ}
use mathlib.Core.List.Memᴰ.{head, tail}
use corebase.Base.{
  ℕ, ◌+◌, ◌*◌, ◌/◌, ◌≤◌, ◌⊎◌, String, ◌≡◌, refl, sym, subst, inl, inr, Bool, true, false, some,
  List, [], ◌∷◌, arith, leb, str_eq, eq_iff, Bool-cases, Option-cases, All, first, keep, ltb, not,
  map, ◌&&◌,
}
use corebase.Base.Update.{update-All_to}
use corebase.Placement.Plans.{plan_ram_mb, disk_booking_gb_for, fill_ceiling, can_fit}
use corebase.Placement.Packing.{
  NodeCandidate, Booking, Platform, fits, fits_both, is_booking, rank_nodes,
}
use corebase.Placement.Packing.Ranking.{HasRoom, fits_both-HasRoom}
use corebase.Placement.Store.{
  NodeRow, Tables, ok, is_active, is_stale, is_node, reserve, update_node, lock_first, pick_node,
  PortRanges, AllocateArgs, or_err, not_positive,
}
use corebase.Placement.Transactions.{Placement, allocate_node, book_ram, placement_of, wanted}
use corebase.Placement.Transactions.Accounting.{placement_of-first}
use corebase.Placement.Transactions.History.{allocate_node-Allocated, replay, placed, Result-cases}

-- `id` is the primary key.
abbrev pub UniqueIds : List NodeRow → Type 0
UniqueIds [] = Unit
UniqueIds (n ∷ ns) = All (λ m. is_node n.id m ≡ false) ns × UniqueIds ns

others_not :
    (id : String) (n r : NodeRow) (ms : List NodeRow)
    → is_node id n ≡ true
    → All (λ m. is_node n.id m ≡ false) ms
    → All (λ m. is_node id m ≡ true → m ≡ r) ms
others_not id n r [] hit h = tt
others_not id n r (m ∷ ms) hit (x, h) = (
  λ f. absurd (ground (arith, eq_iff n.id id, eq_iff m.id id, eq_iff m.id n.id)),
  others_not id n r ms hit h,
)

the_row :
    (id : String) (nodes : List NodeRow) {r : NodeRow}
    → UniqueIds nodes
    → first (keep (is_node id) nodes) ≡ some r
    → All (λ n. is_node id n ≡ true → n ≡ r) nodes
the_row id [] u e = tt
the_row id (n ∷ ns) {r} (apart, u) e = elim (Bool-cases (is_node id n)) [
  | inl hit ↦ let here : some n ≡ some r = rw hit at e in (λ f. cc, others_not id n r ns hit apart)
  | inr miss ↦ (λ f. absurd (cc), the_row id ns u (rw miss at e))
]

first_id :
    (id : String) (nodes : List NodeRow) {r : NodeRow}
    → first (keep (is_node id) nodes) ≡ some r
    → r.id ≡ id
first_id id [] e = absurd (cc)
first_id id (n ∷ ns) {r} e = elim (Bool-cases (is_node id n)) [
  | inl hit ↦ let here : some n ≡ some r = rw hit at e in ground (arith, eq_iff n.id id)
  | inr miss ↦ first_id id ns (rw miss at e)
]

-- A candidate that is returned is the row of its id as it stands, active and with room.
pub record Locked (nodes : List NodeRow) (b : Booking) (c : NodeCandidate) : Type 0 where
  pub row : NodeRow
  pub found : first (keep (is_node c.id) nodes) ≡ some row
  pub same : row.candidate ≡ c
  pub on : is_active row.status ≡ true
  pub room : HasRoom fill_ceiling b c

lock_first-Locked :
    (nodes : List NodeRow) (b : Booking) (ranked : List NodeCandidate) {c : NodeCandidate}
    → lock_first nodes b ranked ≡ ok c
    → Locked nodes b c
unfolding lock_first fits
lock_first-Locked nodes b [] e = absurd (cc)
lock_first-Locked nodes b (x ∷ xs) {c} e = elim (Option-cases (first (keep (is_node x.id) nodes))) [
  | inl f ↦ lock_first-Locked nodes b xs (cc)
  | inr (r, f) ↦ elim (Bool-cases (is_active r.status)) [
    | inr off ↦ lock_first-Locked nodes b xs (cc)
    | inl on ↦ elim (Bool-cases (is_booking b)) [
      | inr bad ↦ absurd (cc)
      | inl good ↦ elim (Bool-cases (fits_both fill_ceiling r.candidate b)) [
        | inr full ↦ lock_first-Locked nodes b xs (cc)
        | inl fit ↦
            let same : r.candidate ≡ c = cc in
            let ids = first_id x.id nodes f in
            let at_c : c.id ≡ x.id = cc in
            record {
              row = r;
              found = rw at_c f;
              same = same;
              on = on;
              room =
                  subst (HasRoom fill_ceiling b) same
                    (fits_both-HasRoom fill_ceiling b r.candidate fit);
            }
      ]
    ]
  ]
]

rows_of : {P : NodeRow → Type 0} (ns : List NodeRow) → ((n : NodeRow) → Memᴰ n ns → P n) → All P ns
rows_of [] h = tt
rows_of (n ∷ ns) h = (h n (head refl), rows_of ns (λ m i. h m (tail i)))

All-and :
    (P Q : NodeRow → Type 0) (ns : List NodeRow) → All P ns → All Q ns → All (λ n. P n × Q n) ns
All-and P Q [] p q = tt
All-and P Q (n ∷ ns) (p, ps) (q, qs) = ((p, q), All-and P Q ns ps qs)

-- A row after an update of the one row found is an old row or the row found, reserved.
update_node-All :
    (id : String) (ram disk : ℕ → ℕ) (nodes : List NodeRow) {r : NodeRow} (P : NodeRow → Type 0)
    → UniqueIds nodes
    → first (keep (is_node id) nodes) ≡ some r
    → P (reserve ram disk r)
    → All (λ n. P n ⊎ Memᴰ n nodes) (update_node id ram disk nodes)
update_node-All id ram disk nodes {r} P u e p =
    update-All_to (is_node id) (reserve ram disk)
      (λ n. (is_node id n ≡ true → n ≡ r) × Memᴰ n nodes) (λ n. P n ⊎ Memᴰ n nodes) nodes
      (λ n hit h. inl (subst (λ m. P (reserve ram disk m)) (sym (h.0 hit)) p)) (λ n miss h. inr h.1)
      (All-and (λ n. is_node id n ≡ true → n ≡ r) (λ n. Memᴰ n nodes) nodes (the_row id nodes u e)
        (rows_of nodes (λ n i. i)))

abbrev pub UnderCeiling : NodeRow → Type 0
UnderCeiling n =
    (n.ram_reserved_mb ≤ n.ram_total_mb * fill_ceiling / 100)
    × (n.disk_reserved_gb ≤ n.disk_total_gb * fill_ceiling / 100)

module _ (platform : Platform) (stale_seconds : ℕ) where
  pub pick_node-Locked :
      (now : ℕ) (region : String) (b : Booking) (seen nodes : List NodeRow) {c : NodeCandidate}
      → pick_node platform stale_seconds now region b seen nodes ≡ ok c
      → Locked nodes b c
  unfolding pick_node
  pick_node-Locked now region b seen nodes {c} e =
      elim (Result-cases (
        or_err not_positive (
          rank_nodes platform fill_ceiling
            (map (λ n. n.candidate)
              (keep (λ n. not (is_stale stale_seconds now n))
                (keep (λ n. is_active n.status && str_eq n.region region) seen)))
            b))) [
              | inl (ranked, f) ↦ lock_first-Locked nodes b ranked (cc)
              | inr (x, f) ↦ absurd (cc)
            ]

  -- An allocation that commits leaves every node as it was or, on both axes, no fuller than the
  -- ceiling, whatever reading of `nodes` its ranking was made from, if node ids are unique.
  pub allocate_node-UnderCeiling :
      (ranges : PortRanges) (now : ℕ) (args : AllocateArgs) (seen : List NodeRow) (db : Tables)
      {r : Tables × Placement}
      → UniqueIds db.nodes
      → allocate_node platform stale_seconds ranges now args seen db ≡ ok r
      → All (λ n. UnderCeiling n ⊎ Memᴰ n db.nodes) r.0.nodes
  allocate_node-UnderCeiling ranges now args seen db {r} u e =
      elim (allocate_node-Allocated platform stale_seconds ranges now args seen db e) [
        | replay _ _ _ end ↦
            subst (λ q. All (λ n. UnderCeiling n ⊎ Memᴰ n db.nodes) q.0.nodes) end
              (rows_of db.nodes (λ n i. inr i))
        | placed n ports t s region picked chosen new end ↦
            let l = pick_node-Locked t region (wanted args.plan) s db.nodes picked in
            subst (λ q. All (λ n. UnderCeiling n ⊎ Memᴰ n db.nodes) q.0.nodes) end
              (update_node-All n.id (λ r. r + plan_ram_mb args.plan)
                (λ d. d + disk_booking_gb_for args.plan) db.nodes UnderCeiling u l.found
                (subst
                  (λ c.
                    (c.ram_reserved_mb + plan_ram_mb args.plan
                      ≤ c.ram_total_mb * fill_ceiling / 100)
                    × (c.disk_reserved_gb + disk_booking_gb_for args.plan
                        ≤ c.disk_total_gb * fill_ceiling / 100))
                  (sym l.same) (l.room.ram, l.room.disk)))
      ]

-- Booking a resumed project's RAM leaves every node as it was or, in RAM, no fuller than the
-- ceiling, if node ids are unique.
book_ram-UnderCeiling :
    (p plan : String) (db : Tables) {r : Tables × Bool × ℕ}
    → UniqueIds db.nodes
    → book_ram p plan db.databases db ≡ ok r
    → All
        (λ n. (n.ram_reserved_mb ≤ n.ram_total_mb * fill_ceiling / 100) ⊎ Memᴰ n db.nodes)
        r.0.nodes
unfolding book_ram can_fit
book_ram-UnderCeiling p plan db {r} u e = elim (Option-cases (placement_of p db)) [
  | inl f ↦ absurd (cc)
  | inr ((d, n), f) ↦ elim (Bool-cases (ltb 0 d.ram_booked_mb)) [
    | inl full ↦
        let same : db.nodes ≡ r.0.nodes = cc in subst (All _) same (rows_of db.nodes (λ n i. inr i))
    | inr empty ↦ elim (Bool-cases (leb (plan_ram_mb plan) 0)) [
      | inl bad ↦ absurd (cc)
      | inr good ↦
          elim (Bool-cases
            (leb (n.ram_reserved_mb + plan_ram_mb plan) (n.ram_total_mb * fill_ceiling / 100))) [
              | inr full ↦ absurd (cc)
              | inl fit ↦
                  let same : update_node d.node_id (λ r. r + plan_ram_mb plan) (λ g. g) db.nodes
                      ≡ r.0.nodes =
                    cc in
                  subst (All _) same (
                    update_node-All d.node_id (λ r. r + plan_ram_mb plan) (λ g. g) db.nodes
                      (λ n. n.ram_reserved_mb ≤ n.ram_total_mb * fill_ceiling / 100) u
                      (placement_of-first p db f).1 (ground arith))
            ]
    ]
  ]
]
