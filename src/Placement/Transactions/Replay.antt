-- ===== src/Placement/Transactions/Replay.antt =====
-- A provisioning step that runs again places the project once.
use corebase.Base.{
  ℕ, ◌+◌, String, ◌≡◌, refl, sym, ap, subst, ◌∙◌, inl, inr, true, some, List, [], ◌∷◌, eq_refl,
  Bool-cases, first, keep,
}
use corebase.Base.Update.{update}
use corebase.Placement.Plans.{plan_ram_mb, disk_booking_gb_for}
use corebase.Placement.Packing.{Platform}
use corebase.Placement.Store.{
  NodeRow, Placed, Tables, ok, is_node, of_project, reserve, update_node, PortRanges, AllocateArgs,
}
use corebase.Placement.Transactions.{Placement, allocate_node, place, placement_of, wanted}
use corebase.Placement.Transactions.History.{allocate_node-Allocated, replay, placed}
use corebase.Placement.Transactions.Ceiling.{pick_node-Locked}

first_reserved :
    (id : String) (ram disk : ℕ → ℕ) (nodes : List NodeRow) {r : NodeRow}
    → first (keep (is_node id) nodes) ≡ some r
    → first (keep (is_node id) (update_node id ram disk nodes)) ≡ some (reserve ram disk r)
unfolding update
first_reserved id ram disk [] e = absurd (cc)
first_reserved id ram disk (n ∷ ns) {r} e = elim (Bool-cases (is_node id n)) [
  | inl hit ↦
      let here : some n ≡ some r = rw hit at e in
      let at_n : n ≡ r = cc in
      rw (update, hit, keep, hit) (ap (λ m. some (reserve ram disk m)) at_n)
  | inr miss ↦ rw (update, miss, keep, miss) (first_reserved id ram disk ns (rw miss at e))
]

-- The placement is found again.
finds :
    (p : String) (db : Tables) (d : Placed) (n : NodeRow)
    → first (keep (of_project p) db.databases) ≡ some d
    → first (keep (is_node d.node_id) db.nodes) ≡ some n
    → placement_of p db ≡ some (d, n)
unfolding placement_of
finds p db d n e f = cc

module _ (platform : Platform) (stale_seconds : ℕ) (ranges : PortRanges) where
  replays :
      (now : ℕ) (args : AllocateArgs) (seen : List NodeRow) (db : Tables) (p : String) {d : Placed}
      {n : NodeRow}
      → args.project_id ≡ p
      → placement_of p db ≡ some (d, n)
      → allocate_node platform stale_seconds ranges now args seen db
        ≡ ok (
          db,
          record {
            row = d;
            hostname = n.hostname;
            booked_mb = plan_ram_mb args.plan;
            replayed = true;
          },
        )
  unfolding allocate_node
  replays now args seen db p {d} {n} e f =
      let g = subst (λ q. placement_of q db ≡ some (d, n)) (sym e) f in rw (g, allocate_node) refl

  -- An allocation that commits, run again with any arguments for the same project, at any time
  -- and from any reading of `nodes`, leaves the tables as the first left them and returns the row
  -- and the host of the first, marked as replayed; the booking that it reports is that of the plan
  -- it is given, whatever the row books.
  pub allocate_node_replayed :
      (now : ℕ) (args : AllocateArgs) (seen : List NodeRow) (db : Tables) {r : Tables × Placement}
      (now' : ℕ) (args' : AllocateArgs) (seen' : List NodeRow)
      → args'.project_id ≡ args.project_id
      → allocate_node platform stale_seconds ranges now args seen db ≡ ok r
      → allocate_node platform stale_seconds ranges now' args' seen' r.0
        ≡ ok (r.0, record r.1 { booked_mb = plan_ram_mb args'.plan; replayed = true })
  unfolding allocate_node
  allocate_node_replayed now args seen db {r} now' args' seen' p e =
      elim (allocate_node-Allocated platform stale_seconds ranges now args seen db e) [
        | replay d n f end ↦ subst Again end (replays now' args' seen' db args.project_id p f)
        | placed n ports t s region picked chosen new end ↦
            let l =
              pick_node-Locked platform stale_seconds t region (wanted args.plan) s db.nodes
                picked in
            let d = (place args n ports db).1.row in
            let found =
              finds args.project_id (place args n ports db).0 d
                (reserve (λ r. r + plan_ram_mb args.plan) (λ g. g + disk_booking_gb_for args.plan)
                  l.row)
                (rw (eq_refl args.project_id) refl)
                (first_reserved n.id (λ r. r + plan_ram_mb args.plan)
                  (λ g. g + disk_booking_gb_for args.plan) db.nodes l.found) in
            subst Again end (
              replays now' args' seen' (place args n ports db).0 args.project_id p found
              ∙ ap
                  (λ h. ok (
                    (place args n ports db).0,
                    record (place args n ports db).1 {
                      hostname = h;
                      booked_mb = plan_ram_mb args'.plan;
                      replayed = true;
                    },
                  ))
                  (ap (λ c. c.hostname) l.same))
      ]
    where
      Again : Tables × Placement → Type 0
      Again q =
          allocate_node platform stale_seconds ranges now' args' seen' q.0
          ≡ ok (q.0, record q.1 { booked_mb = plan_ram_mb args'.plan; replayed = true })
