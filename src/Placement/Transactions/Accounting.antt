-- ===== src/Placement/Transactions/Accounting.antt =====
-- The reservations of a node are what its placements add up to.
use corebase.Base.{
  ℕ, ◌+◌, ◌-◌, String, ◌≡◌, refl, sym, ◌∙◌, inl, inr, true, false, not, some, List, ◌∷◌, arith,
  Option-cases, All, first, keep, any,
}
use corebase.Base.Update.{update, update-All_to}
use corebase.Placement.Plans.{disk_gb, plan_ram_mb, plan_disk_cap_mb, disk_booking_gb_for}
use corebase.Placement.Packing.{NodeCandidate}
use corebase.Placement.Store.{
  NodeRow, Placed, Tables, is_node, of_project, reserve, update_node, AllocateArgs,
}
use corebase.Placement.Transactions.{
  place, placement_of, release_node, release_ram, is_booked, book,
}
use corebase.Placement.Transactions.Sums.{
  share, load, UniqueProjects, str_eq_comm, load_deleted, load_rewritten, first_booked,
  none_of_project, UniqueProjects-keep, UniqueProjects-update,
}

abbrev pub ram_on : String → List Placed → ℕ
ram_on = load (λ d. d.ram_booked_mb)

abbrev pub disk_on : String → List Placed → ℕ
disk_on = load (λ d. disk_gb d.disk_limit_mb)

abbrev pub Accounts : List Placed → NodeRow → Type 0
Accounts ds n = (n.ram_reserved_mb ≡ ram_on n.id ds) × (n.disk_reserved_gb ≡ disk_on n.id ds)

pub record IsAccounted (db : Tables) : Type 0 where
  pub unique : UniqueProjects db.databases
  pub exact : All (Accounts db.databases) db.nodes

-- An update of one node, against a change of the placements.
pub Accounts-update :
    (id : String) (ram disk : ℕ → ℕ) (before after : List Placed) (nodes : List NodeRow)
    → ((n : NodeRow)
        → is_node id n ≡ true
        → Accounts before n
        → Accounts after (reserve ram disk n))
    → ((n : NodeRow) → is_node id n ≡ false → Accounts before n → Accounts after n)
    → All (Accounts before) nodes
    → All (Accounts after) (update_node id ram disk nodes)
Accounts-update id ram disk before after nodes hit miss =
    update-All_to (is_node id) (reserve ram disk) (Accounts before) (Accounts after) nodes hit miss

-- The share of a placement at its own node, and at another.
pub share_here :
    (w : Placed → ℕ) (d : Placed) (n : NodeRow) → is_node d.node_id n ≡ true → share w n.id d ≡ w d
share_here w d n e = let flip = str_eq_comm n.id d.node_id in ground arith

share_elsewhere :
    (w : Placed → ℕ) (d : Placed) (n : NodeRow) → is_node d.node_id n ≡ false → share w n.id d ≡ 0
share_elsewhere w d n e = let flip = str_eq_comm n.id d.node_id in ground arith

booking_gb : (plan : String) → disk_booking_gb_for plan ≡ disk_gb (plan_disk_cap_mb plan)
unfolding disk_booking_gb_for
booking_gb plan = refl

abbrev ram_w : Placed → ℕ
ram_w d = d.ram_booked_mb

abbrev disk_w : Placed → ℕ
disk_w d = disk_gb d.disk_limit_mb

pub place-IsAccounted :
    (args : AllocateArgs) (n : NodeCandidate) (ports : ℕ × ℕ × ℕ) (db : Tables)
    → any (of_project args.project_id) db.databases ≡ false
    → IsAccounted db
    → IsAccounted (place args n ports db).0
place-IsAccounted args n (port, pooler, pair) db new a =
    let d = (place args n (port, pooler, pair) db).1.row in
    record {
      unique = (none_of_project args.project_id db.databases new, a.unique);
      exact =
          Accounts-update n.id (λ r. r + plan_ram_mb args.plan)
            (λ d. d + disk_booking_gb_for args.plan) db.databases (d ∷ db.databases) db.nodes
            (λ m e h. (
              rw (h.0, share_here ram_w d m e) (omega arith),
              rw (h.1, share_here disk_w d m e, booking_gb args.plan) (omega arith),
            ))
            (λ m e h. (
              rw (share_elsewhere ram_w d m e, h.0) (omega arith),
              rw (share_elsewhere disk_w d m e, h.1) (omega arith),
            ))
            a.exact;
    }

-- The arithmetic of the three transactions on one axis of one node.
taken_off : {r l k s b : ℕ} → r ≡ l → l ≡ k + s → s ≡ b → r - b ≡ k
taken_off p q e = omega arith

untouched : {r l k s : ℕ} → r ≡ l → l ≡ k + s → s ≡ 0 → r ≡ k
untouched p q e = omega arith

even : {r l k s t : ℕ} → r ≡ l → k + s ≡ l + t → s ≡ t → r ≡ k
even p q e = omega arith

pub release_node-IsAccounted :
    (p : String) (db : Tables) → IsAccounted db → IsAccounted (release_node p db).0
unfolding release_node
release_node-IsAccounted p db a = elim (Option-cases (first (keep (of_project p) db.databases))) [
  | inl e ↦ rw (e, release_node) a
  | inr (d, e) ↦
      rw (e, release_node)
        (record {
          unique = UniqueProjects-keep p db.databases a.unique;
          exact =
              Accounts-update d.node_id (λ r. r - d.ram_booked_mb)
                (λ g. g - disk_gb d.disk_limit_mb) db.databases
                (keep (λ x. not (of_project p x)) db.databases) db.nodes
                (λ m f h. (
                  taken_off h.0 (load_deleted ram_w m.id p db.databases a.unique e)
                      (share_here ram_w d m f),
                  taken_off h.1 (load_deleted disk_w m.id p db.databases a.unique e)
                      (share_here disk_w d m f),
                ))
                (λ m f h. (
                  untouched h.0 (load_deleted ram_w m.id p db.databases a.unique e)
                      (share_elsewhere ram_w d m f),
                  untouched h.1 (load_deleted disk_w m.id p db.databases a.unique e)
                      (share_elsewhere disk_w d m f),
                ))
                a.exact;
        })
]

-- Setting what a project's row books, on the node that it is on.
pub rebooked :
    (p : String) (mb : ℕ) (ram : ℕ → ℕ) (d : Placed) (db : Tables)
    → IsAccounted db
    → first (keep (of_project p) db.databases) ≡ some d
    → ((r l k : ℕ) → r ≡ l → k + d.ram_booked_mb ≡ l + mb → ram r ≡ k)
    → IsAccounted (record {
      nodes = update_node d.node_id ram (λ g. g) db.nodes;
      databases = (update (of_project p) (book mb) db.databases).0;
    })
rebooked p mb ram d db a e step = record {
  unique = UniqueProjects-update (of_project p) (book mb) db.databases (λ x. refl) a.unique;
  exact =
      Accounts-update d.node_id ram (λ g. g) db.databases
        (update (of_project p) (book mb) db.databases).0 db.nodes
        (λ m f h.
          let moved = load_rewritten ram_w m.id p (book mb) db.databases (λ x. refl) a.unique e in
          (
            step _ _ _ h.0 (rw (share_here ram_w d m f, share_here (λ x. mb) d m f) at moved),
            even h.1 (load_rewritten disk_w m.id p (book mb) db.databases (λ x. refl) a.unique e)
                refl,
          ))
        (λ m f h. (
          even h.0 (load_rewritten ram_w m.id p (book mb) db.databases (λ x. refl) a.unique e)
              (share_elsewhere ram_w d m f ∙ sym (share_elsewhere (λ x. mb) d m f)),
          even h.1 (load_rewritten disk_w m.id p (book mb) db.databases (λ x. refl) a.unique e)
              refl,
        ))
        a.exact;
}

pub release_ram-IsAccounted :
    (p : String) (db : Tables) → IsAccounted db → IsAccounted (release_ram p db).0
unfolding release_ram
release_ram-IsAccounted p db a = elim (Option-cases (first (keep (is_booked p) db.databases))) [
  | inl e ↦ rw (e, release_ram) a
  | inr (d, e) ↦
      rw (e, release_ram)
        (rebooked p 0 (λ r. r - d.ram_booked_mb) d db a (first_booked p db.databases a.unique e)
          (λ r l k f g. omega arith))
]

pub placement_of-first :
    (p : String) (db : Tables) {d : Placed} {n : NodeRow}
    → placement_of p db ≡ some (d, n)
    → (first (keep (of_project p) db.databases) ≡ some d)
      × (first (keep (is_node d.node_id) db.nodes) ≡ some n)
unfolding placement_of
placement_of-first p db {d} {n} e = ground arith
