-- ===== src/Placement/Packing/Order.antt =====
-- The comparator of `rankNodes` is a total order up to equal nodes.
use corebase.Base.{ℕ, ◌≡◌, true, false, arith}
use corebase.Placement.Packing.{NodeCandidate, fill_ratio, Platform, node_le}

module _ (platform : Platform) (ceiling : ℕ) where
  open platform use {double_total, double_trans, host_le, host_total, host_trans}

  pub node_le-total :
      (x y : NodeCandidate)
      → node_le platform ceiling x y ≡ false
      → node_le platform ceiling y x ≡ true
  unfolding node_le
  node_le-total x y h = ground (
    arith,
    double_total (fill_ratio platform ceiling x) (fill_ratio platform ceiling y),
    host_total x.hostname y.hostname,
  )

  pub node_le_trans :
      (x y z : NodeCandidate)
      → node_le platform ceiling x y ≡ true
      → node_le platform ceiling y z ≡ true
      → node_le platform ceiling x z ≡ true
  unfolding node_le
  node_le_trans x y z p q =
      let rx = fill_ratio platform ceiling x in
      let ry = fill_ratio platform ceiling y in
      let rz = fill_ratio platform ceiling z in
      ground (
        arith,
        double_trans rx ry rz,
        double_trans ry rz rx,
        double_trans rz rx ry,
        host_trans x.hostname y.hostname z.hostname,
      )
