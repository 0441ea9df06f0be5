-- ===== src/Placement/Ports.antt =====
-- services/worker/src/placement.ts: `pickPort` and `pickPortPair`. `none` is NoPortsError.
-- The `for` loops recur on the ports that are left, which the range bounds.
pub mod Free
use corebase.Base.{
  ℕ, zero, suc, ◌+◌, ◌-◌, ◌/◌, Bool, false, ◌||◌, Option, none, some, List, [], ◌∷◌, ◌==◌, leb,
  if◌then◌else◌,
}

-- `taken.has(p)`
abbrev pub taken : ℕ → List ℕ → Bool
taken p [] = false
taken p (u ∷ used) = u == p || taken p used

-- From `p`, `left` ports are left in the range.
unfoldable pub port_from : List ℕ → ℕ → ℕ → Option ℕ
port_from used p zero = none
port_from used p (suc left) =
    let rest = port_from used (p + 1) left in if taken p used then rest else some p

unfoldable pub pick_port : List ℕ → ℕ → ℕ → Option ℕ
unfolding port_from
pick_port used lo hi = port_from used lo (hi + 1 - lo)

-- From `p`, `left` pairs are left in the range.
unfoldable pub pair_from : List ℕ → ℕ → ℕ → Option ℕ
pair_from used p zero = none
pair_from used p (suc left) =
    let rest = pair_from used (p + 2) left in
    if taken p used || taken (p + 1) used then rest else some p

unfoldable pub pick_port_pair : List ℕ → ℕ → ℕ → Option ℕ
unfolding pair_from
pick_port_pair used lo hi = pair_from used lo ((hi + 1 - lo) / 2)
