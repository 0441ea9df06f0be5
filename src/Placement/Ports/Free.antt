-- ===== src/Placement/Ports/Free.antt =====
-- The ports that are picked are free, in range and the lowest.
use corebase.Base.{
  ℕ, zero, suc, ◌+◌, ◌-◌, ◌*◌, ◌/◌, ◌≤◌, ◌<◌, ◌≡◌, refl, subst, Option, ◌==◌, ==_iff, inl, inr,
  true, false, ◌||◌, none, some, List, arith, Bool-cases,
}
use corebase.Placement.Ports.{taken, port_from, pick_port, pair_from, pick_port_pair}

-- What the loop from `p` over `left` ports answers.
data Scanned (used : List ℕ) (p left : ℕ) (o : Option ℕ) : Type 0 where
  found :
      (r : ℕ)
      → o ≡ some r
      → p ≤ r
      → r < p + left
      → taken r used ≡ false
      → ((q : ℕ) → p ≤ q → q < r → taken q used ≡ true)
      → Scanned used p left o
  full : o ≡ none → ((q : ℕ) → p ≤ q → q < p + left → taken q used ≡ true) → Scanned used p left o

skip_taken :
    (used : List ℕ) (p r : ℕ)
    → taken p used ≡ true
    → ((q : ℕ) → p + 1 ≤ q → q < r → taken q used ≡ true)
    → (q : ℕ) → p ≤ q
    → q < r
    → taken q used ≡ true
skip_taken used p r busy later q h k = elim (Bool-cases (p == q)) [
  | inl e ↦ let same : p ≡ q = (==_iff p q).0 e in subst (λ x. taken x used ≡ true) same busy
  | inr e ↦ later q (ground arith) k
]

port_from-Scanned : (used : List ℕ) (p left : ℕ) → Scanned used p left (port_from used p left)
unfolding port_from
port_from-Scanned used p zero = full refl (λ q h k. absurd (omega arith))
port_from-Scanned used p (suc left) = elim (Bool-cases (taken p used)) [
  | inr idle ↦ found p (rw idle) (omega arith) (omega arith) idle (λ q h k. absurd (omega arith))
  | inl busy ↦ elim (port_from-Scanned used (p + 1) left) [
    | found r e low high free least ↦
        found r (rw (busy, e)) (omega arith) (omega arith) free (skip_taken used p r busy least)
    | full e all ↦
        full (rw (busy, e)) (skip_taken used p (p + suc left) busy (λ q h k. all q h (omega arith)))
  ]
]

pub data Picked (used : List ℕ) (lo hi : ℕ) (o : Option ℕ) : Type 0 where
  lowest :
      (r : ℕ)
      → o ≡ some r
      → lo ≤ r
      → r ≤ hi
      → taken r used ≡ false
      → ((q : ℕ) → lo ≤ q → q < r → taken q used ≡ true)
      → Picked used lo hi o
  exhausted : o ≡ none → ((q : ℕ) → lo ≤ q → q ≤ hi → taken q used ≡ true) → Picked used lo hi o

-- `pickPort` returns the lowest port of the range that is not taken, and throws only if every
-- port of the range is.
pick_port-Picked : (used : List ℕ) (lo hi : ℕ) → Picked used lo hi (pick_port used lo hi)
unfolding pick_port
pick_port-Picked used lo hi = elim (port_from-Scanned used lo (hi + 1 - lo)) [
  | found r e low high free least ↦ lowest r e low (omega arith) free least
  | full e all ↦ exhausted e (λ q h k. all q h (omega arith))
]

-- The pair at `lo + 2 * k` is free on both ports.
abbrev FreePair : List ℕ → ℕ → Type 0
FreePair used p = (taken p used ≡ false) × (taken (p + 1) used ≡ false)

abbrev BusyPair : List ℕ → ℕ → Type 0
BusyPair used p = (taken p used || taken (p + 1) used) ≡ true

pub data PickedPair (used : List ℕ) (lo hi : ℕ) (o : Option ℕ) : Type 0 where
  pair :
      (k : ℕ)
      → o ≡ some (lo + 2 * k)
      → lo + 2 * k + 1 ≤ hi
      → FreePair used (lo + 2 * k)
      → ((j : ℕ) → j < k → BusyPair used (lo + 2 * j))
      → PickedPair used lo hi o
  no_pair :
      o ≡ none
      → ((j : ℕ) → lo + 2 * j + 1 ≤ hi → BusyPair used (lo + 2 * j))
      → PickedPair used lo hi o

-- The loop, from the pair number `i` on.
data PairScan (used : List ℕ) (lo i left : ℕ) (o : Option ℕ) : Type 0 where
  at :
      (k : ℕ)
      → o ≡ some (lo + 2 * k)
      → k < i + left
      → FreePair used (lo + 2 * k)
      → ((j : ℕ) → i ≤ j → j < k → BusyPair used (lo + 2 * j))
      → PairScan used lo i left o
  nowhere :
      o ≡ none
      → ((j : ℕ) → i ≤ j → j < i + left → BusyPair used (lo + 2 * j))
      → PairScan used lo i left o

skip_pair :
    (used : List ℕ) (lo i k : ℕ)
    → BusyPair used (lo + 2 * i)
    → ((j : ℕ) → i + 1 ≤ j → j < k → BusyPair used (lo + 2 * j))
    → (j : ℕ) → i ≤ j
    → j < k
    → BusyPair used (lo + 2 * j)
skip_pair used lo i k busy later j h l = elim (Bool-cases (i == j)) [
  | inl e ↦ let same : i ≡ j = (==_iff i j).0 e in subst (λ x. BusyPair used (lo + 2 * x)) same busy
  | inr e ↦ later j (ground arith) l
]

pair_from-PairScan :
    (used : List ℕ) (lo i left : ℕ) → PairScan used lo i left (pair_from used (lo + 2 * i) left)
unfolding pair_from
pair_from-PairScan used lo i zero = nowhere refl (λ j h l. absurd (omega arith))
pair_from-PairScan used lo i (suc left) =
    elim (Bool-cases (taken (lo + 2 * i) used || taken (lo + 2 * i + 1) used)) [
      | inr idle ↦
          at i (rw idle) (omega arith) (ground arith, ground arith) (λ j h l. absurd (omega arith))
      | inl busy ↦
          let step : lo + 2 * i + 2 ≡ lo + 2 * (i + 1) = omega arith in
          elim (pair_from-PairScan used lo (i + 1) left) [
            | at k e high free least ↦
                at k (rw (busy, step, e)) (omega arith) free (skip_pair used lo i k busy least)
            | nowhere e all ↦
                nowhere (rw (busy, step, e))
                  (skip_pair used lo i (i + suc left) busy (λ j h l. all j h (omega arith)))
          ]
    ]

-- `pickPortPair` returns the lowest pair of adjacent ports in the range that is free on both and
-- starts an even distance from the range's start, so pairs never overlap, and throws only if
-- every such pair has a port taken.
pick_port_pair-PickedPair :
    (used : List ℕ) (lo hi : ℕ) → PickedPair used lo hi (pick_port_pair used lo hi)
unfolding pick_port_pair
pick_port_pair-PickedPair used lo hi =
    let start : lo + 2 * 0 ≡ lo = omega arith in
    elim (subst (λ x. PairScan used lo 0 ((hi + 1 - lo) / 2) (pair_from used x ((hi + 1 - lo) / 2)))
      start (pair_from-PairScan used lo 0 ((hi + 1 - lo) / 2))) [
        | at k e high free least ↦ pair k e (omega arith) free (λ j l. least j (omega arith) l)
        | nowhere e all ↦ no_pair e (λ j l. all j (omega arith) (omega arith))
      ]
