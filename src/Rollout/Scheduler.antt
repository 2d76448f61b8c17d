-- ===== src/Rollout/Scheduler.antt =====
-- internal/rollout/scheduler.go: choosing a node for a pending deployment and committing to it.
pub mod Order
pub mod Best
pub mod Place
pub mod Outcome
use navarch.Prelude.{
  ℕ, ℤ, pos, ltb_ℤ, ltb, Bool, true, false, ◌||◌, not, Option, none, some, List, [], ◌∷◌, map, row,
  if◌then◌else◌, ◌==◌, String, select, ◌&&◌, count_if, ◌+◌, ◌≡◌, leb,
}
use navarch.Rollout.Floats.{Floats}
use navarch.Store.{Node, free_memory_bytes, free_cpu_millis}

module _ (fl : Floats) where
  open fl use {F, of_int, one, div, fmin, lt}

  -- float64(free) / float64(capacity), or 1.0 without a capacity.
  unfoldable pub fraction : ℤ → ℤ → F
  fraction free capacity =
      if ltb_ℤ (pos 0) capacity then div (of_int free) (of_int capacity) else one

  unfoldable pub free_ratio : Node → F
  unfolding fraction
  free_ratio n =
      fmin (fraction (free_memory_bytes n) n.memory_bytes)
        (fraction (free_cpu_millis n) n.cpu_millis)

  -- The capacity check of the loop, and of a home node.
  unfoldable pub fits : ℤ → ℤ → Node → Bool
  fits peak_cpu peak_mem n =
      not (ltb_ℤ (free_memory_bytes n) peak_mem || ltb_ℤ (free_cpu_millis n) peak_cpu)

  -- The switch: whether n replaces a best node with bestHomed and bestFree.
  unfoldable pub replaces : ℕ → F → ℕ → ℕ → F → ℕ → Bool
  replaces h free id best_homed best_free best_id =
      if ltb h best_homed
      then true
      else if ltb best_homed h
      then false
      else if lt best_free free
      then true
      else if lt free best_free
      then false
      else ltb id best_id

  -- homed is the count of each node, zero where the map has no entry.
  unfoldable pub prefers : (ℕ → ℕ) → Node → Node → Bool
  unfolding replaces free_ratio
  prefers homed n b = replaces (homed n.id) (free_ratio n) n.id (homed b.id) (free_ratio b) b.id

  unfoldable pub consider : (ℕ → ℕ) → ℤ → ℤ → Option Node → Node → Option Node
  consider homed peak_cpu peak_mem best n =
      if fits peak_cpu peak_mem n
      then elim best [ none ↦ some n | some b ↦ if prefers homed n b then some n else some b ]
      else best

  unfoldable pub best_from : (ℕ → ℕ) → ℤ → ℤ → Option Node → List Node → Option Node
  best_from homed peak_cpu peak_mem best [] = best
  best_from homed peak_cpu peak_mem best (n ∷ ns) =
      best_from homed peak_cpu peak_mem (consider homed peak_cpu peak_mem best n) ns

  -- bestNode.
  unfoldable pub best_node : List Node → (ℕ → ℕ) → ℤ → ℤ → Option Node
  best_node nodes homed peak_cpu peak_mem = best_from homed peak_cpu peak_mem none nodes
