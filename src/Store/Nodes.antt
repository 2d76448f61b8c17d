-- ===== src/Store/Nodes.antt =====
-- internal/store/nodes.go: the states of a node, the nodes that can be scheduled on, and the
-- count of environments homed on each. A registration and the keys of a node are not here.
pub mod Cordon
use navarch.Prelude.{
  ℕ, ◌+◌, String, Bool, true, false, ◌&&◌, ◌||◌, Option, none, some, List, [], ◌∷◌, map, select,
  count_if, sort_by, update_row, ltb, ◌==◌, if◌then◌else◌,
}
use navarch.Store.{
  NodeState, ready, draining, unreachable, retired, Node, Environment, Db, not_found, conflict,
  Result, ok, err, ◌>>=◌, scan, node_row,
}

-- interval '30 seconds'
abbrev pub heartbeat_window : ℕ
heartbeat_window = 30000

-- last_heartbeat > now() - interval '30 seconds', where NULL is not true.
unfoldable pub is_fresh : ℕ → Option ℕ → Bool
is_fresh now none = false
is_fresh now (some t) = ltb now (t + heartbeat_window)

-- last_heartbeat IS NULL OR last_heartbeat < now() - interval '30 seconds'
unfoldable pub is_stale : ℕ → Option ℕ → Bool
is_stale now none = true
is_stale now (some t) = ltb (t + heartbeat_window) now

unfoldable pub is_ready : NodeState → Bool
is_ready ready = true
is_ready _ = false

-- The CASE of Heartbeat.
unfoldable pub beaten : NodeState → NodeState
beaten draining = draining
beaten retired = retired
beaten _ = ready

-- Heartbeat: no row, or a retired one, is ErrNotFound.
unfoldable pub heartbeat : ℕ → ℕ → Db → Result (Unit {0} × Db)
unfolding beaten
heartbeat now node db = do
  n ← scan (node_row db node)
  elim n.state as (λ _. Result (Unit {0} × Db)) [
    | retired ↦ err not_found
    | s ↦ ok (
      tt,
      record db {
        nodes =
            update_row (λ (x : Node). x.id) node
              (λ x. record x { state = beaten x.state; last_heartbeat = some now }) db.nodes;
      },
    )
  ]

-- DrainNode: state IN ('ready', 'unreachable').
unfoldable pub drain_node : ℕ → Db → Result (Unit {0} × Db)
drain_node node db = do
  n ← scan (node_row db node)
  elim n.state as (λ _. Result (Unit {0} × Db)) [
    | ready ↦ ok (
      tt,
      record db {
        nodes = update_row (λ (x : Node). x.id) node (λ x. record x { state = draining }) db.nodes;
      },
    )
    | unreachable ↦ ok (
      tt,
      record db {
        nodes = update_row (λ (x : Node). x.id) node (λ x. record x { state = draining }) db.nodes;
      },
    )
    | s ↦ err not_found
  ]

abbrev pub uncordoned : ℕ → Node → Node
uncordoned now x = record x { state = if is_fresh now x.last_heartbeat then ready else unreachable }

-- UncordonNode: a retired node is refused, and one that is not draining is left alone.
unfoldable pub uncordon_node : ℕ → ℕ → Db → Result (Unit {0} × Db)
unfolding is_fresh
uncordon_node now node db = do
  n ← scan (node_row db node)
  elim n.state as (λ _. Result (Unit {0} × Db)) [
    | retired ↦ err conflict
    | draining ↦
        ok
          (tt, record db { nodes = update_row (λ (x : Node). x.id) node (uncordoned now) db.nodes })
    | s ↦ ok (tt, db)
  ]

unfoldable pub aged : ℕ → Node → Node
unfolding is_ready is_stale
aged now x =
    if is_ready x.state && is_stale now x.last_heartbeat
    then record x { state = unreachable }
    else x

-- MarkStaleNodesUnreachable.
unfoldable pub mark_stale : ℕ → Db → Db
unfolding aged
mark_stale now db = record db { nodes = map (aged now) db.nodes }

-- ListReadyNodes. The database's collation orders the host names.
unfoldable pub list_ready_nodes : (String → String → Bool) → ℕ → ℕ → Db → List Node
unfolding is_ready is_fresh
list_ready_nodes collate now org db =
    sort_by (λ (a b : Node). collate a.hostname b.hostname)
      (select (λ (x : Node). x.org_id == org && is_ready x.state && is_fresh now x.last_heartbeat)
        db.nodes)

abbrev pub is_homed_on : ℕ → Option ℕ → Bool
is_homed_on node none = false
is_homed_on node (some h) = h == node

-- EnvironmentsHomedPerNode, zero for a node that the map leaves out.
unfoldable pub homed_per_node : ℕ → Db → ℕ → ℕ
homed_per_node org db node =
    count_if (λ (e : Environment). e.org_id == org && is_homed_on node e.home_node_id)
      db.environments
