-- ===== src/Rollout/Scheduler/Place.antt =====
-- internal/rollout/scheduler.go: place, commit and ScheduleOnce, with ListPendingDeployments of
-- internal/store/deployments.go.
-- A log line is left out. The texts that fmt.Sprintf builds, the ids that the database gives to
-- instance rows and its collation of host names are parameters.
use navarch.Prelude.{
  ℕ, ℤ, String, Bool, Option, none, some, List, [], ◌∷◌, map, select, sort_by, leb, ◌==◌, ltb_ℤ,
  ◌||◌, if◌then◌else◌,
}
use navarch.Spec.{GoMap, Service, peak_memory_bytes, peak_cpu_millis}
use navarch.Store.Previews.{scoped}
use navarch.Store.{
  pending, failed, same_state, Deployment, Node, free_memory_bytes, free_cpu_millis, Db, Error,
  conflict, Result, ok, err, committed, environment_row,
}
use navarch.Store.Deployments.{update_deployment_state}
use navarch.Store.Placement.{NewInstance, place_deployment}
use navarch.Store.Nodes.{list_ready_nodes, homed_per_node, mark_stale}
use navarch.Rollout.Floats.{Floats}
use navarch.Rollout.Scheduler.{best_node}

-- PendingDeployment.
pub record PendingDeployment : Type 0 where
  pub deployment : Deployment
  pub org_id : ℕ
  pub home_node_id : Option ℕ

-- The joined row of a deployment, if its environment exists.
unfoldable pub joined : Db → Deployment → List PendingDeployment → List PendingDeployment
joined db d rest = elim (environment_row db d.environment_id) [
  | none ↦ rest
  | some e ↦ record { deployment = d; org_id = e.org_id; home_node_id = e.home_node_id } ∷ rest
]

unfoldable pub join_all : Db → List Deployment → List PendingDeployment
unfolding joined
join_all db [] = []
join_all db (d ∷ ds) = joined db d (join_all db ds)

-- ListPendingDeployments, and with an organization ListPendingDeploymentsForOrg: oldest first.
unfoldable pub list_pending_deployments : Option ℕ → Db → List PendingDeployment
unfolding join_all
list_pending_deployments org db =
    sort_by (λ (a b : PendingDeployment). leb a.deployment.created_at b.deployment.created_at)
      (select (λ (d : PendingDeployment). scoped org d.org_id)
        (join_all db (select (λ (d : Deployment). same_state d.state pending) db.deployments)))

-- nodeByID.
unfoldable pub node_by_id : List Node → ℕ → Option Node
node_by_id [] id = none
node_by_id (n ∷ ns) id = let rest = node_by_id ns id in if n.id == id then some n else rest

unfoldable pub new_instances : (ℕ → String → ℕ) → ℕ → GoMap Service → List NewInstance
new_instances row_id dep = map λ p. record {
  id = row_id dep p.0;
  service_name = p.0;
  swappable = p.1.swappable;
  image_ref = p.1.image;
}

module _ (fl : Floats) (collate : String → String → Bool) (row_id : ℕ → String → ℕ)
    (no_home_room no_fleet_room : ℤ → ℤ → String) (error_text : Error → String) (now : ℕ) where
  -- What commit does with the error of PlaceDeployment.
  unfoldable pub settle : ℕ → Db → Result (Unit {0} × Db) → Result (Unit {0} × Db)
  settle dep db (ok (u, db')) = ok (u, db')
  settle dep db (err conflict) = update_deployment_state now dep failed (error_text conflict) db
  settle dep db (err e) = err e

  unfoldable pub commit : PendingDeployment → ℕ → Db → Result (Unit {0} × Db)
  unfolding settle new_instances
  commit dep node db = settle dep.deployment.id db (
      place_deployment now dep.deployment.id node
        (new_instances row_id dep.deployment.id dep.deployment.resolved_spec.services)
        (peak_cpu_millis dep.deployment.resolved_spec)
        (peak_memory_bytes dep.deployment.resolved_spec) db)

  unfoldable pub place_home : PendingDeployment → ℤ → ℤ → Option Node → Db → Result (Unit {0} × Db)
  unfolding commit
  place_home dep cpu mem none db = ok (tt, db)
  place_home dep cpu mem (some home) db =
      if ltb_ℤ (free_memory_bytes home) mem || ltb_ℤ (free_cpu_millis home) cpu
      then update_deployment_state now dep.deployment.id failed (no_home_room mem cpu) db
      else commit dep home.id db

  unfoldable pub place_chosen :
      PendingDeployment → ℤ → ℤ → Option Node → Db → Result (Unit {0} × Db)
  unfolding commit
  place_chosen dep cpu mem none db =
      update_deployment_state now dep.deployment.id failed (no_fleet_room mem cpu) db
  place_chosen dep cpu mem (some n) db = commit dep n.id db

  -- place, from the list of ready nodes on.
  unfoldable pub place_on : PendingDeployment → List Node → Db → Result (Unit {0} × Db)
  unfolding place_home place_chosen node_by_id
  place_on dep [] db = ok (tt, db)
  place_on dep (n ∷ ns) db =
      let cpu = peak_cpu_millis dep.deployment.resolved_spec in
      let mem = peak_memory_bytes dep.deployment.resolved_spec in
      elim dep.home_node_id [
        | some h ↦ place_home dep cpu mem (node_by_id (n ∷ ns) h) db
        | none ↦
            place_chosen dep cpu mem (best_node fl (n ∷ ns) (homed_per_node dep.org_id db) cpu mem)
              db
      ]

  unfoldable pub place : PendingDeployment → Db → Result (Unit {0} × Db)
  unfolding place_on
  place dep db = place_on dep (list_ready_nodes collate now dep.org_id db) db

  unfoldable pub place_all : List PendingDeployment → Db → Db
  unfolding place
  place_all [] db = db
  place_all (dep ∷ deps) db = place_all deps (committed db (place dep db))

  -- ScheduleOnce, of one organization's deployments when one is set.
  unfoldable pub schedule_once : Option ℕ → Db → Db
  unfolding place_all list_pending_deployments
  schedule_once org db =
      place_all (list_pending_deployments org (mark_stale now db)) (mark_stale now db)
