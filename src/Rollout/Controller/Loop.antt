-- ===== src/Rollout/Controller/Loop.antt =====
-- ReconcileOnce of internal/rollout/controller.go, with its record of when each deployment was
-- first seen terminal, and ListRolloutsInState of internal/store/deployments.go.
use navarch.Prelude.{
  ℕ, ◌+◌, String, Bool, true, false, Option, none, some, List, [], ◌∷◌, ◌++◌, select, any, sort_by,
  leb, ltb, ◌==◌, if◌then◌else◌,
}
use navarch.Store.Previews.{scoped}
use navarch.Store.{
  DeploymentState, scheduling, starting, healthy, superseded, failed, same_state, Deployment, Db,
  ok, err, committed, environment_row,
}
use navarch.Store.Placement.{delete_instances}
use navarch.Rollout.Controller.{advance}
use navarch.Rollout.Controller.Routes.{Route, synced_routes}

-- The inner join drops a deployment without an environment.
abbrev has_environment : Option ℕ → Db → Deployment → Bool
has_environment org db d = elim (environment_row db d.environment_id) [
  | none ↦ false
  | some e ↦ scoped org e.org_id
]

-- ListRolloutsInState: least recently updated first.
unfoldable pub list_rollouts : Option ℕ → List DeploymentState → Db → List Deployment
list_rollouts org states db =
    sort_by (λ (a b : Deployment). leb a.updated_at b.updated_at)
      (select
        (λ (d : Deployment).
          if any (same_state d.state) states then has_environment org db d else false)
        db.deployments)

-- The controller's firstTerminal map.
abbrev pub FirstTerminal : Type 0
FirstTerminal = List (ℕ × ℕ)

-- first, known := c.firstTerminal[dep.ID]; if !known { first = now }
unfoldable pub first_seen : ℕ → ℕ → FirstTerminal → ℕ
first_seen clock dep [] = clock
first_seen clock dep ((d, t) ∷ m) =
    let rest = first_seen clock dep m in if d == dep then t else rest

-- One deployment of the teardown loop: what it writes, and its entry of `seen`.
unfoldable pub teardown : ℕ → ℕ → FirstTerminal → ℕ → Db → FirstTerminal × Db
unfolding first_seen
teardown clock grace m dep db =
    if ltb clock (first_seen clock dep m + grace)
    then (((dep, first_seen clock dep m) ∷ []), db)
    else elim (delete_instances dep db) [
      | ok r ↦ ([], r.1)
      | err e ↦ (((dep, first_seen clock dep m) ∷ []), db)
    ]

unfoldable pub teardown_all : ℕ → ℕ → FirstTerminal → List Deployment → Db → FirstTerminal × Db
unfolding teardown
teardown_all clock grace m [] db = ([], db)
teardown_all clock grace m (d ∷ ds) db =
    let (seen, db1) = teardown clock grace m d.id db in
    let (rest, db2) = teardown_all clock grace m ds db1 in (seen ++ rest, db2)

module _ (collate : String → String → Bool) (now start_timeout clock grace strand : ℕ) where
  unfoldable pub advance_all : List Deployment → Db → Db
  advance_all [] db = db
  advance_all (d ∷ ds) db = advance_all ds (committed db (advance collate now start_timeout d db))

  -- A nil router is not synced, and a failed sync ends the pass before the teardown.
  unfoldable pub is_synced : Option (List Route → Bool) → Db → Bool
  is_synced none db = true
  is_synced (some sync) db = sync (synced_routes now strand db)

  unfoldable pub finish : Option ℕ → Bool → FirstTerminal → Db → FirstTerminal × Db
  unfolding teardown_all list_rollouts
  finish org false m db = (m, db)
  finish org true m db =
      teardown_all clock grace m (list_rollouts org (superseded ∷ failed ∷ []) db) db

  -- ReconcileOnce, of one organization's deployments when one is set.
  unfoldable pub reconcile_once :
      Option ℕ → Option (List Route → Bool) → FirstTerminal → Db → FirstTerminal × Db
  unfolding advance_all is_synced finish list_rollouts
  reconcile_once org sync m db =
      let db1 = advance_all (list_rollouts org (scheduling ∷ starting ∷ healthy ∷ []) db) db in
      finish org (is_synced sync db1) m db1
