-- ===== src/Rollout/Controller.antt =====
-- internal/rollout/controller.go: advancing rollouts by the aggregate of their instances, and
-- tearing down deployments that have left the live path.
-- The wall clock, the controller's own clock and the database's collation are parameters. A log
-- line and the failure mail, which no state depends on, are left out.
pub mod Routes
pub mod Loop
pub mod Grace
pub mod Safe
use Prim.Native.String.{◌++◌}
use navarch.Prelude.{
  ℕ, ◌+◌, ◌*◌, String, Bool, true, false, ◌&&◌, ◌||◌, not, Option, none, some, List, [], ◌∷◌, map,
  select, any, count_if, sort_by, leb, ltb, ◌==◌, if◌then◌else◌, length,
}
use text.Mathlib.Text.{◌==◌ as str_eq}
use navarch.Store.{
  DeploymentState, scheduling, starting, healthy, superseded, failed, same_state, Deployment,
  Environment, InstanceState, ServiceInstance, Db, Result, ok, err, ◌>>=◌, committed,
  environment_row,
}
use navarch.Store.Deployments.{update_deployment_state, promote_deployment}
use navarch.Store.Placement.{belongs_to, instance_states, delete_instances}

-- The three classes that advance counts.
abbrev pub is_waiting : InstanceState → Bool
is_waiting InstanceState.pending = true
is_waiting _ = false

abbrev pub is_broken : InstanceState → Bool
is_broken InstanceState.failed = true
is_broken InstanceState.unhealthy = true
is_broken _ = false

abbrev pub is_running : InstanceState → Bool
is_running InstanceState.running = true
is_running _ = false

-- FailedInstances: the broken rows of a deployment, by service name.
unfoldable pub failed_instances :
    (String → String → Bool) → ℕ → List ServiceInstance → List ServiceInstance
failed_instances collate dep rows =
    sort_by (λ (a b : ServiceInstance). collate a.service_name b.service_name)
      (select (λ r. belongs_to dep r && is_broken r.state) rows)

-- The text of an enum value.
abbrev state_text : InstanceState → String
state_text InstanceState.pending = "pending"
state_text InstanceState.pulling = "pulling"
state_text InstanceState.starting = "starting"
state_text InstanceState.running = "running"
state_text InstanceState.unhealthy = "unhealthy"
state_text InstanceState.stopped = "stopped"
state_text InstanceState.failed = "failed"

abbrev describe : ServiceInstance → String
describe r =
    r.service_name ++ ": " ++ (if str_eq r.last_error "" then state_text r.state else r.last_error)

-- strings.Join(parts, "; ")
abbrev join_parts : List String → String
join_parts [] = ""
join_parts (p ∷ []) = p
join_parts (p ∷ q ∷ ps) = p ++ "; " ++ join_parts (q ∷ ps)

abbrev pub generic : String
generic = "an instance failed to start"

-- failureReason.
unfoldable pub failure_reason : (String → String → Bool) → ℕ → List ServiceInstance → String
unfolding failed_instances
failure_reason collate dep rows = elim (failed_instances collate dep rows) [
  | [] ↦ generic
  | r ∷ rs ↦ generic ++ ": " ++ join_parts (map describe (r ∷ rs))
]

-- The result of a promotion is only logged.
abbrev dropped {ℓ} : {A : Type ℓ} → Result (A × Db) → Result (Unit {0} × Db)
dropped (ok (a, db)) = ok (tt, db)
dropped (err e) = err e

module _ (collate : String → String → Bool) (now start_timeout : ℕ) where
  -- The cases of advance that depend on the deployment's state, once no instance is broken.
  unfoldable pub advance_healthy : Deployment → List InstanceState → Db → Result (Unit {0} × Db)
  advance_healthy dep states db =
      if same_state dep.state scheduling && count_if is_waiting states == 0
      then update_deployment_state now dep.id starting "" db
      else if same_state dep.state starting && count_if is_running states == length states
      then update_deployment_state now dep.id healthy "" db
      else if same_state dep.state starting && ltb (dep.updated_at + start_timeout) now
      then update_deployment_state now dep.id failed "timed out waiting for health" db
      else if same_state dep.state healthy
      then dropped (promote_deployment now dep.id db)
      else ok (tt, db)

  -- advance, from the instance states on.
  unfoldable pub advance_with : Deployment → List InstanceState → Db → Result (Unit {0} × Db)
  unfolding advance_healthy failure_reason
  advance_with dep [] db = ok (tt, db)
  advance_with dep (s ∷ ss) db =
      if ltb 0 (count_if is_broken (s ∷ ss))
      then update_deployment_state now dep.id failed (failure_reason collate dep.id db.instances) db
      else advance_healthy dep (s ∷ ss) db

  unfoldable pub advance : Deployment → Db → Result (Unit {0} × Db)
  unfolding advance_with
  advance dep db = advance_with dep (instance_states dep.id db.instances) db
