-- ===== src/Store/Deployments.antt =====
-- internal/store/deployments.go: creating, advancing and promoting deployments.
-- A new row's id and the transaction's now() are arguments. An INSERT or UPDATE that breaks a
-- unique index is an error of class conflict, and so is one that reports ErrConflict itself.
use navarch.Prelude.{
  ℕ, ◌+◌, String, Bool, true, false, ◌&&◌, ◌||◌, not, Option, none, some, List, [], ◌∷◌, any,
  update_row, ◌==◌, if◌then◌else◌,
}
use Prim.Native.Nat.{max}
use navarch.Spec.{GoMap, Service, DeploymentSpec, lookup}
use navarch.Spec.Equal.{service_eq}
use navarch.Store.{
  DeploymentState, pending, scheduling, starting, healthy, live, superseded, failed, stopped,
  is_active, is_live, same_state, set_state, Slot, blue, green, ProjectName, short_id, Deployment,
  Environment, Event, Db, conflict, invalid, unknown_state, Result, ok, err, ◌>>=◌, ◌>>◌, require,
  scan, deployment_row, environment_row,
}

pub record CreateDeploymentParams : Type 0 where
  pub environment_id : ℕ
  pub stack_version_id : ℕ
  pub resolved_spec : DeploymentSpec
  pub created_by : String

-- COALESCE(MAX(revision), 0) over the deployments of one environment.
unfoldable pub max_revision : ℕ → List Deployment → ℕ
max_revision env [] = 0
max_revision env (d ∷ ds) =
    let rest = max_revision env ds in if d.environment_id == env then max d.revision rest else rest

-- "Alternate slot. First ever deploy goes blue."
unfoldable pub next_slot : Option Deployment → Slot
next_slot none = blue
next_slot (some d) = elim d.slot [ blue ↦ green | green ↦ blue ]

unfoldable pub same_slot : Slot → Slot → Bool
same_slot blue blue = true
same_slot green green = true
same_slot a b = false

unfoldable pub same_project : ProjectName → ProjectName → Bool
unfolding same_slot
same_project a b = a.env8 == b.env8 && a.revision == b.revision && same_slot a.slot b.slot

-- LEFT JOIN deployments d ON d.id = e.live_deployment_id
unfoldable pub live_row : Db → Environment → Option Deployment
live_row db e = elim e.live_deployment_id [ none ↦ none | some i ↦ deployment_row db i ]

-- The loop of rejectPinnedDrift over the live services.
unfoldable pub reject_pinned_drift : GoMap Service → DeploymentSpec → Result (Unit {0})
reject_pinned_drift [] next = ok tt
reject_pinned_drift ((name, old) ∷ rest) next =
    let continue = reject_pinned_drift rest next in
    if old.swappable then continue else elim (lookup name next.services) [
      | none ↦ err conflict
      | some new ↦ if new.swappable || not (service_eq old new) then err conflict else continue
    ]

unfoldable pub drift_check : Option Deployment → DeploymentSpec → Result (Unit {0})
drift_check none next = ok tt
drift_check (some d) next = reject_pinned_drift d.resolved_spec.services next

-- The indexes that an inserted deployment can break: the primary key, one active deployment for
-- each environment, one row for each revision of an environment, and distinct project names.
unfoldable pub collides : Deployment → Deployment → Bool
collides n d =
    d.id == n.id
    || (d.environment_id == n.environment_id && is_active d.state)
    || (d.environment_id == n.environment_id && d.revision == n.revision)
    || same_project d.project_name n.project_name

unfoldable pub breaks_index : Deployment → List Deployment → Bool
breaks_index n = any (collides n)

unfoldable pub new_deployment :
    ℕ → ℕ → CreateDeploymentParams → Environment → Option Deployment → List Deployment → Deployment
new_deployment id now p e prior rows = record {
  id = id;
  environment_id = p.environment_id;
  stack_version_id = p.stack_version_id;
  stack_id = e.stack_id;
  revision = max_revision p.environment_id rows + 1;
  slot = next_slot prior;
  project_name = record {
    env8 = short_id p.environment_id;
    revision = max_revision p.environment_id rows + 1;
    slot = next_slot prior;
  };
  state = pending;
  resolved_spec = p.resolved_spec;
  promoted_at = none;
  superseded_at = none;
  failure_reason = "";
  created_by = p.created_by;
  created_at = now;
  updated_at = now;
}

-- The new row and its event.
abbrev pub inserted : Deployment → Db → Db
inserted d db = record db {
  deployments = d ∷ db.deployments;
  events = Event.deployment_created d.id ∷ db.events;
}

-- createDeploymentTx, inside its transaction.
unfoldable pub create_deployment : ℕ → ℕ → CreateDeploymentParams → Db → Result (Deployment × Db)
create_deployment id now p db = do
  e ← scan (environment_row db p.environment_id)
  require (any (λ v. v.0 == p.stack_version_id && v.1 == e.stack_id) db.stack_versions) invalid
  drift_check (live_row db e) p.resolved_spec
  let d = new_deployment id now p e (live_row db e) db.deployments
  require (not (breaks_index d db.deployments)) conflict
  ok (d, inserted d db)

-- validTransitions: the states that a target may be entered from, none for an unlisted target.
unfoldable pub valid_transitions : DeploymentState → Option (List DeploymentState)
valid_transitions pending = none
valid_transitions scheduling = some (pending ∷ [])
valid_transitions starting = some (scheduling ∷ [])
valid_transitions healthy = some (starting ∷ [])
valid_transitions live = some (healthy ∷ [])
valid_transitions superseded = some (live ∷ [])
valid_transitions failed = some (pending ∷ scheduling ∷ starting ∷ healthy ∷ [])
valid_transitions stopped = some (superseded ∷ failed ∷ live ∷ [])

-- The row and the event that UpdateDeploymentState writes.
abbrev pub advanced : ℕ → ℕ → DeploymentState → String → Db → Db
advanced now id to reason db = record db {
  deployments = update_row (λ (x : Deployment). x.id) id (set_state to reason now) db.deployments;
  events = Event.deployment_state_changed id ∷ db.events;
}

-- UpdateDeploymentState. The UPDATE's condition names no row when the id is unknown or the state
-- is not an allowed one, and both are the same conflict.
unfoldable pub update_deployment_state :
    ℕ → ℕ → DeploymentState → String → Db → Result (Unit {0} × Db)
update_deployment_state now id to reason db = elim (valid_transitions to) [
  | none ↦ err unknown_state
  | some allowed ↦ elim (deployment_row db id) [
    | none ↦ err conflict
    | some d ↦
        if any (same_state d.state) allowed
        then ok (tt, advanced now id to reason db)
        else err conflict
  ]
]

-- SET state = 'superseded', superseded_at = now() WHERE id = prev AND state = 'live'
abbrev pub supersede : ℕ → Deployment → Deployment
supersede now d =
    if is_live d.state
    then record d { state = superseded; superseded_at = some now; updated_at = now }
    else d

abbrev pub make_live : ℕ → Deployment → Deployment
make_live now d = record d { state = live; promoted_at = some now; updated_at = now }

-- The rows and events after the previous live revision is superseded.
abbrev pub supersede_previous : ℕ → Option ℕ → Db → Db
supersede_previous now none db = db
supersede_previous now (some prev) db = record db {
  deployments = update_row (λ (x : Deployment). x.id) prev (supersede now) db.deployments;
  events = Event.deployment_superseded prev ∷ db.events;
}

-- deployments_one_live_idx refuses a second live row of the environment.
abbrev pub other_live : ℕ → ℕ → List Deployment → Bool
other_live id env =
    any λ (d : Deployment). d.environment_id == env && is_live d.state && not (d.id == id)

-- The writes of PromoteDeployment after the previous revision is superseded.
abbrev pub point_at : ℕ → Environment → Environment
point_at id e = record e { live_deployment_id = some id }

abbrev pub promoted : ℕ → ℕ → ℕ → Db → Db
promoted now id env db = record db {
  deployments = update_row (λ (x : Deployment). x.id) id (make_live now) db.deployments;
  environments = update_row (λ (x : Environment). x.id) env (point_at id) db.environments;
  events = Event.deployment_promoted id ∷ db.events;
}

-- PromoteDeployment. The result is the id that was superseded.
unfoldable pub promote_deployment : ℕ → ℕ → Db → Result (Option ℕ × Db)
promote_deployment now id db = do
  d ← scan (deployment_row db id)
  require (same_state d.state healthy) conflict
  e ← scan (environment_row db d.environment_id)
  let db1 = supersede_previous now e.live_deployment_id db
  require (not (other_live id d.environment_id db1.deployments)) conflict
  ok (e.live_deployment_id, promoted now id d.environment_id db1)
