-- ===== src/Store/Placement.antt =====
-- internal/store/instances.go: placing a deployment on a node, freeing its instances, and an
-- agent's report.
use text.Mathlib.Text.{◌==◌ as str_eq}
use navarch.Prelude.{
  ℕ, String, Bool, true, ◌&&◌, ◌||◌, not, Option, none, some, List, [], ◌∷◌, any, update_row,
  select, ◌==◌, if◌then◌else◌, ℤ, ltb_ℤ, ◌+ℤ◌, ◌-ℤ◌, max_ℤ, pos, map,
}
use navarch.Spec.{DeploymentSpec, peak_memory_bytes, peak_cpu_millis}
use navarch.Store.{
  pending, scheduling, Deployment, Environment, Node, free_memory_bytes, free_cpu_millis,
  ServiceInstance, LogRequest, InstanceState, Event, Db, conflict, not_found, Result, ok, err,
  ◌>>=◌, ◌>>◌, require, scan, deployment_row, environment_row, node_row, set_state, same_state,
}

-- NewInstance, with the id that the database will give its row.
pub record NewInstance : Type 0 where
  pub id : ℕ
  pub service_name : String
  pub swappable : Bool
  pub image_ref : String

abbrev new_row : ℕ → ℕ → NewInstance → ServiceInstance
new_row dep node i = record {
  id = i.id;
  deployment_id = dep;
  node_id = node;
  service_name = i.service_name;
  swappable = i.swappable;
  image_ref = i.image_ref;
  state = InstanceState.pending;
  container_id = "";
  health_status = "";
  restart_count = 0;
  last_error = "";
  started_at = none;
  ingress_port = 0;
}

-- insertInstancesTx: ON CONFLICT (deployment_id, service_name) DO NOTHING.
unfoldable pub insert_instances :
    ℕ → ℕ → List NewInstance → List ServiceInstance → List ServiceInstance
insert_instances dep node [] rows = rows
insert_instances dep node (i ∷ is) rows = insert_instances dep node is (
    if any (λ (r : ServiceInstance). r.deployment_id == dep && str_eq r.service_name i.service_name)
      rows
    then rows
    else new_row dep node i ∷ rows)

abbrev pub bind_home : ℕ → Environment → Environment
bind_home node e = record e { home_node_id = some node }

abbrev pub reserve : ℤ → ℤ → Node → Node
reserve cpu mem n = record n {
  alloc_cpu_millis = n.alloc_cpu_millis +ℤ cpu;
  alloc_memory_bytes = n.alloc_memory_bytes +ℤ mem;
}

-- home == nil || *home == nodeID
abbrev pub admits : Option ℕ → ℕ → Bool
admits none node = true
admits (some h) node = h == node

-- The first placement binds the environment.
abbrev pub bind_first : Option ℕ → ℕ → ℕ → List Environment → List Environment
bind_first none env node rows = update_row (λ (x : Environment). x.id) env (bind_home node) rows
bind_first (some h) env node rows = rows

-- What an accepted placement writes: the instances, the binding, the reservation and the state.
abbrev pub placed : ℕ → Deployment → Environment → ℕ → List NewInstance → ℤ → ℤ → Db → Db
placed now d e node insts peak_cpu peak_mem db = record db {
  instances = insert_instances d.id node insts db.instances;
  environments = bind_first e.home_node_id d.environment_id node db.environments;
  nodes = update_row (λ (x : Node). x.id) node (reserve peak_cpu peak_mem) db.nodes;
  deployments =
      update_row (λ (x : Deployment). x.id) d.id (set_state scheduling "" now) db.deployments;
  events = Event.deployment_state_changed d.id ∷ db.events;
}

-- PlaceDeployment, from the read of the environment on.
unfoldable pub place_pending :
    ℕ → Deployment → ℕ → List NewInstance → ℤ → ℤ → Db → Result (Unit {0} × Db)
place_pending now d node insts peak_cpu peak_mem db = do
  e ← scan (environment_row db d.environment_id)
  require (admits e.home_node_id node) conflict
  n ← scan (node_row db node)
  require (not (ltb_ℤ (free_cpu_millis n) peak_cpu || ltb_ℤ (free_memory_bytes n) peak_mem))
      conflict
  ok (tt, placed now d e node insts peak_cpu peak_mem db)

-- PlaceDeployment. A deployment that is no longer pending is left alone.
unfoldable pub place_deployment : ℕ → ℕ → ℕ → List NewInstance → ℤ → ℤ → Db → Result (Unit {0} × Db)
unfolding place_pending
place_deployment now dep node insts peak_cpu peak_mem db = do
  d ← scan (deployment_row db dep)
  if same_state d.state pending
      then place_pending now d node insts peak_cpu peak_mem db
      else ok (tt, db)

-- The predicate of a row of the deployment.
abbrev pub belongs_to : ℕ → ServiceInstance → Bool
belongs_to dep r = r.deployment_id == dep

abbrev pub release : ℤ → ℤ → Node → Node
release cpu mem n = record n {
  alloc_cpu_millis = max_ℤ (pos 0) (n.alloc_cpu_millis -ℤ cpu);
  alloc_memory_bytes = max_ℤ (pos 0) (n.alloc_memory_bytes -ℤ mem);
}

-- LIMIT 1 of the join: the node of the first instance, if there is one.
abbrev pub first_node : ℕ → List ServiceInstance → Option ℕ
first_node dep [] = none
first_node dep (r ∷ rs) =
    let rest = first_node dep rs in if belongs_to dep r then some r.node_id else rest

abbrev pub release_on : Option ℕ → DeploymentSpec → List Node → List Node
release_on none s nodes = nodes
release_on (some n) s nodes =
    update_row (λ (x : Node). x.id) n (release (peak_cpu_millis s) (peak_memory_bytes s)) nodes

-- ON DELETE CASCADE of log_requests: the request reads an instance of the deployment.
abbrev reads_of : ℕ → List ServiceInstance → LogRequest → Bool
reads_of dep rows r = any (λ (i : ServiceInstance). i.id == r.instance_id && belongs_to dep i) rows

-- DeleteInstances, with the requests that read them.
unfoldable pub delete_instances : ℕ → Db → Result (Unit {0} × Db)
delete_instances dep db = do
  d ← scan (deployment_row db dep)
  ok (
    tt,
    record db {
      instances = select (λ r. not (belongs_to dep r)) db.instances;
      nodes = release_on (first_node dep db.instances) d.resolved_spec db.nodes;
      log_requests = select (λ r. not (reads_of dep db.instances r)) db.log_requests;
    },
  )

-- InstanceStates.
unfoldable pub instance_states : ℕ → List ServiceInstance → List InstanceState
instance_states dep rows = map (λ r. r.state) (select (belongs_to dep) rows)

pub record ObservedInstance : Type 0 where
  pub state : InstanceState
  pub container_id : String
  pub health_status : String
  pub last_error : String
  pub restart_count : ℕ
  pub set_started : Bool
  pub ingress_port : ℕ

-- CASE WHEN $7 AND started_at IS NULL THEN now() ELSE started_at END
abbrev pub first_start : Bool → ℕ → Option ℕ → Option ℕ
first_start true now none = some now
first_start b now t = t

-- ReportInstance: WHERE id = $1 AND node_id = $8.
abbrev pub reported : ℕ → ℕ → ServiceInstance → Bool
reported node id r = r.id == id && r.node_id == node

abbrev pub write_report : ℕ → ℕ → ℕ → ObservedInstance → ServiceInstance → ServiceInstance
write_report now node id o r =
    if reported node id r
    then record r {
      state = o.state;
      container_id = o.container_id;
      health_status = o.health_status;
      last_error = o.last_error;
      restart_count = o.restart_count;
      started_at = first_start o.set_started now r.started_at;
      ingress_port = o.ingress_port;
    }
    else r

unfoldable pub report_instance : ℕ → ℕ → ℕ → ObservedInstance → Db → Result (Unit {0} × Db)
report_instance now node id o db =
    if any (reported node id) db.instances
    then ok (tt, record db { instances = map (write_report now node id o) db.instances })
    else err not_found
