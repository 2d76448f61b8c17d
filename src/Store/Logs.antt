-- ===== src/Store/Logs.antt =====
-- internal/store/logs.go: the instructions to read a container's output. A negative number of lines
-- reads as the default, as none does.
pub mod Owner
use text.Mathlib.Text.{◌==◌ as str_eq}
use navarch.Prelude.{
  ℕ, ℤ, pos, ◌+◌, ltb, leb, ltb_ℤ, pos_part, ◌==◌, String, Bool, true, false, not, ◌&&◌, ◌||◌,
  Option, none, some, List, [], ◌∷◌, any, select, map, if◌then◌else◌,
}
use navarch.Store.{
  DeploymentState, pending, scheduling, starting, healthy, live, is_live, Deployment, Environment,
  ServiceInstance, LogRequestState, log_pending, log_done, log_failed, LogRequest, Db, not_found,
  conflict, invalid, Result, ok, ◌>>=◌, ◌>>◌, require, scan, deployment_row, environment_row,
}

abbrev pub max_log_tail_lines : ℕ
max_log_tail_lines = 5000

abbrev pub default_log_tail_lines : ℕ
default_log_tail_lines = 200

-- 15 minutes
abbrev pub log_request_ttl : ℕ
log_request_ttl = 900000

pub record CreateLogRequestParams : Type 0 where
  pub environment_id : ℕ
  pub service_name : String
  pub tail_lines : ℤ
  pub follow : Bool

abbrev pub tail_of : ℤ → ℕ
tail_of n = if ltb_ℤ (pos 0) n then pos_part n else default_log_tail_lines

-- d.state IN ('scheduling','starting','healthy','live')
abbrev pub is_running_state : DeploymentState → Bool
is_running_state scheduling = true
is_running_state starting = true
is_running_state healthy = true
is_running_state live = true
is_running_state s = false

-- A row of the join, for one environment and service.
pub record Candidate : Type 0 where
  pub instance : ServiceInstance
  pub deployment : Deployment

unfoldable pub serves : ℕ → String → ServiceInstance → Deployment → Bool
serves env service i d =
    d.environment_id == env && str_eq i.service_name service && is_running_state d.state

unfoldable pub candidates : ℕ → String → Db → List ServiceInstance → List Candidate
unfolding serves
candidates env service db [] = []
candidates env service db (i ∷ is) =
    let rest = candidates env service db is in
    elim (deployment_row db i.deployment_id) [
      | none ↦ rest
      | some d ↦
          if serves env service i d then record { instance = i; deployment = d } ∷ rest else rest
    ]

-- ORDER BY (d.state = 'live') DESC, d.revision DESC
unfoldable pub precedes : Candidate → Candidate → Bool
precedes a b =
    if is_live a.deployment.state
    then not (is_live b.deployment.state) || ltb b.deployment.revision a.deployment.revision
    else not (is_live b.deployment.state) && ltb b.deployment.revision a.deployment.revision

-- LIMIT 1
unfoldable pub first_candidate : List Candidate → Option Candidate
unfolding precedes
first_candidate [] = none
first_candidate (c ∷ cs) = elim (first_candidate cs) [
  | none ↦ some c
  | some best ↦ if precedes best c then some best else some c
]

abbrev pub new_request : ℕ → ℕ → CreateLogRequestParams → ServiceInstance → LogRequest
new_request id now p i = record {
  id = id;
  instance_id = i.id;
  environment_id = p.environment_id;
  service_name = p.service_name;
  container_id = i.container_id;
  tail_lines = tail_of p.tail_lines;
  since_at = none;
  follow = p.follow;
  state = log_pending;
  last_error = "";
  created_at = now;
  expires_at = now + log_request_ttl;
}

abbrev pub requested : LogRequest → Db → Db
requested r db = record db { log_requests = r ∷ db.log_requests }

-- CreateLogRequest.
unfoldable pub create_log_request : ℕ → ℕ → CreateLogRequestParams → Db → Result (LogRequest × Db)
unfolding candidates first_candidate
create_log_request id now p db = do
  require (leb (tail_of p.tail_lines) max_log_tail_lines) invalid
  require (not (str_eq p.service_name "")) invalid
  e ← scan (environment_row db p.environment_id)
  c ← scan (first_candidate (candidates e.id p.service_name db db.instances))
  require (not (str_eq c.instance.container_id "")) conflict
  ok (new_request id now p c.instance, requested (new_request id now p c.instance) db)

-- The join with service_instances: an instance of the request on the node.
unfoldable pub on_node : ℕ → Db → LogRequest → Bool
on_node node db r =
    any (λ (i : ServiceInstance). i.id == r.instance_id && i.node_id == node) db.instances

abbrev pub is_pending : LogRequestState → Bool
is_pending log_pending = true
is_pending s = false

-- LogRequestsForNode: the requests to act on.
unfoldable pub log_requests_for_node : ℕ → ℕ → Db → List LogRequest
unfolding on_node
log_requests_for_node now node db =
    select (λ r. on_node node db r && is_pending r.state && ltb now r.expires_at) db.log_requests

-- LogRequestOwnedByNode.
unfoldable pub log_request_owned_by_node : ℕ → ℕ → Db → Bool
unfolding on_node
log_request_owned_by_node node id db = any (λ r. r.id == id && on_node node db r) db.log_requests

-- SET state, since_at, last_error
unfoldable pub completed : ℕ → String → LogRequest → LogRequest
completed now failure r =
    if not (str_eq failure "")
    then record r { state = log_failed; last_error = failure }
    else if r.follow
    then record r { state = log_pending; since_at = some now; last_error = "" }
    else record r { state = log_done; last_error = "" }

unfoldable pub complete_rows : ℕ → ℕ → ℕ → String → Db → List LogRequest → List LogRequest
unfolding completed on_node
complete_rows now node id failure db [] = []
complete_rows now node id failure db (r ∷ rs) =
    (if r.id == id && on_node node db r then completed now failure r else r)
    ∷ complete_rows now node id failure db rs

-- CompleteLogRequest.
unfoldable pub complete_log_request : ℕ → ℕ → ℕ → String → Db → Result (Unit {0} × Db)
unfolding log_request_owned_by_node complete_rows
complete_log_request now node id failure db = do
  require (log_request_owned_by_node node id db) not_found
  ok (tt, record db { log_requests = complete_rows now node id failure db db.log_requests })

-- CloseLogRequest.
unfoldable pub close_rows : ℕ → List LogRequest → List LogRequest
close_rows id [] = []
close_rows id (r ∷ rs) =
    (if r.id == id && is_pending r.state then record r { state = log_done } else r)
    ∷ close_rows id rs

unfoldable pub close_log_request : ℕ → Db → Db
unfolding close_rows
close_log_request id db = record db { log_requests = close_rows id db.log_requests }

-- SweepLogRequests: the ids that were deleted, and the database.
unfoldable pub sweep_log_requests : ℕ → Db → List ℕ × Db
sweep_log_requests now db = (
  map (λ (r : LogRequest). r.id) (select (λ r. ltb r.expires_at now) db.log_requests),
  record db { log_requests = select (λ r. not (ltb r.expires_at now)) db.log_requests },
)
