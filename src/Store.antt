-- ===== src/Store.antt =====
-- internal/store: the tables that the rollout reads and writes (internal/store/models.go and the
-- schema in migrations/), the errors of the store, and mapErr's classes.
-- A UUID is the 128-bit number that its 32 hex digits write, so its text order is the numbers'
-- order and shortID keeps the upper 32 bits. A time is a number of milliseconds.
pub mod Deployments
pub mod Placement
pub mod Nodes
pub mod History
pub mod Pinned
pub mod Homes
pub mod Rollback
pub mod Secrets
pub mod Previews
pub mod Logs
use navarch.Prelude.{
  if◌then◌else◌, ltb_ℤ, pos, int64_max, word_mod, ◌≡◌, refl, ℕ, ◌/◌, ◌^◌, String, Bool, true, false,
  Option, none, some, List, ◌-ℤ◌, ℤ, row,
}
use navarch.Spec.{DeploymentSpec}

pub data DeploymentState : Type 0 where
  pending scheduling starting healthy live superseded failed stopped : DeploymentState

-- ActiveDeployStates, and the predicate of deployments_one_active_idx.
abbrev pub is_active : DeploymentState → Bool
is_active pending = true
is_active scheduling = true
is_active starting = true
is_active healthy = true
is_active _ = false

abbrev pub is_live : DeploymentState → Bool
is_live live = true
is_live _ = false

pub data NodeState : Type 0 where
  pending ready draining unreachable retired : NodeState

pub data InstanceState : Type 0 where
  pending pulling starting running unhealthy stopped failed : InstanceState

pub data Slot : Type 0 where
  blue green : Slot

-- fmt.Sprintf("cc-%s-r%d-%s", shortID(env), revision, slot), by its parts.
pub record ProjectName : Type 0 where
  pub env8 : ℕ
  pub revision : ℕ
  pub slot : Slot

-- id.String()[:8]: the first 8 of 32 hex digits.
abbrev pub short_id : ℕ → ℕ
short_id id = id / 2 ^ 96

pub record Deployment : Type 0 where
  pub id : ℕ
  pub environment_id : ℕ
  pub stack_version_id : ℕ
  pub stack_id : ℕ
  pub revision : ℕ
  pub slot : Slot
  pub project_name : ProjectName
  pub state : DeploymentState
  pub resolved_spec : DeploymentSpec
  pub promoted_at : Option ℕ
  pub superseded_at : Option ℕ
  pub failure_reason : String
  pub created_by : String
  pub created_at : ℕ
  pub updated_at : ℕ

-- `org_id` is the organization that the joins through stacks and applications lead to.
pub record Environment : Type 0 where
  pub id : ℕ
  pub stack_id : ℕ
  pub org_id : ℕ
  pub hostname : String
  pub live_deployment_id : Option ℕ
  pub ephemeral : Bool
  pub expires_at : Option ℕ
  pub expiry_warned_at : Option ℕ
  pub home_node_id : Option ℕ

pub record Node : Type 0 where
  pub id : ℕ
  pub org_id : ℕ
  pub hostname : String
  pub advertise_addr : String
  pub state : NodeState
  pub cpu_millis : ℤ
  pub memory_bytes : ℤ
  pub alloc_cpu_millis : ℤ
  pub alloc_memory_bytes : ℤ
  pub last_heartbeat : Option ℕ

-- The difference of two int64 wraps. A node's capacity is not negative, so the difference is at
-- least -(2 ^ 63) and wraps only from above, where the allocation is negative.
abbrev pub wrapped_from_above : ℤ → ℤ
wrapped_from_above d = if ltb_ℤ (pos int64_max) d then d -ℤ pos word_mod else d

-- FreeMemoryBytes.
unfoldable pub free_memory_bytes : Node → ℤ
free_memory_bytes n = wrapped_from_above (n.memory_bytes -ℤ n.alloc_memory_bytes)

-- FreeCPUMillis. Both columns are INTEGER, of 32 bits, so the difference fits Go's int of 64.
unfoldable pub free_cpu_millis : Node → ℤ
free_cpu_millis n = n.cpu_millis -ℤ n.alloc_cpu_millis

pub record ServiceInstance : Type 0 where
  pub id : ℕ
  pub deployment_id : ℕ
  pub node_id : ℕ
  pub service_name : String
  pub swappable : Bool
  pub image_ref : String
  pub state : InstanceState
  pub container_id : String
  pub health_status : String
  pub restart_count : ℕ
  pub last_error : String
  pub started_at : Option ℕ
  pub ingress_port : ℕ

pub data Event : Type 0 where
  deployment_created deployment_state_changed deployment_superseded : ℕ → Event
  deployment_promoted environment_home_released preview_expired : ℕ → Event
  secret_set secret_deleted : ℕ → String → Event

-- A row of secrets; the ciphertext is its bytes.
pub record Secret : Type 0 where
  pub environment_id : ℕ
  pub key : String
  pub ciphertext : List ℕ
  pub key_id : String
  pub version : ℕ
  pub created_at : ℕ

-- A row of environment_tombstones.
pub record Tombstone : Type 0 where
  pub env8 : ℕ
  pub org_id : ℕ
  pub created_at : ℕ

pub data LogRequestState : Type 0 where
  log_pending log_done log_failed : LogRequestState

-- A row of log_requests.
pub record LogRequest : Type 0 where
  pub id : ℕ
  pub instance_id : ℕ
  pub environment_id : ℕ
  pub service_name : String
  pub container_id : String
  pub tail_lines : ℕ
  pub since_at : Option ℕ
  pub follow : Bool
  pub state : LogRequestState
  pub last_error : String
  pub created_at : ℕ
  pub expires_at : ℕ

pub record Db : Type 0 where
  pub deployments : List Deployment
  pub environments : List Environment
  pub nodes : List Node
  pub instances : List ServiceInstance
  -- (stack version, stack)
  pub stack_versions : List (ℕ × ℕ)
  pub secrets : List Secret
  pub tombstones : List Tombstone
  pub log_requests : List LogRequest
  pub events : List Event

-- ErrNotFound, ErrConflict and ErrInvalid; `unknown_state` is the error of an unlisted target.
pub data Error : Type 0 where
  not_found conflict invalid unknown_state : Error

-- A Go result: a value, or an error with the value left out.
pub data Result {ℓ} (R : Type ℓ) : Type ℓ where
  err : Error → Result R
  ok : R → Result R

-- QueryRow(...).Scan: no row is ErrNotFound.
abbrev pub scan {ℓ} : {R : Type ℓ} → Option R → Result R
scan none = err not_found
scan (some r) = ok r

abbrev pub require : Bool → Error → Result (Unit {0})
require false cause = err cause
require true cause = ok tt

-- if err != nil { return err }
abbrev pub ◌>>=◌ {ℓ κ} : {R : Type ℓ} {S : Type κ} → Result R → (R → Result S) → Result S
err cause >>= continue = err cause
ok r >>= continue = continue r

abbrev pub ◌>>◌ {ℓ} : {R : Type ℓ} → Result (Unit {0}) → Result R → Result R
check >> rest = check >>= λ _. rest

infixl 5 ◌>>=◌ ◌>>◌
-- Inversion of what succeeded.
pub bind-eq-ok {ℓ κ} :
    {R : Type ℓ} {S : Type κ} (r : Result R) (continue : R → Result S) {s : S}
    → (r >>= continue) ≡ ok s
    → (v : R) × (r ≡ ok v) × (continue v ≡ ok s)
bind-eq-ok (err cause) continue h = cc
bind-eq-ok (ok v) continue h = (v, refl, h)

pub require-eq-ok {ℓ} :
    {B : Type ℓ} (b : Bool) (e : Error) (m : Result B) {x : B}
    → (require b e >> m) ≡ ok x
    → (b ≡ true) × (m ≡ ok x)
require-eq-ok true e m h = (refl, h)
require-eq-ok false e m h = cc

pub scan-eq-ok {ℓ κ} :
    {A : Type ℓ} {B : Type κ} (o : Option A) (f : A → Result B) {b : B}
    → (scan o >>= f) ≡ ok b
    → (a : A) × (o ≡ some a) × (f a ≡ ok b)
scan-eq-ok none f h = cc
scan-eq-ok (some a) f h = (a, refl, h)

-- A transaction that fails is rolled back.
abbrev pub committed {ℓ} : {A : Type ℓ} → Db → Result (A × Db) → Db
committed db (ok (a, db')) = db'
committed db (err e) = db

abbrev pub deployment_row : Db → ℕ → Option Deployment
deployment_row db i = row (λ (d : Deployment). d.id) i db.deployments

abbrev pub environment_row : Db → ℕ → Option Environment
environment_row db i = row (λ (e : Environment). e.id) i db.environments

abbrev pub node_row : Db → ℕ → Option Node
node_row db i = row (λ (n : Node). n.id) i db.nodes

-- Equality of the enum column.
abbrev pub same_state : DeploymentState → DeploymentState → Bool
same_state pending pending = true
same_state scheduling scheduling = true
same_state starting starting = true
same_state healthy healthy = true
same_state live live = true
same_state superseded superseded = true
same_state failed failed = true
same_state stopped stopped = true
same_state a b = false

-- A write of the row also runs the trigger deployments_touch.
abbrev pub set_state : DeploymentState → String → ℕ → Deployment → Deployment
set_state to reason now d = record d { state = to; failure_reason = reason; updated_at = now }
