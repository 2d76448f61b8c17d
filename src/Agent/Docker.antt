-- ===== src/Agent/Docker.antt =====
-- The driver that internal/agent/reconcile.go calls, and the values it exchanges. What Docker answers
-- may depend on every call before; the calls of a pass are kept, the last one first.
use navarch.Prelude.{ℕ, String, Bool, Option, List}
use navarch.Spec.{GoMap, HealthCheck, Service}
use navarch.Store.{InstanceState, Slot}

-- Env8, ProjectName and DeploymentID are the texts.
pub record DesiredInstance : Type 0 where
  pub instance_id : ℕ
  pub deployment_id : String
  pub env8 : String
  pub project_name : String
  pub slot : Slot
  pub revision : ℕ
  pub service_name : String
  pub swappable : Bool
  pub service : Service
  pub state : InstanceState
  pub container_id : String

pub record VolumeMount : Type 0 where
  pub volume : String
  pub target : String
  pub read_only : Bool

pub record ContainerSpec : Type 0 where
  pub name : String
  pub image : String
  pub env : GoMap String
  pub secret_env : GoMap String
  pub cmd : List String
  pub entrypoint : List String
  pub working_dir : String
  pub user : String
  pub mounts : List VolumeMount
  pub health : Option HealthCheck
  pub labels : GoMap String
  pub network : String
  pub restart : String
  pub cpu_millis : ℕ
  pub memory_bytes : ℕ
  pub publish_port : ℕ

pub record Ensured : Type 0 where
  pub id : String
  pub created : Bool
  pub recreated : Bool

pub record Observed : Type 0 where
  pub running : Bool
  pub status : String
  pub exit_code : ℕ
  pub restart_count : ℕ
  pub published_port : ℕ

pub record Managed : Type 0 where
  pub id : String
  pub name : String
  pub service : String
  pub swappable : Bool

-- A result of the driver, or the text of its error.
pub data Answer (A : Type 0) : Type 0 where
  answered : A → Answer A
  refused : String → Answer A

-- The methods of DockerDriver, with secrets of type S.
pub data Call (S : Type 0) : Type 0 where
  ensure_image : String → Call S
  ensure_network : String → GoMap String → Call S
  ensure_container : ContainerSpec → S → Call S
  attach_network : String → String → String → Call S
  inspect_health : String → Call S
  stop_remove : String → Call S
  list_managed : String → Call S
  prune_revision_networks : String → List String → Call S
  ensure_volume : String → GoMap String → Call S
  remove_env : String → Call S

-- The type of what a call returns.
abbrev pub Returns : {S : Type 0} → Call S → Type 0
Returns (ensure_image ref) = String
Returns (ensure_container cs s) = Ensured
Returns (inspect_health id) = Observed
Returns (list_managed env8) = List Managed
Returns c = Unit {0}

-- Docker, by its answer to a call after those before it.
abbrev pub DockerDriver : Type 0 → Type 0
DockerDriver S = (before : List (Call S)) → (c : Call S) → Answer (Returns c)

pub record Report : Type 0 where
  pub instance_id : ℕ
  pub state : InstanceState
  pub container_id : String
  pub health_status : String
  pub last_error : String
  pub restart_count : ℕ
  pub set_started : Bool
  pub recreated : Bool
  pub ingress_port : ℕ
