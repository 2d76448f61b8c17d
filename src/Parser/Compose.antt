-- ===== src/Parser/Compose.antt =====
-- The parts of compose-go's decoded project that internal/parser reads. A pointer or a structure that
-- is only tested for presence is a Bool, a list or map that is only measured holds its keys, and
-- duration and cpu counts keep the library's types as parameters.
use navarch.Prelude.{ℕ, ℤ, String, Bool, Option, List, none, some, if◌then◌else◌}
use text.Mathlib.Text.{◌==◌ as str_eq}
use navarch.Spec.{GoMap}

-- A decoded YAML value, as `any`. A float64 is given by its truncation, all that toInt reads.
mutual
  pub data Value : Type 0 where
    str : String → Value
    int : ℤ → Value
    int64 : ℤ → Value
    float64 : ℤ → Value
    mapping : Fields → Value
    other : Value

  pub data Fields : Type 0 where
    no_fields : Fields
    field : String → Value → Fields → Fields

-- v, ok := m[key]
unfoldable pub get_field : String → Fields → Option Value
get_field k no_fields = none
get_field k (field j v m) = let rest = get_field k m in if str_eq j k then some v else rest

pub record PortConfig : Type 0 where
  pub target : ℕ
  pub published : String
  pub protocol : String

pub record VolumeMount : Type 0 where
  pub kind : String
  pub source : String
  pub target : String
  pub read_only : Bool

pub record HealthConfig (D : Type 0) : Type 0 where
  pub disable : Bool
  pub test : List String
  pub interval : Option D
  pub timeout : Option D
  pub start_period : Option D
  pub retries : Option ℕ

pub record LimitConfig (C : Type 0) : Type 0 where
  pub nano_cpus : C
  pub memory : ℤ

pub record DeployConfig (C : Type 0) : Type 0 where
  pub replicas : Option ℤ
  pub limits : Option (LimitConfig C)

pub record ServiceConfig (D C : Type 0) : Type 0 where
  pub image : String
  pub command : List String
  pub entrypoint : List String
  pub working_dir : String
  pub user : String
  pub restart : String
  pub privileged : Bool
  pub network_mode : String
  pub container_name : String
  pub cap_add : List String
  pub cap_drop : List String
  pub pid : String
  pub ipc : String
  pub uts : String
  pub userns_mode : String
  pub runtime : String
  pub devices : List String
  pub device_cgroup_rules : List String
  pub gpus : List String
  pub security_opt : List String
  pub sysctls : List String
  pub cgroup_parent : String
  pub cgroup : String
  pub volumes_from : List String
  pub extra_hosts : List String
  pub has_logging : Bool
  pub log_driver : String
  pub log_opt : List String
  pub isolation : String
  pub storage_opt : List String
  pub volume_driver : String
  pub has_credential_spec : Bool
  pub oom_kill_disable : Bool
  pub has_build : Bool
  pub secrets : List String
  pub configs : List String
  pub tmpfs : List String
  pub links : List String
  pub external_links : List String
  pub environment : GoMap (Option String)
  pub ports : List PortConfig
  pub volumes : List VolumeMount
  pub depends_on : GoMap String
  pub health_check : Option (HealthConfig D)
  pub deploy : Option (DeployConfig C)
  pub scale : Option ℤ
  pub extensions : Fields

pub record VolumeConfig : Type 0 where
  pub driver : String
  pub driver_opts : List String
  pub is_external : Bool

pub record Project (D C : Type 0) : Type 0 where
  pub services : GoMap (ServiceConfig D C)
  pub volumes : GoMap VolumeConfig
