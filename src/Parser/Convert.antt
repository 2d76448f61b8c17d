-- ===== src/Parser/Convert.antt =====
-- convertService of internal/parser/parser.go: a service of the compose file into a service of the
-- specification, with every violation that it finds. Limits are the 64-bit words of the target.
pub mod Accepts
use Prim.Native.String.{◌++◌ as cat}
use text.Mathlib.Text.{◌==◌ as str_eq}
use navarch.Prelude.{
  ℕ, ◌+◌, ◌*◌, ltb, leb, ◌==◌, ◌&&◌, ◌||◌, not, String, Bool, true, false, Option, none, some, List,
  [], ◌∷◌, ◌++◌, map, any, if◌then◌else◌, sort_by, str_leb, ℤ, pos, negsuc, pos_part, ltb_ℤ,
}
use navarch.Spec.{GoMap, keys, Port, Mount, HealthCheck, ResourceLimit, Ingress, Service}
use navarch.Parser.Compose.{
  PortConfig, VolumeMount, HealthConfig, LimitConfig, DeployConfig, ServiceConfig, Fields,
}
use navarch.Parser.Errors.{ValidationError, Check, check, collect, dotted, is_set, is_filled}
use navarch.Parser.Extensions.{
  RolloutMode, swap, pin, Rollout, undeclared, declared, malformed, parse_rollout_extension,
  IngressBlock, no_ingress, ingress, bad_ingress, parse_ingress_extension,
}
use navarch.Parser.Mounts.{mount_errors, convert_mounts, has_writable_volume}

-- What the parser takes from fmt, regexp, time and compose-go.
pub record Library : Type 1 where
  pub D : Type 0
  pub C : Type 0
  pub seconds : D → ℕ
  pub is_positive : C → Bool
  pub millis : C → ℕ
  pub quote : String → String
  pub has_secret_ref : String → Bool
  -- sort.Slice by the field, which orders the errors of one field as it will.
  pub sort_by_field : List ValidationError → List ValidationError

abbrev pub default_cpu_millis : ℕ
default_cpu_millis = 250

abbrev pub default_memory_bytes : ℕ
default_memory_bytes = 268435456

-- *n != 1, for a pointer that is not nil.
abbrev pub is_not_one : Option ℤ → Bool
is_not_one none = false
is_not_one (some (pos n)) = not (n == 1)
is_not_one (some n) = true

module _ {D C : Type 0} where
  -- The rejected directives, in their order.
  unfoldable pub directives : String → ServiceConfig D C → List Check
  directives name svc =
      check (str_eq svc.image "") (dotted name "image")
        "image is required; build directives are not supported (pre-build and push instead)"
      ∷ check svc.privileged (dotted name "privileged") "privileged containers are not permitted"
      ∷ check (is_set svc.network_mode && not (str_eq svc.network_mode "bridge"))
          (dotted name "network_mode")
          "custom network_mode is not permitted; each revision gets an isolated network"
      ∷ check (is_set svc.container_name) (dotted name "container_name")
          "container_name is not permitted; names are assigned per revision to avoid collisions"
      ∷ check (is_filled svc.cap_add) (dotted name "cap_add") "added capabilities are not permitted"
      ∷ check (is_filled svc.cap_drop) (dotted name "cap_drop")
          "capability changes are not permitted"
      ∷ check (is_set svc.pid) (dotted name "pid") "custom pid mode is not permitted"
      ∷ check (is_set svc.ipc) (dotted name "ipc") "custom ipc mode is not permitted"
      ∷ check (is_set svc.uts) (dotted name "uts") "custom uts mode is not permitted"
      ∷ check (is_set svc.userns_mode) (dotted name "userns_mode")
          "custom userns_mode is not permitted"
      ∷ check (is_set svc.runtime) (dotted name "runtime") "custom runtime is not permitted"
      ∷ check (is_filled svc.devices) (dotted name "devices")
          "host device passthrough is not permitted"
      ∷ check (is_filled svc.device_cgroup_rules) (dotted name "device_cgroup_rules")
          "device cgroup rules are not permitted"
      ∷ check (is_filled svc.gpus) (dotted name "gpus") "gpu passthrough is not permitted"
      ∷ check (is_filled svc.security_opt) (dotted name "security_opt")
          "security_opt is not permitted"
      ∷ check (is_filled svc.sysctls) (dotted name "sysctls") "sysctls are not permitted"
      ∷ check (is_set svc.cgroup_parent || is_set svc.cgroup) (dotted name "cgroup")
          "custom cgroup configuration is not permitted"
      ∷ check (is_filled svc.volumes_from) (dotted name "volumes_from")
          "volumes_from is not permitted"
      ∷ check (is_filled svc.extra_hosts) (dotted name "extra_hosts") "extra_hosts is not permitted"
      ∷ check (svc.has_logging || is_set svc.log_driver || is_filled svc.log_opt)
          (dotted name "logging") "custom logging drivers are not permitted"
      ∷ check (is_set svc.isolation) (dotted name "isolation") "custom isolation is not permitted"
      ∷ check (is_filled svc.storage_opt) (dotted name "storage_opt") "storage_opt is not permitted"
      ∷ check (is_set svc.volume_driver) (dotted name "volume_driver")
          "volume_driver is not permitted"
      ∷ check svc.has_credential_spec (dotted name "credential_spec")
          "credential_spec is not permitted"
      ∷ check svc.oom_kill_disable (dotted name "oom_kill_disable")
          "oom_kill_disable is not permitted"
      ∷ check svc.has_build (dotted name "build")
          "build directives are not supported (pre-build and push instead)"
      ∷ check (is_filled svc.secrets) (dotted name "secrets")
          "compose secrets are not supported; use ${secret:KEY} environment templates"
      ∷ check (is_filled svc.configs) (dotted name "configs") "compose configs are not supported"
      ∷ check (is_filled svc.tmpfs) (dotted name "tmpfs") "tmpfs is not supported"
      ∷ check (is_filled svc.links || is_filled svc.external_links) (dotted name "links")
          "links are not permitted"
      ∷ []

  -- The replica counts of a deploy block and of the legacy field.
  unfoldable pub scale_checks : String → ServiceConfig D C → List Check
  scale_checks name svc =
      check (elim svc.deploy [ none ↦ false | some d ↦ is_not_one d.replicas ])
        (dotted name "deploy.replicas") "replicas are managed by the platform, not the compose file"
      ∷ check (is_not_one svc.scale) (dotted name "scale")
          "scale is managed by the platform, not the compose file"
      ∷ []

-- Published ports.
unfoldable pub port_checks : (String → String) → String → List PortConfig → List Check
port_checks quote name [] = []
port_checks quote name (p ∷ ps) =
    check (is_set p.published) (dotted name "ports") (
      cat "published host port "
        (cat (quote p.published) " is not permitted; declare x-composectl.ingress instead"))
    ∷ port_checks quote name ps

unfoldable pub convert_ports : List PortConfig → List Port
convert_ports [] = []
convert_ports (p ∷ ps) =
    let rest = convert_ports ps in
    if is_set p.published
    then rest
    else record {
      container = p.target;
      protocol = if str_eq p.protocol "" then "tcp" else p.protocol;
    }
      ∷ rest

-- The order of the ports.
unfoldable pub port_leb : Port → Port → Bool
port_leb a b =
    if a.container == b.container
    then str_leb a.protocol b.protocol
    else ltb a.container b.container

-- Conditions of depends_on other than the start of the service.
unfoldable pub depend_checks : (String → String) → String → GoMap String → List Check
depend_checks quote name [] = []
depend_checks quote name ((dep, condition) ∷ m) =
    check (is_set condition && not (str_eq condition "service_started")) (dotted name "depends_on")
      (cat "depends_on condition "
        (cat (quote condition) " is not supported; services start in dependency order"))
    ∷ depend_checks quote name m

-- The variables with a value that refers to a secret, or without one.
unfoldable pub environment_of : (String → Bool) → GoMap (Option String) → GoMap String
environment_of wanted [] = []
environment_of wanted ((k, none) ∷ m) = environment_of wanted m
environment_of wanted ((k, some v) ∷ m) =
    let rest = environment_of wanted m in if wanted v then (k, v) ∷ rest else rest

unfoldable pub ingress_errors : String → IngressBlock → List ValidationError
ingress_errors name (bad_ingress m) =
    record { on = dotted name "x-composectl.ingress"; message = m } ∷ []
ingress_errors name b = []

unfoldable pub ingress_of : IngressBlock → Option Ingress
ingress_of (ingress i) = some i
ingress_of b = none

unfoldable pub rollout_errors : String → Rollout → List ValidationError
rollout_errors name undeclared =
    record {
      on = dotted name "x-composectl.rollout";
      message =
          "rollout mode must be declared: swap (duplicated blue/green) or pin (one instance shared across revisions)";
    }
    ∷ []
rollout_errors name (declared m) = []
rollout_errors name (malformed m) =
    record { on = dotted name "x-composectl.rollout"; message = m } ∷ []

-- A malformed mode is declared too, and is neither of the two.
abbrev pub is_swap : Rollout → Bool
is_swap (declared swap) = true
is_swap r = false

abbrev pub is_pin : Rollout → Bool
is_pin (declared pin) = true
is_pin r = false

-- Swappable is true unless the declared mode is another.
unfoldable pub is_swappable_mode : Rollout → Bool
is_swappable_mode (declared pin) = false
is_swappable_mode r = true

abbrev has_ingress_block : Option Ingress → Bool
has_ingress_block none = false
has_ingress_block (some i) = true

-- The conflicts of a declared mode.
unfoldable pub rollout_checks : String → Rollout → Bool → Option Ingress → List Check
rollout_checks name r writable i =
    check (is_swap r && writable) (dotted name "x-composectl.rollout")
      "service declares rollout: swap but mounts a writable named volume; two revisions would write one filesystem"
    ∷ check (is_pin r && has_ingress_block i) (dotted name "x-composectl.rollout")
        "ingress service declares rollout: pin; it cannot participate in blue/green rollout"
    ∷ []

module _ (lib : Library) where
  open lib use {D, C, seconds, is_positive, millis, quote, has_secret_ref}

  -- durSecs and uint64OrDefault.
  unfoldable pub dur_secs : Option D → ℕ → ℕ
  dur_secs none default = default
  dur_secs (some d) default = seconds d

  unfoldable pub nat_or : Option ℕ → ℕ → ℕ
  nat_or none default = default
  nat_or (some n) default = n

  unfoldable pub health_of : Option (HealthConfig D) → Option HealthCheck
  unfolding dur_secs nat_or
  health_of none = none
  health_of (some h) =
      if h.disable
      then none
      else some (record {
        test = h.test;
        interval_sec = dur_secs h.interval 10;
        timeout_sec = dur_secs h.timeout 5;
        retries = nat_or h.retries 3;
        start_sec = dur_secs h.start_period 0;
      })

  unfoldable pub limits_from : Option (LimitConfig C) → ResourceLimit
  limits_from none = record { cpu_millis = default_cpu_millis; memory_bytes = default_memory_bytes }
  limits_from (some l) = record {
    cpu_millis = if is_positive l.nano_cpus then millis l.nano_cpus else default_cpu_millis;
    memory_bytes = if ltb_ℤ (pos 0) l.memory then pos_part l.memory else default_memory_bytes;
  }

  unfoldable pub limits_of : Option (DeployConfig C) → ResourceLimit
  unfolding limits_from
  limits_of none = limits_from none
  limits_of (some d) = limits_from d.limits

  abbrev pub rollout_of : ServiceConfig D C → Rollout
  rollout_of svc = parse_rollout_extension quote svc.extensions

  abbrev pub mounts_of_config : String → ServiceConfig D C → List Mount
  mounts_of_config name svc = convert_mounts quote name svc.volumes

  -- The errors of convertService, in their order.
  unfoldable pub service_errors : String → ServiceConfig D C → List ValidationError
  unfolding ingress_of
  service_errors name svc =
      collect (directives name svc)
      ++ (collect (port_checks quote name svc.ports)
          ++ (mount_errors quote name svc.volumes
              ++ (collect (depend_checks quote name svc.depends_on)
                  ++ (collect (scale_checks name svc)
                      ++ (ingress_errors name (parse_ingress_extension svc.extensions)
                          ++ (rollout_errors name (rollout_of svc)
                              ++ collect (
                                  rollout_checks name (rollout_of svc)
                                    (has_writable_volume (mounts_of_config name svc))
                                    (ingress_of (parse_ingress_extension svc.extensions)))))))))

  -- The service of convertService.
  unfoldable pub convert_service : String → ServiceConfig D C → Service
  unfolding convert_ports port_leb environment_of health_of limits_of ingress_of is_swappable_mode
  convert_service name svc = record {
    name = name;
    image = svc.image;
    command = svc.command;
    entrypoint = svc.entrypoint;
    working_dir = svc.working_dir;
    user = svc.user;
    env = environment_of (λ v. not (has_secret_ref v)) svc.environment;
    secret_env = environment_of has_secret_ref svc.environment;
    ports = sort_by port_leb (convert_ports svc.ports);
    mounts = sort_by (λ (a b : Mount). str_leb a.target b.target) (mounts_of_config name svc);
    depends = sort_by str_leb (keys svc.depends_on);
    health = health_of svc.health_check;
    limits = limits_of svc.deploy;
    restart = svc.restart;
    swappable = is_swappable_mode (rollout_of svc);
    ingress = ingress_of (parse_ingress_extension svc.extensions);
  }
